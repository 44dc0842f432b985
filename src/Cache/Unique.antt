-- ===== src/Cache/Unique.antt =====
-- The calls of kernel/buffer-io.c in any order: a block has at most one buffer.
use mathlib.Core.Bool.{false≢true}
use xv7_riscv.Cache.{
  got, nbuf, Block, Links, Cache, bufcache_init, bufcache_get, lock_buffer, fill, bufcache_write,
  give_back, bufcache_release, bufcache_pin, bufcache_unpin, hold, recycle,
}
use xv7_riscv.Cache.Frames.{
  lock_buffer-links, fill-links, write-links, give_back-blockno, split_at, after_release-length,
  after_release-Away,
}
use xv7_riscv.Cache.Ring.{Ring, Away}
use xv7_riscv.Cache.Recency.{first_where, onto, bufcache_get-got, after_release, give_back-Ring}
use xv7_riscv.Cache.Boot.{down, length-down, down-all, init-Ring, init-blockno}
use xv7_riscv.Sleeplock.{releasesleep, holdingsleep}
use xv7_riscv.Prelude.{
  ℕ, ◌<◌, ◌^◌, List, [], ◌∷◌, ◌++◌, length, ◌≡◌, ◌≢◌, ◌⊎◌, inl, inr, refl, sym, ◌∙◌, ap, subst,
  Bool, true, ◌==◌, Bool-cases, Option, none, some, update, update_self, update_ne, ==_iff,
  ℕ_discrete,
}

-- What the kernel does with the cache: the calls, each on a buffer of the array, and a client that
-- stores into a buffer. A release gives up one of fewer than 2 ^ 32 references.
pub data Call (c : Cache) : Cache → Type 0 where
  get : (n b : ℕ) (d : Cache) → bufcache_get n c ≡ some (b, d) → Call c d
  locks : (me b : ℕ) (d : Cache) → lock_buffer me b c ≡ some d → Call c d
  fills : (b : ℕ) → Call c (fill b c)
  stores : (b : ℕ) (x : Block) → Call c (record c { content = update c.content b x })
  writes : (me b : ℕ) (d : Cache) → bufcache_write me b c ≡ some d → Call c d
  releases :
      (me b : ℕ) (d : Cache)
      → b < nbuf
      → 0 < c.refcnt b
      → c.refcnt b < 2 ^ 32
      → bufcache_release me b c ≡ some d
      → Call c d
  pins : (b : ℕ) → Call c (bufcache_pin b c)
  unpins : (b : ℕ) → Call c (bufcache_unpin b c)

pub data Calls (c : Cache) : Cache → Type 0 where
  start : Calls c c
  later : {d e : Cache} → Calls c d → Call d e → Calls c e

-- Buffers for the same block are the same, but for block 0, which every buffer has at boot.
abbrev pub AtMostOne : Cache → Type 0
AtMostOne c = (i j : ℕ) → i < nbuf → j < nbuf → c.blockno i ≡ c.blockno j → c.blockno i ≢ 0 → i ≡ j

abbrev pub IsOrdered : Links → Type 0
IsOrdered k = (l : List ℕ) × Ring k l × (length l ≡ nbuf) × ((i : ℕ) → i < nbuf → ¬ Away i l)

abbrev pub IsCache : Cache → Type 0
IsCache c = IsOrdered c.links × AtMostOne c

AtMostOne-same : (c d : Cache) → d.blockno ≡ c.blockno → AtMostOne c → AtMostOne d
AtMostOne-same c d e one i j li lj same ne =
    one i j li lj (sym (ap (λ (f : ℕ → ℕ). f i) e) ∙ same ∙ ap (λ (f : ℕ → ℕ). f j) e)
      (λ z. ne (ap (λ (f : ℕ → ℕ). f i) e ∙ z))

IsCache-same : (c d : Cache) → d.links ≡ c.links → d.blockno ≡ c.blockno → IsCache c → IsCache d
IsCache-same c d k e (ordered, one) = (subst IsOrdered (sym k) ordered, AtMostOne-same c d e one)

first_where-none :
    (p : ℕ → Bool) (l : List ℕ) → first_where p l ≡ none → (i : ℕ) → p i ≡ true → Away i l
first_where-none p [] h i pi = tt
first_where-none p (x ∷ l) h i pi = elim (Bool-cases (p x)) [
  | inl yes_x ↦ let bad : some x ≡ none = rw yes_x at h in absurd (cc)
  | inr no_x ↦
      (λ e. false≢true (sym no_x ∙ ap p (sym e) ∙ pi), first_where-none p l (rw no_x at h) i pi)
]

AtMostOne-recycle :
    (c : Cache) (n b : ℕ)
    → ((i : ℕ) → i < nbuf → c.blockno i ≢ n)
    → AtMostOne c
    → AtMostOne (recycle n b c)
AtMostOne-recycle c n b new one i j li lj same ne = elim (ℕ_discrete b i) [
  | yes bi ↦ elim (ℕ_discrete b j) [
    | yes bj ↦ sym bi ∙ bj
    | no bj ↦
        let at_i : update c.blockno b n i ≡ n =
          subst (λ (q : ℕ). update c.blockno b n q ≡ n) bi (update_self c.blockno b n) in
        absurd (new j lj (sym (update_ne c.blockno b j n bj) ∙ sym same ∙ at_i))
  ]
  | no bi ↦ elim (ℕ_discrete b j) [
    | yes bj ↦
        let at_j : update c.blockno b n j ≡ n =
          subst (λ (q : ℕ). update c.blockno b n q ≡ n) bj (update_self c.blockno b n) in
        absurd (new i li (sym (update_ne c.blockno b i n bi) ∙ same ∙ at_j))
    | no bj ↦
        one i j li lj (sym (update_ne c.blockno b i n bi) ∙ same ∙ update_ne c.blockno b j n bj)
          (λ z. ne (update_ne c.blockno b i n bi ∙ z))
  ]
]

-- What `bufcache_get` changes.
get-shape :
    (c : Cache) (l : List ℕ) (n b : ℕ) (d : Cache)
    → Ring c.links l
    → length l ≡ nbuf
    → bufcache_get n c ≡ some (b, d)
    → (d ≡ hold b c) ⊎ ((d ≡ recycle n b c) × (first_where (λ i. c.blockno i == n) l ≡ none))
get-shape c l n b d ring len h =
    got-shape (first_where (λ i. c.blockno i == n) l)
      (first_where (λ i. c.refcnt i == 0) (onto l [])) (sym (bufcache_get-got c l n ring len) ∙ h)
  where
    got-shape :
        (cached unused : Option ℕ)
        → got n c cached unused ≡ some (b, d)
        → (d ≡ hold b c) ⊎ ((d ≡ recycle n b c) × (cached ≡ none))
    got-shape (some x) unused h = inl (cc)
    got-shape none (some x) h = inr (cc, refl)
    got-shape none none h = absurd (cc)

get-IsCache :
    (c : Cache) (n b : ℕ) (d : Cache) → bufcache_get n c ≡ some (b, d) → IsCache c → IsCache d
get-IsCache c n b d h ((l, ring, len, all), one) = elim (get-shape c l n b d ring len h) [
  | inl e ↦ subst IsCache (sym e) ((l, ring, len, all), one)
  | inr (e, missing) ↦
      let new : (i : ℕ) → i < nbuf → c.blockno i ≢ n = λ i li same.
        all i li (
          first_where-none (λ j. c.blockno j == n) l missing i ((==_iff (c.blockno i) n).1 same)) in
      subst IsCache (sym e) ((l, ring, len, all), AtMostOne-recycle c n b new one)
]

give_back-IsOrdered :
    (c : Cache) (b : ℕ)
    → b < nbuf
    → 0 < c.refcnt b
    → c.refcnt b < 2 ^ 32
    → IsOrdered c.links
    → IsOrdered (give_back b c).links
give_back-IsOrdered c b lb pos small (l, ring, len, all) =
    let (v, w, e) = split_at b l (all b lb) in
    let ring' : Ring c.links (v ++ b ∷ w) = subst (λ (m : List ℕ). Ring c.links m) e ring in
    (
      after_release c v b w,
      give_back-Ring c v b w ring' pos small,
      after_release-length c v b w ∙ ap (λ (m : List ℕ). length m) (sym e) ∙ len,
      λ i li off.
          all i li (subst (λ (m : List ℕ). Away i m) (sym e) (after_release-Away c v b w i off)),
    )

release-IsCache :
    (me b : ℕ) (c d : Cache)
    → b < nbuf
    → 0 < c.refcnt b
    → c.refcnt b < 2 ^ 32
    → bufcache_release me b c ≡ some d
    → IsCache c
    → IsCache d
unfolding bufcache_release
release-IsCache me b c d lb pos small h (ordered, one) =
    let freed : Cache = record c { lock = update c.lock b (releasesleep (c.lock b)) } in
    elim (Bool-cases (holdingsleep me (c.lock b))) [
      | inr v ↦ let bad : none ≡ some d = rw v at h in absurd (cc)
      | inl v ↦
          let good : some (give_back b freed) ≡ some d = rw v at h in
          let same : give_back b freed ≡ d = cc in
          subst IsCache same (
            give_back-IsOrdered freed b lb pos small ordered,
            AtMostOne-same c (give_back b freed) (give_back-blockno freed b) one,
          )
    ]

Call-IsCache : {c d : Cache} → Call c d → IsCache c → IsCache d
unfolding bufcache_pin bufcache_unpin
Call-IsCache {c = c} (get n b d h) good = get-IsCache c n b d h good
Call-IsCache {c = c} (locks me b d h) good =
    let (k, e) = lock_buffer-links me b c d h in IsCache-same c d k e good
Call-IsCache {c = c} (fills b) good =
    let (k, e) = fill-links b c in IsCache-same c (fill b c) k e good
Call-IsCache (stores b x) good = good
Call-IsCache {c = c} (writes me b d h) good =
    let (k, e) = write-links me b c d h in IsCache-same c d k e good
Call-IsCache {c = c} (releases me b d lb pos small h) good =
    release-IsCache me b c d lb pos small h good
Call-IsCache {c = c} (pins b) good = IsCache-same c (bufcache_pin b c) refl refl good
Call-IsCache {c = c} (unpins b) good = IsCache-same c (bufcache_unpin b c) refl refl good

-- At boot `bcache` is zero.
init-IsCache : (c : Cache) → ((i : ℕ) → c.blockno i ≡ 0) → IsCache (bufcache_init c)
init-IsCache c zeroed = (
  (down nbuf, init-Ring c, length-down nbuf, λ i li. down-all nbuf i li),
  λ i j li lj same ne. absurd (ne (ap (λ (f : ℕ → ℕ). f i) (init-blockno c) ∙ zeroed i)),
)

Calls-IsCache : {c d : Cache} → Calls c d → IsCache c → IsCache d
Calls-IsCache start good = good
Calls-IsCache (later calls call) good = Call-IsCache call (Calls-IsCache calls good)

-- From a zeroed `bcache` on, after `bufcache_init` and any calls, in which only a buffer with a
-- reference, and with fewer than 2 ^ 32 of them, is released: the links are a ring of all the buffers
-- with none twice, in either direction, and two buffers for the same block other than block 0 are the
-- same.
pub cache_unique :
    (c d : Cache)
    → ((i : ℕ) → c.blockno i ≡ 0)
    → Calls (bufcache_init c) d
    → IsOrdered d.links × AtMostOne d
cache_unique c d zeroed calls = Calls-IsCache calls (init-IsCache c zeroed)
