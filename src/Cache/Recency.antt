-- ===== src/Cache/Recency.antt =====
-- The scans and the releases of kernel/buffer-io.c on the list of buffers, most recent first.
use xv7_riscv.Cache.{
  nbuf, head, Links, Cache, find_cached, find_unused, got, bufcache_get, give_back,
  bufcache_release, drop_reference, push_front, unlink, releasesleep, holdingsleep, Sleeplock, hold,
  recycle,
}
use xv7_riscv.Cache.Ring.{Run, Ring, Away, Ring-unlink, Ring-push_front}
use xv7_riscv.Prelude.{
  ℕ, zero, suc, ◌<◌, List, [], ◌∷◌, ◌++◌, length, ◌≡◌, refl, Bool, true, false, ◌==◌, if◌then◌else◌,
  Option, none, some, update, arith, ne→==_false, sym, ◌+◌, update_self, update_ne, ◌≢◌, ◌^◌, ◌∙◌,
  ℕ_discrete, ◌-◌, ap, subst, ◌%◌, ==_iff, Bool-cases, inl, inr,
}

-- The first of the list that has the test, and the last.
abbrev pub first_where : (ℕ → Bool) → List ℕ → Option ℕ
first_where p [] = none
first_where p (x ∷ l) = if p x then some x else first_where p l

abbrev last_where : (ℕ → Bool) → List ℕ → Option ℕ
last_where p [] = none
last_where p (x ∷ l) = elim (last_where p l) [
  | some y ↦ some y
  | none ↦ if p x then some x else none
]

find_cached-first :
    (n : ℕ) (c : Cache) (k a : ℕ) (l : List ℕ)
    → length l < k
    → Away head l
    → Run c.links a l head
    → find_cached k n (c.links.next a) c ≡ first_where (λ b. c.blockno b == n) l
unfolding find_cached
find_cached-first n c zero a l lt off r = absurd (omega arith)
find_cached-first n c (suc k) a [] lt off (e, m) = rw e refl
find_cached-first n c (suc k) a (x ∷ l) lt (hx, off) (e, m, r) =
    let rest = find_cached-first n c k x l (omega arith) off r in
    rw (e, rest, ne→==_false x head (λ z. hx (sym z))) refl

-- The nodes of l in reverse order, before those of the other list.
unfoldable pub onto : List ℕ → List ℕ → List ℕ
onto [] acc = acc
onto (x ∷ l) acc = onto l (x ∷ acc)

length-onto : (l acc : List ℕ) → length (onto l acc) ≡ length l + length acc
unfolding onto
length-onto [] acc = omega arith
length-onto (x ∷ l) acc = omega (arith, length-onto l (x ∷ acc))

onto-Away : (p : ℕ) (l acc : List ℕ) → Away p l → Away p acc → Away p (onto l acc)
unfolding onto
onto-Away p [] acc off h = h
onto-Away p (x ∷ l) acc (px, off) h = onto-Away p l (x ∷ acc) off (px, h)

-- From z over the nodes of l to a by `prev`.
abbrev Back : Links → ℕ → List ℕ → ℕ → Type 0
Back k z [] a = k.prev z ≡ a
Back k z (x ∷ l) a = (k.prev z ≡ x) × Back k x l a

Run-Back :
    (k : Links) (a : ℕ) (l acc : List ℕ) (z h : ℕ)
    → Run k a l z
    → Back k a acc h
    → Back k z (onto l (a ∷ acc)) h
unfolding onto
Run-Back k a [] acc z h (n, m) back = (m, back)
Run-Back k a (x ∷ l) acc z h (n, m, r) back = Run-Back k x l (a ∷ acc) z h r (m, back)

Ring-Back : (k : Links) (l : List ℕ) → Run k head l head → Back k head (onto l []) head
unfolding onto
Ring-Back k [] (n, m) = m
Ring-Back k (x ∷ l) (n, m, r) = Run-Back k x l [] head head r m

find_unused-first :
    (c : Cache) (k z : ℕ) (l : List ℕ)
    → length l < k
    → Away head l
    → Back c.links z l head
    → find_unused k (c.links.prev z) c ≡ first_where (λ b. c.refcnt b == 0) l
unfolding find_unused
find_unused-first c zero z l lt off r = absurd (omega arith)
find_unused-first c (suc k) z [] lt off e = rw e refl
find_unused-first c (suc k) z (x ∷ l) lt (hx, off) (e, r) =
    let rest = find_unused-first c k x l (omega arith) off r in
    rw (e, rest, ne→==_false x head (λ z. hx (sym z))) refl

-- Nothing is different but the block numbers, the references and the valid bits.
abbrev pub SameRest : Cache → Cache → Type 0
SameRest c d = (d.links ≡ c.links) × (d.lock ≡ c.lock) × (d.content ≡ c.content) × (d.disk ≡ c.disk)

-- How `bufcache_get` ends for block n, given the buffer that has the block, if one has, and the one to
-- take over, if there is one.
abbrev pub Gets : ℕ → Cache → Option ℕ → Option ℕ → Option (ℕ × Cache) → Type 0
Gets n c (some b) unused r =
    (d : Cache) × (r ≡ some (b, d))
    × (d.refcnt b ≡ (c.refcnt b + 1) % 2 ^ 32)
    × ((x : ℕ) → x ≢ b → d.refcnt x ≡ c.refcnt x)
    × (d.blockno ≡ c.blockno)
    × (d.valid ≡ c.valid)
    × SameRest c d
Gets n c none (some b) r =
    (d : Cache) × (r ≡ some (b, d))
    × (d.blockno b ≡ n)
    × (d.valid b ≡ false)
    × (d.refcnt b ≡ 1)
    × ((x : ℕ)
        → x ≢ b
        → (d.blockno x ≡ c.blockno x) × (d.valid x ≡ c.valid x) × (d.refcnt x ≡ c.refcnt x))
    × SameRest c d
Gets n c none none r = r ≡ none

got-Gets :
    (n : ℕ) (c : Cache) (cached unused : Option ℕ) → Gets n c cached unused (got n c cached unused)
got-Gets n c (some b) unused = (
  hold b c,
  refl,
  update_self c.refcnt b _,
  λ x ne. update_ne c.refcnt b x _ (λ e. ne (sym e)),
  refl,
  refl,
  (refl, refl, refl, refl),
)
got-Gets n c none (some b) = (
  recycle n b c,
  refl,
  update_self c.blockno b n,
  update_self c.valid b false,
  update_self c.refcnt b 1,
  λ x ne. (
    update_ne c.blockno b x n (λ e. ne (sym e)),
    update_ne c.valid b x false (λ e. ne (sym e)),
    update_ne c.refcnt b x 1 (λ e. ne (sym e)),
  ),
  (refl, refl, refl, refl),
)
got-Gets n c none none = refl

-- The scans follow the list.
pub bufcache_get-got :
    (c : Cache) (l : List ℕ) (n : ℕ)
    → Ring c.links l
    → length l ≡ nbuf
    → bufcache_get n c
      ≡ got n c
          (first_where (λ b. c.blockno b == n) l)
          (first_where (λ b. c.refcnt b == 0) (onto l []))
unfolding bufcache_get
bufcache_get-got c l n (r, (off, d)) len =
    let cached = find_cached-first n c (nbuf + 1) head l (omega arith) off r in
    let few : length (onto l []) < nbuf + 1 = omega (arith, length-onto l []) in
    let unused =
      find_unused-first c (nbuf + 1) head (onto l []) few (onto-Away head l [] off tt)
        (Ring-Back c.links l r) in
    ap (λ (o : Option ℕ). got n c o (find_unused (nbuf + 1) (c.links.prev head) c)) cached
    ∙ ap (λ (o : Option ℕ). got n c (first_where (λ b. c.blockno b == n) l) o) unused

-- On a cache whose links are a ring of NBUF buffers, `bufcache_get` returns the most recent buffer
-- with the block: its references are one more, modulo 2^32, and nothing else changes. Without one it
-- returns the least recent buffer that has no reference: that buffer is now for the block, not valid
-- and has one reference, and nothing else changes. It panics only if each buffer has a reference.
pub get_lem :
    (c : Cache) (l : List ℕ) (n : ℕ)
    → Ring c.links l
    → length l ≡ nbuf
    → Gets n c
        (first_where (λ b. c.blockno b == n) l)
        (first_where (λ b. c.refcnt b == 0) (onto l []))
        (bufcache_get n c)
get_lem c l n ring len =
    subst
      (Gets n c (first_where (λ b. c.blockno b == n) l)
        (first_where (λ b. c.refcnt b == 0) (onto l [])))
      (sym (bufcache_get-got c l n ring len))
      (got-Gets n c (first_where (λ b. c.blockno b == n) l)
        (first_where (λ b. c.refcnt b == 0) (onto l [])))

give_back-last :
    (c : Cache) (b : ℕ) → c.refcnt b ≡ 1 → (give_back b c).links ≡ push_front b (unlink b c.links)
unfolding give_back
give_back-last c b h =
    let z : (drop_reference b c).refcnt b ≡ 0 =
      update_self c.refcnt b _ ∙ ap (λ (r : ℕ). (r + (2 ^ 32 - 1)) % 2 ^ 32) h in
    rw (z) refl

give_back-used :
    (c : Cache) (b : ℕ) → 1 < c.refcnt b → c.refcnt b < 2 ^ 32 → (give_back b c).links ≡ c.links
unfolding give_back
give_back-used c b h k =
    let z : ((drop_reference b c).refcnt b == 0) ≡ false =
      rw (update_self c.refcnt b ((c.refcnt b + (2 ^ 32 - 1)) % 2 ^ 32))
        (ne→==_false _ 0 (omega arith)) in
    rw z refl

-- Where a buffer goes when a reference to it is given back.
abbrev pub after_release : Cache → List ℕ → ℕ → List ℕ → List ℕ
after_release c v b w = if c.refcnt b == 1 then b ∷ v ++ w else v ++ b ∷ w

pub give_back-Ring :
    (c : Cache) (v : List ℕ) (b : ℕ) (w : List ℕ)
    → Ring c.links (v ++ b ∷ w)
    → 0 < c.refcnt b
    → c.refcnt b < 2 ^ 32
    → Ring (give_back b c).links (after_release c v b w)
give_back-Ring c v b w ring pos small = elim (ℕ_discrete (c.refcnt b) 1) [
  | yes one ↦
      let (taken, off) = Ring-unlink c.links v b w ring in
      let moved = Ring-push_front (unlink b c.links) b (v ++ w) taken off in
      let now : Ring (give_back b c).links (b ∷ v ++ w) =
        subst (λ (k : Links). Ring k (b ∷ v ++ w)) (sym (give_back-last c b one)) moved in
      let order : after_release c v b w ≡ b ∷ v ++ w = rw ((==_iff (c.refcnt b) 1).1 one) refl in
      subst (λ (l : List ℕ). Ring (give_back b c).links l) (sym order) now
  | no more ↦
      let now : Ring (give_back b c).links (v ++ b ∷ w) =
        subst (λ (k : Links). Ring k (v ++ b ∷ w)) (sym (give_back-used c b (omega arith) small))
          ring in
      let order : after_release c v b w ≡ v ++ b ∷ w = rw (ne→==_false (c.refcnt b) 1 more) refl in
      subst (λ (l : List ℕ). Ring (give_back b c).links l) (sym order) now
]

give_back-refcnt : (c : Cache) (b : ℕ) → (give_back b c).refcnt ≡ (drop_reference b c).refcnt
unfolding give_back
give_back-refcnt c b = elim (Bool-cases ((drop_reference b c).refcnt b == 0)) [
  | inl last ↦ rw last refl
  | inr used ↦ rw used refl
]

give_back-lock : (c : Cache) (b : ℕ) → (give_back b c).lock ≡ c.lock
unfolding give_back
give_back-lock c b = elim (Bool-cases ((drop_reference b c).refcnt b == 0)) [
  | inl last ↦ rw last refl
  | inr used ↦ rw used refl
]

-- One reference less, with no wrap-around.
drop_reference_self :
    (c : Cache) (b : ℕ)
    → 0 < c.refcnt b
    → c.refcnt b < 2 ^ 32
    → (drop_reference b c).refcnt b ≡ c.refcnt b - 1
drop_reference_self c b pos small = update_self c.refcnt b _ ∙ omega arith

-- On a ring, the process that holds the sleep lock of a buffer with a reference, and fewer than 2 ^ 32
-- of them, releases it with no panic: the lock is free and a reference is gone, and with the last one
-- the buffer becomes the most recent and the others keep their order; with a reference left, all
-- buffers keep theirs.
pub release_lem :
    (me : ℕ) (c : Cache) (v : List ℕ) (b : ℕ) (w : List ℕ)
    → Ring c.links (v ++ b ∷ w)
    → holdingsleep me (c.lock b) ≡ true
    → 0 < c.refcnt b
    → c.refcnt b < 2 ^ 32
    → (d : Cache) × (bufcache_release me b c ≡ some d)
      × Ring d.links (after_release c v b w)
      × ((d.lock b).locked ≡ 0)
      × (d.refcnt b ≡ c.refcnt b - 1)
unfolding bufcache_release xv7_riscv.Sleeplock.releasesleep
release_lem me c v b w ring held pos small =
    let freed : Cache = record c { lock = update c.lock b (releasesleep (c.lock b)) } in
    (
      give_back b freed,
      rw held refl,
      give_back-Ring freed v b w ring pos small,
      ap (λ (f : ℕ → Sleeplock). (f b).locked) (give_back-lock freed b)
          ∙ ap (λ (x : Sleeplock). x.locked) (update_self c.lock b (releasesleep (c.lock b))),
      ap (λ (f : ℕ → ℕ). f b) (give_back-refcnt freed b) ∙ drop_reference_self freed b pos small,
    )
