-- ===== src/Cache/Frames.antt =====
-- What the calls of kernel/buffer-io.c leave as it is, and how a release moves a buffer in the list.
use xv7_riscv.Cache.{Cache, lock_buffer, fill, bufcache_write, give_back, drop_reference}
use xv7_riscv.Cache.Ring.{Away}
use xv7_riscv.Cache.Recency.{after_release}
use xv7_riscv.Sleeplock.{acquiresleep, holdingsleep}
use xv7_riscv.Prelude.{
  ℕ, List, [], ◌∷◌, ◌++◌, length, length-append, ◌≡◌, inl, inr, refl, sym, ap, ◌==◌, Bool-cases,
  none, some, Option-cases, update, arith, ℕ_discrete,
}

pub lock_buffer-links :
    (me b : ℕ) (c d : Cache)
    → lock_buffer me b c ≡ some d
    → (d.links ≡ c.links) × (d.blockno ≡ c.blockno)
unfolding lock_buffer
lock_buffer-links me b c d h = elim (Option-cases (acquiresleep me (c.lock b))) [
  | inl e ↦ let bad : none ≡ some d = rw (lock_buffer, e) at h in absurd (cc)
  | inr (lk, e) ↦
      let good : some (record c { lock = update c.lock b lk }) ≡ some d =
        rw (lock_buffer, e) at h in
      let same : record c { lock = update c.lock b lk } ≡ d = cc in
      (ap (λ (x : Cache). x.links) (sym same), ap (λ (x : Cache). x.blockno) (sym same))
]

pub fill-links :
    (b : ℕ) (c : Cache) → ((fill b c).links ≡ c.links) × ((fill b c).blockno ≡ c.blockno)
unfolding fill
fill-links b c = elim (Bool-cases (c.valid b)) [
  | inl v ↦ rw v (refl, refl)
  | inr v ↦ rw v (refl, refl)
]

pub write-links :
    (me b : ℕ) (c d : Cache)
    → bufcache_write me b c ≡ some d
    → (d.links ≡ c.links) × (d.blockno ≡ c.blockno)
unfolding bufcache_write
write-links me b c d h = elim (Bool-cases (holdingsleep me (c.lock b))) [
  | inr v ↦ let bad : none ≡ some d = rw v at h in absurd (cc)
  | inl v ↦
      let good : some (record c { disk = update c.disk (c.blockno b) (c.content b) }) ≡ some d =
        rw v at h in
      let same : record c { disk = update c.disk (c.blockno b) (c.content b) } ≡ d = cc in
      (ap (λ (x : Cache). x.links) (sym same), ap (λ (x : Cache). x.blockno) (sym same))
]

pub give_back-blockno : (c : Cache) (b : ℕ) → (give_back b c).blockno ≡ c.blockno
unfolding give_back
give_back-blockno c b = elim (Bool-cases ((drop_reference b c).refcnt b == 0)) [
  | inl last ↦ rw last refl
  | inr used ↦ rw used refl
]

-- A node that is in a list splits it.
pub split_at : (b : ℕ) (l : List ℕ) → ¬ Away b l → (v w : List ℕ) × (l ≡ v ++ b ∷ w)
split_at b [] h = absurd (h tt)
split_at b (x ∷ l) h = elim (ℕ_discrete b x) [
  | yes e ↦ ([], l, ap (λ (q : ℕ). q ∷ l) (sym e))
  | no ne ↦
      let (v, w, e) = split_at b l (λ off. h (ne, off)) in (x ∷ v, w, ap (λ (m : List ℕ). x ∷ m) e)
]

moved-Away : (i : ℕ) (v : List ℕ) (b : ℕ) (w : List ℕ) → Away i (b ∷ v ++ w) → Away i (v ++ b ∷ w)
moved-Away i [] b w off = off
moved-Away i (x ∷ v) b w (ib, (ix, off)) = (ix, moved-Away i v b w (ib, off))

pub after_release-length :
    (c : Cache) (v : List ℕ) (b : ℕ) (w : List ℕ)
    → length (after_release c v b w) ≡ length (v ++ b ∷ w)
after_release-length c v b w = elim (Bool-cases (c.refcnt b == 1)) [
  | inl one ↦ rw one (omega (arith, length-append v w, length-append v (b ∷ w)))
  | inr more ↦ rw more refl
]

pub after_release-Away :
    (c : Cache) (v : List ℕ) (b : ℕ) (w : List ℕ) (i : ℕ)
    → Away i (after_release c v b w)
    → Away i (v ++ b ∷ w)
after_release-Away c v b w i off = elim (Bool-cases (c.refcnt b == 1)) [
  | inl one ↦ moved-Away i v b w (rw one at off)
  | inr more ↦ rw more at off
]
