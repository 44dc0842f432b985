-- ===== src/Cache/Ring.antt =====
-- The doubly linked list of kernel/buffer-io.c as a list of its buffers.
use xv7_riscv.Cache.{head, Links, push_front, unlink}
use xv7_riscv.Prelude.{
  ℕ, List, [], ◌∷◌, ◌++◌, ◌≡◌, ◌≢◌, refl, sym, ◌∙◌, update, update_ne, update_self, subst,
}

abbrev pub Away : ℕ → List ℕ → Type 0
Away p [] = Unit {0}
Away p (x ∷ l) = (p ≢ x) × Away p l

abbrev pub Distinct : List ℕ → Type 0
Distinct [] = Unit {0}
Distinct (x ∷ l) = Away x l × Distinct l

-- From a over the nodes of l to z, and back.
abbrev pub Run : Links → ℕ → List ℕ → ℕ → Type 0
Run k a [] z = (k.next a ≡ z) × (k.prev z ≡ a)
Run k a (x ∷ l) z = (k.next a ≡ x) × (k.prev x ≡ a) × Run k x l z

-- The links are a ring of the head and of l, most recent first, that has no node twice.
abbrev pub Ring : Links → List ℕ → Type 0
Ring k l = Run k head l head × Distinct (head ∷ l)

-- Writes elsewhere keep a run.
module _ (next prev : ℕ → ℕ) (p v : ℕ) where
  Run-set_next :
      (a : ℕ) (l : List ℕ) (z : ℕ)
      → Away p (a ∷ l)
      → Run (record { next = next; prev = prev }) a l z
      → Run (record { next = update next p v; prev = prev }) a l z
  Run-set_next a [] z (pa, off) (n, m) = (update_ne next p a v pa ∙ n, m)
  Run-set_next a (x ∷ l) z (pa, off) (n, m, r) =
      (update_ne next p a v pa ∙ n, m, Run-set_next x l z off r)

  Run-set_prev :
      (a : ℕ) (l : List ℕ) (z : ℕ)
      → Away p l
      → p ≢ z
      → Run (record { next = next; prev = prev }) a l z
      → Run (record { next = next; prev = update prev p v }) a l z
  Run-set_prev a [] z off pz (n, m) = (n, update_ne prev p z v pz ∙ m)
  Run-set_prev a (x ∷ l) z (px, off) pz (n, m, r) =
      (n, update_ne prev p x v px ∙ m, Run-set_prev x l z off pz r)

Away-split :
    (p : ℕ) (v : List ℕ) (b : ℕ) (w : List ℕ) → Away p (v ++ b ∷ w) → (p ≢ b) × Away p (v ++ w)
Away-split p [] b w off = off
Away-split p (x ∷ v) b w (px, off) = let (pb, rest) = Away-split p v b w off in (pb, (px, rest))

Distinct-split :
    (v : List ℕ) (b : ℕ) (w : List ℕ) → Distinct (v ++ b ∷ w) → Away b (v ++ w) × Distinct (v ++ w)
Distinct-split [] b w d = d
Distinct-split (x ∷ v) b w (off, d) =
    let (bo, rest) = Distinct-split v b w d in
    let (xb, xo) = Away-split x v b w off in ((λ e. xb (sym e), bo), (xo, rest))

-- The neighbours of b in a run are nodes of the run.
last-Away :
    (k : Links) (q a : ℕ) (v : List ℕ) (b : ℕ) (w : List ℕ) (z : ℕ)
    → Run k a (v ++ b ∷ w) z
    → Away q (a ∷ v ++ b ∷ w)
    → q ≢ k.prev b
last-Away k q a [] b w z (n, m, r) (qa, off) = λ e. qa (e ∙ m)
last-Away k q a (x ∷ v) b w z (n, m, r) (qa, off) = last-Away k q x v b w z r off

next-Away :
    (k : Links) (q a : ℕ) (v : List ℕ) (b : ℕ) (w : List ℕ) (z : ℕ)
    → Run k a (v ++ b ∷ w) z
    → Away q (v ++ b ∷ w)
    → q ≢ z
    → q ≢ k.next b
next-Away k q a [] b [] z (n, m, (n2, m2)) (qb, off) qz = λ e. qz (e ∙ n2)
next-Away k q a [] b (y ∷ w) z (n, m, (n2, m2, r)) (qb, (qy, off)) qz = λ e. qy (e ∙ n2)
next-Away k q a (x ∷ v) b w z (n, m, r) (qx, off) qz = next-Away k q x v b w z r off qz

self-Away :
    (k : Links) (a : ℕ) (v : List ℕ) (b : ℕ) (w : List ℕ) (z : ℕ)
    → Run k a (v ++ b ∷ w) z
    → Away b (v ++ w)
    → b ≢ z
    → b ≢ k.next b
self-Away k a [] b [] z (n, m, (n2, m2)) off bz = λ e. bz (e ∙ n2)
self-Away k a [] b (y ∷ w) z (n, m, (n2, m2, r)) (by, off) bz = λ e. by (e ∙ n2)
self-Away k a (x ∷ v) b w z (n, m, r) (bx, off) bz = self-Away k x v b w z r off bz

-- The links without the node between p and y.
abbrev joined : Links → ℕ → ℕ → Links
joined k p y = record { next = update k.next p y; prev = update k.prev y p }

module _ (k : Links) (b p y z : ℕ) (before : k.prev b ≡ p) (after : k.next b ≡ y) where
  Run-joined :
      (a : ℕ) (v w : List ℕ)
      → Run k a (v ++ b ∷ w) z
      → Distinct (a ∷ v ++ b ∷ w)
      → Away z (v ++ b ∷ w)
      → Run (joined k p y) a (v ++ w) z
  Run-joined a [] [] (n, m, (n2, m2)) d zo =
      let pa : p ≡ a = sym before ∙ m in
      let yz : y ≡ z = sym after ∙ n2 in
      rw (pa, yz) (update_self k.next a z, update_self k.prev z a)
  Run-joined a [] (x ∷ w) (n, m, (n2, m2, r)) ((ab, (ax, ao)), (bx, (xo, d))) (zb, (zx, zo)) =
      let pa : p ≡ a = sym before ∙ m in
      let yx : y ≡ x = sym after ∙ n2 in
      let done : Run (joined k a x) a (x ∷ w) z = (
        update_self k.next a x,
        update_self k.prev x a,
        Run-set_prev (update k.next a x) k.prev x a x w z xo (λ e. zx (sym e))
            (Run-set_next k.next k.prev a x x w z (ax, ao) r),
      ) in
      subst (λ (q : ℕ). Run (joined k q y) a (x ∷ w) z) (sym pa)
        (subst (λ (q : ℕ). Run (joined k a q) a (x ∷ w) z) (sym yx) done)
  Run-joined a (x ∷ v) w (n, m, r) (ao, (xo, d)) (zx, zo) =
      let pa : p ≢ a = λ e. last-Away k a x v b w z r ao (sym (before ∙ e)) in
      let yx : y ≢ x = λ e. next-Away k x x v b w z r xo (λ e2. zx (sym e2)) (sym (after ∙ e)) in
      (update_ne k.next p a y pa ∙ n, update_ne k.prev y x p yx ∙ m, Run-joined x v w r (xo, d) zo)

-- Taking out a node leaves the ring of the others.
pub Ring-unlink :
    (k : Links) (v : List ℕ) (b : ℕ) (w : List ℕ)
    → Ring k (v ++ b ∷ w)
    → Ring (unlink b k) (v ++ w) × Away b (head ∷ v ++ w)
unfolding unlink
Ring-unlink k v b w (r, (ho, d)) =
    let (hb, hvw) = Away-split head v b w ho in
    let (bo, dvw) = Distinct-split v b w d in
    let bh : b ≢ head = λ e. hb (sym e) in
    let stays =
      update_ne k.prev (k.next b) b (k.prev b) (λ e. self-Away k head v b w head r bo bh (sym e)) in
    let done = Run-joined k b (k.prev b) (k.next b) head refl refl head v w r (ho, d) ho in
    ((rw stays done, (hvw, dvw)), (bh, bo))

-- A new node becomes the first of the ring.
pub Ring-push_front :
    (k : Links) (b : ℕ) (l : List ℕ) → Ring k l → Away b (head ∷ l) → Ring (push_front b k) (b ∷ l)
unfolding push_front
Ring-push_front k b [] ((n, m), d) (bh, bo) =
    let hb : head ≢ b = λ e. bh (sym e) in
    let first = update_ne k.next b head (k.next head) bh ∙ n in
    (
      (
        update_self (update k.next b (k.next head)) head b,
        rw first (update_ne (update k.prev b head) head b b hb ∙ update_self k.prev b head),
        (
          update_ne (update k.next b (k.next head)) head b b hb
              ∙ update_self k.next b (k.next head)
              ∙ n,
          rw first (update_self (update k.prev b head) head b),
        ),
      ),
      ((hb, tt), (tt, tt)),
    )
Ring-push_front k b (x ∷ l) ((n, m, r), ((hx, ho), (xo, d))) (bh, (bx, bo)) =
    let hb : head ≢ b = λ e. bh (sym e) in
    let xb : x ≢ b = λ e. bx (sym e) in
    let first = update_ne k.next b head (k.next head) bh ∙ n in
    let next1 = update k.next b (k.next head) in
    let prev1 = update k.prev b head in
    let rest : Run (record { next = update next1 head b; prev = update prev1 x b }) x l head =
      Run-set_prev _ prev1 x b x l head xo (λ e. hx (sym e))
        (Run-set_prev _ k.prev b head x l head bo bh (
          Run-set_next next1 k.prev head b x l head (hx, ho)
            (Run-set_next k.next k.prev b (k.next head) x l head (bx, bo) r))) in
    let whole : Run (record { next = update next1 head b; prev = update prev1 x b }) head
        (b ∷ x ∷ l) head =
      (
        update_self next1 head b,
        update_ne prev1 x b b xb ∙ update_self k.prev b head,
        (
          update_ne next1 head b b hb ∙ update_self k.next b (k.next head) ∙ n,
          update_self prev1 x b,
          rest,
        ),
      ) in
    (
      subst
          (λ (q : ℕ).
            Run (record { next = update next1 head b; prev = update prev1 q b }) head (b ∷ x ∷ l)
              head)
          (sym first) whole,
      ((hb, (hx, ho)), ((bx, bo), (xo, d))),
    )
