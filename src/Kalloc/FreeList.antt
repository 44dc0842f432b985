-- ===== src/Kalloc/FreeList.antt =====
-- The free list as a list of pages: `kalloc` takes its head, `kfree` adds one.
use xv7_riscv.Prelude.{
  ℕ, ◌+◌, ◌%◌, ◌≡◌, ◌≢◌, ◌≤◌, ◌<◌, List, [], ◌∷◌, arith, ne→==_false, update, some, update_ne, ◌⊎◌,
  none, Bool-cases, not, ◌==◌, ◌||◌, ltb, leb, inl, inr, update_self, refl,
}
use xv7_riscv.Kalloc.{
  Kmem, push, kfree, kalloc, zero_page, page_size, phystop, update, some, none, not, ltb,
}

-- Following `next` from p gives the pages of the list.
abbrev pub Chain : (ℕ → ℕ) → ℕ → List ℕ → Type 0
Chain mem p [] = p ≡ 0
Chain mem p (x ∷ xs) = (p ≡ x) × (x ≢ 0) × Chain mem (mem x) xs

abbrev pub NotIn : ℕ → List ℕ → Type 0
NotIn x [] = Unit {0}
NotIn x (y ∷ ys) = (x ≢ y) × NotIn x ys

-- Page-aligned addresses between the end of the kernel and PHYSTOP, each once.
abbrev pub Pages : ℕ → List ℕ → Type 0
Pages end [] = Unit {0}
Pages end (x ∷ xs) = (x % page_size ≡ 0) × (end ≤ x) × (x < phystop) × NotIn x xs × Pages end xs

pub record IsFreeList (end : ℕ) (k : Kmem) (l : List ℕ) : Type 0 where
  pub chain : Chain k.mem k.freelist l
  pub pages : Pages end l

pub Chain-update :
    (mem : ℕ → ℕ) (p x v : ℕ) (l : List ℕ) → NotIn x l → Chain mem p l → Chain (update mem x v) p l
Chain-update mem p x v [] n c = c
Chain-update mem p x v (y ∷ l) n c =
    (c.0, c.1, rw (update_ne mem x y v n.0) (Chain-update mem (mem y) x v l n.1 c.2))

-- Two aligned pages that differ do not overlap, so zeroing one keeps the links in the other.
Chain-zero :
    (end : ℕ) (mem : ℕ → ℕ) (p x : ℕ) (l : List ℕ)
    → x % page_size ≡ 0
    → NotIn x l
    → Pages end l
    → Chain mem p l
    → Chain (zero_page x mem) p l
unfolding zero_page
Chain-zero end mem p x [] a n s c = c
Chain-zero end mem p x (y ∷ l) a n s c =
    let same : zero_page x mem y ≡ mem y = ground (arith, s.0, n.0) in
    (c.0, c.1, rw same (Chain-zero end mem (mem y) x l a n.1 s.4 c.2))

-- `kalloc` on a free list returns its first page, every word of it zero, and leaves the rest of the
-- list as the free list.
pub kalloc_takes :
    (end : ℕ) (k : Kmem) (x : ℕ) (l : List ℕ)
    → IsFreeList end k (x ∷ l)
    → let (r, k') = kalloc k in
      (r ≡ x) × IsFreeList end k' l × ((a : ℕ) → x ≤ a → a < x + 4096 → k'.mem a ≡ 0)
unfolding kalloc zero_page
kalloc_takes end k x l f = (f.chain.0, record { chain = rest; pages = f.pages.4 }, zeroed)
  where
    links : Chain (zero_page k.freelist k.mem) (k.mem x) l
    links =
        rw f.chain.0 (Chain-zero end k.mem (k.mem x) x l f.pages.0 f.pages.3 f.pages.4 f.chain.2)

    rest : Chain (kalloc k).1.mem (kalloc k).1.freelist l
    rest = rw (f.chain.0, ne→==_false x 0 f.chain.1) (rw f.chain.0 at links)

    zeroed : (a : ℕ) → x ≤ a → a < x + 4096 → (kalloc k).1.mem a ≡ 0
    zeroed a lo hi = ground (arith, f.chain.0)

-- `kfree` accepts exactly the aligned addresses from the end of the kernel to PHYSTOP; a page that is
-- not on the free list becomes its head.
pub kfree_adds :
    (end : ℕ) (k : Kmem) (pa : ℕ) (l : List ℕ)
    → 0 < end
    → IsFreeList end k l
    → NotIn pa l
    → (((pa % 4096 ≡ 0) × (end ≤ pa) × (pa < phystop))
        × ((k' : Kmem) × (kfree end pa k ≡ some k') × IsFreeList end k' (pa ∷ l)))
      ⊎ ((¬ ((pa % 4096 ≡ 0) × (end ≤ pa) × (pa < phystop))) × (kfree end pa k ≡ none))
unfolding kfree
kfree_adds end k pa l pos f n =
    elim (Bool-cases (not (pa % page_size == 0) || ltb pa end || leb phystop pa)) [
      | inl bad ↦ inr (λ g. ground arith, rw bad)
      | inr good ↦
          let a : pa % page_size ≡ 0 = ground arith in
          let b : end ≤ pa = ground arith in
          let c : pa < phystop = ground arith in
          inl (
            (a, b, c),
            (
              push pa k,
              rw good,
              record {
                chain = (
                  refl,
                  omega arith,
                  rw (update_self k.mem pa k.freelist)
                      (Chain-update k.mem k.freelist pa k.freelist l n f.chain),
                );
                pages = (a, b, c, n, f.pages);
              },
            ),
          )
    ]

-- A page that is freed is the next one allocated.
pub kalloc-kfree :
    (end : ℕ) (k : Kmem) (pa : ℕ) {k' : Kmem} → kfree end pa k ≡ some k' → (kalloc k').0 ≡ pa
unfolding kfree kalloc
kalloc-kfree end k pa h = ground arith
