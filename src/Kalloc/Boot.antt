-- ===== src/Kalloc/Boot.antt =====
-- What `kalloc_init` puts on the free list.
use xv7_riscv.Prelude.{
  ℕ, zero, suc, ◌+◌, ◌-◌, ◌*◌, ◌/◌, ◌%◌, ◌≡◌, ◌≤◌, ◌<◌, List, [], ◌∷◌, arith, update_self, dec_le,
  le→leb, refl, not_le→leb,
}
use xv7_riscv.Kalloc.{Kmem, push, free_from, kalloc_init, page_round_up, stride, page_size, phystop}
use xv7_riscv.Kalloc.FreeList.{NotIn, IsFreeList, Chain-update}

-- The n pages at distances of `stride` from p on, the last one first, before those of l.
abbrev pub strides : ℕ → ℕ → List ℕ → List ℕ
strides zero p l = l
strides (suc n) p l = strides n (p + stride) (p ∷ l)

-- Every page of the list lies below p.
abbrev Under : ℕ → List ℕ → Type 0
Under p [] = Unit {0}
Under p (x ∷ l) = (x < p) × Under p l

Under-NotIn : (p : ℕ) (l : List ℕ) → Under p l → NotIn p l
Under-NotIn p [] u = tt
Under-NotIn p (x ∷ l) u = (omega arith, Under-NotIn p l u.1)

Under-le : (p q : ℕ) (l : List ℕ) → p ≤ q → Under p l → Under q l
Under-le p q [] h u = tt
Under-le p q (x ∷ l) h u = (omega arith, Under-le p q l h u.1)

push-IsFreeList :
    (end p : ℕ) (k : Kmem) (l : List ℕ)
    → p % page_size ≡ 0
    → end ≤ p
    → 0 < p
    → p < phystop
    → Under p l
    → IsFreeList end k l
    → IsFreeList end (push p k) (p ∷ l)
unfolding push
push-IsFreeList end p k l a lo pos hi u f = record {
  chain = (
    refl,
    omega arith,
    rw (update_self k.mem p k.freelist)
        (Chain-update k.mem k.freelist p k.freelist l (Under-NotIn p l u) f.chain),
  );
  pages = (a, lo, hi, Under-NotIn p l u, f.pages);
}

free_from-IsFreeList :
    (fuel end p : ℕ) (k : Kmem) (l : List ℕ)
    → p % page_size ≡ 0
    → end ≤ p
    → 0 < p
    → (phystop - p) / stride ≤ fuel
    → Under p l
    → IsFreeList end k l
    → IsFreeList end (free_from fuel p k) (strides ((phystop - p) / stride) p l)
unfolding free_from
free_from-IsFreeList zero end p k l a lo pos enough u f =
    let z : (phystop - p) / stride ≡ 0 = omega arith in rw z f
free_from-IsFreeList (suc fuel) end p k l a lo pos enough u f = elim (dec_le (p + stride) phystop) [
  | yes h ↦
      let s : (phystop - p) / stride ≡ suc ((phystop - (p + stride)) / stride) = omega arith in
      rw (le→leb (p + stride) phystop h, s)
        (free_from-IsFreeList fuel end (p + stride) (push p k) (p ∷ l) (omega arith) (omega arith)
          (omega arith) (omega arith) (omega arith, Under-le p (p + stride) l (omega arith) u)
          (push-IsFreeList end p k l a lo pos (omega arith) u f))
  | no h ↦
      let z : (phystop - p) / stride ≡ 0 = omega arith in
      rw (not_le→leb (p + stride) phystop h, z) f
]

-- From an empty list `kalloc_init` makes a well-formed free list: of every eight pages between the
-- end of the kernel and PHYSTOP, the first.
pub kalloc_init_pages :
    (end : ℕ) (k : Kmem)
    → 0 < end
    → end ≤ phystop
    → k.freelist ≡ 0
    → let start = page_round_up end in
      IsFreeList end (kalloc_init end k) (strides ((phystop - start) / (8 * 4096)) start [])
unfolding kalloc_init
kalloc_init_pages end k pos hi e =
    free_from-IsFreeList (phystop / stride) end (page_round_up end) k [] (omega arith) (omega arith)
      (omega arith) (omega arith) tt (record { chain = e; pages = tt })
