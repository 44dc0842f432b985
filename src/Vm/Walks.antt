-- ===== src/Vm/Walks.antt =====
-- `walk`: the entry that it makes room for is the entry that a later walk finds.
use mathlib.Core.Bool.{false≢true}
use xv7_riscv.Kalloc.{Kmem, kalloc, zero_page}
use xv7_riscv.Kalloc.FreeList.{IsFreeList, Chain-update, NotIn, Pages, kalloc_takes}
use xv7_riscv.Vm.{walk_from, px, is_valid, pte2pa, make_pte, store}
use xv7_riscv.Prelude.{
  ℕ, List, suc, ◌∷◌, ◌+◌, ◌%◌, ◌<◌, ◌≡◌, arith, subst, ◌≢◌, ◌*◌, ◌⊎◌, true, false, [], ◌≤◌,
  update_self, zero, Bool, ne→==_false, Bool-cases, refl, sym, inl, ap, ◌∙◌, inr,
}

-- An address in none of the pages.
abbrev pub Away : ℕ → List ℕ → Type 0
Away a [] = Unit {0}
Away a (x ∷ l) = ((a < x) ⊎ (x + 4096 ≤ a)) × Away a l

-- The address is not an entry that a walk of va from this table on may fill.
abbrev pub NotFilled : ℕ → ℕ → ℕ → Kmem → ℕ → Type 0
NotFilled zero pagetable va k a = Unit {0}
NotFilled (suc level) pagetable va k a =
    let pte = pagetable + 8 * px (suc level) va in
    (a ≢ pte) × (is_valid (k.mem pte) ≡ true → NotFilled level (pte2pa (k.mem pte)) va k a)

-- The tables on the way of a walk are pages that are not free, and none is its own parent.
abbrev pub IsTable : ℕ → ℕ → ℕ → Kmem → List ℕ → Type 0
IsTable zero pagetable va k l = Unit {0}
IsTable (suc level) pagetable va k l =
    let pte = pagetable + 8 * px (suc level) va in
    (pagetable % 4096 ≡ 0)
    × NotIn pagetable l
    × (is_valid (k.mem pte) ≡ true
        → IsTable level (pte2pa (k.mem pte)) va k l × NotFilled level (pte2pa (k.mem pte)) va k pte)

pub Away-table :
    (end pagetable i : ℕ) (l : List ℕ)
    → pagetable % 4096 ≡ 0
    → i < 512
    → NotIn pagetable l
    → Pages end l
    → Away (pagetable + 8 * i) l
Away-table end pagetable i [] a small n p = tt
Away-table end pagetable i (x ∷ l) a small n p =
    let ne = n.0 in let al = p.0 in (omega arith, Away-table end pagetable i l a small n.1 p.4)

NotIn-Away : (end a : ℕ) (l : List ℕ) → Away a l → NotIn a l
NotIn-Away end a [] w = tt
NotIn-Away end a (x ∷ l) w = let near = w.0 in ((λ e. omega arith), NotIn-Away end a l w.1)

-- The table that a walk takes from the free list.
module _ (end : ℕ) (k : Kmem) (x : ℕ) (l : List ℕ) (h : IsFreeList end k (x ∷ l)) (pte : ℕ)
    (away : Away pte (x ∷ l)) where
  abbrev pub grown : Kmem
  grown = store pte (make_pte x 0) (record { mem = zero_page x k.mem; freelist = k.mem x })

  pub kalloc-grown : kalloc k ≡ (x, record { mem = zero_page x k.mem; freelist = k.mem x })
  unfolding kalloc
  kalloc-grown = ground (arith, h.chain.0, h.chain.1)

  pub grown-IsFreeList : IsFreeList end grown l
  grown-IsFreeList =
      let (r, f, z) = kalloc_takes end k x l h in
      let f' : IsFreeList end (record { mem = zero_page x k.mem; freelist = k.mem x }) l =
        subst (λ (q : ℕ × Kmem). IsFreeList end q.1 l) kalloc-grown f in
      record {
        chain =
            Chain-update (zero_page x k.mem) (k.mem x) pte (make_pte x 0) l
              (NotIn-Away end pte l away.1) f'.chain;
        pages = f'.pages;
      }

  grown-other : (a : ℕ) → Away a (x ∷ l) → a ≢ pte → grown.mem a ≡ k.mem a
  unfolding zero_page
  grown-other a w ne = let near = w.0 in ground arith

  grown-zero : (i : ℕ) → i < 512 → is_valid (grown.mem (x + 8 * i)) ≡ false
  unfolding zero_page
  grown-zero i lt = let near = away.0 in ground arith

  pub grown-entry :
      (grown.mem pte ≡ make_pte x 0)
      × (is_valid (make_pte x 0) ≡ true)
      × (pte2pa (make_pte x 0) ≡ x)
  grown-entry =
      let al = h.pages.0 in
      let hi = h.pages.2 in
      (update_self (zero_page x k.mem) pte (make_pte x 0), ground arith, ground arith)

module _ (level pagetable va : ℕ) (k : Kmem) where
  abbrev pub entry : ℕ
  entry = pagetable + 8 * px (suc level) va

  pub walk_from-down :
      (alloc : Bool)
      → is_valid (k.mem entry) ≡ true
      → walk_from (suc level) pagetable va alloc k
        ≡ walk_from level (pte2pa (k.mem entry)) va alloc k
  unfolding walk_from
  walk_from-down alloc v = rw v refl

  pub walk_from-grown :
      (x : ℕ) (k1 : Kmem)
      → is_valid (k.mem entry) ≡ false
      → kalloc k ≡ (x, k1)
      → x ≢ 0
      → walk_from (suc level) pagetable va true k
        ≡ walk_from level x va true (store entry (make_pte x 0) k1)
  unfolding walk_from
  walk_from-grown x k1 v e ne = rw v (
      rw (ne→==_false (kalloc k).0 0 (λ z. ne (sym (ap (λ (q : ℕ × Kmem). q.0) e) ∙ z)))
        (ap (λ (q : ℕ × Kmem). walk_from level q.0 va true (store entry (make_pte q.0 0) q.1)) e))

  pub walk_from-full :
      is_valid (k.mem entry) ≡ false
      → k.freelist ≡ 0
      → (walk_from (suc level) pagetable va true k).0 ≡ 0
  unfolding walk_from kalloc
  walk_from-full v e = rw (v, e) refl

-- The walk goes on in a table that was free, where it finds no entry.
module _ (end : ℕ) (k : Kmem) (x : ℕ) (l : List ℕ) (h : IsFreeList end k (x ∷ l)) (pte va : ℕ)
    (away : Away pte (x ∷ l)) where
  abbrev pub after : Kmem
  after = grown end k x l h pte away

  pub grown-IsTable : (level : ℕ) → IsTable level x va after l
  grown-IsTable zero = tt
  grown-IsTable (suc level) = (
    h.pages.0,
    h.pages.3,
    λ v.
        absurd (
          false≢true (sym (grown-zero end k x l h pte away (px (suc level) va) (omega arith)) ∙ v)),
  )

  pub grown-NotFilled : (level a : ℕ) → Away a (x ∷ l) → NotFilled level x va after a
  grown-NotFilled zero a w = tt
  grown-NotFilled (suc level) a w =
      let near = w.0 in
      (
        λ e. omega arith,
        λ v. absurd (
            false≢true
              (sym (grown-zero end k x l h pte away (px (suc level) va) (omega arith)) ∙ v)),
      )

module _ (end va level pagetable : ℕ) (k : Kmem) (a : ℕ) where
  -- What the part of a walk below a table keeps.
  abbrev Keeps : Type 0
  Keeps =
      (p : ℕ) (k' : Kmem) (l : List ℕ)
      → IsFreeList end k' l
      → IsTable level p va k' l
      → (walk_from level p va true k').0 ≢ 0
      → Away a l
      → NotFilled level p va k' a
      → (walk_from level p va true k').1.mem a ≡ k'.mem a

  walk_from-new :
      (l : List ℕ)
      → IsFreeList end k l
      → IsTable (suc level) pagetable va k l
      → is_valid (k.mem (entry level pagetable va k)) ≡ false
      → (walk_from (suc level) pagetable va true k).0 ≢ 0
      → Away a l
      → a ≢ entry level pagetable va k
      → Keeps
      → (walk_from (suc level) pagetable va true k).1.mem a ≡ k.mem a
  walk_from-new [] f t v ne w n keeps = absurd (ne (walk_from-full level pagetable va k v f.chain))
  walk_from-new (x ∷ l) f t v ne w n keeps =
      let away : Away (entry level pagetable va k) (x ∷ l) =
        Away-table end pagetable (px (suc level) va) (x ∷ l) t.0 (omega arith) t.1 f.pages in
      let e =
        walk_from-grown level pagetable va k x _ v
          (kalloc-grown end k x l f (entry level pagetable va k) away) f.chain.1 in
      ap (λ (q : ℕ × Kmem). q.1.mem a) e
      ∙ keeps x (grown end k x l f (entry level pagetable va k) away) l
          (grown-IsFreeList end k x l f (entry level pagetable va k) away)
          (grown-IsTable end k x l f (entry level pagetable va k) va away level)
          (subst (λ (q : ℕ × Kmem). q.0 ≢ 0) e ne) w.1
          (grown-NotFilled end k x l f (entry level pagetable va k) va away level a w)
      ∙ grown-other end k x l f (entry level pagetable va k) away a w n

module _ (end va : ℕ) where
  -- A walk changes only the entries on its way and the pages that were free.
  pub walk_from-other :
      (level pagetable : ℕ) (k : Kmem) (l : List ℕ)
      → IsFreeList end k l
      → IsTable level pagetable va k l
      → (walk_from level pagetable va true k).0 ≢ 0
      → (a : ℕ) → Away a l
      → NotFilled level pagetable va k a
      → (walk_from level pagetable va true k).1.mem a ≡ k.mem a
  unfolding walk_from
  walk_from-other zero pagetable k l f t ne a w n = refl
  walk_from-other (suc level) pagetable k l f t ne a w n =
      elim (Bool-cases (is_valid (k.mem (entry level pagetable va k)))) [
        | inl v ↦
            let e = walk_from-down level pagetable va k true v in
            let ne' = subst (λ (q : ℕ × Kmem). q.0 ≢ 0) e ne in
            ap (λ (q : ℕ × Kmem). q.1.mem a) e
            ∙ walk_from-other level _ k l f (t.2 v).0 ne' a w (n.1 v)
        | inr v ↦
            walk_from-new end va level pagetable k a l f t v ne w n.0
              (λ p k' l' f' t' ne' w' n'. walk_from-other level p k' l' f' t' ne' a w' n')
      ]
