-- ===== src/Vm/Mapped.antt =====
-- A walk that makes room for an entry, and a later walk that looks for it.
use xv7_riscv.Kalloc.{Kmem}
use xv7_riscv.Kalloc.FreeList.{IsFreeList}
use xv7_riscv.Vm.{walk, walk_from, px, is_valid, pte2pa, maxva}
use xv7_riscv.Vm.Walks.{
  Away, IsTable, Away-table, entry, walk_from-down, walk_from-grown, walk_from-full,
  walk_from-other, kalloc-grown, grown, grown-IsFreeList, grown-IsTable, grown-NotFilled,
  grown-entry,
}
use xv7_riscv.Prelude.{
  ℕ, ◌≡◌, List, true, suc, false, ◌≢◌, some, ap, subst, ◌∷◌, Bool-cases, dec_lt, ◌∙◌, sym, arith,
  inl, inr, not_le→leb, [], refl, zero, Bool, ◌<◌, ◌≤◌, none, le→leb,
}

module _ (va level pagetable : ℕ) where
  -- The entry of this table is the same after what happens below it.
  down-again :
      (k k' : Kmem) (page r : ℕ)
      → k'.mem (entry level pagetable va k) ≡ k.mem (entry level pagetable va k)
      → is_valid (k.mem (entry level pagetable va k)) ≡ true
      → pte2pa (k.mem (entry level pagetable va k)) ≡ page
      → walk_from level page va false k' ≡ (r, k')
      → walk_from (suc level) pagetable va false k' ≡ (r, k')
  down-again k k' page r same v at again =
      walk_from-down level pagetable va k' false (ap is_valid same ∙ v)
      ∙ ap (λ (p : ℕ). walk_from level p va false k') (ap pte2pa same ∙ at)
      ∙ again

module _ (end va level pagetable : ℕ) (k : Kmem) where
  -- What is known of the part of a walk below a table.
  abbrev Again : Type 0
  Again =
      (p : ℕ) (k' : Kmem) (l : List ℕ)
      → IsFreeList end k' l
      → IsTable level p va k' l
      → (walk_from level p va true k').0 ≢ 0
      → walk_from level p va false (walk_from level p va true k').1 ≡ walk_from level p va true k'

  walk_from-old :
      (l : List ℕ)
      → IsFreeList end k l
      → IsTable (suc level) pagetable va k l
      → is_valid (k.mem (entry level pagetable va k)) ≡ true
      → (walk_from (suc level) pagetable va true k).0 ≢ 0
      → Again
      → walk_from (suc level) pagetable va false (walk_from (suc level) pagetable va true k).1
        ≡ walk_from (suc level) pagetable va true k
  walk_from-old l f t v ne again =
      let page : ℕ = pte2pa (k.mem (entry level pagetable va k)) in
      let e : walk_from (suc level) pagetable va true k ≡ walk_from level page va true k =
        walk_from-down level pagetable va k true v in
      let ne' = subst (λ (q : ℕ × Kmem). q.0 ≢ 0) e ne in
      let (lower, apart) = t.2 v in
      subst (λ (q : ℕ × Kmem). walk_from (suc level) pagetable va false q.1 ≡ q) (sym e)
        (down-again va level pagetable k (walk_from level page va true k).1 page
          (walk_from level page va true k).0
          (walk_from-other end va level page k l f lower ne' (entry level pagetable va k)
            (Away-table end pagetable (px (suc level) va) l t.0 (omega arith) t.1 f.pages) apart)
          v refl (again page k l f lower ne'))

  walk_from-fresh :
      (l : List ℕ)
      → IsFreeList end k l
      → IsTable (suc level) pagetable va k l
      → is_valid (k.mem (entry level pagetable va k)) ≡ false
      → (walk_from (suc level) pagetable va true k).0 ≢ 0
      → Again
      → walk_from (suc level) pagetable va false (walk_from (suc level) pagetable va true k).1
        ≡ walk_from (suc level) pagetable va true k
  walk_from-fresh [] f t v ne again = absurd (ne (walk_from-full level pagetable va k v f.chain))
  walk_from-fresh (x ∷ l) f t v ne again =
      let pte : ℕ = entry level pagetable va k in
      let away : Away pte (x ∷ l) =
        Away-table end pagetable (px (suc level) va) (x ∷ l) t.0 (omega arith) t.1 f.pages in
      let k1 : Kmem = grown end k x l f pte away in
      let e : walk_from (suc level) pagetable va true k ≡ walk_from level x va true k1 =
        walk_from-grown level pagetable va k x _ v (kalloc-grown end k x l f pte away) f.chain.1 in
      let ne' = subst (λ (q : ℕ × Kmem). q.0 ≢ 0) e ne in
      let free : IsFreeList end k1 l = grown-IsFreeList end k x l f pte away in
      let lower : IsTable level x va k1 l = grown-IsTable end k x l f pte va away level in
      let (stored, valid, at) = grown-entry end k x l f pte away in
      subst (λ (q : ℕ × Kmem). walk_from (suc level) pagetable va false q.1 ≡ q) (sym e)
        (down-again va level pagetable k1 (walk_from level x va true k1).1 x
          (walk_from level x va true k1).0
          (walk_from-other end va level x k1 l free lower ne' pte away.1
            (grown-NotFilled end k x l f pte va away level pte away))
          (ap is_valid stored ∙ valid) (ap pte2pa stored ∙ at) (again x k1 l free lower ne'))

module _ (end va : ℕ) where
  walk_from-again :
      (level pagetable : ℕ) (k : Kmem) (l : List ℕ)
      → IsFreeList end k l
      → IsTable level pagetable va k l
      → (walk_from level pagetable va true k).0 ≢ 0
      → walk_from level pagetable va false (walk_from level pagetable va true k).1
        ≡ walk_from level pagetable va true k
  unfolding walk_from
  walk_from-again zero pagetable k l f t ne = refl
  walk_from-again (suc level) pagetable k l f t ne =
      elim (Bool-cases (is_valid (k.mem (entry level pagetable va k)))) [
        | inl v ↦
            walk_from-old end va level pagetable k l f t v ne
              (λ p k' l' f' t' ne'. walk_from-again level p k' l' f' t' ne')
        | inr v ↦
            walk_from-fresh end va level pagetable k l f t v ne
              (λ p k' l' f' t' ne'. walk_from-again level p k' l' f' t' ne')
      ]

module _ (pagetable va : ℕ) (alloc : Bool) (k : Kmem) where
  walk-inside : va < maxva → walk pagetable va alloc k ≡ some (walk_from 2 pagetable va alloc k)
  unfolding walk
  walk-inside lt = rw (not_le→leb maxva va (omega arith)) refl

  walk-outside : maxva ≤ va → walk pagetable va alloc k ≡ none
  unfolding walk
  walk-outside le = rw (le→leb maxva va le) refl

-- If `walk` with `alloc` returns an entry, then on the memory that it leaves a walk that may not allocate
-- returns the same entry and changes nothing. The free list is one, and the tables on the way are
-- aligned pages that are not free and of which none is below itself.
pub walk_again :
    (end pagetable va pte : ℕ) (k k' : Kmem) (l : List ℕ)
    → IsFreeList end k l
    → IsTable 2 pagetable va k l
    → walk pagetable va true k ≡ some (pte, k')
    → pte ≢ 0
    → walk pagetable va false k' ≡ some (pte, k')
walk_again end pagetable va pte k k' l f t e ne = elim (dec_lt va maxva) [
  | no out ↦ absurd (ground (arith, sym (walk-outside pagetable va true k (omega arith)) ∙ e))
  | yes inside ↦
      let is : walk_from 2 pagetable va true k ≡ (pte, k') =
        cc (walk-inside pagetable va true k inside, e) in
      walk-inside pagetable va false k' inside
      ∙ ap some (
          subst (λ (q : ℕ × Kmem). walk_from 2 pagetable va false q.1 ≡ q) is
            (walk_from-again end va 2 pagetable k l f t
              (subst (λ (q : ℕ × Kmem). q.0 ≢ 0) (sym is) ne)))
]
