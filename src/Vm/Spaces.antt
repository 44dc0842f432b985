-- ===== src/Vm/Spaces.antt =====
-- User address spaces of kernel/vm.c, and the tables of a process in kernel/proc.c. `end` is the first
-- address after the kernel, for the test of `kfree`; `none` is a panic.
use xv7_riscv.Kalloc.{Kmem, kalloc, kfree, page_size, page_round_up}
use xv7_riscv.Vm.{maxva, is_valid, has_flag, pte2pa, pte_flags, store, walk, mappages}
use xv7_riscv.Prelude.{
  ℕ, Bool, Option, if◌then◌else◌, some, not, leb, ltb, none, false, ◌||◌, ◌==◌, ◌/◌, ◌-◌, suc, ◌&&◌,
  true, ◌%◌, ◌+◌, ◌*◌, ◌^◌, zero,
}

-- The loop of `uvm_unmap` over npages pages from page a on.
unfoldable pub unmap_from : ℕ → ℕ → ℕ → ℕ → Bool → Kmem → Option Kmem
unmap_from end zero pagetable a free k = some k
unmap_from end (suc npages) pagetable a free k = elim (walk pagetable a false k) [
  | none ↦ none
  | some (pte, k1) ↦
      let entry = k1.mem pte in
      let freed : Option Kmem = if free then kfree end (pte2pa entry) k1 else some k1 in
      if (pte == 0) || not (is_valid entry) || (pte_flags entry == 1) then none else elim freed [
        | none ↦ none
        | some k2 ↦ unmap_from end npages pagetable (a + page_size) free (store pte 0 k2)
      ]
]

unfoldable pub uvm_unmap : ℕ → ℕ → ℕ → ℕ → Bool → Kmem → Option Kmem
unfolding unmap_from
uvm_unmap end pagetable va npages free k =
    if not (va % page_size == 0) then none else unmap_from end npages pagetable va free k

-- `memmove(to, from, n)` of bytes that do not overlap
abbrev pub copy_bytes : ℕ → ℕ → ℕ → (ℕ → ℕ) → (ℕ → ℕ) → ℕ → ℕ
copy_bytes to from n src mem a = if leb to a && ltb a (to + n) then src (from + (a - to)) else mem a

-- `src` holds the sz bytes of the first program.
unfoldable pub uvm_first : ℕ → (ℕ → ℕ) → ℕ → Kmem → Option Kmem
uvm_first pagetable src sz k =
    let (page, k1) = kalloc k in
    if leb page_size sz then none else elim (mappages pagetable 0 page_size page 30 k1) [
      | none ↦ none
      | some (ok, k2) ↦ some (record k2 { mem = copy_bytes page 0 sz src k2.mem })
    ]

-- The new size, and the memory.
unfoldable pub uvm_dealloc : ℕ → ℕ → ℕ → ℕ → Kmem → Option (ℕ × Kmem)
unfolding uvm_unmap
uvm_dealloc end pagetable oldsz newsz k =
    let low = page_round_up newsz in
    let high = page_round_up oldsz in
    if leb oldsz newsz
    then some (oldsz, k)
    else if not (ltb low high)
    then some (newsz, k)
    else elim (uvm_unmap end pagetable low ((high - low) / page_size) true k) [
      | none ↦ none
      | some k1 ↦ some (newsz, k1)
    ]

-- The way out of `uvm_alloc` at page a, where the memory has run out.
abbrev pub undo : ℕ → ℕ → ℕ → ℕ → Kmem → Option (ℕ × Kmem)
undo end pagetable a oldsz k = elim (uvm_dealloc end pagetable a oldsz k) [
  | none ↦ none
  | some (sz, k1) ↦ some (0, k1)
]

-- The loop of `uvm_alloc` over the pages from page a on.
unfoldable pub alloc_from : ℕ → ℕ → ℕ → ℕ → ℕ → ℕ → ℕ → Kmem → Option (ℕ × Kmem)
unfolding uvm_dealloc
alloc_from zero end pagetable a oldsz newsz xperm k = some (newsz, k)
alloc_from (suc n) end pagetable a oldsz newsz xperm k =
    let (page, k1) = kalloc k in
    elim (ltb a newsz) [
      | false ↦ some (newsz, k)
      | true ↦ elim (page == 0) [
        | true ↦ undo end pagetable a oldsz k1
        | false ↦ elim (mappages pagetable a page_size page (18 + xperm) k1) [
          | none ↦ none
          | some (false, k2) ↦ elim (kfree end page k2) [
            | none ↦ none
            | some k3 ↦ undo end pagetable a oldsz k3
          ]
          | some (true, k2) ↦ alloc_from n end pagetable (a + page_size) oldsz newsz xperm k2
        ]
      ]
    ]

-- The new size, 0 for a failure. `xperm` has none of PTE_V, PTE_R and PTE_U.
unfoldable pub uvm_alloc : ℕ → ℕ → ℕ → ℕ → ℕ → Kmem → Option (ℕ × Kmem)
unfolding alloc_from
uvm_alloc end pagetable oldsz newsz xperm k =
    let start = page_round_up oldsz in
    if ltb newsz oldsz
    then some (oldsz, k)
    else alloc_from (newsz / page_size + 1) end pagetable start start newsz xperm k

-- `pte & (PTE_R|PTE_W|PTE_X)` is not 0.
abbrev pub is_leaf : ℕ → Bool
is_leaf pte = has_flag 1 pte || has_flag 2 pte || has_flag 3 pte

-- The loop of `freewalk` over the n entries from entry i on; `below` frees a table of the next level.
unfoldable pub free_entries : (ℕ → Kmem → Option Kmem) → ℕ → ℕ → ℕ → Kmem → Option Kmem
free_entries below zero i pagetable k = some k
free_entries below (suc n) i pagetable k =
    let a = pagetable + 8 * i in
    let pte = k.mem a in
    let keep = free_entries below n (i + 1) pagetable k in
    if is_valid pte && not (is_leaf pte)
    then elim (below (pte2pa pte) k) [
      | none ↦ none
      | some k1 ↦ free_entries below n (i + 1) pagetable (store a 0 k1)
    ]
    else if is_valid pte
    then none
    else keep

-- `freewalk`, with the levels that are left as fuel: a page table has three.
unfoldable pub freewalk : ℕ → ℕ → ℕ → Kmem → Option Kmem
unfolding free_entries
freewalk zero end pagetable k = none
freewalk (suc level) end pagetable k =
    elim (free_entries (λ (p : ℕ) (k' : Kmem). freewalk level end p k') 512 0 pagetable k) [
      | none ↦ none
      | some k1 ↦ kfree end pagetable k1
    ]

unfoldable pub uvm_free : ℕ → ℕ → ℕ → Kmem → Option Kmem
uvm_free end pagetable sz k =
    let unmapped : Option Kmem =
      if sz == 0 then some k else uvm_unmap end pagetable 0 (page_round_up sz / page_size) true k in
    elim unmapped [ none ↦ none | some k1 ↦ freewalk 3 end pagetable k1 ]

-- The loop of `uvm_copy` over the n pages from page i on; true for 0, false for -1.
unfoldable pub copy_from : ℕ → ℕ → ℕ → ℕ → ℕ → Kmem → Option (Bool × Kmem)
copy_from zero end old new i k = some (true, k)
copy_from (suc n) end old new i k = elim (walk old i false k) [
  | none ↦ none
  | some (pte, k0) ↦
      let entry = k0.mem pte in
      let (page, k1) = kalloc k0 in
      let k2 = record k1 { mem = copy_bytes page (pte2pa entry) page_size k1.mem k1.mem } in
      let err : Kmem → Option (Bool × Kmem) = λ (k' : Kmem).
        elim (uvm_unmap end new 0 (i / page_size) true k') [
          | none ↦ none
          | some k'' ↦ some (false, k'')
        ] in
      if (pte == 0) || not (is_valid entry)
      then none
      else if page == 0
      then err k1
      else elim (mappages new i page_size page (pte_flags entry) k2) [
        | none ↦ none
        | some (true, k3) ↦ copy_from n end old new (i + page_size) k3
        | some (false, k3) ↦ elim (kfree end page k3) [ none ↦ none | some k4 ↦ err k4 ]
      ]
]

unfoldable pub uvm_copy : ℕ → ℕ → ℕ → ℕ → Kmem → Option (Bool × Kmem)
unfolding copy_from
uvm_copy end old new sz k = copy_from (page_round_up sz / page_size) end old new 0 k

-- `*pte &= ~PTE_U`
unfoldable pub uvm_clear : ℕ → ℕ → Kmem → Option Kmem
uvm_clear pagetable va k = elim (walk pagetable va false k) [
  | none ↦ none
  | some (pte, k1) ↦
      let entry = k1.mem pte in
      if pte == 0
      then none
      else some (store pte (if has_flag 4 entry then entry - 16 else entry) k1)
]

-- The table of a process, 0 for a failure; TRAMPOLINE is the last page and TRAPFRAME the one below.
unfoldable pub proc_pagetable : ℕ → ℕ → ℕ → Kmem → Option (ℕ × Kmem)
unfolding uvm_free
proc_pagetable end trampoline trapframe k =
    let (pagetable, k1) = kalloc k in
    let fail : Kmem → Option (ℕ × Kmem) = λ (k' : Kmem). elim (uvm_free end pagetable 0 k') [
      | none ↦ none
      | some k'' ↦ some (0, k'')
    ] in
    if pagetable == 0
    then some (0, k1)
    else elim (mappages pagetable (maxva - page_size) page_size trampoline 10 k1) [
      | none ↦ none
      | some (false, k2) ↦ fail k2
      | some (true, k2) ↦
          elim (mappages pagetable (maxva - 2 * page_size) page_size trapframe 6 k2) [
            | none ↦ none
            | some (true, k3) ↦ some (pagetable, k3)
            | some (false, k3) ↦ elim (uvm_unmap end pagetable (maxva - page_size) 1 false k3) [
              | none ↦ none
              | some k4 ↦ fail k4
            ]
          ]
    ]

unfoldable pub proc_freepagetable : ℕ → ℕ → ℕ → Kmem → Option Kmem
unfolding uvm_free
proc_freepagetable end pagetable sz k =
    elim (uvm_unmap end pagetable (maxva - page_size) 1 false k) [
      | none ↦ none
      | some k1 ↦ elim (uvm_unmap end pagetable (maxva - 2 * page_size) 1 false k1) [
        | none ↦ none
        | some k2 ↦ uvm_free end pagetable sz k2
      ]
    ]

-- `growproc` by an `int` n: the new size, `none` inside for -1.
unfoldable pub growproc : ℕ → ℕ → ℕ → ℕ → Kmem → Option (Option ℕ × Kmem)
unfolding uvm_alloc
growproc end pagetable sz n k =
    if n == 0
    then some (some sz, k)
    else if ltb n (2 ^ 31)
    then elim (uvm_alloc end pagetable sz (sz + n) 4 k) [
      | none ↦ none
      | some (sz', k1) ↦ some (if sz' == 0 then none else some sz', k1)
    ]
    else elim (uvm_dealloc end pagetable sz ((sz + 2 ^ 64 - (2 ^ 32 - n)) % 2 ^ 64) k) [
      | none ↦ none
      | some (sz', k1) ↦ some (some sz', k1)
    ]
