-- ===== src/Vm.antt =====
-- Page tables of kernel/vm.c in the memory of the page allocator. An entry is a 64-bit word at its
-- address, and 0 is the null pointer.
pub mod Copyin
pub mod Mapped
pub mod Spaces
pub mod Walks
mod Tests
use xv7_riscv.Kalloc.{Kmem, kalloc, page_size}
use xv7_riscv.Prelude.{
  ℕ, ◌^◌, ◌/◌, ◌%◌, Bool, ◌+◌, update, false, Option, List, ◌*◌, ◌==◌, if◌then◌else◌, none, ◌-◌,
  ◌∷◌, some, suc, leb, [], not, ◌||◌, true, zero,
}

-- MAXVA
abbrev pub maxva : ℕ
maxva = 2 ^ 38

-- PX: the index into the table of this level
abbrev pub px : ℕ → ℕ → ℕ
px level va = va / 2 ^ (12 + 9 * level) % 512

-- PGROUNDDOWN
abbrev pub page_round_down : ℕ → ℕ
page_round_down a = a / page_size * page_size

-- PTE2PA, PA2PTE and PTE_FLAGS
abbrev pub pte2pa : ℕ → ℕ
pte2pa pte = pte / 1024 * 4096 % 2 ^ 64

abbrev pub pa2pte : ℕ → ℕ
pa2pte pa = pa / 4096 * 1024

abbrev pub pte_flags : ℕ → ℕ
pte_flags pte = pte % 1024

-- PTE_V, PTE_R, PTE_W, PTE_X and PTE_U, by the number of the bit
abbrev pub has_flag : ℕ → ℕ → Bool
has_flag bit pte = pte / 2 ^ bit % 2 == 1

abbrev pub is_valid : ℕ → Bool
is_valid pte = pte % 2 == 1

-- `PA2PTE(pa) | perm | PTE_V`, for permissions below 1024
abbrev pub make_pte : ℕ → ℕ → ℕ
make_pte pa perm = pa2pte pa + (if perm % 2 == 1 then perm else perm + 1)

abbrev pub store : ℕ → ℕ → Kmem → Kmem
store a v k = record k { mem = update k.mem a v }

-- The loop of `walk` at a table of this level, and its last line.
unfoldable pub walk_from : ℕ → ℕ → ℕ → Bool → Kmem → ℕ × Kmem
walk_from zero pagetable va alloc k = (pagetable + 8 * px 0 va, k)
walk_from (suc level) pagetable va alloc k =
    let pte = pagetable + 8 * px (suc level) va in
    let (page, k1) = kalloc k in
    let down = walk_from level (pte2pa (k.mem pte)) va alloc k in
    let grown = walk_from level page va alloc (store pte (make_pte page 0) k1) in
    if is_valid (k.mem pte)
    then down
    else if not alloc
    then (0, k)
    else if page == 0
    then (0, k1)
    else grown

-- `none` is the panic.
unfoldable pub walk : ℕ → ℕ → Bool → Kmem → Option (ℕ × Kmem)
walk pagetable va alloc k = if leb maxva va then none else some (walk_from 2 pagetable va alloc k)

unfoldable pub walkaddr : ℕ → ℕ → Kmem → ℕ
unfolding walk_from
walkaddr pagetable va k =
    let pte = (walk_from 2 pagetable va false k).0 in
    if leb maxva va
    then 0
    else if (pte == 0) || not (is_valid (k.mem pte)) || not (has_flag 4 (k.mem pte))
    then 0
    else pte2pa (k.mem pte)

-- The loop of `mappages` from page a on; true for 0, false for -1, and `none` for a panic.
unfoldable pub mappages_from : ℕ → ℕ → ℕ → ℕ → ℕ → ℕ → Kmem → Option (Bool × Kmem)
mappages_from zero pagetable a last pa perm k = none
mappages_from (suc fuel) pagetable a last pa perm k = elim (walk pagetable a true k) [
  | none ↦ none
  | some (pte, k1) ↦
      let k2 = store pte (make_pte pa perm) k1 in
      let rest = mappages_from fuel pagetable (a + page_size) last (pa + page_size) perm k2 in
      if pte == 0
      then some (false, k1)
      else if is_valid (k1.mem pte)
      then none
      else if a == last
      then some (true, k2)
      else rest
]

-- No page from MAXVA on is walked to, so that the rounds are enough.
unfoldable pub mappages : ℕ → ℕ → ℕ → ℕ → ℕ → Kmem → Option (Bool × Kmem)
unfolding mappages_from
mappages pagetable va size pa perm k =
    let last = page_round_down ((va + size + 2 ^ 64 - 1) % 2 ^ 64) in
    if size == 0
    then none
    else mappages_from (maxva / page_size + 1) pagetable (page_round_down va) last pa perm k

unfoldable pub kvm_map : ℕ → ℕ → ℕ → ℕ → ℕ → Kmem → Option Kmem
unfolding mappages
kvm_map kpgtbl va pa sz perm k = elim (mappages kpgtbl va sz pa perm k) [
  | none ↦ none
  | some (ok, k1) ↦ if ok then some k1 else none
]

-- The maps of `kvm_make` before those of the stacks: address, physical address, size and permissions,
-- with PTE_R, PTE_W and PTE_X of value 2, 4 and 8.
abbrev pub kernel_maps : ℕ → ℕ → List (ℕ × ℕ × ℕ × ℕ)
kernel_maps etext trampoline =
    (0x10000000, 0x10000000, 4096, 6)
    ∷ (0x10001000, 0x10001000, 4096, 6)
    ∷ (0x0c000000, 0x0c000000, 0x400000, 6)
    ∷ (0x80000000, 0x80000000, etext - 0x80000000, 10)
    ∷ (etext, etext, 0x88000000 - etext, 6)
    ∷ (maxva - 4096, trampoline, 4096, 10)
    ∷ []

unfoldable pub map_all : ℕ → List (ℕ × ℕ × ℕ × ℕ) → Kmem → Option Kmem
unfolding kvm_map
map_all kpgtbl [] k = some k
map_all kpgtbl ((va, pa, sz, perm) ∷ maps) k = elim (kvm_map kpgtbl va pa sz perm k) [
  | none ↦ none
  | some k1 ↦ map_all kpgtbl maps k1
]

-- `proc_mapstacks` over the k processes from process i on; a stack is below a guard page.
unfoldable pub mapstacks_from : ℕ → ℕ → ℕ → Kmem → Option Kmem
unfolding kvm_map
mapstacks_from zero i kpgtbl k = some k
mapstacks_from (suc n) i kpgtbl k =
    let (page, k1) = kalloc k in
    if page == 0
    then none
    else elim (kvm_map kpgtbl (maxva - 4096 - (i + 1) * 2 * page_size) page page_size 6 k1) [
      | none ↦ none
      | some k2 ↦ mapstacks_from n (i + 1) kpgtbl k2
    ]

unfoldable pub kvm_make : ℕ → ℕ → Kmem → Option (ℕ × Kmem)
unfolding map_all mapstacks_from
kvm_make etext trampoline k =
    let (kpgtbl, k1) = kalloc k in
    elim (map_all kpgtbl (kernel_maps etext trampoline) k1) [
      | none ↦ none
      | some k2 ↦ elim (mapstacks_from 64 0 kpgtbl k2) [ none ↦ none | some k3 ↦ some (kpgtbl, k3) ]
    ]
