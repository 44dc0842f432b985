-- ===== src/Vm/Copyin.antt =====
-- The copies between kernel and user memory of kernel/vm.c. The kernel's side is a buffer of its own.
pub mod Strings
use xv7_riscv.Kalloc.{Kmem, page_size}
use xv7_riscv.Vm.{walkaddr, page_round_down}
use xv7_riscv.Vm.Spaces.{copy_bytes}
use xv7_riscv.Prelude.{
  ℕ, min, Bool, true, false, ◌-◌, suc, ◌+◌, update, if◌then◌else◌, ◌==◌, zero, ◌%◌, ◌^◌,
}

-- The bytes of a round: to the end of the page, or of what is left.
abbrev pub span : ℕ → ℕ → ℕ
span va len = min (page_size - (va - page_round_down va)) len

-- The byte at address p.
abbrev pub byte_at : (ℕ → ℕ) → ℕ → ℕ
byte_at mem p = mem p % 2 ^ 8

-- The loop of `copy_to_user`, from byte `from` of the buffer on; true for 0. Each round copies a byte
-- at least, so that len rounds are enough.
unfoldable pub copy_to_from : ℕ → ℕ → ℕ → (ℕ → ℕ) → ℕ → ℕ → Kmem → Bool × Kmem
copy_to_from zero pagetable dstva src from len k = (true, k)
copy_to_from (suc fuel) pagetable dstva src from len k =
    let va0 = page_round_down dstva in
    let pa0 = walkaddr pagetable va0 k in
    let n = span dstva len in
    let k1 = record k { mem = copy_bytes (pa0 + (dstva - va0)) from n src k.mem } in
    let rest = copy_to_from fuel pagetable (va0 + page_size) src (from + n) (len - n) k1 in
    if len == 0 then (true, k) else if pa0 == 0 then (false, k) else rest

unfoldable pub copy_to_user : ℕ → ℕ → (ℕ → ℕ) → ℕ → Kmem → Bool × Kmem
unfolding copy_to_from
copy_to_user pagetable dstva src len k = copy_to_from len pagetable dstva src 0 len k

unfoldable pub copy_from_from : ℕ → ℕ → (ℕ → ℕ) → ℕ → ℕ → ℕ → Kmem → Bool × (ℕ → ℕ)
copy_from_from zero pagetable dst to srcva len k = (true, dst)
copy_from_from (suc fuel) pagetable dst to srcva len k =
    let va0 = page_round_down srcva in
    let pa0 = walkaddr pagetable va0 k in
    let n = span srcva len in
    let dst1 = copy_bytes to (pa0 + (srcva - va0)) n (byte_at k.mem) dst in
    let rest = copy_from_from fuel pagetable dst1 (to + n) (va0 + page_size) (len - n) k in
    if len == 0 then (true, dst) else if pa0 == 0 then (false, dst) else rest

unfoldable pub copy_from_user : ℕ → (ℕ → ℕ) → ℕ → ℕ → Kmem → Bool × (ℕ → ℕ)
unfolding copy_from_from
copy_from_user pagetable dst srcva len k = copy_from_from len pagetable dst 0 srcva len k

-- The inner loop of `copyin_str`, n bytes from address p on: whether it met the null byte.
unfoldable pub copy_string : ℕ → ℕ → ℕ → (ℕ → ℕ) → (ℕ → ℕ) → Bool × (ℕ → ℕ)
copy_string zero p to mem dst = (false, dst)
copy_string (suc n) p to mem dst =
    let rest = copy_string n (p + 1) (to + 1) mem (update dst to (byte_at mem p)) in
    if byte_at mem p == 0 then (true, update dst to 0) else rest

unfoldable pub copyin_from : ℕ → ℕ → (ℕ → ℕ) → ℕ → ℕ → ℕ → Kmem → Bool × (ℕ → ℕ)
copyin_from zero pagetable dst to srcva max k = (false, dst)
copyin_from (suc fuel) pagetable dst to srcva max k =
    let va0 = page_round_down srcva in
    let pa0 = walkaddr pagetable va0 k in
    let n = span srcva max in
    let (null, dst1) = copy_string n (pa0 + (srcva - va0)) to k.mem dst in
    let rest = copyin_from fuel pagetable dst1 (to + n) (va0 + page_size) (max - n) k in
    if max == 0
    then (false, dst)
    else if pa0 == 0
    then (false, dst)
    else if null
    then (true, dst1)
    else rest

unfoldable pub copyin_str : ℕ → (ℕ → ℕ) → ℕ → ℕ → Kmem → Bool × (ℕ → ℕ)
copyin_str pagetable dst srcva max k = copyin_from max pagetable dst 0 srcva max k
