-- ===== src/Kalloc.antt =====
-- kernel/kalloc.c. The allocator's lock makes each function one atomic step.
mod Tests
pub mod Boot
pub mod FreeList
use xv7_riscv.Prelude.{
  ℕ, zero, suc, ◌+◌, ◌-◌, ◌*◌, ◌/◌, ◌%◌, Bool, ◌&&◌, ◌||◌, not, ltb, leb, ◌==◌, if◌then◌else◌,
  update, Option, none, some,
}

-- PGSIZE of kernel/riscv.h, PHYSTOP of kernel/memlayout.h
abbrev pub page_size : ℕ
page_size = 4096

abbrev pub phystop : ℕ
phystop = 0x88000000

-- `mem a` is the 64-bit word at address a, and its lowest byte the byte at a: the machine is little-
-- endian. Page tables and free pages are read and written by the word, at multiples of 8; what the
-- kernel copies for the user is by the byte, one for each address. The `next` of a free page is its
-- first word. The null pointer is 0.
pub record Kmem : Type 0 where
  pub mem : ℕ → ℕ
  pub freelist : ℕ

-- What `p->next = kmem.freelist; kmem.freelist = p` does.
unfoldable pub push : ℕ → Kmem → Kmem
push p k = record { mem = update k.mem p k.freelist; freelist = p }

-- PGROUNDUP
abbrev pub page_round_up : ℕ → ℕ
page_round_up a = (a + (page_size - 1)) / page_size * page_size

-- `p` is a `struct page *`, and a `struct page` has eight bytes: `p + PGSIZE` is PGSIZE * 8 bytes on.
abbrev pub stride : ℕ
stride = page_size * 8

-- The loop of `kalloc_init`, for at most the given number of rounds.
unfoldable pub free_from : ℕ → ℕ → Kmem → Kmem
unfolding push
free_from zero p k = k
free_from (suc fuel) p k =
    let rest = free_from fuel (p + stride) (push p k) in
    if leb (p + stride) phystop then rest else k

-- `end` is the first address after the kernel.
unfoldable pub kalloc_init : ℕ → Kmem → Kmem
kalloc_init end k = free_from (phystop / stride) (page_round_up end) k

-- `none` is the panic.
unfoldable pub kfree : ℕ → ℕ → Kmem → Option Kmem
unfolding push
kfree end pa k =
    if not (pa % page_size == 0) || ltb pa end || leb phystop pa then none else some (push pa k)

-- `memset(r, 0, PGSIZE)`
unfoldable pub zero_page : ℕ → (ℕ → ℕ) → ℕ → ℕ
zero_page r mem a = if leb r a && ltb a (r + page_size) then 0 else mem a

-- The page is zeroed whether or not there is one; a store through the null pointer is taken to return.
unfoldable pub kalloc : Kmem → ℕ × Kmem
unfolding zero_page
kalloc k =
    let r = k.freelist in
    (
      r,
      record {
        mem = zero_page r k.mem;
        freelist = if r == 0 then k.freelist else k.mem k.freelist;
      },
    )
