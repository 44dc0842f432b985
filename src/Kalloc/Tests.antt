-- ===== src/Kalloc/Tests.antt =====
-- Runs of kernel/kalloc.c.
use xv7_riscv.Prelude.{ℕ, [], ◌∷◌, update, arith, ◌-◌, ◌/◌, refl, ◌*◌}
use xv7_riscv.Kalloc.{Kmem, kalloc_init, page_round_up, phystop}
use xv7_riscv.Kalloc.FreeList.{IsFreeList}
use xv7_riscv.Kalloc.Boot.{strides, kalloc_init_pages}

abbrev blank : Kmem
blank = record { mem = λ _. 0; freelist = 0 }

-- A kernel that ends a little before the last 64 KB of memory.
abbrev late_end : ℕ
late_end = 0x87ff0123 - 4096

kalloc_init_pages_example :
    IsFreeList late_end
      (kalloc_init late_end blank)
      (strides ((phystop - page_round_up late_end) / (8 * 4096)) (page_round_up late_end) [])
kalloc_init_pages_example = kalloc_init_pages late_end blank (omega arith) (omega arith) refl

abbrev two_pages : Kmem
two_pages = record { mem = update (λ _. 0) 0x87ff1000 0x87ff2000; freelist = 0x87ff1000 }

two_pages-IsFreeList : IsFreeList 0x80000001 two_pages (0x87ff1000 ∷ 0x87ff2000 ∷ [])
two_pages-IsFreeList = omega arith
