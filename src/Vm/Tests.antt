-- ===== src/Vm/Tests.antt =====
-- Runs of kernel/vm.c.
use xv7_riscv.Kalloc.{Kmem, kalloc}
use xv7_riscv.Kalloc.FreeList.{IsFreeList}
use xv7_riscv.Vm.{walk, walk_from}
use xv7_riscv.Vm.Walks.{IsTable}
use xv7_riscv.Vm.Mapped.{walk_again}
use xv7_riscv.Vm.Copyin.{copyin_str}
use xv7_riscv.Vm.Copyin.Strings.{CopiedIn, copyin_str_lem}
use xv7_riscv.Prelude.{update, ◌∷◌, ℕ, false, [], true, ◌≡◌, arith, some, refl}

abbrev two_pages : Kmem
two_pages = record { mem = update (λ _. 0) 0x87ff1000 0x87ff2000; freelist = 0x87ff1000 }

two_pages-IsFreeList : IsFreeList 0x80000001 two_pages (0x87ff1000 ∷ 0x87ff2000 ∷ [])
two_pages-IsFreeList = omega arith

-- An empty page table.
abbrev root : ℕ
root = 0x87ff5000

root-IsTable : IsTable 2 root 0 two_pages (0x87ff1000 ∷ 0x87ff2000 ∷ [])
root-IsTable =
    (refl, (λ e. absurd (omega arith), (λ e. absurd (omega arith), tt)), λ v. absurd (ground arith))

abbrev walked : ℕ × Kmem
walked = walk_from 2 root 0 true two_pages

walk_again_example : walk root 0 false walked.1 ≡ some (0x87ff2000, walked.1)
unfolding walk walk_from kalloc
walk_again_example =
    walk_again 0x80000001 root 0 0x87ff2000 two_pages walked.1 (0x87ff1000 ∷ 0x87ff2000 ∷ [])
      two_pages-IsFreeList root-IsTable refl (λ e. absurd (omega arith))

-- The page at address 0 is the frame 0x87ff3000, which has "hi" from byte 8 on; the string takes a word
-- for each byte, of which the lowest byte counts.
abbrev mapped : Kmem
mapped = record {
  mem =
      update
        (update
          (update (update (update (λ _. 0) 0x87ff5000 0x21ffc401) 0x87ff1000 0x21ffc801) 0x87ff2000
            0x21ffcc11)
          0x87ff3008 0x168)
        0x87ff3009 105;
  freelist = 0;
}

copyin_str_lem_example :
    CopiedIn root 8 mapped
      (λ _. 0)
      (copyin_str root (λ _. 0) 8 16 mapped).1
      0
      16
      (copyin_str root (λ _. 0) 8 16 mapped).0
copyin_str_lem_example = copyin_str_lem root (λ _. 0) 8 16 mapped

copyin_runs : (copyin_str root (λ _. 0) 8 16 mapped).0 ≡ true
unfolding copyin_str xv7_riscv.Vm.Copyin.copyin_from xv7_riscv.Vm.walkaddr
    xv7_riscv.Vm.Copyin.copy_string
copyin_runs = refl

copies_h : (copyin_str root (λ _. 0) 8 16 mapped).1 0 ≡ 104
unfolding copyin_str xv7_riscv.Vm.Copyin.copyin_from xv7_riscv.Vm.walkaddr
    xv7_riscv.Vm.Copyin.copy_string
copies_h = refl
