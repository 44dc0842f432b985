-- ===== src/File/Tests.antt =====
-- Runs of kernel/file.c.
use xv7_riscv.File.{
  File, Files, fd_none, file_alloc, sys_dup, open_file, find_free, fdalloc, fdalloc_from,
  open_alloc, open_fd,
}
use xv7_riscv.File.Pipes.{sys_pipe}
use xv7_riscv.File.{inherit_from}
use xv7_riscv.File.Counts.{total, holds}
use xv7_riscv.File.Calls.{
  opens, dups, forks, pipes, Calls, start, later, refs_counted, file_alloc-unheld,
}
use xv7_riscv.Prelude.{ℕ, false, arith, ◌≡◌, ◌<◌, ◌≢◌, ◌+◌, refl, true}

abbrev closed : File
closed = record {
  type = fd_none;
  ref = 0;
  readable = false;
  writable = false;
  pipe = 0;
  ip = 0;
  off = 0;
  major = 0;
}

abbrev nothing_open : Files
nothing_open = record { files = λ _. closed; ofile = λ _ _. 0 }

none_held : (f : ℕ) → f < 100 → (nothing_open.files f).ref ≡ total 64 nothing_open.ofile (f + 1)
unfolding total holds
none_held f lt = ground arith

abbrev opened : Files
opened = (open_file 1 nothing_open).1

abbrev doubled : Files
doubled = (sys_dup 1 0 opened).1

after_dup : Calls nothing_open doubled
after_dup = later (later start (opens 1 (omega arith))) (dups 1 0 (omega arith))

refs_counted_example : (doubled.files 0).ref ≡ total 64 doubled.ofile 1
refs_counted_example = refs_counted none_held after_dup 0 (omega arith)

counted_twice : (doubled.files 0).ref ≡ 2
unfolding sys_dup open_file open_alloc open_fd file_alloc find_free fdalloc fdalloc_from
counted_twice = refl

file_alloc-unheld_example :
    (0 < 100)
    × (((file_alloc nothing_open.files).1 0).ref ≡ 1)
    × ((p fd : ℕ) → p < 64 → fd < 16 → nothing_open.ofile p fd ≢ 1)
unfolding file_alloc find_free
file_alloc-unheld_example = file_alloc-unheld nothing_open none_held 0 refl

opened_held : (f : ℕ) → f < 100 → (opened.files f).ref ≡ total 64 opened.ofile (f + 1)
opened_held f lt =
    refs_counted {s = nothing_open} none_held (later start (opens 1 (omega arith))) f lt

none_of_2 : (i : ℕ) → doubled.ofile 2 i ≡ 0
unfolding sys_dup open_file open_alloc open_fd file_alloc find_free fdalloc fdalloc_from
none_of_2 i = refl

-- A fork of process 1 gives process 2 its descriptors; the files of a pipe are given back where there is
-- no page for it.
forked_then_piped : Calls nothing_open (sys_pipe false 0 true 2 (inherit_from 16 0 1 2 doubled)).1
forked_then_piped =
    later (later after_dup (forks 1 2 (omega arith) (λ i a b. none_of_2 i)))
      (pipes false 0 true 2 (omega arith))
