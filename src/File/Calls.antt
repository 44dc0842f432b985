-- ===== src/File/Calls.antt =====
-- The calls of processes on the file table, and what the counts give them.
use xv7_riscv.File.{
  Files, find_free, file_alloc, file_close, argfd, sys_dup, sys_close, open_file, fill_file,
  nothing, closing, nfile,
}
use xv7_riscv.File.Counts.{total, total-slot, total_le, total-at}
use xv7_riscv.File.Pipes.{sys_pipe}
use xv7_riscv.File.Piped.{sys_pipe-Counted}
use xv7_riscv.File.Families.{EmptyFrom, inherit_from-Counted, drop_from-Counted}
use xv7_riscv.Proc.{nofile}
use xv7_riscv.File.{inherit_from, drop_from}
use xv7_riscv.Prelude.{
  ℕ, ◌<◌, ◌≡◌, some, ◌+◌, arith, Option-cases, Bool, ◌≢◌, if◌then◌else◌, inl, ◌==◌, inr,
}
use xv7_riscv.File.References.{
  Counted, find_free-found, argfd-found, sys_dup-Counted, sys_close-Counted, open_file-Counted,
  fill_file-Counted,
}

-- What `sys_dup`, `sys_close`, `sys_open`, `sys_pipe`, `fork` and `exit` do to the files and the descriptors, by any
-- process. The child of a `fork` has no descriptor yet.
pub data Call (s : Files) : Files → Type 0 where
  dups : (me fd : ℕ) → me < 64 → Call s (sys_dup me fd s).1
  closes : (me fd : ℕ) → me < 64 → Call s (sys_close me fd s).1
  opens : (me : ℕ) → me < 64 → Call s (open_file me s).1
  forks : (me np : ℕ) → np < 64 → EmptyFrom 0 np s → Call s (inherit_from nofile 0 me np s)
  exits : (me : ℕ) → me < 64 → Call s (drop_from nofile 0 me s)
  pipes :
      (page : Bool) (pi : ℕ) (copied : Bool) (me : ℕ)
      → me < 64
      → Call s (sys_pipe page pi copied me s).1
  fills :
      (f : ℕ) (device : Bool) (major ip omode : ℕ)
      → Call s (record s { files = fill_file f device major ip omode s.files })

pub data Calls (s : Files) : Files → Type 0 where
  start : Calls s s
  later : {t u : Files} → Calls s t → Call t u → Calls s u

Call-Counted : {s t : Files} → Call s t → Counted s → Counted t
Call-Counted {s} (dups me fd lt) h = sys_dup-Counted s h me lt fd
Call-Counted {s} (closes me fd lt) h = sys_close-Counted s h me lt fd
Call-Counted {s} (opens me lt) h = open_file-Counted s h me lt
Call-Counted {s} (forks me np lt e) h = inherit_from-Counted me np lt nofile 0 s (omega arith) e h
Call-Counted {s} (exits me lt) h = drop_from-Counted me lt nofile 0 s (omega arith) h
Call-Counted {s} (pipes page pi copied me lt) h = sys_pipe-Counted page pi copied me s lt h
Call-Counted {s} (fills f device major ip omode) h =
    fill_file-Counted s h 0 (omega arith) f device major ip omode

-- Whatever calls of `sys_dup`, `sys_close`, `sys_open`, `sys_pipe`, `fork` and `exit` the processes make,
-- in any order, if each file was counted once for each descriptor that held it at the start, it is so at the
-- end.
pub refs_counted :
    {s t : Files}
    → ((f : ℕ) → f < 100 → (s.files f).ref ≡ total 64 s.ofile (f + 1))
    → Calls s t
    → (f : ℕ) → f < 100
    → (t.files f).ref ≡ total 64 t.ofile (f + 1)
unfolding Counted
refs_counted {s} h r = go r
  where
    go : {t : Files} → Calls s t → Counted t
    go start = h
    go (later r c) = Call-Counted c (go r)

-- Where the counts are right, `file_alloc` returns, if anything, a file of the table that no descriptor
-- of any process holds, and makes its count 1.
pub file_alloc-unheld :
    (s : Files)
    → ((f : ℕ) → f < 100 → (s.files f).ref ≡ total 64 s.ofile (f + 1))
    → (f : ℕ) → (file_alloc s.files).0 ≡ some f
    → (f < 100)
      × (((file_alloc s.files).1 f).ref ≡ 1)
      × ((p fd : ℕ) → p < 64 → fd < 16 → s.ofile p fd ≢ f + 1)
unfolding file_alloc
file_alloc-unheld s h f e = elim (Option-cases (find_free nfile 0 s.files)) [
  | inl n ↦ absurd (ground arith)
  | inr (g, found) ↦
      let (lt, free) = find_free-found nfile 0 s.files g found in
      let same : g ≡ f = ground arith in
      (
        omega arith,
        ground arith,
        λ p fd lp lf held.
            let one = total-at 64 s.ofile p fd lp lf in let old = h g lt in ground arith,
      )
]

-- Where the counts are right, `sys_close` on a descriptor that holds file f ends the use of the file
-- (it closes the pipe or puts the inode) exactly if no other descriptor holds f.
pub sys_close-last :
    (s : Files) (me fd f : ℕ)
    → ((f : ℕ) → f < 100 → (s.files f).ref ≡ total 64 s.ofile (f + 1))
    → me < 64
    → f < 100
    → argfd fd (s.ofile me) ≡ some f
    → (sys_close me fd s).0
      ≡ some (
          if total 64 (sys_close me fd s).1.ofile (f + 1) == 0
          then closing (s.files f)
          else nothing)
unfolding sys_close file_close
sys_close-last s me fd f h lm lt e =
    let (lf, z) = argfd-found fd (s.ofile me) f e in
    let count = total-slot s.ofile me fd 0 (f + 1) lm lf in
    let old = h f lt in
    let bound = total_le 64 s.ofile (f + 1) in
    let one = total-at 64 s.ofile me fd lm lf in rw (sys_close, e) (ground arith)
