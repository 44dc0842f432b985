-- ===== src/File.antt =====
-- The file table of kernel/file.c, and the descriptors of kernel/sysfile.c. A file is named by its
-- index in `ftable.file`; in a descriptor table 0 is the null pointer and f + 1 the file f.
pub mod Calls
pub mod Counts
pub mod References
pub mod Families
pub mod Pipes
pub mod Pending
pub mod Piped
mod Tests
use xv7_riscv.Proc.{nofile}
use xv7_riscv.Prelude.{
  ℕ, Bool, Option, update, ◌+◌, none, ◌%◌, ◌^◌, if◌then◌else◌, suc, some, ◌-◌, not, ◌==◌, ltb, ◌/◌,
  zero, ◌&&◌, ◌||◌, leb,
}

-- NFILE of kernel/param.h
abbrev pub nfile : ℕ
nfile = 100

pub data FileType : Type 0 where
  fd_none fd_pipe fd_inode fd_device : FileType

pub record File : Type 0 where
  pub type : FileType
  pub ref : ℕ
  pub readable : Bool
  pub writable : Bool
  pub pipe : ℕ
  pub ip : ℕ
  pub off : ℕ
  pub major : ℕ

-- The search of `file_alloc` from entry i on.
unfoldable pub find_free : ℕ → ℕ → (ℕ → File) → Option ℕ
find_free zero i files = none
find_free (suc k) i files =
    let rest = find_free k (i + 1) files in if (files i).ref == 0 then some i else rest

unfoldable pub file_alloc : (ℕ → File) → Option ℕ × (ℕ → File)
file_alloc files = elim (find_free nfile 0 files) [
  | none ↦ (none, files)
  | some f ↦ (some f, update files f (record (files f) { ref = 1 }))
]

unfoldable pub file_dup : ℕ → (ℕ → File) → ℕ → File
file_dup f files = update files f (record (files f) { ref = ((files f).ref + 1) % 2 ^ 32 })

-- What `file_close` does after it has released the lock.
pub data Closing : Type 0 where
  nothing : Closing
  pipeclose : (pipe : ℕ) → (writable : Bool) → Closing
  iput : (ip : ℕ) → Closing

abbrev pub closing : File → Closing
closing ff = elim ff.type [
  | fd_none ↦ nothing
  | fd_pipe ↦ pipeclose ff.pipe ff.writable
  | fd_inode ↦ iput ff.ip
  | fd_device ↦ iput ff.ip
]

-- The count is an `int`: after the decrement it is above 0 where it lies between 0 and 2 ^ 31.
unfoldable pub file_close : ℕ → (ℕ → File) → Closing × (ℕ → File)
file_close f files =
    let ref = ((files f).ref + 2 ^ 32 - 1) % 2 ^ 32 in
    if ltb 0 ref && ltb ref (2 ^ 31)
    then (nothing, update files f (record (files f) { ref = ref }))
    else (closing (files f), update files f (record (files f) { ref = 0; type = fd_none }))

-- The file table and the descriptors of all processes, by the index of the process.
pub record Files : Type 0 where
  pub files : ℕ → File
  pub ofile : ℕ → ℕ → ℕ

-- The file of a descriptor, which is an `int` argument of a system call.
unfoldable pub argfd : ℕ → (ℕ → ℕ) → Option ℕ
argfd fd ofile =
    if not (ltb fd (2 ^ 31)) || leb nofile fd || (ofile fd == 0) then none else some (ofile fd - 1)

-- The loop of `fdalloc` from descriptor fd on.
unfoldable pub fdalloc_from : ℕ → ℕ → (ℕ → ℕ) → Option ℕ
fdalloc_from zero fd ofile = none
fdalloc_from (suc k) fd ofile =
    let rest = fdalloc_from k (fd + 1) ofile in if ofile fd == 0 then some fd else rest

unfoldable pub fdalloc : ℕ → ℕ → Files → Option ℕ × Files
fdalloc me f s = elim (fdalloc_from nofile 0 (s.ofile me)) [
  | none ↦ (none, s)
  | some fd ↦ (some fd, record s { ofile = update s.ofile me (update (s.ofile me) fd (f + 1)) })
]

-- `none` is the result -1.
unfoldable pub sys_dup : ℕ → ℕ → Files → Option ℕ × Files
unfolding argfd fdalloc file_dup
sys_dup me fd s = elim (argfd fd (s.ofile me)) [
  | none ↦ (none, s)
  | some f ↦
      let (got, s1) = fdalloc me f s in
      elim got [
        | none ↦ (none, s1)
        | some fd2 ↦ (some fd2, record s1 { files = file_dup f s1.files })
      ]
]

unfoldable pub sys_close : ℕ → ℕ → Files → Option Closing × Files
unfolding argfd file_close
sys_close me fd s = elim (argfd fd (s.ofile me)) [
  | none ↦ (none, s)
  | some f ↦
      let ofile = update s.ofile me (update (s.ofile me) fd 0) in
      let (c, files) = file_close f s.files in (some c, record { files = files; ofile = ofile })
]

-- `fork` gives the child np the file of the parent's descriptor fd.
unfoldable pub inherit_slot : ℕ → ℕ → ℕ → Files → Files
unfolding file_dup
inherit_slot me np fd s = if s.ofile me fd == 0 then s else record {
  files = file_dup (s.ofile me fd - 1) s.files;
  ofile = update s.ofile np (update (s.ofile np) fd (s.ofile me fd));
}

-- The loop of `fork` over the descriptors, from fd on.
unfoldable pub inherit_from : ℕ → ℕ → ℕ → ℕ → Files → Files
unfolding inherit_slot
inherit_from zero fd me np s = s
inherit_from (suc k) fd me np s = inherit_from k (fd + 1) me np (inherit_slot me np fd s)

-- `exit` closes descriptor fd. What `file_close` does after the lock is not needed for the counts.
unfoldable pub drop_slot : ℕ → ℕ → Files → Files
unfolding file_close
drop_slot me fd s = if s.ofile me fd == 0 then s else record {
  files = (file_close (s.ofile me fd - 1) s.files).1;
  ofile = update s.ofile me (update (s.ofile me) fd 0);
}

-- The loop of `exit` over the descriptors, from fd on.
unfoldable pub drop_from : ℕ → ℕ → ℕ → Files → Files
unfolding drop_slot
drop_from zero fd me s = s
drop_from (suc k) fd me s = drop_from k (fd + 1) me (drop_slot me fd s)

-- `sys_open` takes a file and a descriptor for it, or gives the file back.
unfoldable pub open_fd : ℕ → Option ℕ × Files → Option (ℕ × ℕ) × Files
unfolding file_close
open_fd f (none, s) = (none, record s { files = (file_close f s.files).1 })
open_fd f (some fd, s) = (some (f, fd), s)

unfoldable pub open_alloc : ℕ → Files → Option ℕ × (ℕ → File) → Option (ℕ × ℕ) × Files
unfolding open_fd fdalloc
open_alloc me s (none, files) = (none, record s { files = files })
open_alloc me s (some f, files) = open_fd f (fdalloc me f (record s { files = files }))

unfoldable pub open_file : ℕ → Files → Option (ℕ × ℕ) × Files
unfolding open_alloc file_alloc
open_file me s = open_alloc me s (file_alloc s.files)

-- What `sys_open` stores in the file; `device` is true for an inode of type T_DEVICE. The bits of omode
-- are O_WRONLY, of value 1, and O_RDWR, of value 2.
unfoldable pub fill_file : ℕ → Bool → ℕ → ℕ → ℕ → (ℕ → File) → ℕ → File
fill_file f device major ip omode files =
    let wronly = omode % 2 == 1 in
    let rdwr = omode / 2 % 2 == 1 in
    let typed =
      if device
      then record (files f) { type = fd_device; major = major }
      else record (files f) { type = fd_inode; off = 0 } in
    update files f (record typed { ip = ip; readable = not wronly; writable = wronly || rdwr })
