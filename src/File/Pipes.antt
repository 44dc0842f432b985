-- ===== src/File/Pipes.antt =====
-- `pipealloc` of kernel/pipe.c and `sys_pipe` of kernel/sysfile.c, on the file table and the descriptors.
-- What `file_close` does after it has released the lock is left out here.
use xv7_riscv.File.{File, Files, fd_pipe, file_alloc, file_close, fdalloc}
use xv7_riscv.Prelude.{ℕ, Bool, true, false, Option, none, some, update, if◌then◌else◌}

-- `pipealloc`: two files, which are given back if a file or the page is missing. `page` says whether
-- `kalloc` gives a page, and `pi` is its address. The first component of the results is none for -1.
unfoldable pub pipe_ends : ℕ → ℕ → ℕ → (ℕ → File) → ℕ → File
pipe_ends pi rf wf files =
    let files1 =
      update files rf
        (record (files rf) { type = fd_pipe; readable = true; writable = false; pipe = pi }) in
    update files1 wf
      (record (files1 wf) { type = fd_pipe; readable = false; writable = true; pipe = pi })

unfoldable pub pipe_second : Bool → ℕ → ℕ → Option ℕ × (ℕ → File) → Option (ℕ × ℕ) × (ℕ → File)
unfolding file_close pipe_ends
pipe_second page pi rf (none, files) = (none, (file_close rf files).1)
pipe_second page pi rf (some wf, files) =
    if page
    then (some (rf, wf), pipe_ends pi rf wf files)
    else (none, (file_close wf (file_close rf files).1).1)

unfoldable pub pipe_first : Bool → ℕ → Option ℕ × (ℕ → File) → Option (ℕ × ℕ) × (ℕ → File)
unfolding pipe_second file_alloc
pipe_first page pi (none, files) = (none, files)
pipe_first page pi (some rf, files) = pipe_second page pi rf (file_alloc files)

unfoldable pub pipealloc : Bool → ℕ → (ℕ → File) → Option (ℕ × ℕ) × (ℕ → File)
unfolding pipe_first file_alloc
pipealloc page pi files = pipe_first page pi (file_alloc files)

-- The two calls of `file_close` at the end of a `sys_pipe` that fails.
unfoldable pub close_both : ℕ → ℕ → Files → Files
unfolding file_close
close_both rf wf s = record s { files = (file_close wf (file_close rf s.files).1).1 }

unfoldable pub clear_fd : ℕ → ℕ → Files → Files
clear_fd me fd s = record s { ofile = update s.ofile me (update (s.ofile me) fd 0) }

-- `copied` says whether both descriptors can be stored.
unfoldable pub pipe_both : Bool → ℕ → ℕ → ℕ → ℕ → Option ℕ × Files → Option (ℕ × ℕ) × Files
unfolding close_both clear_fd
pipe_both copied me rf wf fd0 (none, s) = (none, close_both rf wf (clear_fd me fd0 s))
pipe_both copied me rf wf fd0 (some fd1, s) =
    if copied
    then (some (fd0, fd1), s)
    else (none, close_both rf wf (clear_fd me fd1 (clear_fd me fd0 s)))

unfoldable pub pipe_one : Bool → ℕ → ℕ → ℕ → Option ℕ × Files → Option (ℕ × ℕ) × Files
unfolding close_both pipe_both fdalloc
pipe_one copied me rf wf (none, s) = (none, close_both rf wf s)
pipe_one copied me rf wf (some fd0, s) = pipe_both copied me rf wf fd0 (fdalloc me wf s)

unfoldable pub pipe_made : Bool → ℕ → Files → Option (ℕ × ℕ) × (ℕ → File) → Option (ℕ × ℕ) × Files
unfolding pipe_one fdalloc
pipe_made copied me s (none, files) = (none, record s { files = files })
pipe_made copied me s (some (rf, wf), files) =
    pipe_one copied me rf wf (fdalloc me rf (record s { files = files }))

unfoldable pub sys_pipe : Bool → ℕ → Bool → ℕ → Files → Option (ℕ × ℕ) × Files
unfolding pipe_made pipealloc
sys_pipe page pi copied me s = pipe_made copied me s (pipealloc page pi s.files)
