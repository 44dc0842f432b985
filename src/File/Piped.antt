-- ===== src/File/Piped.antt =====
-- `sys_pipe` keeps the reference counts right, on every way out.
use xv7_riscv.File.{File, Files, find_free, file_alloc, file_close, fdalloc_from, fdalloc, nfile}
use xv7_riscv.File.Pipes.{
  close_both, clear_fd, pipe_ends, pipe_second, pipe_first, pipealloc, pipe_both, pipe_one,
  pipe_made, sys_pipe,
}
use xv7_riscv.Proc.{nofile}
use xv7_riscv.File.References.{
  Counted, find_free-found, fdalloc_from-found, file_alloc-none, file_alloc-some, fdalloc-none,
  fdalloc-some,
}
use xv7_riscv.Prelude.{
  ℕ, ◌<◌, ◌≡◌, ◌≢◌, some, update, ◌+◌, arith, subst, Option-cases, Bool, inl, inr, none, refl,
  Option, sym, true, false, if◌then◌else◌, [], ◌∷◌,
}
use xv7_riscv.File.Pending.{
  Pending, alloc-Pending, slot-Pending, clear-Pending, close-Pending, ends-Pending, swap, one_held,
  close_both-Pending,
}

-- What `pipealloc` leaves held.
abbrev Made : Files → Option (ℕ × ℕ) × (ℕ → File) → Type 0
Made s (none, files) = Pending [] (record s { files = files })
Made s (some (rf, wf), files) = Pending (wf ∷ rf ∷ []) (record s { files = files })

pipe_second-Made :
    (page : Bool) (pi rf : ℕ) (s : Files)
    → Pending (rf ∷ []) s
    → Made s (pipe_second page pi rf (file_alloc s.files))
unfolding pipe_second
pipe_second-Made page pi rf s h = elim (Option-cases (find_free nfile 0 s.files)) [
  | inl e ↦
      subst (λ (r : Option ℕ × (ℕ → File)). Made s (pipe_second page pi rf r))
        (sym (file_alloc-none s.files e))
        (close-Pending (rf ∷ []) s h rf [] (λ g. refl) (λ g. omega arith))
  | inr (wf, e) ↦
      let (lt, free) = find_free-found nfile 0 s.files wf e in
      subst (λ (r : Option ℕ × (ℕ → File)). Made s (pipe_second page pi rf r))
        (sym (file_alloc-some s.files wf e)) (both wf page (alloc-Pending (rf ∷ []) s h wf free))
]
  where
    both :
        (wf : ℕ) (page : Bool)
        → let files = update s.files wf (record (s.files wf) { ref = 1 }) in
          Pending (wf ∷ rf ∷ []) (record s { files = files })
          → Made s (
              if page
              then (some (rf, wf), pipe_ends pi rf wf files)
              else (none, (file_close wf (file_close rf files).1).1))
    both wf true k = ends-Pending (wf ∷ rf ∷ []) _ k pi rf wf
    both wf false k =
        close-Pending (wf ∷ []) _
          (close-Pending (wf ∷ rf ∷ []) _ k rf (wf ∷ []) (swap wf rf) (one_held wf)) wf []
          (λ g. refl) (λ g. omega arith)

pipealloc-Made :
    (page : Bool) (pi : ℕ) (s : Files) → Pending [] s → Made s (pipealloc page pi s.files)
unfolding pipealloc pipe_first
pipealloc-Made page pi s h = elim (Option-cases (find_free nfile 0 s.files)) [
  | inl e ↦
      subst (λ (r : Option ℕ × (ℕ → File)). Made s (pipe_first page pi r))
        (sym (file_alloc-none s.files e)) h
  | inr (rf, e) ↦
      let (lt, free) = find_free-found nfile 0 s.files rf e in
      subst (λ (r : Option ℕ × (ℕ → File)). Made s (pipe_first page pi r))
        (sym (file_alloc-some s.files rf e))
        (pipe_second-Made page pi rf
          (record s { files = update s.files rf (record (s.files rf) { ref = 1 }) })
          (alloc-Pending [] s h rf free))
]

-- A descriptor of the process me.
abbrev with_fd : ℕ → ℕ → ℕ → Files → Files
with_fd me fd f s = record s { ofile = update s.ofile me (update (s.ofile me) fd (f + 1)) }

module _ (me : ℕ) (lt : me < 64) (rf wf : ℕ) where
  -- Both descriptors are taken back.
  cleared-Pending :
      (fd0 fd1 : ℕ) (s : Files)
      → fd0 < 16
      → fd1 < 16
      → Pending [] s
      → s.ofile me fd0 ≡ rf + 1
      → s.ofile me fd1 ≡ wf + 1
      → fd0 ≢ fd1
      → Pending [] (close_both rf wf (clear_fd me fd1 (clear_fd me fd0 s)))
  unfolding clear_fd
  cleared-Pending fd0 fd1 s l0 l1 h e0 e1 ne =
      close_both-Pending rf wf (wf ∷ rf ∷ []) (clear_fd me fd1 (clear_fd me fd0 s))
        (clear-Pending (rf ∷ []) (clear_fd me fd0 s) (clear-Pending [] s h me rf fd0 lt l0 e0) me wf
          fd1 lt l1 still)
        (swap wf rf)
    where
      still : (clear_fd me fd0 s).ofile me fd1 ≡ wf + 1
      still = ground arith

  pipe_both-Pending :
      (copied : Bool) (fd0 : ℕ) (s : Files)
      → fd0 < 16
      → s.ofile me fd0 ≡ rf + 1
      → Pending (wf ∷ []) s
      → Pending [] (pipe_both copied me rf wf fd0 (fdalloc me wf s)).1
  unfolding pipe_both
  pipe_both-Pending copied fd0 s l0 e0 h =
      elim (Option-cases (fdalloc_from nofile 0 (s.ofile me))) [
        | inl e ↦
            subst (λ (r : Option ℕ × Files). Pending [] (pipe_both copied me rf wf fd0 r).1)
              (sym (fdalloc-none me wf s e))
              (close_both-Pending rf wf (rf ∷ wf ∷ []) (clear_fd me fd0 s)
                (clear-Pending (wf ∷ []) s h me rf fd0 lt l0 e0) (λ g. refl))
        | inr (fd1, e) ↦
            let (l1, z) = fdalloc_from-found nofile 0 (s.ofile me) fd1 e in
            subst (λ (r : Option ℕ × Files). Pending [] (pipe_both copied me rf wf fd0 r).1)
              (sym (fdalloc-some me wf s fd1 e))
              (both copied fd1 (omega arith) (λ q. absurd (ground arith))
                (slot-Pending (wf ∷ []) s h me wf fd1 [] lt (omega arith) z (λ g. refl)))
      ]
    where
      both :
          (copied : Bool) (fd1 : ℕ)
          → fd1 < 16
          → fd0 ≢ fd1
          → Pending [] (with_fd me fd1 wf s)
          → Pending [] (pipe_both copied me rf wf fd0 (some fd1, with_fd me fd1 wf s)).1
      both true fd1 l1 ne k = k
      both false fd1 l1 ne k =
          cleared-Pending fd0 fd1 (with_fd me fd1 wf s) l0 l1 k (ground arith) (ground arith) ne

  pipe_one-Pending :
      (copied : Bool) (s : Files)
      → Pending (wf ∷ rf ∷ []) s
      → Pending [] (pipe_one copied me rf wf (fdalloc me rf s)).1
  unfolding pipe_one
  pipe_one-Pending copied s h = elim (Option-cases (fdalloc_from nofile 0 (s.ofile me))) [
    | inl e ↦
        subst (λ (r : Option ℕ × Files). Pending [] (pipe_one copied me rf wf r).1)
          (sym (fdalloc-none me rf s e)) (close_both-Pending rf wf (wf ∷ rf ∷ []) s h (swap wf rf))
    | inr (fd0, e) ↦
        let (l0, z) = fdalloc_from-found nofile 0 (s.ofile me) fd0 e in
        subst (λ (r : Option ℕ × Files). Pending [] (pipe_one copied me rf wf r).1)
          (sym (fdalloc-some me rf s fd0 e))
          (pipe_both-Pending copied fd0 (with_fd me fd0 rf s) (omega arith) (ground arith)
            (slot-Pending (wf ∷ rf ∷ []) s h me rf fd0 (wf ∷ []) lt (omega arith) z (swap wf rf)))
  ]

pipe_made-Pending :
    (me : ℕ) (copied : Bool) (s : Files) (r : Option (ℕ × ℕ) × (ℕ → File))
    → me < 64
    → Made s r
    → Pending [] (pipe_made copied me s r).1
unfolding pipe_made
pipe_made-Pending me copied s (none, files) lt h = h
pipe_made-Pending me copied s (some (rf, wf), files) lt h =
    pipe_one-Pending me lt rf wf copied (record s { files = files }) h

pub sys_pipe-Counted :
    (page : Bool) (pi : ℕ) (copied : Bool) (me : ℕ) (s : Files)
    → me < 64
    → Counted s
    → Counted (sys_pipe page pi copied me s).1
unfolding sys_pipe Counted Pending
sys_pipe-Counted page pi copied me s lt h f lf =
    let start : Pending [] s = λ g lg. omega (arith, h g lg) in
    let end =
      pipe_made-Pending me copied s (pipealloc page pi s.files) lt
        (pipealloc-Made page pi s start) in
    omega (arith, end f lf)
