-- ===== src/File/Pending.antt =====
-- The reference counts within `sys_pipe`: between the allocation of a file and its descriptor the file
-- is counted once more than descriptors hold it.
use xv7_riscv.File.{Files, file_close}
use xv7_riscv.File.Pipes.{close_both, clear_fd, pipe_ends}
use xv7_riscv.File.Counts.{total, total-slot, total_le, total-at}
use xv7_riscv.Prelude.{
  ℕ, ◌<◌, ◌≡◌, update, ◌+◌, ◌≤◌, arith, ℕ_discrete, refl, if◌then◌else◌, ◌==◌, List, [], ◌∷◌,
}

-- How often f is in the list of the files that are held without a descriptor.
abbrev pub held : List ℕ → ℕ → ℕ
held [] f = 0
held (g ∷ gs) f = (if g == f then 1 else 0) + held gs f

-- As `Counted`, with these files counted once more.
unfoldable pub Pending : List ℕ → Files → Type 0
Pending l s = (f : ℕ) → f < 100 → (s.files f).ref ≡ total 64 s.ofile (f + 1) + held l f

module _ (l : List ℕ) (s : Files) (h : Pending l s) where
  pub alloc-Pending :
      (f : ℕ)
      → (s.files f).ref ≡ 0
      → Pending (f ∷ l) (record s { files = update s.files f (record (s.files f) { ref = 1 }) })
  unfolding Pending
  alloc-Pending f free g lg =
      let old = h g lg in elim (ℕ_discrete f g) [ yes e ↦ ground arith | no ne ↦ ground arith ]

  pub slot-Pending :
      (me f fd : ℕ) (rest : List ℕ)
      → me < 64
      → fd < 16
      → s.ofile me fd ≡ 0
      → ((g : ℕ) → held l g ≡ held (f ∷ rest) g)
      → Pending rest (record s { ofile = update s.ofile me (update (s.ofile me) fd (f + 1)) })
  unfolding Pending
  slot-Pending me f fd rest lt lf z same g lg =
      let count = total-slot s.ofile me fd (f + 1) (g + 1) lt lf in
      let old = h g lg in
      let here = same g in elim (ℕ_discrete f g) [ yes e ↦ ground arith | no ne ↦ ground arith ]

  pub clear-Pending :
      (me f fd : ℕ) → me < 64 → fd < 16 → s.ofile me fd ≡ f + 1 → Pending (f ∷ l) (clear_fd me fd s)
  unfolding Pending clear_fd
  clear-Pending me f fd lt lf z g lg =
      let count = total-slot s.ofile me fd 0 (g + 1) lt lf in
      let old = h g lg in
      let some_one = total-at 64 s.ofile me fd lt lf in
      elim (ℕ_discrete f g) [ yes e ↦ ground arith | no ne ↦ ground arith ]

  pub close-Pending :
      (f : ℕ) (rest : List ℕ)
      → ((g : ℕ) → held l g ≡ held (f ∷ rest) g)
      → ((g : ℕ) → held rest g ≤ 2)
      → Pending rest (record s { files = (file_close f s.files).1 })
  unfolding Pending file_close
  close-Pending f rest same small g lg =
      let old = h g lg in
      let here = same g in
      let few = small g in
      let bound = total_le 64 s.ofile (g + 1) in
      elim (ℕ_discrete f g) [ yes e ↦ ground arith | no ne ↦ ground arith ]

  pub ends-Pending : (pi rf wf : ℕ) → Pending l (record s { files = pipe_ends pi rf wf s.files })
  unfolding Pending pipe_ends
  ends-Pending pi rf wf g lg =
      let old = h g lg in
      elim (ℕ_discrete rf g) [
        | yes e ↦ elim (ℕ_discrete wf g) [ yes d ↦ ground arith | no d ↦ ground arith ]
        | no e ↦ elim (ℕ_discrete wf g) [ yes d ↦ ground arith | no d ↦ ground arith ]
      ]

-- Two files are held, in either order.
pub swap : (f g x : ℕ) → held (f ∷ g ∷ []) x ≡ held (g ∷ f ∷ []) x
swap f g x = omega arith

pub one_held : (f x : ℕ) → held (f ∷ []) x ≤ 2
one_held f x = elim (ℕ_discrete f x) [ yes e ↦ ground arith | no e ↦ ground arith ]

pub close_both-Pending :
    (rf wf : ℕ) (l : List ℕ) (s : Files)
    → Pending l s
    → ((g : ℕ) → held l g ≡ held (rf ∷ wf ∷ []) g)
    → Pending [] (close_both rf wf s)
unfolding close_both
close_both-Pending rf wf l s h same =
    close-Pending (wf ∷ []) (record s { files = (file_close rf s.files).1 })
      (close-Pending l s h rf (wf ∷ []) same (one_held wf)) wf [] (λ g. refl) (λ g. omega arith)
