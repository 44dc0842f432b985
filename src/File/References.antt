-- ===== src/File/References.antt =====
-- The reference counts of kernel/file.c: a file is counted once for each descriptor that holds it.
use xv7_riscv.File.{
  File, Files, find_free, file_alloc, file_dup, file_close, fdalloc_from, fdalloc, argfd, sys_dup,
  sys_close, open_file, open_fd, open_alloc, fill_file, nfile,
}
use xv7_riscv.Proc.{nofile}
use xv7_riscv.File.Counts.{total, total-slot, total_le, total-at}
use xv7_riscv.Prelude.{
  ℕ, ◌<◌, ◌≡◌, some, update, ◌+◌, suc, arith, ℕ_discrete, subst, zero, Option-cases, Bool, inl,
  Bool-cases, inr, none, refl, Option, sym,
}

unfoldable pub Counted : Files → Type 0
Counted s = (f : ℕ) → f < 100 → (s.files f).ref ≡ total 64 s.ofile (f + 1)

pub find_free-found :
    (k i : ℕ) (files : ℕ → File) (f : ℕ)
    → find_free k i files ≡ some f
    → (f < i + k) × ((files f).ref ≡ 0)
unfolding find_free
find_free-found zero i files f e = absurd (cc)
find_free-found (suc k) i files f e = elim (ℕ_discrete (files i).ref 0) [
  | yes z ↦
      let here : i ≡ f = ground arith in (omega arith, subst (λ (x : ℕ). (files x).ref ≡ 0) here z)
  | no ne ↦ let (lt, z) = find_free-found k (i + 1) files f (ground arith) in (omega arith, z)
]

pub fdalloc_from-found :
    (k i : ℕ) (o : ℕ → ℕ) (fd : ℕ) → fdalloc_from k i o ≡ some fd → (fd < i + k) × (o fd ≡ 0)
unfolding fdalloc_from
fdalloc_from-found zero i o fd e = absurd (cc)
fdalloc_from-found (suc k) i o fd e = elim (ℕ_discrete (o i) 0) [
  | yes z ↦ let here : i ≡ fd = ground arith in (omega arith, subst (λ (x : ℕ). o x ≡ 0) here z)
  | no ne ↦ let (lt, z) = fdalloc_from-found k (i + 1) o fd (ground arith) in (omega arith, z)
]

pub argfd-found : (fd : ℕ) (o : ℕ → ℕ) (f : ℕ) → argfd fd o ≡ some f → (fd < 16) × (o fd ≡ f + 1)
unfolding argfd
argfd-found fd o f e = ground arith

module _ (me f : ℕ) (s : Files) where
  pub fdalloc-none : fdalloc_from nofile 0 (s.ofile me) ≡ none → fdalloc me f s ≡ (none, s)
  unfolding fdalloc
  fdalloc-none e = rw (fdalloc, e) refl

  pub fdalloc-some :
      (fd : ℕ)
      → fdalloc_from nofile 0 (s.ofile me) ≡ some fd
      → fdalloc me f s
        ≡ (some fd, record s { ofile = update s.ofile me (update (s.ofile me) fd (f + 1)) })
  unfolding fdalloc
  fdalloc-some fd e = rw (fdalloc, e) refl

module _ (files : ℕ → File) where
  pub file_alloc-none : find_free nfile 0 files ≡ none → file_alloc files ≡ (none, files)
  unfolding file_alloc
  file_alloc-none e = rw (file_alloc, e) refl

  pub file_alloc-some :
      (f : ℕ)
      → find_free nfile 0 files ≡ some f
      → file_alloc files ≡ (some f, update files f (record (files f) { ref = 1 }))
  unfolding file_alloc
  file_alloc-some f e = rw (file_alloc, e) refl

module _ (s : Files) (h : Counted s) (me : ℕ) (lt : me < 64) where
  pub dup-slot :
      (f fd : ℕ)
      → fd < 16
      → s.ofile me fd ≡ 0
      → Counted (record {
        files = file_dup f s.files;
        ofile = update s.ofile me (update (s.ofile me) fd (f + 1));
      })
  unfolding Counted file_dup
  dup-slot f fd lf z g lg =
      let count = total-slot s.ofile me fd (f + 1) (g + 1) lt lf in
      let old = h g lg in
      let bound = total_le 64 s.ofile (g + 1) in
      elim (ℕ_discrete f g) [ yes e ↦ ground arith | no ne ↦ ground arith ]

  pub close-slot :
      (f fd : ℕ)
      → fd < 16
      → s.ofile me fd ≡ f + 1
      → Counted (record {
        files = (file_close f s.files).1;
        ofile = update s.ofile me (update (s.ofile me) fd 0);
      })
  unfolding Counted file_close
  close-slot f fd lf z g lg =
      let count = total-slot s.ofile me fd 0 (g + 1) lt lf in
      let old = h g lg in
      let bound = total_le 64 s.ofile (g + 1) in
      let some_one = total-at 64 s.ofile me fd lt lf in
      elim (ℕ_discrete f g) [ yes e ↦ ground arith | no ne ↦ ground arith ]

  alloc-slot :
      (f : ℕ)
      → (s.files f).ref ≡ 0
      → (fd : ℕ) → fd < 16
      → s.ofile me fd ≡ 0
      → Counted (record {
        files = update s.files f (record (s.files f) { ref = 1 });
        ofile = update s.ofile me (update (s.ofile me) fd (f + 1));
      })
  unfolding Counted
  alloc-slot f free fd lf z g lg =
      let count = total-slot s.ofile me fd (f + 1) (g + 1) lt lf in
      let old = h g lg in elim (ℕ_discrete f g) [ yes e ↦ ground arith | no ne ↦ ground arith ]

  alloc_back :
      (f : ℕ)
      → (s.files f).ref ≡ 0
      → Counted (record s {
        files = (file_close f (update s.files f (record (s.files f) { ref = 1 }))).1;
      })
  unfolding Counted file_close
  alloc_back f free g lg =
      let old = h g lg in elim (ℕ_discrete f g) [ yes e ↦ ground arith | no ne ↦ ground arith ]

  pub sys_dup-Counted : (fd : ℕ) → Counted (sys_dup me fd s).1
  unfolding sys_dup
  sys_dup-Counted fd = elim (Option-cases (argfd fd (s.ofile me))) [
    | inl e ↦ rw (sys_dup, e) h
    | inr (f, e) ↦ elim (Option-cases (fdalloc_from nofile 0 (s.ofile me))) [
      | inl e2 ↦ rw (sys_dup, e) (rw (fdalloc-none me f s e2) (rw (fdalloc-none me f s e2) h))
      | inr (fd2, e2) ↦
          let (lf, z) = fdalloc_from-found nofile 0 (s.ofile me) fd2 e2 in
          rw (sys_dup, e)
            (rw (fdalloc-some me f s fd2 e2)
              (rw (fdalloc-some me f s fd2 e2) (dup-slot f fd2 (omega arith) z)))
    ]
  ]

  pub sys_close-Counted : (fd : ℕ) → Counted (sys_close me fd s).1
  unfolding sys_close
  sys_close-Counted fd = elim (Option-cases (argfd fd (s.ofile me))) [
    | inl e ↦ rw (sys_close, e) h
    | inr (f, e) ↦
        let (lf, z) = argfd-found fd (s.ofile me) f e in rw (sys_close, e) (close-slot f fd lf z)
  ]

  open_fd-Counted :
      (f : ℕ)
      → (s.files f).ref ≡ 0
      → let s1 = record s { files = update s.files f (record (s.files f) { ref = 1 }) } in
        Counted (open_fd f (fdalloc me f s1)).1
  unfolding open_fd
  open_fd-Counted f free =
      let s1 = record s { files = update s.files f (record (s.files f) { ref = 1 }) } in
      elim (Option-cases (fdalloc_from nofile 0 (s.ofile me))) [
        | inl e ↦
            subst (λ (r : Option ℕ × Files). Counted (open_fd f r).1) (sym (fdalloc-none me f s1 e))
              (alloc_back f free)
        | inr (fd, e) ↦
            let (lf, z) = fdalloc_from-found nofile 0 (s.ofile me) fd e in
            subst (λ (r : Option ℕ × Files). Counted (open_fd f r).1)
              (sym (fdalloc-some me f s1 fd e)) (alloc-slot f free fd (omega arith) z)
      ]

  pub open_file-Counted : Counted (open_file me s).1
  unfolding open_file open_alloc
  open_file-Counted = elim (Option-cases (find_free nfile 0 s.files)) [
    | inl e ↦
        subst (λ (r : Option ℕ × (ℕ → File)). Counted (open_alloc me s r).1)
          (sym (file_alloc-none s.files e)) h
    | inr (f, e) ↦
        let (lt2, free) = find_free-found nfile 0 s.files f e in
        subst (λ (r : Option ℕ × (ℕ → File)). Counted (open_alloc me s r).1)
          (sym (file_alloc-some s.files f e)) (open_fd-Counted f free)
  ]

  pub fill_file-Counted :
      (f : ℕ) (device : Bool) (major ip omode : ℕ)
      → Counted (record s { files = fill_file f device major ip omode s.files })
  unfolding Counted fill_file
  fill_file-Counted f device major ip omode g lg =
      let old = h g lg in
      elim (ℕ_discrete f g) [
        | yes e ↦ elim (Bool-cases device) [ inl d ↦ ground arith | inr d ↦ ground arith ]
        | no ne ↦ ground arith
      ]
