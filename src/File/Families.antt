-- ===== src/File/Families.antt =====
-- The loops of `fork` and `exit` over the descriptors, and the reference counts.
use xv7_riscv.File.{Files, file_dup, inherit_slot, inherit_from, drop_slot, drop_from}
use xv7_riscv.File.References.{Counted, dup-slot, close-slot}
use xv7_riscv.Prelude.{
  ℕ, zero, suc, ◌+◌, ◌-◌, ◌≤◌, ◌<◌, ◌≡◌, arith, ℕ_discrete, subst, ==_iff, ne→==_false, update,
}

-- The process has no descriptor from fd on.
abbrev pub EmptyFrom : ℕ → ℕ → Files → Type 0
EmptyFrom fd p s = (i : ℕ) → fd ≤ i → i < 16 → s.ofile p i ≡ 0

module _ (me np : ℕ) (lt : np < 64) where
  inherit_slot-Counted :
      (fd : ℕ) (s : Files)
      → fd < 16
      → Counted s
      → s.ofile np fd ≡ 0
      → Counted (inherit_slot me np fd s)
  unfolding inherit_slot
  inherit_slot-Counted fd s lf h free = elim (ℕ_discrete (s.ofile me fd) 0) [
    | yes z ↦ rw ((==_iff (s.ofile me fd) 0).1 z) h
    | no ne ↦
        let back : s.ofile me fd - 1 + 1 ≡ s.ofile me fd = omega arith in
        rw (ne→==_false (s.ofile me fd) 0 ne) (
          subst
            (λ (v : ℕ). Counted (record {
              files = file_dup (s.ofile me fd - 1) s.files;
              ofile = update s.ofile np (update (s.ofile np) fd v);
            }))
            back (dup-slot s h np lt (s.ofile me fd - 1) fd lf free))
  ]

  inherit_slot-EmptyFrom :
      (fd : ℕ) (s : Files) → EmptyFrom fd np s → EmptyFrom (fd + 1) np (inherit_slot me np fd s)
  unfolding inherit_slot
  inherit_slot-EmptyFrom fd s e i lo hi =
      let old = e i (omega arith) hi in
      elim (ℕ_discrete (s.ofile me fd) 0) [ yes z ↦ ground arith | no ne ↦ ground arith ]

  pub inherit_from-Counted :
      (k fd : ℕ) (s : Files)
      → fd + k ≤ 16
      → EmptyFrom fd np s
      → Counted s
      → Counted (inherit_from k fd me np s)
  unfolding inherit_from
  inherit_from-Counted zero fd s le e h = h
  inherit_from-Counted (suc k) fd s le e h =
      inherit_from-Counted k (fd + 1) (inherit_slot me np fd s) (omega arith)
        (inherit_slot-EmptyFrom fd s e)
        (inherit_slot-Counted fd s (omega arith) h (e fd (omega arith) (omega arith)))

module _ (me : ℕ) (lt : me < 64) where
  drop_slot-Counted : (fd : ℕ) (s : Files) → fd < 16 → Counted s → Counted (drop_slot me fd s)
  unfolding drop_slot
  drop_slot-Counted fd s lf h = elim (ℕ_discrete (s.ofile me fd) 0) [
    | yes z ↦ rw ((==_iff (s.ofile me fd) 0).1 z) h
    | no ne ↦
        rw (ne→==_false (s.ofile me fd) 0 ne)
          (close-slot s h me lt (s.ofile me fd - 1) fd lf (omega arith))
  ]

  pub drop_from-Counted :
      (k fd : ℕ) (s : Files) → fd + k ≤ 16 → Counted s → Counted (drop_from k fd me s)
  unfolding drop_from
  drop_from-Counted zero fd s le h = h
  drop_from-Counted (suc k) fd s le h =
      drop_from-Counted k (fd + 1) (drop_slot me fd s) (omega arith)
        (drop_slot-Counted fd s (omega arith) h)
