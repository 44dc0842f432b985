-- ===== src/Proc/Waiting.antt =====
-- One round of `wait`: what its scan of the table finds, and what it does then.
use mathlib.Core.Bool.{false≢true}
use xv7_riscv.Prelude.{
  ℕ, zero, suc, ◌+◌, ◌≤◌, ◌<◌, ◌≡◌, ◌⊎◌, true, false, Bool, arith, inl, ◌&&◌, subst, ◌||◌,
  ℕ_discrete, sym, Bool-cases, inr, not, refl, ◌∙◌,
}
use xv7_riscv.Proc.{nproc, is_zombie, of_proc, Table, set_proc, sleep, freeproc}
use xv7_riscv.Proc.Family.{
  is_proc, Scan, exited, scanned, scan_from, Waited, wait_end, reaped, failed, waiting, wait,
}

-- What the scan of `wait` from entry i on says of the table.
abbrev pub Scanned : ℕ → ℕ → ℕ → Bool → Table → Scan → Type 0
Scanned k i p had t (exited j) =
    (i ≤ j)
    × (j < i + k)
    × (is_proc (t.proc j).parent p ≡ true)
    × (is_zombie (t.proc j).state ≡ true)
Scanned k i p had t (scanned havekids) =
    ((j : ℕ)
      → i ≤ j
      → j < i + k
      → is_proc (t.proc j).parent p ≡ true
      → (is_zombie (t.proc j).state ≡ false) × (havekids ≡ true))
    × (havekids ≡ true
        → (had ≡ true) ⊎ ((j : ℕ) × (i ≤ j) × (j < i + k) × (is_proc (t.proc j).parent p ≡ true)))
    × (had ≡ true → havekids ≡ true)

scan_from-Scanned :
    (k i p : ℕ) (had : Bool) (t : Table) (r : Scan)
    → scan_from k i p had t ≡ r
    → Scanned k i p had t r
unfolding scan_from
scan_from-Scanned zero i p had t (exited j) e = absurd (cc)
scan_from-Scanned zero i p had t (scanned h) e =
    (λ j lo hi. absurd (omega arith), λ q. inl (ground arith), λ q. ground arith)
scan_from-Scanned (suc k) i p had t r e =
    elim (Bool-cases (is_proc (t.proc i).parent p && is_zombie (t.proc i).state)) [
      | inl here ↦ found r (rw here at e) here
      | inr not_here ↦ further r (rw not_here at e) not_here (
          scan_from-Scanned k (i + 1) p (is_proc (t.proc i).parent p || had) t r (rw not_here at e))
    ]
  where
    found :
        (r : Scan)
        → exited i ≡ r
        → (is_proc (t.proc i).parent p && is_zombie (t.proc i).state) ≡ true
        → Scanned (suc k) i p had t r
    found (exited j) e h =
        let q : i ≡ j = ground arith in
        (
          omega arith,
          omega arith,
          subst (λ (x : ℕ). is_proc (t.proc x).parent p ≡ true) q (ground arith),
          subst (λ (x : ℕ). is_zombie (t.proc x).state ≡ true) q (ground arith),
        )
    found (scanned b) e h = absurd (cc)

    further :
        (r : Scan)
        → scan_from k (i + 1) p (is_proc (t.proc i).parent p || had) t ≡ r
        → (is_proc (t.proc i).parent p && is_zombie (t.proc i).state) ≡ false
        → Scanned k (i + 1) p (is_proc (t.proc i).parent p || had) t r
        → Scanned (suc k) i p had t r
    further (exited j) e h (a, b, c, d) = (omega arith, omega arith, c, d)
    further (scanned b) e h (all, some_child, keep) = (
      λ j lo hi c. elim (ℕ_discrete i j) [
        | yes q ↦
            let c' : is_proc (t.proc i).parent p ≡ true =
              subst (λ (x : ℕ). is_proc (t.proc x).parent p ≡ true) (sym q) c in
            (
              subst (λ (x : ℕ). is_zombie (t.proc x).state ≡ false) q (ground arith),
              keep (ground arith),
            )
        | no q ↦ all j (omega arith) (omega arith) c
      ],
      λ y. elim (some_child y) [
        | inl z ↦ elim (Bool-cases (is_proc (t.proc i).parent p)) [
          | inl c ↦ inr (i, omega arith, omega arith, c)
          | inr c ↦ inl (ground arith)
        ]
        | inr (j, lo, hi, c) ↦ inr (j, omega arith, omega arith, c)
      ],
      λ y. keep (ground arith),
    )

abbrev pub HasZombie : ℕ → Table → Type 0
HasZombie p t =
    (c : ℕ) × (c < 64) × (is_proc (t.proc c).parent p ≡ true) × (is_zombie (t.proc c).state ≡ true)

abbrev pub NoZombie : ℕ → Table → Type 0
NoZombie p t =
    (c : ℕ) → c < 64 → is_proc (t.proc c).parent p ≡ true → is_zombie (t.proc c).state ≡ false

-- The three ways in which a round of `wait` can end, and what each means.
abbrev pub WaitEnds : ℕ → Bool → Table → Waited × Table → Type 0
WaitEnds p stored t (reaped pid, t') =
    (c : ℕ) × (c < 64)
    × (is_proc (t.proc c).parent p ≡ true)
    × (is_zombie (t.proc c).state ≡ true)
    × (stored ≡ true)
    × (pid ≡ (t.proc c).pid)
    × (t' ≡ set_proc t c (freeproc (t.proc c)))
WaitEnds p stored t (failed, t') =
    (t' ≡ t)
    × (((stored ≡ false) × HasZombie p t)
        ⊎ (NoZombie p t
            × (((t.proc p).killed ≡ true)
                ⊎ ((c : ℕ) → c < 64 → is_proc (t.proc c).parent p ≡ false))))
WaitEnds p stored t (waiting, t') =
    (t' ≡ sleep p (of_proc p) t)
    × ((t.proc p).killed ≡ false)
    × NoZombie p t
    × ((c : ℕ) × (c < 64) × (is_proc (t.proc c).parent p ≡ true))

-- A round of `wait` that finds a zombie child reaps it and returns its pid, if the child's status can
-- be stored, and fails without a change if not. Without a zombie child it fails without a change if the
-- caller is killed or has no child, and sleeps only if the caller is not killed and has a child.
pub wait_lem : (p : ℕ) (stored : Bool) (t : Table) → WaitEnds p stored t (wait p stored t)
unfolding wait wait_end
wait_lem p stored t = go (scan_from nproc 0 p false t) refl
  where
    go : (r : Scan) → scan_from nproc 0 p false t ≡ r → WaitEnds p stored t (wait_end r p stored t)
    go (exited c) e =
        let (lo, hi, child, dead) = scan_from-Scanned nproc 0 p false t (exited c) e in
        elim (Bool-cases stored) [
          | inl s ↦ rw s (c, omega arith, child, dead, refl, refl, refl)
          | inr s ↦ rw s (refl, inl (refl, (c, omega arith, child, dead)))
        ]
    go (scanned b) e =
        let (all, some_child, keep) = scan_from-Scanned nproc 0 p false t (scanned b) e in
        elim (Bool-cases (not b || (t.proc p).killed)) [
          | inl s ↦ rw s (
            refl,
            inr (
              λ c lt child. (all c (omega arith) (omega arith) child).0,
              elim (Bool-cases b) [
                | inl y ↦ inl (ground arith)
                | inr n ↦ inr (λ c lt. elim (Bool-cases (is_proc (t.proc c).parent p)) [
                  | inl child ↦
                      absurd (false≢true (sym n ∙ (all c (omega arith) (omega arith) child).1))
                  | inr other ↦ other
                ])
              ],
            ),
          )
          | inr s ↦ rw s (
            refl,
            ground arith,
            λ c lt child. (all c (omega arith) (omega arith) child).0,
            elim (some_child (ground arith)) [
              | inl z ↦ absurd (false≢true z)
              | inr (c, lo, hi, child) ↦ (c, omega arith, child)
            ],
          )
        ]
