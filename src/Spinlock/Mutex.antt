-- ===== src/Spinlock/Mutex.antt =====
-- Mutual exclusion of the spin lock, for any number of CPUs and any interleaving.
use xv7_riscv.Prelude.{
  ℕ, ◌≡◌, ◌≢◌, update, some, true, false, arith, ◌⊎◌, refl, ℕ_discrete, inl, subst, sym, inr,
}
use xv7_riscv.Spinlock.{Spinlock, is_cpu, holding, initlock}
use xv7_riscv.Spinlock.Steps.{
  Pc, spinning, owning, inside, panicked, Move, begin, see_free, see_held, see_other, see_self,
  lose, win, mark, unmark, not_held, free, System, Step, run, Reach, start, later, owns,
}

pub record Inv (lk : Spinlock) (pc : ℕ → Pc) : Type 0 where
  pub unique : (i j : ℕ) → owns (pc i) ≡ true → owns (pc j) ≡ true → i ≡ j
  pub held : (i : ℕ) → owns (pc i) ≡ true → lk.locked ≡ 1
  pub owner : lk.locked ≢ 0 → (i : ℕ) × (owns (pc i) ≡ true)
  pub marked : (i : ℕ) → pc i ≡ inside → lk.cpu ≡ some i
  pub only : (i : ℕ) → lk.cpu ≡ some i → pc i ≡ inside
  pub calm : (i : ℕ) → pc i ≢ panicked

abbrev Guard : {me : ℕ} {lk lk' : Spinlock} {p p' : Pc} → Move me lk p lk' p' → Type 0
Guard {lk} (see_free _) = lk.locked ≡ 0
Guard {lk} (see_held _) = lk.locked ≢ 0
Guard {me} {lk} (see_other _) = is_cpu me lk.cpu ≡ false
Guard {me} {lk} (see_self _) = is_cpu me lk.cpu ≡ true
Guard {lk} (lose _) = lk.locked ≢ 0
Guard {lk} (win _) = lk.locked ≡ 0
Guard {me} {lk} (unmark _) = holding me lk ≡ true
Guard {me} {lk} (not_held _) = holding me lk ≡ false
Guard _ = Unit {0}

guard : {me : ℕ} {lk lk' : Spinlock} {p p' : Pc} (m : Move me lk p lk' p') → Guard m
guard (see_free g) = g
guard (see_held g) = g
guard (see_other g) = g
guard (see_self g) = g
guard (lose g) = g
guard (win g) = g
guard (unmark g) = g
guard (not_held g) = g
guard _ = tt

module _ {lk : Spinlock} {pc : ℕ → Pc} (inv : Inv lk pc) (i : ℕ) where
  open inv use {unique, held, owner, marked, only, calm}

  Move-unique :
      {lk' : Spinlock} {p p' : Pc}
      → Move i lk p lk' p'
      → pc i ≡ p
      → (a b : ℕ) → owns (update pc i p' a) ≡ true
      → owns (update pc i p' b) ≡ true
      → a ≡ b
  Move-unique begin e a b qa qb = ground (arith, unique a b)
  Move-unique m e a b qa qb =
      ground (arith, guard m, unique a b, held a, held b, unique i a, unique i b)

  Move-held :
      {lk' : Spinlock} {p p' : Pc}
      → Move i lk p lk' p'
      → pc i ≡ p
      → (a : ℕ) → owns (update pc i p' a) ≡ true
      → lk'.locked ≡ 1
  Move-held begin e a qa = ground (arith, held a)
  Move-held m e a qa = ground (arith, guard m, held a, held i, unique i a)

  Move-marked :
      {lk' : Spinlock} {p p' : Pc}
      → Move i lk p lk' p'
      → pc i ≡ p
      → (a : ℕ) → update pc i p' a ≡ inside
      → lk'.cpu ≡ some a
  Move-marked begin e a qa = ground (arith, marked a)
  Move-marked m e a qa = ground (arith, guard m, marked a, unique i a)

  Move-only :
      {lk' : Spinlock} {p p' : Pc}
      → Move i lk p lk' p'
      → pc i ≡ p
      → (a : ℕ) → lk'.cpu ≡ some a
      → update pc i p' a ≡ inside
  unfolding holding
  Move-only begin e a qa = ground (arith, only a)
  Move-only m e a qa = ground (arith, guard m, only a, only i, unique i a, held i, marked i)

  Move-calm :
      {lk' : Spinlock} {p p' : Pc}
      → Move i lk p lk' p'
      → pc i ≡ p
      → (a : ℕ) → update pc i p' a ≢ panicked
  unfolding holding
  Move-calm begin e a = ground (arith, calm a)
  Move-calm m e a = ground (arith, guard m, calm a, marked i, held i, only i)

  -- The owner after a move is the mover, or who it was.
  Move-owner :
      {lk' : Spinlock} {p p' : Pc}
      → Move i lk p lk' p'
      → pc i ≡ p
      → lk'.locked ≢ 0
      → (a : ℕ) × (owns (update pc i p' a) ≡ true)
  unfolding holding
  Move-owner (win g) e h = (i, ground arith)
  Move-owner mark e h = (i, ground arith)
  Move-owner (unmark g) e h = (i, ground arith)
  Move-owner (lose g) e h = let (a, q) = owner g in (a, ground arith)
  Move-owner free e h = absurd (h refl)
  Move-owner (not_held g) e h = let (a, q) = owner h in (a, ground (arith, calm i, marked i))
  Move-owner m e h = let (a, q) = owner h in (a, ground (arith, guard m))

  Move-Inv : {lk' : Spinlock} {p' : Pc} → Move i lk (pc i) lk' p' → Inv lk' (update pc i p')
  Move-Inv m = record {
    unique = Move-unique m refl;
    held = Move-held m refl;
    owner = Move-owner m refl;
    marked = Move-marked m refl;
    only = Move-only m refl;
    calm = Move-calm m refl;
  }

Reach-Inv : {s : System} → Reach s → Inv s.lock s.pc
unfolding initlock
Reach-Inv start = record {
  unique = λ i j q r. cc;
  held = λ i q. cc;
  owner = λ h. absurd (h refl);
  marked = λ i q. cc;
  only = λ i q. cc;
  calm = λ i q. cc;
}
Reach-Inv (later r (run i m)) = Move-Inv (Reach-Inv r) i m

-- In every reachable state at most one CPU has the lock.
pub mutual_exclusion :
    {s : System} → Reach s → (i j : ℕ) → owns (s.pc i) ≡ true → owns (s.pc j) ≡ true → i ≡ j
mutual_exclusion r i j p q = (Reach-Inv r).unique i j p q

-- In every reachable state no CPU has panicked: the test of `acquire` never takes another CPU's lock
-- for its own, and `release` finds the lock held by its caller.
pub spinlock_no_panic : {s : System} → Reach s → (i : ℕ) → s.pc i ≢ panicked
spinlock_no_panic r i = (Reach-Inv r).calm i

-- A CPU that spins in a reachable state takes the lock with its next swap, or another CPU has it.
pub lock_progress :
    {s : System}
    → Reach s
    → (i : ℕ) → s.pc i ≡ spinning
    → (Step s (record { lock = record s.lock { locked = 1 }; pc = update s.pc i owning }))
      ⊎ ((j : ℕ) × (j ≢ i) × (owns (s.pc j) ≡ true))
lock_progress {s} r i e = elim (ℕ_discrete s.lock.locked 0) [
  | yes z ↦ inl (
      run i
        (subst (λ (p : Pc). Move i s.lock p (record s.lock { locked = 1 }) owning) (sym e) (win z)))
  | no h ↦ let (j, q) = (Reach-Inv r).owner h in inr (j, ground arith, q)
]
