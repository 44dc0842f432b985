-- ===== src/Spinlock/Tests.antt =====
-- Runs of kernel/spinlock.c.
use xv7_riscv.Prelude.{ℕ, ◌≡◌, [], ◌∷◌, some, true, false, arith, none, ◌≢◌, update, refl, ◌⊎◌}
use xv7_riscv.Spinlock.{Cpu, initlock}
use xv7_riscv.Spinlock.Nesting.{push, pop, toggles, depth, IsNested, toggles_restore}
use xv7_riscv.Spinlock.Steps.{
  outside, testing, spinning, owning, panicked, begin, see_free, win, System, Step, run, Reach,
  start, later, owns,
}
use xv7_riscv.Spinlock.Mutex.{mutual_exclusion, spinlock_no_panic, lock_progress}

abbrev idle_cpu : Cpu
idle_cpu = record { noff = 0; intena = false; intr = true }

idle_cpu-IsNested : IsNested true 0 idle_cpu
idle_cpu-IsNested = record {
  deep = refl;
  small = omega arith;
  outside = λ e. refl;
  within = λ p. absurd (omega arith);
}

toggles_restore_example :
    (c : Cpu) × (toggles (push ∷ push ∷ pop ∷ pop ∷ []) idle_cpu ≡ some c) × IsNested true 0 c
unfolding depth
toggles_restore_example =
    toggles_restore (push ∷ push ∷ pop ∷ pop ∷ []) true 0 0 idle_cpu idle_cpu-IsNested refl

abbrev at_spin : System
at_spin = record {
  lock = record { locked = 0; cpu = none };
  pc = update (update (λ _. outside) 0 testing) 0 spinning;
}

at_spin-Reach : Reach at_spin
unfolding initlock
at_spin-Reach = later (later start (run 0 begin)) (run 0 (see_free refl))

abbrev at_own : System
at_own = record { lock = record { locked = 1; cpu = none }; pc = update at_spin.pc 0 owning }

at_own-Reach : Reach at_own
at_own-Reach = later at_spin-Reach (run 0 (win refl))

mutual_exclusion_example : ◌≡◌ {A = ℕ} 0 0
mutual_exclusion_example = mutual_exclusion at_own-Reach 0 0 refl refl

spinlock_no_panic_example : at_own.pc 0 ≢ panicked
spinlock_no_panic_example = spinlock_no_panic at_own-Reach 0

lock_progress_example :
    (Step at_spin
      (record { lock = record at_spin.lock { locked = 1 }; pc = update at_spin.pc 0 owning }))
    ⊎ ((j : ℕ) × (j ≢ 0) × (owns (at_spin.pc j) ≡ true))
lock_progress_example = lock_progress at_spin-Reach 0 refl
