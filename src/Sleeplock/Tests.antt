-- ===== src/Sleeplock/Tests.antt =====
-- Runs of kernel/sleeplock.c.
use xv7_riscv.Sleeplock.{
  initsleeplock, acquiresleep, holdingsleep, outside, asleep, owning, System, Steps, start, later,
  takes, sleeps,
}
use xv7_riscv.Sleeplock.Owners.{sleeplock_owner}
use xv7_riscv.Prelude.{update, ℕ, refl, ◌≡◌, ◌↔◌, true, ◌≢◌}

abbrev free : System
free = record { lock = initsleeplock; phase = λ _. outside }

abbrev taken : System
taken = record { lock = record { locked = 1; pid = 7 }; phase = update (λ _. outside) 7 owning }

abbrev contended : System
contended = record taken { phase = update taken.phase 8 asleep }

contention : Steps free contended
unfolding acquiresleep
contention = later (later start (takes 7 _ refl refl)) (sleeps 8 refl refl)

sleeplock_owner_example :
    ((p q : ℕ) → contended.phase p ≡ owning → contended.phase q ≡ owning → p ≡ q)
    × ((p : ℕ) → (contended.phase p ≡ owning) ↔ (holdingsleep p contended.lock ≡ true))
    × ((p : ℕ) → contended.phase p ≡ asleep → contended.lock.locked ≢ 0)
sleeplock_owner_example = sleeplock_owner contention
