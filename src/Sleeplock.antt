-- ===== src/Sleeplock.antt =====
-- The sleep locks of kernel/sleeplock.c. The spin lock `lk->lk` makes each critical section one step.
pub mod Owners
mod Tests
use xv7_riscv.Prelude.{ℕ, Option, Bool, ◌≡◌, if◌then◌else◌, not, some, ◌==◌, update, none, ◌&&◌}

pub record Sleeplock : Type 0 where
  pub locked : ℕ
  pub pid : ℕ

abbrev pub initsleeplock : Sleeplock
initsleeplock = record { locked = 0; pid = 0 }

-- A round of the loop of `acquiresleep` by the process with this pid; `none` means that it sleeps.
unfoldable pub acquiresleep : ℕ → Sleeplock → Option Sleeplock
acquiresleep me lk = if not (lk.locked == 0) then none else some (record { locked = 1; pid = me })

-- `releasesleep`, less the wakeup
unfoldable pub releasesleep : Sleeplock → Sleeplock
releasesleep lk = record { locked = 0; pid = 0 }

unfoldable pub holdingsleep : ℕ → Sleeplock → Bool
holdingsleep me lk = not (lk.locked == 0) && (lk.pid == me)

-- Where a process stands: outside (or woken, about to try again), asleep on the lock, or its owner.
pub data Phase : Type 0 where
  outside asleep owning : Phase

abbrev pub woken : Phase → Phase
woken asleep = outside
woken x = x

-- The lock with the processes that use it, by pid.
pub record System : Type 0 where
  pub lock : Sleeplock
  pub phase : ℕ → Phase

pub data Step (s : System) : System → Type 0 where
  takes :
      (me : ℕ) (lk : Sleeplock)
      → s.phase me ≡ outside
      → acquiresleep me s.lock ≡ some lk
      → Step s (record { lock = lk; phase = update s.phase me owning })
  sleeps :
      (me : ℕ)
      → s.phase me ≡ outside
      → acquiresleep me s.lock ≡ none
      → Step s (record s { phase = update s.phase me asleep })
  releases :
      (me : ℕ)
      → s.phase me ≡ owning
      → Step s
          (record { lock = releasesleep s.lock; phase = λ p. woken (update s.phase me outside p) })

pub data Steps (s : System) : System → Type 0 where
  start : Steps s s
  later : {t u : System} → Steps s t → Step t u → Steps s u
