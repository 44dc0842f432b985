-- ===== src/Spinlock/Steps.antt =====
-- `acquire` and `release` of one lock by many CPUs, one access to the lock at a time.
use xv7_riscv.Prelude.{ℕ, ◌≡◌, ◌≢◌, update, some, none, true, false, Bool}
use xv7_riscv.Spinlock.{Spinlock, is_cpu, holding, initlock}

-- Where a CPU stands.
pub data Pc : Type 0 where
  outside : Pc
  testing : Pc  -- `acquire`, before `holding` reads `lk->locked`
  testing_cpu : Pc  -- before `holding` reads `lk->cpu`
  spinning : Pc  -- before the atomic swap
  owning : Pc  -- the swap has returned 0
  inside : Pc  -- between `acquire` and `release`
  leaving : Pc  -- `release`, before `lk->locked` is cleared
  panicked : Pc

-- One access of CPU `me` to the lock.
pub data Move (me : ℕ) (lk : Spinlock) : Pc → Spinlock → Pc → Type 0 where
  begin : Move me lk outside lk testing
  see_free : lk.locked ≡ 0 → Move me lk testing lk spinning
  see_held : lk.locked ≢ 0 → Move me lk testing lk testing_cpu
  see_other : is_cpu me lk.cpu ≡ false → Move me lk testing_cpu lk spinning
  see_self : is_cpu me lk.cpu ≡ true → Move me lk testing_cpu lk panicked
  lose : lk.locked ≢ 0 → Move me lk spinning (record lk { locked = 1 }) spinning
  win : lk.locked ≡ 0 → Move me lk spinning (record lk { locked = 1 }) owning
  mark : Move me lk owning (record lk { cpu = some me }) inside
  unmark : holding me lk ≡ true → Move me lk inside (record lk { cpu = none }) leaving
  not_held : holding me lk ≡ false → Move me lk inside lk panicked
  free : Move me lk leaving (record lk { locked = 0 }) outside

pub record System : Type 0 where
  pub lock : Spinlock
  pub pc : ℕ → Pc

pub data Step (s : System) : System → Type 0 where
  run :
      (i : ℕ) {lk : Spinlock} {p : Pc}
      → Move i s.lock (s.pc i) lk p
      → Step s (record { lock = lk; pc = update s.pc i p })

abbrev pub init : System
unfolding initlock
init = record { lock = initlock; pc = λ _. outside }

pub data Reach : System → Type 0 where
  start : Reach init
  later : {s t : System} → Reach s → Step s t → Reach t

-- The CPU has the lock: its swap has returned 0, and it has not cleared `locked`.
abbrev pub owns : Pc → Bool
owns owning = true
owns inside = true
owns leaving = true
owns _ = false
