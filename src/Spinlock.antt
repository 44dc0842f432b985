-- ===== src/Spinlock.antt =====
-- kernel/spinlock.c: the interrupt nesting of one CPU, and the parts of a spin lock's operations
-- between two accesses to shared memory.
mod Tests
pub mod Nesting
pub mod Steps
pub mod Mutex
use xv7_riscv.Prelude.{
  ℕ, ◌+◌, ◌-◌, Bool, true, false, ◌&&◌, ◌==◌, if◌then◌else◌, Option, none, some, ltb, leb, ◌||◌,
  ◌%◌, ◌^◌,
}

-- The fields of `struct cpu` that the locks use, and the SIE bit of its sstatus register. `noff` holds
-- the 32 bits of an `int`: from 2^31 on it stands for a negative number.
pub record Cpu : Type 0 where
  pub noff : ℕ
  pub intena : Bool
  pub intr : Bool

unfoldable pub push_off : Cpu → Cpu
push_off c = record {
  noff = (c.noff + 1) % 2 ^ 32;
  intena = if c.noff == 0 then c.intr else c.intena;
  intr = false;
}

-- `none` is a panic.
unfoldable pub pop_off : Cpu → Option Cpu
pop_off c =
    if c.intr
    then none
    else if (c.noff == 0) || leb (2 ^ 31) c.noff
    then none
    else some (record c { noff = c.noff - 1; intr = (c.noff - 1 == 0) && c.intena })

-- `struct spinlock`; `cpu` is `none` for the null pointer.
pub record Spinlock : Type 0 where
  pub locked : ℕ
  pub cpu : Option ℕ

unfoldable pub initlock : Spinlock
initlock = record { locked = 0; cpu = none }

abbrev pub is_cpu : ℕ → Option ℕ → Bool
is_cpu me none = false
is_cpu me (some c) = c == me

unfoldable pub holding : ℕ → Spinlock → Bool
holding me lk = if lk.locked == 0 then false else is_cpu me lk.cpu
