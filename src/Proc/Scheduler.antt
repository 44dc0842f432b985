-- ===== src/Proc/Scheduler.antt =====
-- The lottery of `scheduler` in kernel/proc.c, with `rand` of kernel/rand.h.
use xv7_riscv.Proc.{nproc, ProcState, Table, set_proc}
use xv7_riscv.Prelude.{
  ℕ, zero, suc, ◌+◌, ◌-◌, ◌*◌, ◌/◌, ◌%◌, ◌^◌, Bool, true, false, not, ltb, ◌==◌, if◌then◌else◌,
  Option, none, some, update,
}

-- What stays from one turn of the loop to the next: the two locals of `scheduler`, which a turn does
-- not set back, and `lfsr`.
pub record Lottery : Type 0 where
  pub total_tickets : ℕ
  pub tickets : ℕ → ℕ
  pub lfsr : ℕ

-- Bit k of lfsr
abbrev bit : ℕ → ℕ → ℕ
bit lfsr k = lfsr / 2 ^ k % 2

-- The next `lfsr`, which is also the result.
unfoldable pub rand : ℕ → ℕ
rand lfsr =
    let bit0 = (bit lfsr 0 + bit lfsr 2 + bit lfsr 3 + bit lfsr 5) % 2 in
    (lfsr / 2 + bit0 * 2 ^ 15) % 2 ^ 16

abbrev pub is_runnable : ProcState → Bool
is_runnable ProcState.runnable = true
is_runnable _ = false

-- An `int` as the `unsigned long` that it is compared as.
abbrev pub to_ulong : ℕ → ℕ
to_ulong x = if ltb x (2 ^ 31) then x else x + (2 ^ 64 - 2 ^ 32)

-- The first loop, from process i on.
unfoldable pub add_tickets : ℕ → ℕ → Table → Lottery → Lottery
add_tickets zero i t s = s
add_tickets (suc k) i t s =
    let total = (s.total_tickets + to_ulong (t.proc i).tickets) % 2 ^ 64 in
    let skipped = add_tickets k (i + 1) t s in
    let added =
      add_tickets k (i + 1) t
        (record s { total_tickets = total; tickets = update s.tickets i (total % 2 ^ 32) }) in
    if not (is_runnable (t.proc i).state) then skipped else added

-- The second loop, from process i on.
unfoldable pub find_winner : ℕ → ℕ → ℕ → (ℕ → ℕ) → ℕ
find_winner zero i winner tickets = nproc - 2
find_winner (suc k) i winner tickets =
    let rest = find_winner k (i + 1) winner tickets in
    if ltb winner (to_ulong (tickets i)) then i else rest

-- The process that a turn picks; `none` where the remainder is one by 0.
unfoldable pub draw : Table → Lottery → Option (ℕ × Lottery)
draw t s =
    let s1 = add_tickets nproc 0 t s in
    let lfsr1 = rand s1.lfsr in
    if s1.total_tickets == 0
    then none
    else some
        (find_winner nproc 0 (lfsr1 % s1.total_tickets) s1.tickets, record s1 { lfsr = lfsr1 })

-- What the turn does with it, up to `swtch`.
unfoldable pub dispatch : ℕ → Table → Table
dispatch p t =
    if is_runnable (t.proc p).state
    then set_proc t p (record (t.proc p) { state = ProcState.running })
    else t
