-- ===== src/Proc.antt =====
-- The process table of kernel/proc.c. `p->lock` and `wait_lock` make each function here one step; a
-- process is named by its index in `proc`. Left out are the name of a process, which is for debugging,
-- and its kernel stack and saved context, which the assembly of the switch uses.
pub mod Family
pub mod Steps
pub mod Wakeup
pub mod Waiting
pub mod Zombies
pub mod Scheduler
pub mod Starving
mod Tests
use xv7_riscv.Prelude.{
  ℕ, zero, suc, ◌+◌, Bool, true, false, not, ◌&&◌, ◌||◌, ◌==◌, if◌then◌else◌, update, Option, none,
  some, List, [], ◌∷◌, ◌%◌, ◌^◌,
}

-- NPROC and NOFILE of kernel/param.h
abbrev pub nproc : ℕ
nproc = 64

abbrev pub nofile : ℕ
nofile = 16

pub data ProcState : Type 0 where
  unused used sleeping runnable running zombie : ProcState

abbrev pub is_unused : ProcState → Bool
is_unused unused = true
is_unused _ = false

abbrev pub is_sleeping : ProcState → Bool
is_sleeping sleeping = true
is_sleeping _ = false

abbrev pub is_zombie : ProcState → Bool
is_zombie zombie = true
is_zombie _ = false

-- What a wait channel points at: nothing, a process, or something else at an address.
pub data Channel : Type 0 where
  null : Channel
  of_proc : ℕ → Channel
  at : ℕ → Channel

abbrev pub same_channel : Channel → Channel → Bool
same_channel null null = true
same_channel (of_proc p) (of_proc q) = p == q
same_channel (at a) (at b) = a == b
same_channel _ _ = false

-- `struct proc`; `frame` holds the words of the trapframe page, `ofile` has 0 for the null pointer.
pub record Proc : Type 0 where
  pub state : ProcState
  pub channel : Channel
  pub killed : Bool
  pub xstate : ℕ
  pub pid : ℕ
  pub parent : Option ℕ
  pub sz : ℕ
  pub pagetable : ℕ
  pub trapframe : ℕ
  pub frame : ℕ → ℕ
  pub ofile : ℕ → ℕ
  pub cwd : ℕ
  pub tickets : ℕ
  pub alarmticks : ℕ
  pub alarmhandler : ℕ
  pub ticks : ℕ

pub record Table : Type 0 where
  pub proc : ℕ → Proc
  pub nextpid : ℕ
  pub initproc : Option ℕ

abbrev pub set_proc : Table → ℕ → Proc → Table
set_proc t i p = record t { proc = update t.proc i p }

-- `allocpid`. The counter is an `int` that is never reset.
unfoldable pub allocpid : Table → ℕ × Table
allocpid t = (t.nextpid, record t { nextpid = (t.nextpid + 1) % 2 ^ 32 })

-- `freeproc`, less the release of the pages, which belongs to the allocators.
unfoldable pub freeproc : Proc → Proc
freeproc p = record p {
  trapframe = 0;
  pagetable = 0;
  sz = 0;
  pid = 0;
  parent = none;
  channel = null;
  killed = false;
  xstate = 0;
  state = unused;
}

-- The search of `allocproc` from entry i on.
unfoldable pub find_unused : ℕ → ℕ → Table → Option ℕ
find_unused zero i t = none
find_unused (suc k) i t =
    let rest = find_unused k (i + 1) t in if is_unused (t.proc i).state then some i else rest

-- `trapframe` and `pagetable` are what `kalloc` and `proc_pagetable` return, 0 for a failure.
unfoldable pub allocproc_at : ℕ → ℕ → ℕ → Table → Option ℕ × Table
unfolding allocpid freeproc
allocproc_at i trapframe pagetable t =
    let (pid, t1) = allocpid t in
    let p1 = record (t1.proc i) { pid = pid; state = used; trapframe = trapframe } in
    let p2 = record p1 { pagetable = pagetable } in
    if trapframe == 0
    then (none, set_proc t1 i (freeproc p1))
    else if pagetable == 0
    then (none, set_proc t1 i (freeproc p2))
    else (some i, set_proc t1 i (record p2 { ticks = 0; alarmhandler = 0; tickets = 1 }))

unfoldable pub allocproc : ℕ → ℕ → Table → Option ℕ × Table
unfolding find_unused allocproc_at
allocproc trapframe pagetable t = elim (find_unused nproc 0 t) [
  | none ↦ (none, t)
  | some i ↦ allocproc_at i trapframe pagetable t
]

-- What `wakeup` does to one process.
unfoldable pub wake : Channel → Proc → Proc
wake channel p =
    if is_sleeping p.state && same_channel p.channel channel
    then record p { state = runnable }
    else p

-- The loop of `wakeup` from entry i on, run by process `me`.
unfoldable pub wakeup_from : ℕ → ℕ → ℕ → Channel → Table → Table
unfolding wake
wakeup_from zero i me channel t = t
wakeup_from (suc k) i me channel t =
    wakeup_from k (i + 1) me channel (if i == me then t else set_proc t i (wake channel (t.proc i)))

unfoldable pub wakeup : ℕ → Channel → Table → Table
unfolding wakeup_from
wakeup me channel t = wakeup_from nproc 0 me channel t

-- `sleep`, up to `sched`, and what follows when the process runs again.
unfoldable pub sleep : ℕ → Channel → Table → Table
sleep me channel t = set_proc t me (record (t.proc me) { channel = channel; state = sleeping })

unfoldable pub resume : ℕ → Table → Table
resume me t = set_proc t me (record (t.proc me) { channel = null })

-- `yield`, up to `sched`
unfoldable pub yield : ℕ → Table → Table
yield me t = set_proc t me (record (t.proc me) { state = runnable })

unfoldable pub kill_at : ℕ → Table → Table
kill_at i t =
    let p = t.proc i in
    set_proc t i
      (record p { killed = true; state = if is_sleeping p.state then runnable else p.state })

-- The loop of `kill` from entry i on; the Boolean is true for the result 0.
unfoldable pub kill_from : ℕ → ℕ → ℕ → Table → Bool × Table
unfolding kill_at
kill_from zero i pid t = (false, t)
kill_from (suc k) i pid t =
    let rest = kill_from k (i + 1) pid t in
    if (t.proc i).pid == pid then (true, kill_at i t) else rest

unfoldable pub kill : ℕ → Table → Bool × Table
unfolding kill_from
kill pid t = kill_from nproc 0 pid t

unfoldable pub setkilled : ℕ → Table → Table
setkilled i t = set_proc t i (record (t.proc i) { killed = true })
