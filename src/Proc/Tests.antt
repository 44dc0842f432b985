-- ===== src/Proc/Tests.antt =====
-- Runs of kernel/proc.c.
use xv7_riscv.Prelude.{
  ℕ, false, some, update, ◌≡◌, true, ◌<◌, none, ◌≢◌, arith, ◌⊎◌, refl, if◌then◌else◌, ◌≤◌,
}
use xv7_riscv.Proc.{
  Proc, Table, unused, runnable, running, sleeping, of_proc, null, kill, set_proc, zombie,
  is_sleeping, sleep,
}
use xv7_riscv.Proc.Scheduler.{Lottery, draw}
use xv7_riscv.Proc.Starving.{scheduler_starves}
use xv7_riscv.Proc.Family.{wait, scan_from, wait_end}
use xv7_riscv.Proc.Wakeup.{kill_lem}
use xv7_riscv.Proc.Waiting.{WaitEnds, wait_lem}
use xv7_riscv.Proc.Steps.{waits, Reach, start, later, no_lost_wakeup}

abbrev blank : Proc
blank = record {
  state = unused;
  channel = null;
  killed = false;
  xstate = 0;
  pid = 0;
  parent = none;
  sz = 0;
  pagetable = 0;
  trapframe = 0;
  frame = λ _. 0;
  ofile = λ _. 0;
  cwd = 0;
  tickets = 0;
  alarmticks = 0;
  alarmhandler = 0;
  ticks = 0;
}

-- init, a shell that runs, and a child of the shell that runs.
abbrev init_proc : Proc
init_proc = record blank { state = runnable; pid = 1 }

abbrev shell : Proc
shell = record blank { state = running; pid = 2; parent = some 0 }

abbrev child : Proc
child = record blank { state = running; pid = 3; parent = some 1 }

abbrev three : Table
three = record {
  proc = update (update (update (λ _. blank) 2 child) 1 shell) 0 init_proc;
  nextpid = 4;
  initproc = some 0;
}

abbrev asleep : Table
asleep = set_proc three 1 (record shell { state = sleeping; channel = of_proc 1 })

kill_lem_example :
    ((kill 2 asleep ≡ (false, asleep)) × ((j : ℕ) → j < 64 → (asleep.proc j).pid ≢ 2))
    ⊎ ((j : ℕ) × (j < 64)
        × ((asleep.proc j).pid ≡ 2)
        × ((m : ℕ) → m < j → (asleep.proc m).pid ≢ 2)
        × (kill 2 asleep ≡ (
          true,
          set_proc asleep j (record (asleep.proc j) {
            killed = true;
            state = if is_sleeping (asleep.proc j).state then runnable else (asleep.proc j).state;
          }),
        )))
kill_lem_example = kill_lem 2 asleep

wait_lem_example : WaitEnds 1 true three (wait 1 true three)
wait_lem_example = wait_lem 1 true three

alive : (c : ℕ) → c < 64 → (three.proc c).state ≢ zombie
alive c lt = ground arith

abbrev waited : Table
waited = (wait 1 true three).1

after_wait : Reach three waited
after_wait = later start (waits 1 true (omega arith) refl)

no_lost_wakeup_example : (waited.proc 2).state ≢ zombie
unfolding wait scan_from wait_end sleep
no_lost_wakeup_example =
    no_lost_wakeup alive after_wait 1 2 (omega arith) (omega arith) refl refl refl

-- Process 0 has one ticket and process 3 has 900.
abbrev lopsided : Table
lopsided = record three {
  proc =
      update (update (λ _. blank) 3 (record blank { state = runnable; tickets = 900 })) 0
        (record blank { state = runnable; tickets = 1 });
}

abbrev worn : Lottery
worn = record { total_tickets = 70000; tickets = λ _. 0; lfsr = 0xACE1 }

lopsided-few : (i : ℕ) → (lopsided.proc i).tickets ≤ 900
lopsided-few i = ground arith

scheduler_starves_example :
    (p : ℕ) × (u : Lottery) × (draw lopsided worn ≡ some (p, u))
    × (p ≤ 0)
    × (70000 ≤ u.total_tickets)
scheduler_starves_example =
    scheduler_starves lopsided worn 900 0 lopsided-few (omega arith) (omega arith) (omega arith)
      refl
