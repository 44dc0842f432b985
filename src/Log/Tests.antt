-- ===== src/Log/Tests.antt =====
-- Runs of kernel/log.c on a small disk.
use xv7_riscv.Prelude.{
  ◌+◌, ◌≡◌, [], ◌∷◌, false, update, arith, some, inr, ◌<◌, if◌then◌else◌, refl, ltb, ◌≢◌, none, ◌-◌,
}
use xv7_riscv.BlockStore.{Store, reboot}
use xv7_riscv.Log.{Log, LogHeader, commit, log_write, begin_op, end_op_enter, max_op_blocks}
use xv7_riscv.Log.Recovery.{Disk, restart, restarts, installed, SameHome}
use xv7_riscv.Log.Crash.{IsCommit, crash_atomicity}
use xv7_riscv.Log.Absorb.{IsLogging}
use xv7_riscv.Log.Space.{System, begins, start, later, no_log_panic}

abbrev zeroed : Disk
zeroed b w = 0

-- A log of LOGSIZE blocks from block 2 on.
abbrev empty_log : Log
empty_log = record {
  start = 2;
  size = 30;
  outstanding = 0;
  committing = false;
  dev = 1;
  lh = record { n = 0; block = λ _. 0 };
  wakeups = 0;
}

abbrev one_op : Log
one_op = record empty_log { outstanding = 1 }

-- Block 100 is changed in the cache.
abbrev changed : Store
changed = record {
  disk = zeroed;
  view = update zeroed 100 (λ _. 7);
  refcnt = update (λ _. 0) 100 1;
  power = 3;
}

-- The log that holds block 100.
abbrev filled : Log
filled = record one_op { lh = record { n = 1; block = λ _. 100 } }

changed-IsCommit : IsCommit filled changed
changed-IsCommit = record {
  clean = refl;
  ready = record { pinned = λ j lt. ground arith; home = λ j lt. inr (omega arith) };
  small = omega arith;
}

crash_atomicity_example :
    SameHome filled
      (restart 5 filled (restarts (1 ∷ 0 ∷ []) filled (commit filled changed).1.disk))
      (if ltb 1 3 then installed filled changed.view changed.disk else changed.disk)
crash_atomicity_example =
    crash_atomicity filled changed changed-IsCommit (1 ∷ 0 ∷ []) 5 (omega arith)

recovered_word :
    restart 5 filled (restarts (1 ∷ 0 ∷ []) filled (commit filled changed).1.disk) 100 0 ≡ 7
unfolding restart restarts commit xv7_riscv.Log.initlog xv7_riscv.Log.recover_from_log
    xv7_riscv.Log.write_head xv7_riscv.Log.install_trans xv7_riscv.Log.install_from
    xv7_riscv.Log.read_head reboot xv7_riscv.Log.install_block xv7_riscv.Log.write_log
    xv7_riscv.Log.log_from xv7_riscv.Log.log_block xv7_riscv.Log.write_blocks
    xv7_riscv.Log.read_blocks
recovered_word = refl

one_op-IsLogging : IsLogging one_op changed
one_op-IsLogging = record {
  fits = omega arith;
  room = omega arith;
  pinned = λ j lt. absurd (omega arith);
  outside = λ j lt. absurd (omega arith);
  once = λ i j li lj q. absurd (omega arith);
}

abbrev written : Log
written = record one_op { lh = record { n = 0 + 1; block = update (λ _. 0) 0 100 } }

abbrev pinned_twice : Store
pinned_twice = record changed { refcnt = update changed.refcnt 100 2 }

writes_100 : log_write 100 one_op changed ≡ some (written, pinned_twice)
unfolding log_write
writes_100 = refl

abbrev idle : System
idle = record { log = empty_log; store = reboot zeroed 0; budgets = [] }

begun : begin_op empty_log ≡ some one_op
unfolding begin_op
begun = refl

abbrev working : System
working = record idle { log = one_op; budgets = max_op_blocks ∷ [] }

no_log_panic_example :
    (30 + 1 - 30 < 10 → log_write 100 one_op (reboot zeroed 0) ≢ none)
    × (end_op_enter one_op ≢ none)
no_log_panic_example =
    no_log_panic {s = idle} {t = working} (refl, refl, refl, refl) (later start (begins begun)) 100
      10 [] [] refl

-- The log that mkfs makes has LOGSIZE blocks: it holds 29 blocks, and no thirtieth.
thirtieth_panics :
    log_write 100 (record one_op { lh = record { n = 29; block = λ _. 0 } }) (reboot zeroed 0)
    ≡ none
unfolding log_write
thirtieth_panics = refl
