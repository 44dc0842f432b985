-- ===== src/Pipe/Tests.antt =====
-- Runs of kernel/pipe.c.
use xv7_riscv.Prelude.{
  ℕ, ◌+◌, ◌≡◌, [], ◌∷◌, List, ◌++◌, some, none, length, Option, Bool, true, arith, ltb, false, ◌≤◌,
  refl, if◌then◌else◌,
}
use xv7_riscv.Pipe.{Pipe, init, pipewrite, piperead, returned, on_nread, on_nwrite}
use xv7_riscv.Pipe.Calls.{Replied, piperead_dequeues}
use xv7_riscv.Pipe.Fifo.{IsValid, contents}
use xv7_riscv.Pipe.History.{Call, writes, receives, closes, run, pipe_fifo, Passed}

-- The bytes 10, 11, 12 of user memory; the page behind them is not mapped.
abbrev three : ℕ → Option ℕ
three i = if ltb i 3 then some (10 + i) else none

abbrev alive : ℕ → Bool
alive i = false

-- Two bytes, just before the counters wrap around.
abbrev wrapping : Pipe
wrapping = record {
  bytes = λ i. i;
  nread = 0xfffffffe;
  nwrite = 0;
  readopen = true;
  writeopen = true;
}

wrapping-IsValid : IsValid wrapping
wrapping-IsValid = omega arith

abbrev script : List Call
script =
    writes three alive 5 0
    ∷ receives (λ i. ltb i 1) false 3
    ∷ closes true
    ∷ receives (λ _. true) false 2
    ∷ []

pipe_fifo_example :
    let (p, ins, outs) = run script init in
    (left : List ℕ) × (ins ≡ left ++ contents p)
    × Passed script outs left
    × (length (contents p) ≤ 512)
pipe_fifo_example = pipe_fifo script (omega arith)

-- The second read byte, 11, is lost.
script_runs : (run script init).2 ≡ [] ∷ (10 ∷ []) ∷ [] ∷ (12 ∷ []) ∷ []
unfolding run xv7_riscv.Pipe.History.call piperead pipewrite xv7_riscv.Pipe.write_from init
    xv7_riscv.Pipe.read_from xv7_riscv.Pipe.pipeclose
script_runs = refl

write_stops : (pipewrite three alive 5 0 wrapping).0 ≡ returned 3
unfolding pipewrite xv7_riscv.Pipe.write_from
write_stops = refl

piperead_dequeues_example :
    Replied (λ i. ltb i 1) false 2 wrapping (piperead (λ i. ltb i 1) false 2 wrapping)
piperead_dequeues_example =
    piperead_dequeues (λ i. ltb i 1) false 2 wrapping (omega arith) wrapping-IsValid

-- The second byte leaves the pipe and does not reach the user.
read_drops : (piperead (λ i. ltb i 1) false 2 wrapping).1 ≡ 510 ∷ []
unfolding piperead xv7_riscv.Pipe.read_from
read_drops = refl
