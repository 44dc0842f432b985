-- ===== src/Pipe.antt =====
-- kernel/pipe.c. Each function is modelled from `acquire(&pi->lock)` to the `release` or the `sleep`
-- that gives the lock up; a caller that sleeps runs the function again from where it slept.
mod Tests
pub mod Fifo
pub mod Calls
pub mod History
use xv7_riscv.Prelude.{
  ℕ, zero, suc, ◌+◌, ◌%◌, ◌^◌, Bool, true, false, not, ◌&&◌, ◌||◌, ◌==◌, if◌then◌else◌, update,
  rounds, List, [], ◌∷◌, Option, none, some,
}

abbrev pub pipe_size : ℕ
pipe_size = 512

-- `nread` and `nwrite` are unsigned 32-bit counters.
pub record Pipe : Type 0 where
  pub bytes : ℕ → ℕ
  pub nread : ℕ
  pub nwrite : ℕ
  pub readopen : Bool
  pub writeopen : Bool

-- The channels `&pi->nread` and `&pi->nwrite`.
pub data Channel : Type 0 where
  on_nread on_nwrite : Channel

-- How a critical section ends: with the function's result, with its -1, or asleep after `i` bytes.
pub data Exit : Type 0 where
  returned : ℕ → Exit
  failed : Exit
  sleeping : ℕ → Exit

abbrev pub incr : ℕ → ℕ
incr n = (n + 1) % 2 ^ 32

-- The fields that `pipealloc` sets; the page comes zeroed from `kalloc`.
unfoldable pub init : Pipe
init = record { bytes = λ _. 0; nread = 0; nwrite = 0; readopen = true; writeopen = true }

unfoldable pub put : ℕ → Pipe → Pipe
put ch p = record p { bytes = update p.bytes (p.nwrite % pipe_size) ch; nwrite = incr p.nwrite }

unfoldable pub skip : Pipe → Pipe
skip p = record p { nread = incr p.nread }

-- The result is the exit, the pipe, and the channels that `wakeup` was called on.
abbrev pub Result : Type 0
Result = Exit × Pipe × List Channel

-- `fetch i` is the byte that `copy_from_user` brings from addr + i, if the page is mapped; `killed i` is
-- what `killed(pr)` answers in round i.
module _ (fetch : ℕ → Option ℕ) (killed : ℕ → Bool) where
  unfoldable pub write_from : ℕ → ℕ → Pipe → Result
  unfolding put
  write_from zero i p = (returned i, p, on_nread ∷ [])
  write_from (suc k) i p =
      let next : Result = elim (fetch i) [
        | none ↦ (returned i, p, on_nread ∷ [])
        | some ch ↦ write_from k (i + 1) (put ch p)
      ] in
      if not p.readopen || killed i
      then (failed, p, [])
      else if p.nwrite == (p.nread + pipe_size) % 2 ^ 32
      then (sleeping i, p, on_nread ∷ [])
      else next

  -- A call of `pipewrite`, and its continuation after a sleep, with n - i bytes to go.
  unfoldable pub pipewrite : ℕ → ℕ → Pipe → Result
  pipewrite left i p = write_from (rounds left) i p

-- `deliver i` says whether `copy_to_user` can store at addr + i. The list holds the bytes that reached
-- the user. A byte is taken off the pipe before it is copied.
module _ (deliver : ℕ → Bool) where
  unfoldable pub read_from : ℕ → ℕ → Pipe → ℕ × Pipe × List ℕ
  unfolding skip
  read_from zero i p = (i, p, [])
  read_from (suc k) i p =
      let (i', p', out) = read_from k (i + 1) (skip p) in
      if p.nread == p.nwrite
      then (i, p, [])
      else if deliver i
      then (i', p', p.bytes (p.nread % pipe_size) ∷ out)
      else (i, skip p, [])

  -- `killed` is what `killed(pr)` answers while the pipe is empty.
  unfoldable pub piperead : Bool → ℕ → Pipe → Result × List ℕ
  piperead killed n p =
      let (i, p', out) = read_from (rounds n) 0 p in
      if (p.nread == p.nwrite) && p.writeopen
      then ((if killed then failed else sleeping 0, p, []), [])
      else ((returned i, p', on_nwrite ∷ []), out)

-- The last component says whether the page of the pipe is freed.
unfoldable pub pipeclose : Bool → Pipe → Pipe × List Channel × Bool
pipeclose true p = (record p { writeopen = false }, on_nread ∷ [], not p.readopen)
pipeclose false p = (record p { readopen = false }, on_nwrite ∷ [], not p.writeopen)
