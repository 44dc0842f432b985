-- ===== src/Log.antt =====
-- kernel/log.c
mod Tests
pub mod Absorb
pub mod Blocks
pub mod Head
pub mod Crash
pub mod Install
pub mod Recovery
pub mod Space
use xv7_riscv.Prelude.{
  rounds, ℕ, zero, suc, ◌+◌, ◌-◌, ◌*◌, ◌%◌, ◌^◌, Bool, true, false, ◌||◌, ltb, leb, ◌==◌,
  if◌then◌else◌, update, Option, none, some,
}
use xv7_riscv.BlockStore.{Block, Store, read, set_data, write, release, pin, unpin}

-- LOGSIZE and MAXOPBLOCKS of kernel/param.h
abbrev pub max_op_blocks : ℕ
max_op_blocks = 10

abbrev pub log_size : ℕ
log_size = max_op_blocks * 3

pub record LogHeader : Type 0 where
  pub n : ℕ
  pub block : ℕ → ℕ

-- `int` fields are 32-bit patterns.
pub record Log : Type 0 where
  pub start : ℕ
  pub size : ℕ
  pub outstanding : ℕ
  pub committing : Bool
  pub dev : ℕ
  pub lh : LogHeader
  -- the calls of `wakeup(&log)` so far
  pub wakeups : ℕ

-- One round of the loop of `install_trans`.
unfoldable pub install_block : Bool → ℕ → Log → Store → Store
unfolding read set_data write release unpin
install_block recovering tail log s =
    let lblock = log.start + tail + 1 in
    let dblock = log.lh.block tail in
    let s1 = read dblock (read lblock s) in
    let s2 = write dblock (set_data dblock (s1.view lblock) s1) in
    let s3 = if recovering then s2 else unpin dblock s2 in release dblock (release lblock s3)

unfoldable pub install_from : ℕ → ℕ → Bool → Log → Store → Store
install_from zero tail recovering log s = s
install_from (suc k) tail recovering log s =
    install_from k (tail + 1) recovering log (install_block recovering tail log s)

unfoldable pub install_trans : Bool → Log → Store → Store
install_trans recovering log s = install_from (rounds log.lh.n) 0 recovering log s

-- `lh->block[i]` is word 1 + i of the header block.
unfoldable pub read_blocks : ℕ → ℕ → Block → (ℕ → ℕ) → ℕ → ℕ
read_blocks zero i header block = block
read_blocks (suc k) i header block = read_blocks k (i + 1) header (update block i (header (i + 1)))

unfoldable pub read_head : Log → Store → Log × Store
unfolding read release
read_head log s =
    let s1 = read log.start s in
    let header = s1.view log.start in
    let n = header 0 in
    let lh : LogHeader = record { n = n; block = read_blocks (rounds n) 0 header log.lh.block } in
    (record log { lh = lh }, release log.start s1)

unfoldable pub write_blocks : ℕ → ℕ → (ℕ → ℕ) → Block → Block
write_blocks zero i block header = header
write_blocks (suc k) i block header = write_blocks k (i + 1) block (update header (i + 1) (block i))

unfoldable pub write_head : Log → Store → Store
unfolding read set_data write release
write_head log s =
    let s1 = read log.start s in
    let header = update (s1.view log.start) 0 log.lh.n in
    let header' = write_blocks (rounds log.lh.n) 0 log.lh.block header in
    release log.start (write log.start (set_data log.start header' s1))

abbrev pub clear : Log → Log
clear log = record log { lh = record { n = 0; block = log.lh.block } }

unfoldable pub recover_from_log : Log → Store → Log × Store
recover_from_log log s =
    let (log1, s1) = read_head log s in
    let s2 = install_trans true log1 s1 in (clear log1, write_head (clear log1) s2)

-- The test `sizeof(struct logheader) >= BSIZE` compares constants: 31 words are less than a block.
unfoldable pub initlog : ℕ → ℕ → ℕ → Log → Store → Log × Store
initlog dev logstart nlog log s =
    recover_from_log (record log { start = logstart; size = nlog; dev = dev }) s

-- One round of the loop of `write_log`.
unfoldable pub log_block : ℕ → Log → Store → Store
unfolding read set_data write release
log_block tail log s =
    let to = log.start + tail + 1 in
    let from = log.lh.block tail in
    let s1 = read from (read to s) in
    let s2 = write to (set_data to (s1.view from) s1) in release to (release from s2)

unfoldable pub log_from : ℕ → ℕ → Log → Store → Store
log_from zero tail log s = s
log_from (suc k) tail log s = log_from k (tail + 1) log (log_block tail log s)

unfoldable pub write_log : Log → Store → Store
write_log log s = log_from (rounds log.lh.n) 0 log s

unfoldable pub commit : Log → Store → Log × Store
commit log s =
    let s3 = install_trans false log (write_head log (write_log log s)) in
    if ltb 0 (rounds log.lh.n) then (clear log, write_head (clear log) s3) else (log, s)

-- `begin_op` under the lock: `none` where the caller sleeps on the log, and runs the test again when
-- it is woken.
unfoldable pub begin_op : Log → Option Log
begin_op log =
    if log.committing
    then none
    else if ltb log_size (log.lh.n + (log.outstanding + 1) * max_op_blocks)
    then none
    else some (record log { outstanding = log.outstanding + 1 })

-- The first critical section of `end_op`, with `do_commit`; `none` is the panic.
unfoldable pub end_op_enter : Log → Option (Log × Bool)
end_op_enter log =
    let outstanding = (log.outstanding + 2 ^ 32 - 1) % 2 ^ 32 in
    if log.committing
    then none
    else if outstanding == 0
    then some (record log { outstanding = outstanding; committing = true }, true)
    else some (record log { outstanding = outstanding; wakeups = log.wakeups + 1 }, false)

-- The last critical section of an `end_op` that has committed.
unfoldable pub end_op_leave : Log → Log
end_op_leave log = record log { committing = false; wakeups = log.wakeups + 1 }

unfoldable pub end_op_commit : Log → Store → Bool → Log × Store
end_op_commit log s true = let (log', s') = commit log s in (end_op_leave log', s')
end_op_commit log s false = (log, s)

unfoldable pub end_op : Log → Store → Option (Log × Store)
unfolding end_op_enter end_op_leave end_op_commit
end_op log s = elim (end_op_enter log) [
  | none ↦ none
  | some (log', do_commit) ↦ some (end_op_commit log' s do_commit)
]

-- The first index below n, from i on, at which the header holds block b; n if there is none.
unfoldable pub absorb : ℕ → ℕ → (ℕ → ℕ) → ℕ → ℕ
absorb zero i block b = i
absorb (suc k) i block b = let rest = absorb k (i + 1) block b in if block i == b then i else rest

-- `outstanding < 1` holds of 0 and of a negative number.
abbrev pub none_outstanding : Log → Bool
none_outstanding log = (log.outstanding == 0) || leb (2 ^ 31) log.outstanding

unfoldable pub log_write : ℕ → Log → Store → Option (Log × Store)
unfolding absorb pin
log_write b log s =
    let n = log.lh.n in
    let i = absorb (rounds n) 0 log.lh.block b in
    let block = update log.lh.block i b in
    if leb log_size n || leb log.size (n + 1)
    then none
    else if none_outstanding log
    then none
    else if i == n
    then some (record log { lh = record { n = n + 1; block = block } }, pin b s)
    else some (record log { lh = record { n = n; block = block } }, s)
