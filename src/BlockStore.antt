-- ===== src/BlockStore.antt =====
-- What the buffer cache (kernel/buffer-io.c) and the disk driver promise their clients: a block is
-- read through a cached view, and only `write` changes the disk.
use xv7_riscv.Prelude.{ℕ, ◌+◌, ◌-◌, ◌==◌, if◌then◌else◌, update}

-- A block of BSIZE bytes, as its 32-bit words.
abbrev pub Block : Type 0
Block = ℕ → ℕ

-- `power` is the number of block writes that still reach the disk before the machine stops: with
-- `power` quantified, `disk` at the end of a run is the disk after a crash at any point of the run.
pub record Store : Type 0 where
  pub disk : ℕ → Block
  pub view : ℕ → Block
  pub refcnt : ℕ → ℕ
  pub power : ℕ

-- The machine after a restart: no block is cached.
unfoldable pub reboot : (ℕ → Block) → ℕ → Store
reboot disk power = record { disk = disk; view = disk; refcnt = λ _. 0; power = power }

unfoldable pub read : ℕ → Store → Store
read b s = record s { refcnt = update s.refcnt b (s.refcnt b + 1) }

-- What a client stores into `data` of the buffer that it holds.
unfoldable pub set_data : ℕ → Block → Store → Store
set_data b d s = record s { view = update s.view b d }

unfoldable pub write : ℕ → Store → Store
write b s =
    if s.power == 0 then s else record s { disk = update s.disk b (s.view b); power = s.power - 1 }

unfoldable pub pin : ℕ → Store → Store
pin b s = record s { refcnt = update s.refcnt b (s.refcnt b + 1) }

unfoldable pub unpin : ℕ → Store → Store
unpin b s = record s { refcnt = update s.refcnt b (s.refcnt b - 1) }

-- The last release gives the buffer up: from then on the block is read from the disk again.
unfoldable pub release : ℕ → Store → Store
release b s = record s {
  refcnt = update s.refcnt b (s.refcnt b - 1);
  view = if s.refcnt b == 1 then update s.view b (s.disk b) else s.view;
}
