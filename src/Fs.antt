-- ===== src/Fs.antt =====
-- kernel/fs.c over the blocks of the disk as a transaction sees them. `bufcache_read` gives the block,
-- `log_write` records that it belongs to the transaction (module Log); bytes are numbers below 256.
pub mod Bits
pub mod Allocation
pub mod Bitmap
pub mod Content
pub mod Directory
pub mod Inode
pub mod Paths
pub mod References
pub mod Holders
mod Tests
use xv7_riscv.Prelude.{
  ℕ, List, update, ◌+◌, Option, ◌/◌, Bool, if◌then◌else◌, ◌%◌, ◌∷◌, ◌*◌, ◌==◌, ◌^◌, ◌-◌, none, not,
  some, suc, ltb, zero,
}

-- BSIZE of kernel/fs.h, and BPB, the bits of a block
abbrev pub bsize : ℕ
bsize = 1024

abbrev pub bpb : ℕ
bpb = 8192

abbrev pub Block : Type 0
Block = ℕ → ℕ

-- The blocks, and the numbers that were passed to `log_write`, the last first.
pub record Disk : Type 0 where
  pub blocks : ℕ → Block
  pub logged : List ℕ

pub record Superblock : Type 0 where
  pub magic : ℕ
  pub size : ℕ
  pub nblocks : ℕ
  pub ninodes : ℕ
  pub nlog : ℕ
  pub logstart : ℕ
  pub inodestart : ℕ
  pub bmapstart : ℕ

-- What a client stores into a block before `log_write`.
abbrev pub log_write : ℕ → Block → Disk → Disk
log_write b x d = record { blocks = update d.blocks b x; logged = b ∷ d.logged }

-- The `unsigned short` and the `unsigned int` at a byte offset, the lowest byte first.
abbrev pub half : Block → ℕ → ℕ
half x o = x o + 256 * x (o + 1)

abbrev pub word : Block → ℕ → ℕ
word x o = half x o + 65536 * half x (o + 2)

unfoldable pub readsb : Disk → Superblock
readsb d =
    let x = d.blocks 1 in
    record {
      magic = word x 0;
      size = word x 4;
      nblocks = word x 8;
      ninodes = word x 12;
      nlog = word x 16;
      logstart = word x 20;
      inodestart = word x 24;
      bmapstart = word x 28;
    }

-- `fsinit` up to `initlog`; `none` is the panic.
unfoldable pub fsinit : Disk → Option Superblock
unfolding readsb
fsinit d = let sb = readsb d in if sb.magic == 0x10203040 then some sb else none

unfoldable pub bzero : ℕ → Disk → Disk
bzero b d = log_write b (λ _. 0) d

-- BBLOCK
abbrev pub bblock : Superblock → ℕ → ℕ
bblock sb b = (b / bpb + sb.bmapstart) % 2 ^ 32

-- `(x & (1 << i)) != 0`, `x | (1 << i)` and `x & ~(1 << i)`
unfoldable pub bit : ℕ → ℕ → Bool
bit x i = x / 2 ^ i % 2 == 1

unfoldable pub set_bit : ℕ → ℕ → ℕ
unfolding bit
set_bit x i = if bit x i then x else x + 2 ^ i

unfoldable pub clear_bit : ℕ → ℕ → ℕ
unfolding bit
clear_bit x i = if bit x i then x - 2 ^ i else x

-- The inner loop of `balloc`, from bit bi of the bitmap block x of group b on.
unfoldable pub find_bit : ℕ → ℕ → ℕ → ℕ → Block → Option ℕ
unfolding bit
find_bit zero bi b size x = none
find_bit (suc k) bi b size x =
    let rest = find_bit k (bi + 1) b size x in
    if not (ltb (b + bi) size)
    then none
    else if not (bit (x (bi / 8)) (bi % 8))
    then some (b + bi)
    else rest

-- The outer loop, from group b on.
unfoldable pub find_block : ℕ → ℕ → Superblock → Disk → Option ℕ
find_block zero b sb d = none
find_block (suc k) b sb d =
    let rest = find_block k (b + bpb) sb d in
    if not (ltb b sb.size)
    then none
    else elim (find_bit bpb 0 b sb.size (d.blocks (bblock sb b))) [ none ↦ rest | some x ↦ some x ]

-- A block of the bitmap with the bit of block b changed.
abbrev pub with_bit : (ℕ → ℕ → ℕ) → ℕ → Block → Block
with_bit change b x = let bi = b % bpb in update x (bi / 8) (change (x (bi / 8)) (bi % 8))

-- What `balloc` does with the block that it finds.
unfoldable pub take_block : Superblock → ℕ → Disk → Disk
unfolding set_bit bzero
take_block sb b d =
    bzero b (log_write (bblock sb b) (with_bit set_bit b (d.blocks (bblock sb b))) d)

-- The result 0 means that there is no free block.
unfoldable pub balloc : Superblock → Disk → ℕ × Disk
unfolding take_block
balloc sb d = elim (find_block (sb.size / bpb + 1) 0 sb d) [
  | none ↦ (0, d)
  | some b ↦ (b, take_block sb b d)
]

-- `none` is the panic.
unfoldable pub bfree : Superblock → ℕ → Disk → Option Disk
unfolding bit clear_bit
bfree sb b d =
    let x = d.blocks (bblock sb b) in
    let bi = b % bpb in
    if not (bit (x (bi / 8)) (bi % 8))
    then none
    else some (log_write (bblock sb b) (with_bit clear_bit b x) d)
