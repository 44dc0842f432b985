-- ===== src/Fs/Inode.antt =====
-- Inodes of kernel/fs.c: the table of inodes in memory, and their copies on the disk.
pub mod Table
use xv7_riscv.Fs.{Disk, Block, Superblock, half, word, log_write, bsize}
use xv7_riscv.Prelude.{
  ℕ, Option, Bool, update, suc, some, none, ◌+◌, ◌/◌, ◌%◌, if◌then◌else◌, ltb, false, not, leb, ◌^◌,
  ◌*◌, ◌==◌, ◌-◌, true, ◌&&◌, zero,
}

-- NINODE of kernel/param.h, NDIRECT of kernel/fs.h, and IPB, the inodes of a block
abbrev pub ninode : ℕ
ninode = 50

abbrev pub ndirect : ℕ
ndirect = 12

abbrev pub ipb : ℕ
ipb = 16

-- `struct inode`, less its sleep lock (module Sleeplock). `type`, `major`, `minor` and `nlink` are
-- 16 bits wide, `size` and the entries of `addrs` 32.
pub record Inode : Type 0 where
  pub dev : ℕ
  pub inum : ℕ
  pub ref : ℕ
  pub valid : Bool
  pub type : ℕ
  pub major : ℕ
  pub minor : ℕ
  pub nlink : ℕ
  pub size : ℕ
  pub addrs : ℕ → ℕ

abbrev pub Itable : Type 0
Itable = ℕ → Inode

-- `n > 0` for an `int`
abbrev pub positive : ℕ → Bool
positive n = ltb 0 n && ltb n (2 ^ 31)

-- The number n in the bytes from offset o on: two bytes, or four.
abbrev pub put_half : ℕ → ℕ → Block → Block
put_half o n x = update (update x o (n % 256)) (o + 1) (n / 256 % 256)

abbrev pub put_word : ℕ → ℕ → Block → Block
put_word o n x = put_half (o + 2) (n / 65536) (put_half o n x)

-- IBLOCK, and the offset of an inode in its block; `struct dinode` has 64 bytes.
abbrev pub iblock : Superblock → ℕ → ℕ
iblock sb inum = (inum / ipb + sb.inodestart) % 2 ^ 32

abbrev pub ioffset : ℕ → ℕ
ioffset inum = inum % ipb * 64

-- `memmove(dip->addrs, ip->addrs, ...)`, the k addresses from entry i on.
unfoldable pub put_addrs : ℕ → ℕ → ℕ → (ℕ → ℕ) → Block → Block
put_addrs zero i o addrs x = x
put_addrs (suc k) i o addrs x = put_addrs k (i + 1) o addrs (put_word (o + 4 * i) (addrs i) x)

-- What `iupdate` stores at offset o.
unfoldable pub put_dinode : ℕ → Inode → Block → Block
unfolding put_addrs
put_dinode o ip x = put_addrs (ndirect + 1) 0 (o + 12) ip.addrs (
    put_word (o + 8) ip.size (
      put_half (o + 6) ip.nlink
        (put_half (o + 4) ip.minor (put_half (o + 2) ip.major (put_half o ip.type x)))))

unfoldable pub iupdate : Superblock → Inode → Disk → Disk
unfolding put_dinode
iupdate sb ip d =
    let b = iblock sb ip.inum in log_write b (put_dinode (ioffset ip.inum) ip (d.blocks b)) d

-- What `ilock` reads from offset o.
unfoldable pub get_dinode : ℕ → Block → Inode → Inode
get_dinode o x ip = record ip {
  type = half x o;
  major = half x (o + 2);
  minor = half x (o + 4);
  nlink = half x (o + 6);
  size = word x (o + 8);
  addrs = λ i. if ltb i (ndirect + 1) then word x (o + 12 + 4 * i) else ip.addrs i;
  valid = true;
}

-- `ilock`, less the sleep lock; `none` is a panic.
unfoldable pub ilock : Superblock → Disk → Inode → Option Inode
unfolding get_dinode
ilock sb d ip =
    let read = get_dinode (ioffset ip.inum) (d.blocks (iblock sb ip.inum)) ip in
    if not (positive ip.ref)
    then none
    else if ip.valid
    then some ip
    else if read.type == 0
    then none
    else some read

-- The loop of `iget` from entry i on, with the first empty entry so far: the entry that is found, or
-- the empty one.
pub data Slot : Type 0 where
  cached : ℕ → Slot
  empty : Option ℕ → Slot

unfoldable pub find_inode : ℕ → ℕ → Option ℕ → ℕ → ℕ → Itable → Slot
find_inode zero i free dev inum t = empty free
find_inode (suc k) i free dev inum t =
    let ip = t i in
    let rest =
      find_inode k (i + 1)
        (elim free [ none ↦ if ip.ref == 0 then some i else none | some e ↦ some e ]) dev inum t in
    if positive ip.ref && (ip.dev == dev) && (ip.inum == inum) then cached i else rest

-- What `iget` does with what its loop has found; `none` is the panic.
unfoldable pub iget_at : Slot → ℕ → ℕ → Itable → Option (ℕ × Itable)
iget_at (cached i) dev inum t =
    some (i, update t i (record (t i) { ref = ((t i).ref + 1) % 2 ^ 32 }))
iget_at (empty none) dev inum t = none
iget_at (empty (some i)) dev inum t =
    some (i, update t i (record (t i) { dev = dev; inum = inum; ref = 1; valid = false }))

unfoldable pub iget : ℕ → ℕ → Itable → Option (ℕ × Itable)
unfolding find_inode iget_at
iget dev inum t = iget_at (find_inode ninode 0 none dev inum t) dev inum t

unfoldable pub idup : ℕ → Itable → Itable
idup i t = update t i (record (t i) { ref = ((t i).ref + 1) % 2 ^ 32 })

-- The last line of `iput`
unfoldable pub iput_ref : ℕ → Itable → Itable
iput_ref i t = update t i (record (t i) { ref = ((t i).ref + 2 ^ 32 - 1) % 2 ^ 32 })

-- The loop of `ialloc` from inode number inum on: a number whose type on the disk is 0.
unfoldable pub find_dinode : ℕ → ℕ → Superblock → Disk → Option ℕ
find_dinode zero inum sb d = none
find_dinode (suc k) inum sb d =
    let rest = find_dinode k (inum + 1) sb d in
    if not (ltb inum sb.ninodes)
    then none
    else if half (d.blocks (iblock sb inum)) (ioffset inum) == 0
    then some inum
    else rest

-- `memset(dip, 0, sizeof(*dip))` at offset o
abbrev pub clear_dinode : ℕ → Block → Block
clear_dinode o x i = if leb o i && ltb i (o + 64) then 0 else x i

-- What `ialloc` writes for the number that it finds.
unfoldable pub take_inode : Superblock → ℕ → ℕ → Disk → Disk
take_inode sb inum type d =
    let b = iblock sb inum in
    let o = ioffset inum in log_write b (put_half o type (clear_dinode o (d.blocks b))) d

-- The number of the inode that `ialloc` passes to `iget`.
unfoldable pub ialloc : Superblock → ℕ → Disk → Option ℕ × Disk
unfolding find_dinode take_inode
ialloc sb type d = elim (find_dinode sb.ninodes 1 sb d) [
  | none ↦ (none, d)
  | some inum ↦ (some inum, take_inode sb inum type d)
]

-- `struct status`
pub record Status : Type 0 where
  pub dev : ℕ
  pub ino : ℕ
  pub type : ℕ
  pub nlink : ℕ
  pub size : ℕ

unfoldable pub stati : Inode → Status
stati ip = record { dev = ip.dev; ino = ip.inum; type = ip.type; nlink = ip.nlink; size = ip.size }
