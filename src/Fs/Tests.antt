-- ===== src/Fs/Tests.antt =====
-- Runs of kernel/fs.c.
use xv7_riscv.Fs.{Disk, Superblock, bblock, bit, balloc, bfree, find_block, find_bit}
use xv7_riscv.Fs.Bitmap.{used, IsBitmap}
use xv7_riscv.Fs.Allocation.{Taken, balloc_lem, bfree_lem}
use xv7_riscv.Fs.Inode.{Inode, Itable, iget}
use xv7_riscv.Fs.Inode.Table.{Got, iget_lem}
use xv7_riscv.Fs.Content.{Mapped, bmap, own_block}
use xv7_riscv.Fs.Content.Mapping.{bmap_again}
use xv7_riscv.Fs.Paths.{namex_from}
use xv7_riscv.Fs.Paths.Rounds.{namex_from_rounds}
use xv7_riscv.Fs.Paths.Elements.{elements, elements_lem, split_on}
use xv7_riscv.Prelude.{
  if◌then◌else◌, update, arith, ◌≡◌, false, ℕ, none, some, ◌==◌, ◌∷◌, refl, ◌&&◌, ◌<◌, ◌⊎◌, [],
  true, ◌≢◌,
}

-- Four blocks, of which block 1 is the bitmap; the first two are used.
abbrev sb : Superblock
sb = record {
  magic = 0x10203040;
  size = 4;
  nblocks = 2;
  ninodes = 1;
  nlog = 0;
  logstart = 0;
  inodestart = 0;
  bmapstart = 1;
}

abbrev disk : Disk
disk = record { blocks = λ b i. if (b == 1) && (i == 0) then 3 else 0; logged = [] }

disk-IsBitmap : IsBitmap sb disk
unfolding used bit
disk-IsBitmap = record {
  byte = λ b i. ground arith;
  inside = λ b lt. omega arith;
  own = λ b lt. let e : bblock sb b ≡ 1 = omega arith in rw e refl;
  small = omega arith;
}

balloc_lem_example :
    ((balloc sb disk ≡ (0, disk)) × ((c : ℕ) → c < 4 → used sb disk c ≡ true))
    ⊎ ((b : ℕ) × (b < 4)
        × (used sb disk b ≡ false)
        × ((c : ℕ) → c < b → used sb disk c ≡ true)
        × (d' : Disk) × (balloc sb disk ≡ (b, d'))
        × Taken sb disk b d')
balloc_lem_example = balloc_lem sb disk disk-IsBitmap

balloc_takes_two : (balloc sb disk).0 ≡ 2
unfolding balloc find_block find_bit bit
balloc_takes_two = refl

bfree_lem_example :
    ((used sb disk 0 ≡ false) × (bfree sb 0 disk ≡ none))
    ⊎ ((used sb disk 0 ≡ true)
        × (d' : Disk) × (bfree sb 0 disk ≡ some d')
        × ((c : ℕ) → c < 4 → used sb d' c ≡ (if 0 == c then false else used sb disk c))
        × ((c : ℕ) → 1 ≢ c → d'.blocks c ≡ disk.blocks c)
        × (d'.logged ≡ 1 ∷ []))
bfree_lem_example = bfree_lem sb disk 0 disk-IsBitmap (omega arith)

abbrev blank : Inode
blank = record {
  dev = 0;
  inum = 0;
  ref = 0;
  valid = false;
  type = 0;
  major = 0;
  minor = 0;
  nlink = 0;
  size = 0;
  addrs = λ _. 0;
}

abbrev root_open : Itable
root_open = update (λ _. blank) 3 (record blank { dev = 1; inum = 1; ref = 1 })

iget_lem_example : Got 1 7 root_open (iget 1 7 root_open)
iget_lem_example =
    iget_lem 1 7 root_open (λ i j li lj ri rj ed ei. ground arith) (λ i li. ground arith)

bmap_again_example : let r : Mapped = own_block sb 5 blank disk in bmap sb 5 r.ip r.disk ≡ some r
unfolding own_block balloc find_block find_bit bit bmap
bmap_again_example =
    bmap_again sb 5 blank disk (own_block sb 5 blank disk) (omega arith) refl
      (λ e. absurd (omega arith))

-- "/a//bb"
elements_lem_example :
    elements 7 (47 ∷ 97 ∷ 47 ∷ 47 ∷ 98 ∷ 98 ∷ []) ≡ (97 ∷ []) ∷ (98 ∷ 98 ∷ []) ∷ []
unfolding split_on
elements_lem_example = elements_lem 7 (47 ∷ 97 ∷ 47 ∷ 47 ∷ 98 ∷ 98 ∷ []) (omega arith)

-- "/a"
namex_from_rounds_example :
    namex_from none 3 sb false (47 ∷ 97 ∷ []) 3 (record { table = root_open; disk = disk })
    ≡ namex_from
        (some (some 99, record { table = root_open; disk = disk }))
        3
        sb
        false
        (47 ∷ 97 ∷ [])
        3
        (record { table = root_open; disk = disk })
namex_from_rounds_example =
    namex_from_rounds none (some (some 99, record { table = root_open; disk = disk })) 3 sb false
      (47 ∷ 97 ∷ []) 3 (record { table = root_open; disk = disk }) (omega arith)
