-- ===== src/Fs/Directory.antt =====
-- Directories of kernel/fs.c: `dirlookup` and `dirlink`. A `struct dirent` has 16 bytes, the inode number
-- and a name of 14 bytes that a null byte ends if it is shorter.
use xv7_riscv.String.{strncmp, strncpy}
use xv7_riscv.Fs.{Disk, Superblock, half}
use xv7_riscv.Fs.Inode.{Inode, Itable, iget, put_half}
use xv7_riscv.Fs.Content.{Io, readi, writei, iput}
use xv7_riscv.Prelude.{
  ℕ, Option, true, Bool, if◌then◌else◌, ◌+◌, ◌/◌, ltb, some, not, ◌==◌, none, ◌&&◌, ◌-◌, suc,
  update, false, zero,
}

abbrev pub dirsiz : ℕ
dirsiz = 14

-- T_DIR of kernel/stat.h
abbrev pub t_dir : ℕ
t_dir = 1

-- Two names in one memory, the second behind the first.
abbrev pub both : (ℕ → ℕ) → (ℕ → ℕ) → ℕ → ℕ
both s t a = if ltb a dirsiz then s a else t (a - dirsiz)

unfoldable pub namecmp : (ℕ → ℕ) → (ℕ → ℕ) → ℕ
namecmp s t = strncmp 0 dirsiz dirsiz (both s t)

-- The name in a `struct dirent`
abbrev pub entry_name : (ℕ → ℕ) → ℕ → ℕ
entry_name de i = de (2 + i)

-- `readi` into the `struct dirent` on the stack, which is never refused.
abbrev pub read_entry : Superblock → ℕ → Inode → Disk → Option Io
read_entry sb off dp d = readi sb (λ _. true) off 16 dp d (λ _. 0)

-- What a loop over the entries finds: an entry at an offset with its inode number, or the end.
pub record Search : Type 0 where
  pub found : Option (ℕ × ℕ)
  pub off : ℕ
  pub dp : Inode
  pub disk : Disk

-- The loops of `dirlookup` and `dirlink` from offset off on, for an entry that `wanted` holds of;
-- `none` is the panic of a short read.
unfoldable pub scan_entries : ((ℕ → ℕ) → Bool) → ℕ → Superblock → ℕ → Inode → Disk → Option Search
scan_entries wanted zero sb off dp d = some (record { found = none; off = off; dp = dp; disk = d })
scan_entries wanted (suc k) sb off dp d = elim (ltb off dp.size) [
  | false ↦ some (record { found = none; off = off; dp = dp; disk = d })
  | true ↦ elim (read_entry sb off dp d) [
    | none ↦ none
    | some r ↦
        let rest = scan_entries wanted k sb (off + 16) r.ip r.disk in
        let here : Search = record {
          found = some (off, half r.bytes 0);
          off = off;
          dp = r.ip;
          disk = r.disk;
        } in
        if not (r.count == 16) then none else if wanted r.bytes then some here else rest
  ]
]

abbrev pub entries : Inode → ℕ
entries dp = dp.size / 16 + 1

-- The test of `dirlookup`
unfoldable pub has_name : (ℕ → ℕ) → (ℕ → ℕ) → Bool
unfolding namecmp
has_name name de = not (half de 0 == 0) && (namecmp name (entry_name de) == 0)

-- The offset and the inode number that `dirlookup` finds; `iget` follows. `none` is a panic.
unfoldable pub dirlookup : Superblock → (ℕ → ℕ) → Inode → Disk → Option Search
unfolding scan_entries has_name
dirlookup sb name dp d =
    if not (dp.type == t_dir) then none else scan_entries (has_name name) (entries dp) sb 0 dp d

-- The entry that `dirlink` writes; the call of `strncpy` sets each byte of its name.
unfoldable pub new_entry : (ℕ → ℕ) → ℕ → ℕ → ℕ
new_entry name inum =
    let copied = strncpy 0 dirsiz dirsiz (both (λ _. 0) name) in
    λ i. if ltb i 2 then put_half 0 inum (λ _. 0) i else copied (i - 2)

-- The second part of `dirlink`, for a name that is not present: true for 0, false for -1.
unfoldable pub link_entry : Superblock → (ℕ → ℕ) → ℕ → Inode → Disk → Option (Bool × Io)
unfolding scan_entries new_entry
link_entry sb name inum dp d = elim (scan_entries (λ de. half de 0 == 0) (entries dp) sb 0 dp d) [
  | none ↦ none
  | some s ↦ elim (writei sb (λ _ m. m) s.off 16 s.dp s.disk (new_entry name inum)) [
    | none ↦ none
    | some r ↦ some (r.count == 16, r)
  ]
]

-- `dirlink` on the directory in entry i of the table, which its `iget` and `iput` of a name that is
-- present change.
unfoldable pub dirlink :
    Superblock → (ℕ → ℕ) → ℕ → ℕ → Itable → Disk → Option (Bool × Itable × Disk)
unfolding dirlookup link_entry
dirlink sb name inum i t d = elim (dirlookup sb name (t i) d) [
  | none ↦ none
  | some s ↦
      let t1 = update t i s.dp in
      elim s.found [
        | some (off, old) ↦ elim (iget (t i).dev old t1) [
          | none ↦ none
          | some (j, t2) ↦ elim (iput sb j t2 s.disk) [
            | none ↦ none
            | some (t3, d3) ↦ some (false, t3, d3)
          ]
        ]
        | none ↦ elim (link_entry sb name inum (t1 i) s.disk) [
          | none ↦ none
          | some (ok, r) ↦ some (ok, update t1 i r.ip, r.disk)
        ]
      ]
]
