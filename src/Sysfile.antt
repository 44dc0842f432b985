-- ===== src/Sysfile.antt =====
-- The calls of kernel/sysfile.c on paths. A path is what `argstr` fetches, none for its result -1. The
-- locks of inodes and the log are left to Sleeplock and Log: of `begin_op` and `end_op` the model has
-- the number of operations that are open.
pub mod Accounts
pub mod Balance
pub mod Calls
pub mod Creates
pub mod Entries
pub mod Links
pub mod Opens
pub mod Runs
pub mod Unlinks
mod Tests
use xv7_riscv.Fs.{Superblock, Disk, half}
use xv7_riscv.Fs.Inode.{Inode, Itable, iget, iupdate}
use xv7_riscv.Fs.Inode as Inodes
use xv7_riscv.Fs.Content.{itrunc, writei}
use xv7_riscv.Fs.Directory.{t_dir, namecmp, scan_entries, entries}
use xv7_riscv.Fs.Directory as Directories
use xv7_riscv.Fs.Paths.{Tree, put_inode, skipelem, put_name}
use xv7_riscv.Fs.Paths as Paths
use xv7_riscv.File.{Files, open_file, fill_file}
use xv7_riscv.Prelude.{
  ℕ, zero, suc, ◌+◌, ◌-◌, ◌/◌, ◌%◌, ◌^◌, ◌==◌, ltb, leb, Bool, true, false, not, ◌&&◌, ◌||◌,
  if◌then◌else◌, List, [], ◌∷◌, length, Option, none, some, update, get_or,
}

-- T_FILE and T_DEVICE of kernel/stat.h, and NDEV of kernel/param.h
abbrev pub t_file : ℕ
t_file = 2

abbrev pub t_device : ℕ
t_device = 3

abbrev pub ndev : ℕ
ndev = 10

-- The inodes and the disk, the files, the entry of the working directory, and the operations that are
-- open in the log.
pub record World : Type 0 where
  pub tree : Tree
  pub files : Files
  pub cwd : ℕ
  pub ops : ℕ

-- `none` is a panic.
abbrev pub M : Type 0 → Type 0
M A = World → Option (A × World)

infixl 5 ◌>>=◌ ◌>>◌
abbrev pub ◌>>=◌ : {A B : Type 0} → M A → (A → M B) → M B
◌>>=◌ m f w = elim (m w) [ none ↦ none | some (a, w') ↦ f a w' ]

abbrev pub ◌>>◌ : {B : Type 0} → M (Unit {0}) → M B → M B
m >> k = m >>= λ _. k

abbrev pub ret : {A : Type 0} → A → M A
ret a w = some (a, w)

unfoldable pub begin_op : M (Unit {0})
begin_op w = some (tt, record w { ops = w.ops + 1 })

unfoldable pub end_op : M (Unit {0})
end_op w = some (tt, record w { ops = w.ops - 1 })

abbrev pub panic : {A : Type 0} → M A
panic w = none

unfoldable pub set_cwd : ℕ → M (Unit {0})
set_cwd i w = some (tt, record w { cwd = i })

-- `file_alloc` and `fdalloc` of process `me`: the file and the descriptor.
unfoldable pub take_file : ℕ → M (Option (ℕ × ℕ))
take_file me w = let (o, files) = open_file me w.files in some (o, record w { files = files })

unfoldable pub set_file : ℕ → Bool → ℕ → ℕ → ℕ → M (Unit {0})
set_file f device major i omode w =
    let files = record w.files { files = fill_file f device major i omode w.files.files } in
    some (tt, record w { files = files })

abbrev pub inode : ℕ → M Inode
inode i w = some (w.tree.table i, w)

-- The last name of a path that `nameiparent` leaves in `name`.
unfoldable pub last_name : ℕ → List ℕ → (ℕ → ℕ) → ℕ → ℕ
last_name zero path name = name
last_name (suc k) path name = elim (skipelem path) [
  | none ↦ name
  | some (s, rest) ↦ last_name k rest (put_name s name)
]

abbrev pub name_of : List ℕ → ℕ → ℕ
name_of path = last_name (length path + 1) path (λ _. 0)

-- "." and ".."
abbrev pub dot : ℕ → ℕ
dot i = get_or (46 ∷ []) i 0

abbrev pub dot_dot : ℕ → ℕ
dot_dot i = get_or (46 ∷ 46 ∷ []) i 0

-- The calls of kernel/fs.c on the table and the disk.
module _ (sb : Superblock) where
  unfoldable pub namei : List ℕ → M (Option ℕ)
  namei path w = elim (Paths.namei sb path w.cwd w.tree) [
    | none ↦ none
    | some (o, tree) ↦ some (o, record w { tree = tree })
  ]

  unfoldable pub nameiparent : List ℕ → M (Option ℕ)
  nameiparent path w = elim (Paths.nameiparent sb path w.cwd w.tree) [
    | none ↦ none
    | some (o, tree) ↦ some (o, record w { tree = tree })
  ]

  unfoldable pub ilock : ℕ → M (Unit {0})
  ilock i w = elim (Inodes.ilock sb w.tree.disk (w.tree.table i)) [
    | none ↦ none
    | some ip ↦ some (tt, record w { tree = record w.tree { table = update w.tree.table i ip } })
  ]

  -- `iput`, and `iunlockput`
  unfoldable pub iput : ℕ → M (Unit {0})
  iput i w = elim (put_inode sb i w.tree) [
    | none ↦ none
    | some tree ↦ some (tt, record w { tree = tree })
  ]

  -- Assignments to an inode, and `iupdate`
  unfoldable pub change : ℕ → (Inode → Inode) → M (Unit {0})
  change i f w =
      let ip = f (w.tree.table i) in
      let tree : Tree = record {
        table = update w.tree.table i ip;
        disk = iupdate sb ip w.tree.disk;
      } in
      some (tt, record w { tree = tree })

  -- The offset of the entry, and the entry of the inode in the table.
  unfoldable pub dirlookup : (ℕ → ℕ) → ℕ → M (Option (ℕ × ℕ))
  dirlookup name i w = elim (Directories.dirlookup sb name (w.tree.table i) w.tree.disk) [
    | none ↦ none
    | some s ↦
        let t1 = update w.tree.table i s.dp in
        elim s.found [
          | none ↦ some (none, record w { tree = record { table = t1; disk = s.disk } })
          | some (off, inum) ↦ elim (iget s.dp.dev inum t1) [
            | none ↦ none
            | some (j, t2) ↦
                some (some (off, j), record w { tree = record { table = t2; disk = s.disk } })
          ]
        ]
  ]

  unfoldable pub dirlink : (ℕ → ℕ) → ℕ → ℕ → M Bool
  dirlink name inum i w = elim (Directories.dirlink sb name inum i w.tree.table w.tree.disk) [
    | none ↦ none
    | some (ok, t, d) ↦ some (ok, record w { tree = record { table = t; disk = d } })
  ]

  unfoldable pub new_inode : ℕ → ℕ → M (Option ℕ)
  new_inode dev type w =
      let (o, d) = Inodes.ialloc sb type w.tree.disk in
      elim o [
        | none ↦ some (none, record w { tree = record w.tree { disk = d } })
        | some inum ↦ elim (iget dev inum w.tree.table) [
          | none ↦ none
          | some (j, t) ↦ some (some j, record w { tree = record { table = t; disk = d } })
        ]
      ]

  -- The loop starts behind the entries of "." and "..".
  unfoldable pub isdirempty : ℕ → M Bool
  isdirempty i w =
      let dp = w.tree.table i in
      elim (scan_entries (λ de. not (half de 0 == 0)) (entries dp) sb 32 dp w.tree.disk) [
        | none ↦ none
        | some s ↦
            let tree : Tree = record { table = update w.tree.table i s.dp; disk = s.disk } in
            some (elim s.found [ none ↦ true | some _ ↦ false ], record w { tree = tree })
      ]

  -- The `memset` and `writei` of `sys_unlink`; a short write is a panic.
  unfoldable pub clear_entry : ℕ → ℕ → M (Unit {0})
  clear_entry off i w = elim (writei sb (λ _ m. m) off 16 (w.tree.table i) w.tree.disk (λ _. 0)) [
    | none ↦ none
    | some r ↦
        let tree : Tree = record { table = update w.tree.table i r.ip; disk = r.disk } in
        if not (r.count == 16) then none else some (tt, record w { tree = tree })
  ]

  unfoldable pub truncate : ℕ → M (Unit {0})
  truncate i w = elim (itrunc sb (w.tree.table i) w.tree.disk) [
    | none ↦ none
    | some (ip, d) ↦
        let tree : Tree = record { table = update w.tree.table i ip; disk = d } in
        some (tt, record w { tree = tree })
  ]

-- `nlink` is a `short`.
abbrev pub add_link : Inode → Inode
add_link ip = record ip { nlink = (ip.nlink + 1) % 2 ^ 16 }

abbrev pub drop_link : Inode → Inode
drop_link ip = record ip { nlink = (ip.nlink + 2 ^ 16 - 1) % 2 ^ 16 }

-- How a call ends; the result is false for -1.
abbrev pub finish : Bool → M Bool
finish ok = do end_op; ret ok

module _ (sb : Superblock) where
  -- `iunlockput(ip)`, `end_op()` and the return of -1
  abbrev pub reject : ℕ → M Bool
  reject i = do iput sb i; finish false
