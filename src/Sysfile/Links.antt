-- ===== src/Sysfile/Links.antt =====
-- `sys_link` and `sys_unlink` of kernel/sysfile.c.
use xv7_riscv.Sysfile.{
  M, ◌>>=◌, ◌>>◌, ret, begin_op, panic, inode, name_of, dot, dot_dot, namei, nameiparent, ilock,
  iput, change, dirlookup, dirlink, isdirempty, clear_entry, add_link, drop_link, finish, reject,
}
use xv7_riscv.Fs.{Superblock}
use xv7_riscv.Fs.Directory.{t_dir, namecmp}
use xv7_riscv.Prelude.{
  ℕ, ◌^◌, ◌==◌, leb, Bool, true, false, not, ◌||◌, if◌then◌else◌, List, Option, none, some,
}

module _ (sb : Superblock) where
  -- `sys_link` behind the label `bad`
  unfoldable pub unlink_new : ℕ → M Bool
  unlink_new i = do ilock sb i; change sb i drop_link; reject sb i

  -- From `ilock(dp)` on
  unfoldable pub link_into : ℕ → ℕ → (ℕ → ℕ) → M Bool
  link_into i p name = do
    ilock sb p
    dp ← inode p
    ip ← inode i
    if not (dp.dev == ip.dev) then (do iput sb p; unlink_new i) else (do
      ok ← dirlink sb name ip.inum p
      iput sb p
      if ok then (do iput sb i; finish true) else unlink_new i)

  -- From `ilock(ip)` on
  unfoldable pub link_inode : ℕ → List ℕ → M Bool
  link_inode i new = do
    ilock sb i
    ip ← inode i
    if ip.type == t_dir then reject sb i else (do
      change sb i add_link
      dp ← nameiparent sb new
      elim dp [ none ↦ unlink_new i | some p ↦ link_into i p (name_of new) ])

  unfoldable pub link_path : List ℕ → List ℕ → M Bool
  link_path old new = do
    begin_op
    o ← namei sb old
    elim o [ none ↦ finish false | some i ↦ link_inode i new ]

  unfoldable pub sys_link : Option (List ℕ) → Option (List ℕ) → M Bool
  sys_link (some old) (some new) = link_path old new
  sys_link (some old) none = ret false
  sys_link none new = ret false

  unfoldable pub unlink_found : ℕ → ℕ → ℕ → M Bool
  unlink_found p off i = do
    clear_entry sb off p
    ip ← inode i
    (if ip.type == t_dir then change sb p drop_link else ret tt)
    iput sb p
    change sb i drop_link
    iput sb i
    finish true

  -- From `ilock(ip)` on, for the entry at offset off of the directory p
  unfoldable pub unlink_entry : ℕ → ℕ → ℕ → M Bool
  unlink_entry p off i = do
    ilock sb i
    ip ← inode i
    if (ip.nlink == 0) || leb (2 ^ 15) ip.nlink then panic else (do
      empty ← (if ip.type == t_dir then isdirempty sb i else ret true)
      if empty then unlink_found p off i else (do iput sb i; reject sb p))

  -- Behind the label `bad`, and what comes before it
  unfoldable pub unlink_in : ℕ → (ℕ → ℕ) → M Bool
  unlink_in p name = do
    ilock sb p
    if (namecmp name dot == 0) || (namecmp name dot_dot == 0) then reject sb p else (do
      e ← dirlookup sb name p
      elim e [ none ↦ reject sb p | some (off, i) ↦ unlink_entry p off i ])

  unfoldable pub unlink_path : List ℕ → M Bool
  unlink_path path = do
    begin_op
    o ← nameiparent sb path
    elim o [ none ↦ finish false | some p ↦ unlink_in p (name_of path) ]

  unfoldable pub sys_unlink : Option (List ℕ) → M Bool
  sys_unlink none = ret false
  sys_unlink (some path) = unlink_path path
