-- ===== src/Sysfile/Entries.antt =====
-- `create` of kernel/sysfile.c, and the calls that make, enter and open files.
use xv7_riscv.Sysfile.{
  t_file, t_device, ndev, M, ◌>>=◌, ◌>>◌, ret, begin_op, end_op, set_cwd, take_file, set_file,
  inode, name_of, dot, dot_dot, namei, nameiparent, ilock, iput, change, dirlookup, dirlink,
  new_inode, truncate, add_link, finish, reject,
}
use xv7_riscv.Fs.{Superblock}
use xv7_riscv.Fs.Directory.{t_dir}
use xv7_riscv.Prelude.{
  ℕ, ◌/◌, ◌%◌, ◌^◌, ◌==◌, leb, Bool, true, false, not, ◌&&◌, ◌||◌, if◌then◌else◌, List, Option,
  none, some,
}

module _ (sb : Superblock) where
  -- `create` behind the label `fail`
  unfoldable pub create_fail : ℕ → ℕ → M (Option ℕ)
  create_fail i p = do change sb i (λ ip. record ip { nlink = 0 }); iput sb i; iput sb p; ret none

  unfoldable pub create_link : ℕ → ℕ → (ℕ → ℕ) → ℕ → M (Option ℕ)
  create_link p i name type = do
    ip ← inode i
    ok ← dirlink sb name ip.inum p
    if ok
        then (do (if type == t_dir then change sb p add_link else ret tt); iput sb p; ret (some i))
        else create_fail i p

  -- The entries "." and ".."
  unfoldable pub link_dots : ℕ → ℕ → M Bool
  link_dots i p = do
    ip ← inode i
    ok ← dirlink sb dot ip.inum i
    dp ← inode p
    if ok then dirlink sb dot_dot dp.inum i else ret false

  unfoldable pub create_fill : ℕ → ℕ → (ℕ → ℕ) → ℕ → ℕ → ℕ → M (Option ℕ)
  create_fill p i name type major minor = do
    ilock sb i
    change sb i (λ ip. record ip { major = major; minor = minor; nlink = 1 })
    ok ← (if type == t_dir then link_dots i p else ret true)
    if ok then create_link p i name type else create_fail i p

  unfoldable pub create_new : ℕ → (ℕ → ℕ) → ℕ → ℕ → ℕ → M (Option ℕ)
  create_new p name type major minor = do
    dp ← inode p
    o ← new_inode sb dp.dev type
    elim o [ none ↦ do iput sb p; ret none | some i ↦ create_fill p i name type major minor ]

  -- The name is there already.
  unfoldable pub create_found : ℕ → ℕ → ℕ → M (Option ℕ)
  create_found p i type = do
    iput sb p
    ilock sb i
    ip ← inode i
    if (type == t_file) && ((ip.type == t_file) || (ip.type == t_device))
        then ret (some i)
        else (do iput sb i; ret none)

  unfoldable pub create_in : ℕ → (ℕ → ℕ) → ℕ → ℕ → ℕ → M (Option ℕ)
  create_in p name type major minor = do
    ilock sb p
    e ← dirlookup sb name p
    elim e [ some (off, i) ↦ create_found p i type | none ↦ create_new p name type major minor ]

  unfoldable pub create : List ℕ → ℕ → ℕ → ℕ → M (Option ℕ)
  create path type major minor = do
    o ← nameiparent sb path
    elim o [ none ↦ ret none | some p ↦ create_in p (name_of path) type major minor ]

  -- What `sys_mkdir` and `sys_mknod` do with the result of `create`.
  unfoldable pub made : Option ℕ → M Bool
  made none = finish false
  made (some i) = do iput sb i; finish true

  unfoldable pub sys_mkdir : Option (List ℕ) → M Bool
  sys_mkdir none = do begin_op; finish false
  sys_mkdir (some path) = do begin_op; o ← create path t_dir 0 0; made o

  unfoldable pub sys_mknod : Option (List ℕ) → ℕ → ℕ → M Bool
  sys_mknod none major minor = do begin_op; finish false
  sys_mknod (some path) major minor = do
    begin_op
    o ← create path t_device (major % 2 ^ 16) (minor % 2 ^ 16)
    made o

  unfoldable pub change_dir : ℕ → M Bool
  change_dir i = do
    ilock sb i
    ip ← inode i
    if not (ip.type == t_dir)
        then reject sb i
        else (do old ← (λ w. some (w.cwd, w)); iput sb old; end_op; set_cwd i; ret true)

  unfoldable pub sys_chdir : Option (List ℕ) → M Bool
  sys_chdir none = do begin_op; finish false
  sys_chdir (some path) = do
    begin_op
    o ← namei sb path
    elim o [ none ↦ finish false | some i ↦ change_dir i ]

  -- `sys_open` without O_CREATE; O_RDONLY is 0.
  unfoldable pub open_checked : ℕ → ℕ → M (Option ℕ)
  open_checked i omode = do
    ilock sb i
    ip ← inode i
    if (ip.type == t_dir) && not (omode == 0) then (do iput sb i; ret none) else ret (some i)

  unfoldable pub open_existing : List ℕ → ℕ → M (Option ℕ)
  open_existing path omode = do
    o ← namei sb path
    elim o [ none ↦ ret none | some i ↦ open_checked i omode ]

  -- What is left to do for the file f and its descriptor. O_TRUNC is 0x400.
  unfoldable pub open_done : ℕ → ℕ → ℕ → ℕ → M (Option ℕ)
  open_done f fd i omode = do
    ip ← inode i
    set_file f (ip.type == t_device) ip.major i omode
    (if (omode / 0x400 % 2 == 1) && (ip.type == t_file) then truncate sb i else ret tt)
    end_op
    ret (some fd)

  abbrev pub open_reject : ℕ → M (Option ℕ)
  open_reject i = do iput sb i; end_op; ret none

  unfoldable pub open_inode : ℕ → ℕ → ℕ → M (Option ℕ)
  open_inode me i omode = do
    ip ← inode i
    if (ip.type == t_device) && leb ndev ip.major then open_reject i else (do
      o ← take_file me
      elim o [ none ↦ open_reject i | some (f, fd) ↦ open_done f fd i omode ])

  -- The descriptor; O_CREATE is 0x200.
  unfoldable pub open_path : ℕ → List ℕ → ℕ → M (Option ℕ)
  open_path me path omode = do
    begin_op
    o ← (if omode / 0x200 % 2 == 1 then create path t_file 0 0 else open_existing path omode)
    elim o [ none ↦ (do end_op; ret none) | some i ↦ open_inode me i omode ]

  unfoldable pub sys_open : ℕ → Option (List ℕ) → ℕ → M (Option ℕ)
  sys_open me none omode = ret none
  sys_open me (some path) omode = open_path me path omode
