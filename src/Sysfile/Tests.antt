-- ===== src/Sysfile/Tests.antt =====
-- Runs of kernel/sysfile.c on paths.
use xv7_riscv.Fs.{Superblock, balloc, find_block, find_bit, bit, set_bit, bzero, take_block}
use xv7_riscv.String as String
use xv7_riscv.Fs.Inode as Inodes
use xv7_riscv.Fs.Content as Content
use xv7_riscv.Fs.Directory as Directories
use xv7_riscv.Fs.Paths as Paths
use xv7_riscv.Fs.Inode.{Inode, Itable, find_inode, iget_at, iget, ilock, iput_ref, idup}
use xv7_riscv.Fs.Content.{iput}
use xv7_riscv.Fs.Holders.{Held}
use xv7_riscv.Fs.Paths.{Tree, put_inode, skipelem, namex_from, namex, namei, put_name}
use xv7_riscv.File.{
  File, fd_none, open_file, open_alloc, open_fd, file_alloc, find_free, fdalloc, fdalloc_from,
  fill_file,
}
use xv7_riscv.Sysfile.{World, set_file, take_file, end_op, begin_op, set_cwd}
use xv7_riscv.Sysfile.Entries.{
  sys_mkdir, sys_chdir, sys_open, change_dir, open_path, open_existing, open_checked, open_inode,
  open_done,
}
use xv7_riscv.Sysfile.Opens.{file_at}
use xv7_riscv.Sysfile as Calls
use xv7_riscv.Sysfile.Entries as Entries
use xv7_riscv.Sysfile.Runs.{Balanced, start, mkdirs, chdirs, opens, references_kept}
use xv7_riscv.Prelude.{
  ℕ, ◌≡◌, refl, if◌then◌else◌, ◌==◌, ◌&&◌, true, false, List, [], ◌∷◌, Option, none, some, update,
  arith,
}

abbrev sb : Superblock
sb = record {
  magic = 0x10203040;
  size = 4;
  nblocks = 2;
  ninodes = 3;
  nlog = 0;
  logstart = 0;
  inodestart = 0;
  bmapstart = 1;
}

abbrev blank : Inode
blank = record {
  dev = 0;
  inum = 0;
  ref = 0;
  valid = false;
  type = 0;
  major = 0;
  minor = 0;
  nlink = 0;
  size = 0;
  addrs = λ _. 0;
}

abbrev closed : File
closed = record {
  type = fd_none;
  ref = 0;
  readable = false;
  writable = false;
  pipe = 0;
  ip = 0;
  off = 0;
  major = 0;
}

-- The root is the working directory. Block 0 is of inodes and block 1 the bitmap; inode 1 and two
-- blocks are in use.
abbrev before : World
before = record {
  tree = record {
    table =
        update (λ _. blank) 3
          (record blank { dev = 1; inum = 1; ref = 1; valid = true; type = 1; nlink = 1 });
    disk = record {
      blocks = λ b i. if (b == 1) && (i == 0) then 3 else if (b == 0) && (i == 64) then 1 else 0;
      logged = [];
    };
  };
  files = record { files = λ _. closed; ofile = λ _ _. 0 };
  cwd = 3;
  ops = 0;
}

abbrev world : {A : Type 0} → Option (A × World) → World
world none = before
world (some (a, w)) = w

-- "/a"
abbrev path : Option (List ℕ)
path = some (47 ∷ 97 ∷ [])

abbrev made : World
made = world (sys_mkdir sb path before)

abbrev moved : World
moved = world (sys_chdir sb path made)

abbrev opened : World
opened = world (sys_open sb 0 path 0 moved)

one_reference : Held (λ _. 0) (3 ∷ []) before.tree.table
one_reference j = ground arith

-- `mkdir`, `chdir` and `open` of the directory succeed.
calls_return :
    (sys_mkdir sb path before ≡ some (true, made))
    × (sys_chdir sb path made ≡ some (true, moved))
    × (sys_open sb 0 path 0 moved ≡ some (some 0, opened))
unfolding sys_mkdir Entries.made begin_op end_op Entries.create Calls.nameiparent Paths.nameiparent
    Paths.namex Paths.namex_from Paths.skipelem Paths.skip_slashes Paths.next_elem Paths.split_elem
    Calls.last_name Paths.enter_elem Paths.put_name iget find_inode iget_at ilock Inodes.get_dinode
    Entries.create_in Calls.ilock Calls.dirlookup Directories.dirlookup Directories.has_name
    Directories.namecmp Directories.scan_entries Entries.create_new Calls.new_inode Inodes.ialloc
    Inodes.find_dinode Inodes.take_inode Entries.create_fill Calls.change Inodes.iupdate
    Inodes.put_dinode Inodes.put_addrs Entries.link_dots Calls.dirlink Directories.dirlink
    Directories.link_entry Directories.new_entry Content.writei Content.writei_from
    Content.writei_end Content.readi Content.readi_from Content.bmap Content.own_block
    Content.own_entry balloc find_block find_bit bit set_bit bzero take_block Entries.create_link
    Calls.iput iput iput_ref String.strncmp String.strncpy sys_chdir Calls.namei Paths.namei
    change_dir set_cwd idup sys_open open_path open_existing open_checked open_inode open_done
    take_file set_file open_file open_alloc open_fd file_alloc find_free fdalloc fdalloc_from
    fill_file
calls_return = (refl, refl, refl)

references_kept_example : Balanced sb (λ _. 0) 0 ((file_at 0 0 opened.files).ip ∷ []) opened
references_kept_example =
    references_kept sb (λ _. 0) {w = before} (one_reference, refl)
      (opens moved (some 0) 0 path 0
        (chdirs made true path (mkdirs before true path start calls_return.0) calls_return.1)
        calls_return.2)

-- The entry 0 is that of the directory, which the file and the working directory hold.
two_references : (opened.tree.table 0).ref ≡ 2
unfolding sys_mkdir Entries.made begin_op end_op Entries.create Calls.nameiparent Paths.nameiparent
    Paths.namex Paths.namex_from Paths.skipelem Paths.skip_slashes Paths.next_elem Paths.split_elem
    Calls.last_name Paths.enter_elem Paths.put_name iget find_inode iget_at ilock Inodes.get_dinode
    Entries.create_in Calls.ilock Calls.dirlookup Directories.dirlookup Directories.has_name
    Directories.namecmp Directories.scan_entries Entries.create_new Calls.new_inode Inodes.ialloc
    Inodes.find_dinode Inodes.take_inode Entries.create_fill Calls.change Inodes.iupdate
    Inodes.put_dinode Inodes.put_addrs Entries.link_dots Calls.dirlink Directories.dirlink
    Directories.link_entry Directories.new_entry Content.writei Content.writei_from
    Content.writei_end Content.readi Content.readi_from Content.bmap Content.own_block
    Content.own_entry balloc find_block find_bit bit set_bit bzero take_block Entries.create_link
    Calls.iput iput iput_ref String.strncmp String.strncpy sys_chdir Calls.namei Paths.namei
    change_dir set_cwd idup sys_open open_path open_existing open_checked open_inode open_done
    take_file set_file open_file open_alloc open_fd file_alloc find_free fdalloc fdalloc_from
    fill_file
two_references = refl
