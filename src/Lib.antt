-- ===== src/Lib.antt =====
-- A verification library for xv7-riscv, a teaching kernel for RISC-V.
--
-- Parts, and where they are modelled:
--   BlockStore   what kernel/buffer-io.c and the disk driver promise: cached blocks over a disk
--   Log          kernel/log.c, with its children for the loops, the header, recovery, crashes,
--                log_write, and the log space of concurrent operations
--   Pipe         kernel/pipe.c
--   Spinlock     kernel/spinlock.c
--   Kalloc       kernel/kalloc.c
--   Cache        kernel/buffer-io.c: the buffers, the list of them by its links, reads and releases
--   Console      kernel/console.c: the keys and the reads, with the bytes of the UART given
--   Proc         kernel/proc.c: the table, fork, exit and wait, sleep and wakeup, kill, and the draw of
--                the scheduler with kernel/rand.h
--   String       kernel/string.c, over a memory of bytes
--   File         kernel/file.c and the descriptors of kernel/sysfile.c
--   Sleeplock    kernel/sleeplock.c
--   Fs           kernel/fs.c: the block bitmap; below it the table and the disk copies of inodes, their
--                content, directories, and paths
--   Sysfile      the calls of kernel/sysfile.c on paths: what they share; below it link and unlink, and
--                create with mkdir, mknod, chdir and open
--   Vm           kernel/vm.c and the address spaces of kernel/proc.c, over the memory of Kalloc
--   Format       kernel/printf.c, and below it user/printf.c
--   Ulib         atoi and strchr of user/ulib.c
--   Shell        the parser of user/sh.c
--   Virtio       the descriptors and requests of kernel/virtio_disk.c
--   Grep         the pattern matcher of user/grep.c
--   Prelude      numbers, lists, tests and arrays that the modules share
--
-- Names are those of the source in snake case. A function under a lock is modelled from its acquire
-- to its release or sleep, as one step; that the locks give such steps is the subject of Spinlock.
-- A panic is `none`. An `int` or `unsigned int` that wraps is a number modulo 2 ^ 32, written out.
-- A crash is a bound on the block writes that still reach the disk (`power` of BlockStore.Store): a
-- block write is taken to be atomic. A boot needs one write more than the log has blocks.
-- The loop of kalloc_init has as fuel the number of its strides below PHYSTOP. That of
-- strlen has a fuel that its theorem bounds by the length of the string.
--
-- The loops of kernel/fs.c and kernel/vm.c run as many rounds as there are blocks, entries, bytes or
-- pages that they can pass; `namex` a round for each byte of the path and one more.
--
-- The calls of Sysfile run one at a time; the number of open operations stands for begin_op and end_op.
--
-- The parser of user/sh.c recurses on rounds, of which a line of n bytes needs no more than 4 * n + 4;
-- a parse that ran out of them would be `out_of_fuel`.
--
-- The loops of kernel/virtio_disk.c have a round for each descriptor; that
-- of its interrupt is given the number of its rounds.
--
-- A scan of kernel/buffer-io.c has a round for each buffer and one more. BlockStore takes a block that
-- no one holds to be read from the disk again, also where Cache may still have it.
--
-- Not modelled: device registers, assembly, and the parts of the kernel that have no file here.
pub mod Prelude
pub mod BlockStore
pub mod Cache
pub mod Console
pub mod Log
pub mod Pipe
pub mod Spinlock
pub mod Kalloc
pub mod Proc
pub mod String
pub mod File
pub mod Sleeplock
pub mod Fs
pub mod Sysfile
pub mod Vm
pub mod Grep
pub mod Format
pub mod Ulib
pub mod Shell
pub mod Virtio
