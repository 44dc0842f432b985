-- ===== src/Fs/Content.antt =====
-- The content of an inode in kernel/fs.c: `bmap`, `itrunc`, `readi` and `writei`. The caller holds the
-- inode's sleep lock, so that nobody else changes it.
pub mod Mapping
use xv7_riscv.Fs.{Disk, Block, Superblock, word, log_write, bsize, balloc, bfree}
use xv7_riscv.Fs.Inode.{Inode, Itable, ndirect, put_word, iupdate, iput_ref}
use xv7_riscv.Prelude.{
  ℕ, Option, some, min, Bool, ◌+◌, if◌then◌else◌, ◌*◌, ◌==◌, not, ltb, suc, ◌&&◌, leb, ◌-◌, ◌%◌,
  update, none, ◌^◌, false, ◌||◌, zero, ◌/◌, true,
}

-- NINDIRECT, and MAXFILE * BSIZE
abbrev pub nindirect : ℕ
nindirect = 256

abbrev pub max_size : ℕ
max_size = (ndirect + nindirect) * bsize

-- The address that `bmap` returns, 0 if the disk is full, with the inode and the disk.
pub record Mapped : Type 0 where
  pub addr : ℕ
  pub ip : Inode
  pub disk : Disk

-- Entry n of `addrs`, for which a block is allocated if it is 0.
unfoldable pub own_block : Superblock → ℕ → Inode → Disk → Mapped
own_block sb n ip d =
    let (addr, d1) = balloc sb d in
    if not (ip.addrs n == 0)
    then record { addr = ip.addrs n; ip = ip; disk = d }
    else if addr == 0
    then record { addr = 0; ip = ip; disk = d1 }
    else record { addr = addr; ip = record ip { addrs = update ip.addrs n addr }; disk = d1 }

-- Entry n of the indirect block.
unfoldable pub own_entry : Superblock → ℕ → Mapped → Mapped
own_entry sb n r =
    let entry = word (r.disk.blocks r.addr) (4 * n) in
    let (addr, d1) = balloc sb r.disk in
    if not (entry == 0)
    then record r { addr = entry }
    else if addr == 0
    then record r { addr = 0; disk = d1 }
    else record r {
      addr = addr;
      disk = log_write r.addr (put_word (4 * n) addr (d1.blocks r.addr)) d1;
    }

-- `none` is the panic.
unfoldable pub bmap : Superblock → ℕ → Inode → Disk → Option Mapped
bmap sb bn ip d =
    if ltb bn ndirect
    then some (own_block sb bn ip d)
    else if ltb (bn - ndirect) nindirect
    then (let r = own_block sb ndirect ip d in
        if r.addr == 0 then some r else some (own_entry sb (bn - ndirect) r))
    else none

-- The loop of `itrunc` over the k entries of `addrs` from entry i on.
unfoldable pub free_direct : ℕ → ℕ → Superblock → Inode → Disk → Option (Inode × Disk)
free_direct zero i sb ip d = some (ip, d)
free_direct (suc k) i sb ip d =
    let keep = free_direct k (i + 1) sb ip d in
    if ip.addrs i == 0 then keep else elim (bfree sb (ip.addrs i) d) [
      | none ↦ none
      | some d1 ↦ free_direct k (i + 1) sb (record ip { addrs = update ip.addrs i 0 }) d1
    ]

-- Its loop over the k entries of the indirect block b from entry j on.
unfoldable pub free_entries : ℕ → ℕ → ℕ → Superblock → Disk → Option Disk
free_entries zero j b sb d = some d
free_entries (suc k) j b sb d =
    let entry = word (d.blocks b) (4 * j) in
    let keep = free_entries k (j + 1) b sb d in
    if entry == 0
    then keep
    else elim (bfree sb entry d) [ none ↦ none | some d1 ↦ free_entries k (j + 1) b sb d1 ]

unfoldable pub free_indirect : Superblock → Inode → Disk → Option (Inode × Disk)
free_indirect sb ip d =
    let b = ip.addrs ndirect in
    if b == 0 then some (ip, d) else elim (free_entries nindirect 0 b sb d) [
      | none ↦ none
      | some d1 ↦ elim (bfree sb b d1) [
        | none ↦ none
        | some d2 ↦ some (record ip { addrs = update ip.addrs ndirect 0 }, d2)
      ]
    ]

-- `none` is a panic of `bfree`.
unfoldable pub itrunc : Superblock → Inode → Disk → Option (Inode × Disk)
unfolding iupdate
itrunc sb ip d = elim (free_direct ndirect 0 sb ip d) [
  | none ↦ none
  | some (ip1, d1) ↦ elim (free_indirect sb ip1 d1) [
    | none ↦ none
    | some (ip2, d2) ↦ let ip3 = record ip2 { size = 0 } in some (ip3, iupdate sb ip3 d2)
  ]
]

-- `iput` of an inode that it frees, between the two critical sections.
unfoldable pub iput_free : Superblock → Inode → Disk → Option (Inode × Disk)
unfolding itrunc iupdate
iput_free sb ip d = elim (itrunc sb ip d) [
  | none ↦ none
  | some (ip1, d1) ↦
      let ip2 = record ip1 { type = 0 } in some (record ip2 { valid = false }, iupdate sb ip2 d1)
]

-- `none` is a panic.
unfoldable pub iput : Superblock → ℕ → Itable → Disk → Option (Itable × Disk)
unfolding iput_free iput_ref
iput sb i t d =
    let ip = t i in
    elim ((ip.ref == 1) && ip.valid && (ip.nlink == 0)) [
      | true ↦ elim (iput_free sb ip d) [
        | none ↦ none
        | some (ip1, d1) ↦ some (iput_ref i (update t i ip1), d1)
      ]
      | false ↦ some (iput_ref i t, d)
    ]

-- What `readi` or `writei` has done: the count, 2 ^ 32 - 1 for -1, the inode, the disk and the bytes read.
pub record Io : Type 0 where
  pub count : ℕ
  pub ip : Inode
  pub disk : Disk
  pub bytes : ℕ → ℕ

-- `memmove(to + p, from + q, m)`
abbrev pub copy : ℕ → ℕ → ℕ → (ℕ → ℕ) → (ℕ → ℕ) → ℕ → ℕ
copy p q m from to i = if leb p i && ltb i (p + m) then from (q + (i - p)) else to i

-- The bytes that a round moves: to the end of the block, or of what is asked for.
abbrev pub chunk : ℕ → ℕ → ℕ → ℕ
chunk tot off n = min (n - tot) (bsize - off % bsize)

-- The loop of `readi`. `stored tot` says whether `either_copyout` at `dst + tot` succeeds.
module _ (sb : Superblock) (stored : ℕ → Bool) where
  unfoldable pub readi_from : ℕ → ℕ → ℕ → ℕ → Inode → Disk → (ℕ → ℕ) → Option Io
  readi_from zero tot off n ip d to = some (record { count = tot; ip = ip; disk = d; bytes = to })
  readi_from (suc k) tot off n ip d to =
      let done : Io = record { count = tot; ip = ip; disk = d; bytes = to } in
      elim (ltb tot n) [
        | false ↦ some done
        | true ↦ elim (bmap sb (off / bsize) ip d) [
          | none ↦ none
          | some r ↦
              let m = chunk tot off n in
              let now : Io = record { count = tot; ip = r.ip; disk = r.disk; bytes = to } in
              let rest =
                readi_from k (tot + m) (off + m) n r.ip r.disk
                  (copy tot (off % bsize) m (r.disk.blocks r.addr) to) in
              if r.addr == 0
              then some now
              else if not (stored tot)
              then some (record now { count = 2 ^ 32 - 1 })
              else rest
        ]
      ]

  -- n rounds are enough, since each moves a byte.
  unfoldable pub readi : ℕ → ℕ → Inode → Disk → (ℕ → ℕ) → Option Io
  unfolding readi_from
  readi off n ip d to =
      let end = (off + n) % 2 ^ 32 in
      let n' = if ltb ip.size end then ip.size - off else n in
      if ltb ip.size off || ltb end off
      then some (record { count = 0; ip = ip; disk = d; bytes = to })
      else readi_from n' 0 off n' ip d to

-- What `writei` does after its loop, with the offset that it has reached.
unfoldable pub writei_end : Superblock → ℕ → ℕ → Inode → Disk → (ℕ → ℕ) → Io
unfolding iupdate
writei_end sb tot off ip d src =
    let ip1 = if ltb ip.size off then record ip { size = off } else ip in
    record { count = tot; ip = ip1; disk = iupdate sb ip1 d; bytes = src }

-- The loop of `writei`. `fetched tot m` is how many of the m bytes at `src + tot` `either_copyin` copies
-- before it fails, at least m if it does not fail.
module _ (sb : Superblock) (fetched : ℕ → ℕ → ℕ) where
  unfoldable pub writei_from : ℕ → ℕ → ℕ → ℕ → Inode → Disk → (ℕ → ℕ) → Option Io
  unfolding writei_end
  writei_from zero tot off n ip d src = some (writei_end sb tot off ip d src)
  writei_from (suc k) tot off n ip d src = elim (ltb tot n) [
    | false ↦ some (writei_end sb tot off ip d src)
    | true ↦ elim (bmap sb (off / bsize) ip d) [
      | none ↦ none
      | some r ↦
          let m = chunk tot off n in
          let got = fetched tot m in
          let x = copy (off % bsize) tot (min got m) src (r.disk.blocks r.addr) in
          let torn = record r.disk { blocks = update r.disk.blocks r.addr x } in
          let rest = writei_from k (tot + m) (off + m) n r.ip (log_write r.addr x r.disk) src in
          if r.addr == 0
          then some (writei_end sb tot off r.ip r.disk src)
          else if ltb got m
          then some (writei_end sb tot off r.ip torn src)
          else rest
    ]
  ]

  unfoldable pub writei : ℕ → ℕ → Inode → Disk → (ℕ → ℕ) → Option Io
  unfolding writei_from
  writei off n ip d src =
      let end = (off + n) % 2 ^ 32 in
      if ltb ip.size off || ltb end off || ltb max_size end
      then some (record { count = 2 ^ 32 - 1; ip = ip; disk = d; bytes = src })
      else writei_from n 0 off n ip d src
