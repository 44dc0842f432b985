-- ===== src/Fs/References.antt =====
-- The reference counts of inodes in kernel/fs.c: what the functions on content and directories leave as
-- it is.
use xv7_riscv.Fs.{Disk, Superblock, bsize, bfree, half, Block, log_write}
use xv7_riscv.Fs.Inode.{Inode, ilock, ndirect, positive, get_dinode, ioffset, iblock}
use xv7_riscv.Fs.Content.{
  Mapped, own_block, own_entry, bmap, free_direct, free_indirect, itrunc, iput_free, Io, readi_from,
  readi, writei_end, writei_from, writei, chunk, free_entries, nindirect, max_size, copy,
}
use xv7_riscv.Fs.Directory.{
  Search, scan_entries, dirlookup, link_entry, read_entry, t_dir, entries, has_name, new_entry,
}
use xv7_riscv.Prelude.{
  min, ℕ, zero, suc, ◌+◌, ◌≡◌, Bool, true, false, ltb, ◌==◌, not, if◌then◌else◌, Option, none, some,
  arith, ◌-◌, ◌/◌, ◌||◌, update, ◌%◌, ◌^◌,
}

-- What holds of a result, if there is one.
abbrev pub After {ℓ} : {A : Type ℓ} → Option A → (A → Type 0) → Type 0
After none P = Unit {0}
After (some a) P = P a

module _ {ℓ κ} {A : Type ℓ} {B : Type κ} (P : B → Type 0) where
  pub After-chain :
      (Q : A → Type 0) (o : Option A) (f : A → Option B)
      → After o Q
      → ((a : A) → Q a → After (f a) P)
      → After (elim o [ none ↦ none | some a ↦ f a ]) P
  After-chain Q none f h k = tt
  After-chain Q (some a) f h k = k a h

module _ {ℓ} {A : Type ℓ} (P : A → Type 0) where
  pub After-if : (b : Bool) (x y : Option A) → After x P → After y P → After (if b then x else y) P
  After-if true x y h k = h
  After-if false x y h k = k

  pub After-test :
      (b : Bool) (x y : Option A)
      → After x P
      → After y P
      → After (elim b [ false ↦ x | true ↦ y ]) P
  After-test true x y h k = k
  After-test false x y h k = h

pub any {ℓ} : {A : Type ℓ} (o : Option A) → After o (λ _. Unit {0})
any none = tt
any (some a) = tt

own_block-ref :
    (sb : Superblock) (n : ℕ) (ip : Inode) (d : Disk) → (own_block sb n ip d).ip.ref ≡ ip.ref
unfolding own_block
own_block-ref sb n ip d = ground arith

own_entry-ref : (sb : Superblock) (n : ℕ) (r : Mapped) → (own_entry sb n r).ip ≡ r.ip
unfolding own_entry
own_entry-ref sb n r = ground arith

-- A result whose inode has c references, as the inode before it had.
module _ (c : ℕ) where
  abbrev pub KeepsIo : Option Io → Type 0
  KeepsIo o = After o (λ r. r.ip.ref ≡ c)

  abbrev pub KeepsInode : Option (Inode × Disk) → Type 0
  KeepsInode o = After o (λ r. r.0.ref ≡ c)

  abbrev pub KeepsSearch : Option Search → Type 0
  KeepsSearch o = After o (λ r. r.dp.ref ≡ c)

  bmap-ref :
      (sb : Superblock) (bn : ℕ) (ip : Inode) (d : Disk)
      → ip.ref ≡ c
      → After (bmap sb bn ip d) (λ r. r.ip.ref ≡ c)
  unfolding bmap
  bmap-ref sb bn ip d h = ground (
    arith,
    own_block-ref sb bn ip d,
    own_block-ref sb 12 ip d,
    own_entry-ref sb (bn - 12) (own_block sb 12 ip d),
  )

  readi_from-ref :
      (sb : Superblock) (stored : ℕ → Bool) (k tot off n : ℕ) (ip : Inode) (d : Disk) (to : ℕ → ℕ)
      → ip.ref ≡ c
      → KeepsIo (readi_from sb stored k tot off n ip d to)
  unfolding readi_from
  readi_from-ref sb stored zero tot off n ip d to h = h
  readi_from-ref sb stored (suc k) tot off n ip d to h =
      After-test (λ r. r.ip.ref ≡ c) (ltb tot n) _ _ h
        (After-chain (λ r. r.ip.ref ≡ c) (λ r. r.ip.ref ≡ c) (bmap sb (off / bsize) ip d) _
          (bmap-ref sb (off / bsize) ip d h)
          (λ r e.
            After-if (λ r. r.ip.ref ≡ c) (r.addr == 0) _ _ e
              (After-if (λ r. r.ip.ref ≡ c) (not (stored tot)) _ _ e
                (readi_from-ref sb stored k _ _ n r.ip r.disk _ e))))

  pub readi-ref :
      (sb : Superblock) (stored : ℕ → Bool) (off n : ℕ) (ip : Inode) (d : Disk) (to : ℕ → ℕ)
      → ip.ref ≡ c
      → KeepsIo (readi sb stored off n ip d to)
  unfolding readi
  readi-ref sb stored off n ip d to h =
      let m : ℕ = if ltb ip.size ((off + n) % 2 ^ 32) then ip.size - off else n in
      After-if (λ r. r.ip.ref ≡ c) (ltb ip.size off || ltb ((off + n) % 2 ^ 32) off) _ _ h
        (readi_from-ref sb stored m 0 off m ip d to h)

  writei_end-ref :
      (sb : Superblock) (tot off : ℕ) (ip : Inode) (d : Disk) (src : ℕ → ℕ)
      → ip.ref ≡ c
      → (writei_end sb tot off ip d src).ip.ref ≡ c
  unfolding writei_end
  writei_end-ref sb tot off ip d src h = ground arith

  writei_from-ref :
      (sb : Superblock) (fetched : ℕ → ℕ → ℕ) (k tot off n : ℕ) (ip : Inode) (d : Disk)
      (src : ℕ → ℕ)
      → ip.ref ≡ c
      → KeepsIo (writei_from sb fetched k tot off n ip d src)
  unfolding writei_from
  writei_from-ref sb fetched zero tot off n ip d src h = writei_end-ref sb tot off ip d src h
  writei_from-ref sb fetched (suc k) tot off n ip d src h =
      After-test (λ r. r.ip.ref ≡ c) (ltb tot n) _ _ (writei_end-ref sb tot off ip d src h)
        (After-chain (λ r. r.ip.ref ≡ c) (λ r. r.ip.ref ≡ c) (bmap sb (off / bsize) ip d) _
          (bmap-ref sb (off / bsize) ip d h)
          (λ r e.
            let m : ℕ = chunk tot off n in
            let x : Block =
              copy (off % bsize) tot (min (fetched tot m) m) src (r.disk.blocks r.addr) in
            let torn : Disk = record r.disk { blocks = update r.disk.blocks r.addr x } in
            After-if (λ r. r.ip.ref ≡ c) (r.addr == 0) _ _
              (writei_end-ref sb tot off r.ip r.disk src e)
              (After-if (λ r. r.ip.ref ≡ c) (ltb (fetched tot m) m) _ _
                (writei_end-ref sb tot off r.ip torn src e)
                (writei_from-ref sb fetched k (tot + m) (off + m) n r.ip (log_write r.addr x r.disk)
                  src e))))

  pub writei-ref :
      (sb : Superblock) (fetched : ℕ → ℕ → ℕ) (off n : ℕ) (ip : Inode) (d : Disk) (src : ℕ → ℕ)
      → ip.ref ≡ c
      → KeepsIo (writei sb fetched off n ip d src)
  unfolding writei
  writei-ref sb fetched off n ip d src h =
      After-if (λ r. r.ip.ref ≡ c)
        (ltb ip.size off || ltb ((off + n) % 2 ^ 32) off || ltb max_size ((off + n) % 2 ^ 32)) _ _ h
        (writei_from-ref sb fetched n 0 off n ip d src h)

  pub scan_entries-ref :
      (wanted : (ℕ → ℕ) → Bool) (k : ℕ) (sb : Superblock) (off : ℕ) (dp : Inode) (d : Disk)
      → dp.ref ≡ c
      → KeepsSearch (scan_entries wanted k sb off dp d)
  unfolding scan_entries
  scan_entries-ref wanted zero sb off dp d h = h
  scan_entries-ref wanted (suc k) sb off dp d h =
      After-test (λ r. r.dp.ref ≡ c) (ltb off dp.size) _ _ h
        (After-chain (λ r. r.dp.ref ≡ c) (λ r. r.ip.ref ≡ c) (read_entry sb off dp d) _
          (readi-ref sb (λ _. true) off 16 dp d (λ _. 0) h)
          (λ r e.
            After-if (λ r. r.dp.ref ≡ c) (not (r.count == 16)) _ _ tt
              (After-if (λ r. r.dp.ref ≡ c) (wanted r.bytes) _ _ e
                (scan_entries-ref wanted k sb (off + 16) r.ip r.disk e))))

  pub dirlookup-ref :
      (sb : Superblock) (name : ℕ → ℕ) (dp : Inode) (d : Disk)
      → dp.ref ≡ c
      → KeepsSearch (dirlookup sb name dp d)
  unfolding dirlookup
  dirlookup-ref sb name dp d h =
      After-if (λ r. r.dp.ref ≡ c) (not (dp.type == t_dir)) _ _ tt
        (scan_entries-ref (has_name name) (entries dp) sb 0 dp d h)

  pub link_entry-ref :
      (sb : Superblock) (name : ℕ → ℕ) (inum : ℕ) (dp : Inode) (d : Disk)
      → dp.ref ≡ c
      → After (link_entry sb name inum dp d) (λ r. r.1.ip.ref ≡ c)
  unfolding link_entry
  link_entry-ref sb name inum dp d h =
      After-chain (λ r. r.1.ip.ref ≡ c) (λ r. r.dp.ref ≡ c)
        (scan_entries (λ de. half de 0 == 0) (entries dp) sb 0 dp d) _
        (scan_entries-ref (λ de. half de 0 == 0) (entries dp) sb 0 dp d h)
        (λ s e.
          After-chain (λ r. r.1.ip.ref ≡ c) (λ r. r.ip.ref ≡ c)
            (writei sb (λ _ m. m) s.off 16 s.dp s.disk (new_entry name inum)) _
            (writei-ref sb (λ _ m. m) s.off 16 s.dp s.disk (new_entry name inum) e) (λ r f. f))

  free_direct-ref :
      (k i : ℕ) (sb : Superblock) (ip : Inode) (d : Disk)
      → ip.ref ≡ c
      → KeepsInode (free_direct k i sb ip d)
  unfolding free_direct
  free_direct-ref zero i sb ip d h = h
  free_direct-ref (suc k) i sb ip d h =
      After-if (λ r. r.0.ref ≡ c) (ip.addrs i == 0) _ _ (free_direct-ref k (i + 1) sb ip d h)
        (After-chain (λ r. r.0.ref ≡ c) (λ _. Unit {0}) (bfree sb (ip.addrs i) d) _ (any _)
          (λ d1 _. free_direct-ref k (i + 1) sb (record ip { addrs = update ip.addrs i 0 }) d1 h))

  free_indirect-ref :
      (sb : Superblock) (ip : Inode) (d : Disk) → ip.ref ≡ c → KeepsInode (free_indirect sb ip d)
  unfolding free_indirect
  free_indirect-ref sb ip d h =
      After-if (λ r. r.0.ref ≡ c) (ip.addrs ndirect == 0) _ _ h
        (After-chain (λ r. r.0.ref ≡ c) (λ _. Unit {0})
          (free_entries nindirect 0 (ip.addrs ndirect) sb d) _ (any _)
          (λ d1 _.
            After-chain (λ r. r.0.ref ≡ c) (λ _. Unit {0}) (bfree sb (ip.addrs ndirect) d1) _
              (any _) (λ d2 _. h)))

  pub itrunc-ref :
      (sb : Superblock) (ip : Inode) (d : Disk) → ip.ref ≡ c → KeepsInode (itrunc sb ip d)
  unfolding itrunc
  itrunc-ref sb ip d h =
      After-chain (λ r. r.0.ref ≡ c) (λ r. r.0.ref ≡ c) (free_direct ndirect 0 sb ip d) _
        (free_direct-ref ndirect 0 sb ip d h)
        (λ r e.
          After-chain (λ r. r.0.ref ≡ c) (λ r. r.0.ref ≡ c) (free_indirect sb r.0 r.1) _
            (free_indirect-ref sb r.0 r.1 e) (λ r f. f))

  pub iput_free-ref :
      (sb : Superblock) (ip : Inode) (d : Disk) → ip.ref ≡ c → KeepsInode (iput_free sb ip d)
  unfolding iput_free
  iput_free-ref sb ip d h =
      After-chain (λ r. r.0.ref ≡ c) (λ r. r.0.ref ≡ c) (itrunc sb ip d) _ (itrunc-ref sb ip d h)
        (λ r e. e)

  pub ilock-ref :
      (sb : Superblock) (d : Disk) (ip : Inode)
      → ip.ref ≡ c
      → After (ilock sb d ip) (λ r. r.ref ≡ c)
  unfolding ilock
  ilock-ref sb d ip h =
      After-if (λ r. r.ref ≡ c) (not (positive ip.ref)) _ _ tt
        (After-if (λ r. r.ref ≡ c) ip.valid _ _ h
          (After-if (λ r. r.ref ≡ c)
            ((get_dinode (ioffset ip.inum) (d.blocks (iblock sb ip.inum)) ip).type == 0) _ _ tt h))
