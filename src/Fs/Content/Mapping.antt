-- ===== src/Fs/Content/Mapping.antt =====
-- `bmap`: a block that it has returned is returned again.
use xv7_riscv.Fs.{
  Disk, Block, Superblock, word, log_write, balloc, find_block, find_bit, bpb, bblock,
}
use xv7_riscv.Fs.Inode.{Inode, ndirect, put_word}
use xv7_riscv.Fs.Content.{Mapped, own_block, own_entry, bmap, nindirect}
use xv7_riscv.Prelude.{
  ℕ, ◌<◌, ◌^◌, ◌≡◌, arith, some, Option-cases, ◌≢◌, suc, ne→==_false, ◌/◌, ◌*◌, ◌+◌, refl, inl,
  zero, inr, ==_iff, update, ap, update_self, ◌∙◌, ℕ_discrete, subst, sym, dec_lt, lt→ltb, ◌≤◌, ◌-◌,
  not_lt→ltb,
}

word-put_word : (o n : ℕ) (x : Block) → n < 2 ^ 32 → word (put_word o n x) o ≡ n
word-put_word o n x small = ground arith

find_bit-lt : (k bi b size : ℕ) (x : Block) (c : ℕ) → find_bit k bi b size x ≡ some c → c < size
unfolding find_bit
find_bit-lt zero bi b size x c e = absurd (ground arith)
find_bit-lt (suc k) bi b size x c e = ground (arith, find_bit-lt k (bi + 1) b size x c)

find_block-lt :
    (k b : ℕ) (sb : Superblock) (d : Disk) (c : ℕ) → find_block k b sb d ≡ some c → c < sb.size
unfolding find_block
find_block-lt zero b sb d c e = absurd (ground arith)
find_block-lt (suc k) b sb d c e = ground (
  arith,
  find_bit-lt bpb 0 b sb.size (d.blocks (bblock sb b)) c,
  find_block-lt k (b + bpb) sb d c,
)

balloc-small : (sb : Superblock) (d : Disk) → sb.size < 2 ^ 32 → (balloc sb d).0 < 2 ^ 32
unfolding balloc
balloc-small sb d small = elim (Option-cases (find_block (sb.size / bpb + 1) 0 sb d)) [
  | inl e ↦ rw (balloc, e) (omega arith)
  | inr (b, e) ↦
      let lt = find_block-lt (sb.size / bpb + 1) 0 sb d b e in rw (balloc, e) (omega arith)
]

module _ (sb : Superblock) (n : ℕ) (ip : Inode) (d : Disk) where
  own_block-addr :
      (own_block sb n ip d).addr ≢ 0 → (own_block sb n ip d).ip.addrs n ≡ (own_block sb n ip d).addr
  unfolding own_block
  own_block-addr ne = ground arith

  own_block-owned :
      ip.addrs n ≢ 0 → own_block sb n ip d ≡ record { addr = ip.addrs n; ip = ip; disk = d }
  unfolding own_block
  own_block-owned ne = rw (ne→==_false (ip.addrs n) 0 ne) refl

module _ (sb : Superblock) (n : ℕ) (r : Mapped) where
  abbrev entry : ℕ
  entry = word (r.disk.blocks r.addr) (4 * n)

  own_entry-kept : entry ≢ 0 → own_entry sb n r ≡ record r { addr = entry }
  unfolding own_entry
  own_entry-kept ne = rw (ne→==_false entry 0 ne) refl

  own_entry-full :
      entry ≡ 0
      → (balloc sb r.disk).0 ≡ 0
      → own_entry sb n r ≡ record r { addr = 0; disk = (balloc sb r.disk).1 }
  unfolding own_entry
  own_entry-full z full =
      rw ((==_iff entry 0).1 z) (rw ((==_iff (balloc sb r.disk).0 0).1 full) refl)

  own_entry-new :
      entry ≡ 0
      → (balloc sb r.disk).0 ≢ 0
      → own_entry sb n r ≡ record r {
        addr = (balloc sb r.disk).0;
        disk =
            log_write r.addr
              (put_word (4 * n) (balloc sb r.disk).0 ((balloc sb r.disk).1.blocks r.addr))
              (balloc sb r.disk).1;
      }
  unfolding own_entry
  own_entry-new z new = rw ((==_iff entry 0).1 z) (rw (ne→==_false (balloc sb r.disk).0 0 new) refl)

  -- What the entry holds when a block has been returned.
  abbrev Held : Mapped → Type 0
  Held m = m.addr ≢ 0 → (word (m.disk.blocks r.addr) (4 * n) ≡ m.addr) × (m.ip ≡ r.ip)

  own_entry-Held : sb.size < 2 ^ 32 → Held (own_entry sb n r)
  own_entry-Held small = elim (ℕ_discrete entry 0) [
    | no ne ↦ subst Held (sym (own_entry-kept ne)) (λ q. (refl, refl))
    | yes z ↦ elim (ℕ_discrete (balloc sb r.disk).0 0) [
      | yes full ↦ subst Held (sym (own_entry-full z full)) (λ q. absurd (q refl))
      | no new ↦ subst Held (sym (own_entry-new z new)) (λ q. (written, refl))
    ]
  ]
    where
      written :
          let x = put_word (4 * n) (balloc sb r.disk).0 ((balloc sb r.disk).1.blocks r.addr) in
          word (update (balloc sb r.disk).1.blocks r.addr x r.addr) (4 * n) ≡ (balloc sb r.disk).0
      written =
          let x : Block =
            put_word (4 * n) (balloc sb r.disk).0 ((balloc sb r.disk).1.blocks r.addr) in
          ap (λ (y : Block). word y (4 * n)) (update_self (balloc sb r.disk).1.blocks r.addr x)
          ∙ word-put_word (4 * n) (balloc sb r.disk).0 ((balloc sb r.disk).1.blocks r.addr)
              (balloc-small sb r.disk small)

module _ (sb : Superblock) (n : ℕ) where
  -- The call again, on any disk, after a call that has returned a block.
  own_block-again :
      (m : Mapped) (d : Disk)
      → m.ip.addrs n ≡ m.addr
      → m.addr ≢ 0
      → own_block sb n m.ip d ≡ record m { disk = d }
  own_block-again m d e ne =
      own_block-owned sb n m.ip d (λ z. ne (sym e ∙ z))
      ∙ ap (λ (a : ℕ). record { addr = a; ip = m.ip; disk = d }) e

  own_entry-again :
      (m r : Mapped)
      → word (r.disk.blocks m.addr) (4 * n) ≡ r.addr
      → r.addr ≢ 0
      → own_entry sb n (record { addr = m.addr; ip = r.ip; disk = r.disk }) ≡ r
  own_entry-again m r e ne =
      own_entry-kept sb n (record { addr = m.addr; ip = r.ip; disk = r.disk }) (λ z. ne (sym e ∙ z))
      ∙ ap (λ (a : ℕ). record { addr = a; ip = r.ip; disk = r.disk }) e

module _ (sb : Superblock) (bn : ℕ) (ip : Inode) (d : Disk) where
  bmap-direct : bn < ndirect → bmap sb bn ip d ≡ some (own_block sb bn ip d)
  unfolding bmap
  bmap-direct lt = rw (lt→ltb bn ndirect lt) refl

  bmap-indirect :
      ndirect ≤ bn
      → bn < ndirect + nindirect
      → (own_block sb ndirect ip d).addr ≢ 0
      → bmap sb bn ip d ≡ some (own_entry sb (bn - ndirect) (own_block sb ndirect ip d))
  unfolding bmap
  bmap-indirect lo hi ne =
      rw
        (
          not_lt→ltb bn ndirect lo,
          lt→ltb (bn - ndirect) nindirect (omega arith),
          ne→==_false (own_block sb ndirect ip d).addr 0 ne,
        )
        refl

  bmap-failed :
      ndirect ≤ bn
      → (r : Mapped) → bmap sb bn ip d ≡ some r
      → r.addr ≢ 0
      → (bn < ndirect + nindirect) × ((own_block sb ndirect ip d).addr ≢ 0)
  unfolding bmap
  bmap-failed lo r e ne = elim (dec_lt bn (ndirect + nindirect)) [
    | no out ↦ absurd (ground arith)
    | yes hi ↦ (hi, λ z. ground arith)
  ]

-- A block that `bmap` has returned for a block number is returned again, by a call that changes neither
-- the inode nor the disk; the disk has fewer than 2 ^ 32 blocks.
pub bmap_again :
    (sb : Superblock) (bn : ℕ) (ip : Inode) (d : Disk) (r : Mapped)
    → sb.size < 2 ^ 32
    → bmap sb bn ip d ≡ some r
    → r.addr ≢ 0
    → bmap sb bn r.ip r.disk ≡ some r
bmap_again sb bn ip d r small e ne = elim (dec_lt bn ndirect) [
  | yes direct ↦
      let is : own_block sb bn ip d ≡ r = cc (bmap-direct sb bn ip d direct, e) in
      let held =
        subst (λ (m : Mapped). m.addr ≢ 0 → m.ip.addrs bn ≡ m.addr) is
          (own_block-addr sb bn ip d) in
      bmap-direct sb bn r.ip r.disk direct ∙ ap some (own_block-again sb bn r r.disk (held ne) ne)
  | no indirect ↦
      let (hi, got) = bmap-failed sb bn ip d (omega arith) r e ne in
      let m : Mapped = own_block sb ndirect ip d in
      let is : own_entry sb (bn - ndirect) m ≡ r =
        cc (bmap-indirect sb bn ip d (omega arith) hi got, e) in
      let (word_is, same_ip) =
        subst (Held sb (bn - ndirect) m) is (own_entry-Held sb (bn - ndirect) m small) ne in
      let owner : own_block sb ndirect r.ip r.disk
          ≡ record { addr = m.addr; ip = r.ip; disk = r.disk } =
        subst
          (λ (x : Inode).
            own_block sb ndirect x r.disk ≡ record { addr = m.addr; ip = x; disk = r.disk })
          (sym same_ip)
          (own_block-again sb ndirect m r.disk (own_block-addr sb ndirect ip d got) got) in
      bmap-indirect sb bn r.ip r.disk (omega arith) hi
        (λ z. got (sym (ap (λ (x : Mapped). x.addr) owner) ∙ z))
      ∙ ap some (
          ap (own_entry sb (bn - ndirect)) owner ∙ own_entry-again sb (bn - ndirect) m r word_is ne)
]
