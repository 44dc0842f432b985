-- ===== src/Fs/Allocation.antt =====
-- What `balloc` and `bfree` do to the set of used blocks, on every way out.
use mathlib.Core.Bool.{false≢true}
use xv7_riscv.Fs.{
  Disk, Block, Superblock, bpb, bblock, set_bit, clear_bit, find_block, with_bit, take_block,
  balloc, bfree, bzero, log_write,
}
use xv7_riscv.Fs.Bits.{bit-set_bit, bit-clear_bit}
use xv7_riscv.Fs.Bitmap.{used, IsBitmap, used-with_bit, find_block-FirstFree, FirstFree}
use xv7_riscv.Prelude.{
  ℕ, ◌<◌, ℕ_discrete, ◌≡◌, false, ◌%◌, ◌≢◌, ◌/◌, if◌then◌else◌, ==_iff, ◌∙◌, ◌==◌, arith, true,
  ne→==_false, update_ne, update, sym, ◌⊎◌, none, ◌∷◌, ap, some, Bool-cases, inl, inr, refl,
  ==_refl, ◌+◌, ◌*◌, Option-cases, subst,
}

with_bit-byte :
    (change : ℕ → ℕ → ℕ) (b : ℕ) (x : Block)
    → ((i y : ℕ) → i < 8 → y < 256 → change y i < 256)
    → ((i : ℕ) → x i < 256)
    → (i : ℕ) → with_bit change b x i < 256
with_bit-byte change b x small bytes i = elim (ℕ_discrete (b % bpb / 8) i) [
  | yes e ↦
      rw ((==_iff (b % bpb / 8) i).1 e)
        (small (b % bpb % 8) (x (b % bpb / 8)) (omega arith) (bytes (b % bpb / 8)))
  | no ne ↦ rw (ne→==_false (b % bpb / 8) i ne) (bytes i)
]

module _ (sb : Superblock) (d : Disk) (h : IsBitmap sb d) (b : ℕ) (lb : b < sb.size)
    (free : used sb d b ≡ false) where
  not_bitmap : (c : ℕ) → c < sb.size → b ≢ bblock sb c
  not_bitmap c lc e = false≢true (sym free ∙ ap (used sb d) e ∙ h.own c lc)

  pub used-take_block :
      (c : ℕ) → c < sb.size → used sb (take_block sb b d) c ≡ (if b == c then true else used sb d c)
  unfolding take_block bzero used
  used-take_block c lc =
      rw
        (update_ne (update d.blocks (bblock sb b) (with_bit set_bit b (d.blocks (bblock sb b)))) b
          (bblock sb c) (λ _. 0) (not_bitmap c lc))
        (used-with_bit sb d h b c lb lc set_bit true
          (λ i j x li lj lx. (bit-set_bit i j x li lj lx).0))

  pub take_block-IsBitmap : IsBitmap sb (take_block sb b d)
  unfolding take_block bzero
  take_block-IsBitmap = record {
    byte = bytes;
    inside = h.inside;
    own = λ c lc. used-take_block (bblock sb c) (h.inside c lc) ∙ ground (arith, h.own c lc);
    small = h.small;
  }
    where
      x : Block
      x = with_bit set_bit b (d.blocks (bblock sb b))

      bytes : (c i : ℕ) → (take_block sb b d).blocks c i < 256
      bytes c i = elim (ℕ_discrete b c) [
        | yes e ↦ rw ((==_iff b c).1 e) (omega arith)
        | no ne ↦
            rw (update_ne (update d.blocks (bblock sb b) x) b c (λ _. 0) ne)
              (elim (ℕ_discrete (bblock sb b) c) [
                | yes e ↦ rw ((==_iff (bblock sb b) c).1 e) (
                    with_bit-byte set_bit b (d.blocks (bblock sb b))
                      (λ i y li ly. (bit-set_bit i i y li li ly).1) (h.byte (bblock sb b)) i)
                | no q ↦ rw (update_ne d.blocks (bblock sb b) c x q) (h.byte c i)
              ])
      ]

-- What is true of the result of a call that takes block b.
pub record Taken (sb : Superblock) (d : Disk) (b : ℕ) (d' : Disk) : Type 0 where
  pub marks : (c : ℕ) → c < sb.size → used sb d' c ≡ (if b == c then true else used sb d c)
  pub zeroed : (i : ℕ) → d'.blocks b i ≡ 0
  pub others : (c : ℕ) → b ≢ c → bblock sb b ≢ c → d'.blocks c ≡ d.blocks c
  pub logs : d'.logged ≡ b ∷ bblock sb b ∷ d.logged
  pub bitmap : IsBitmap sb d'

take_block-Taken :
    (sb : Superblock) (d : Disk)
    → IsBitmap sb d
    → (b : ℕ) → b < sb.size
    → used sb d b ≡ false
    → Taken sb d b (take_block sb b d)
unfolding take_block bzero
take_block-Taken sb d h b lb free = record {
  marks = used-take_block sb d h b lb free;
  zeroed = λ i. rw (==_refl b) refl;
  others = λ c ne nb. rw (ne→==_false b c ne, ne→==_false (bblock sb b) c nb) refl;
  logs = refl;
  bitmap = take_block-IsBitmap sb d h b lb free;
}

-- `balloc` fails, and changes nothing, if all blocks are used; otherwise it returns the first block that
-- is not, marks that one alone as used, fills it with zeros, changes no block but it and its block of
-- the bitmap, and logs these two.
pub balloc_lem :
    (sb : Superblock) (d : Disk)
    → IsBitmap sb d
    → ((balloc sb d ≡ (0, d)) × ((c : ℕ) → c < sb.size → used sb d c ≡ true))
      ⊎ ((b : ℕ) × (b < sb.size)
          × (used sb d b ≡ false)
          × ((c : ℕ) → c < b → used sb d c ≡ true)
          × (d' : Disk) × (balloc sb d ≡ (b, d'))
          × Taken sb d b d')
unfolding balloc
balloc_lem sb d h =
    let hi : ℕ = (sb.size / bpb + 1) * bpb in
    let search = find_block-FirstFree (sb.size / bpb + 1) 0 sb d hi (omega arith) in
    elim (Option-cases (find_block (sb.size / bpb + 1) 0 sb d)) [
      | inl e ↦
          let all = subst (FirstFree (used sb d) 0 hi sb.size) e search in
          inl (rw (balloc, e) refl, λ c lc. all c (omega arith) (omega arith) lc)
      | inr (b, e) ↦
          let (lo, up, inside, free, before) =
            subst (FirstFree (used sb d) 0 hi sb.size) e search in
          inr (
            b,
            inside,
            free,
            λ c lc. before c (omega arith) lc,
            take_block sb b d,
            rw (balloc, e) refl,
            take_block-Taken sb d h b inside free,
          )
    ]

-- `bfree` panics if the block is free already; otherwise it marks that block alone as free, changes
-- and logs its block of the bitmap, and no other.
pub bfree_lem :
    (sb : Superblock) (d : Disk) (b : ℕ)
    → IsBitmap sb d
    → b < sb.size
    → ((used sb d b ≡ false) × (bfree sb b d ≡ none))
      ⊎ ((used sb d b ≡ true)
          × (d' : Disk) × (bfree sb b d ≡ some d')
          × ((c : ℕ) → c < sb.size → used sb d' c ≡ (if b == c then false else used sb d c))
          × ((c : ℕ) → bblock sb b ≢ c → d'.blocks c ≡ d.blocks c)
          × (d'.logged ≡ bblock sb b ∷ d.logged))
unfolding bfree used
bfree_lem sb d b h lb = elim (Bool-cases (used sb d b)) [
  | inl busy ↦ inr (
    busy,
    log_write (bblock sb b) (with_bit clear_bit b (d.blocks (bblock sb b))) d,
    rw busy refl,
    λ c lc.
        used-with_bit sb d h b c lb lc clear_bit false
          (λ i j x li lj lx. (bit-clear_bit i j x li lj lx).0),
    λ c ne. update_ne d.blocks (bblock sb b) c _ ne,
    refl,
  )
  | inr free ↦ inl (free, rw free refl)
]
