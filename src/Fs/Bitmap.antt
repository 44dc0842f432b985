-- ===== src/Fs/Bitmap.antt =====
-- `balloc` and `bfree` against the set of blocks that the bitmap marks as used.
use xv7_riscv.Fs.{
  Disk, Block, Superblock, bpb, bblock, bit, find_bit, find_block, with_bit, log_write,
}
use xv7_riscv.Prelude.{
  ℕ, Bool, ◌+◌, Option, arith, ◌%◌, ◌-◌, ◌≤◌, suc, ◌/◌, ◌<◌, ◌≡◌, true, sym, dec_lt, some, ◌∙◌,
  not_lt→ltb, false, lt→ltb, none, Bool-cases, inl, inr, zero, subst, ◌*◌, ◌^◌, if◌then◌else◌, refl,
  ◌==◌, ℕ_discrete, ◌≢◌, ne→==_false, ap, update_ne, update_self,
}

-- What the bitmap says of block b.
unfoldable pub used : Superblock → Disk → ℕ → Bool
used sb d b = bit (d.blocks (bblock sb b) (b % bpb / 8)) (b % bpb % 8)

-- A search of the numbers from lo to hi, below size, for the first that is not marked.
abbrev pub FirstFree : (ℕ → Bool) → ℕ → ℕ → ℕ → Option ℕ → Type 0
FirstFree marked lo hi size none = (e : ℕ) → lo ≤ e → e < hi → e < size → marked e ≡ true
FirstFree marked lo hi size (some c) =
    (lo ≤ c)
    × (c < hi)
    × (c < size)
    × (marked c ≡ false)
    × ((e : ℕ) → lo ≤ e → e < c → marked e ≡ true)

-- Two searches, one behind the other.
FirstFree-next :
    (marked : ℕ → Bool) (lo mid hi size : ℕ) (r : Option ℕ)
    → lo ≤ mid
    → ((e : ℕ) → lo ≤ e → e < mid → e < size → marked e ≡ true)
    → FirstFree marked mid hi size r
    → FirstFree marked lo hi size r
FirstFree-next marked lo mid hi size none le before rest =
    λ e a b c. elim (dec_lt e mid) [ yes q ↦ before e a q c | no q ↦ rest e (omega arith) b c ]
FirstFree-next marked lo mid hi size (some c) le before rest = (
  omega arith,
  rest.1,
  rest.2,
  rest.3,
  λ e a b. elim (dec_lt e mid) [
    | yes q ↦ before e a q (omega arith)
    | no q ↦ rest.4 e (omega arith) b
  ],
)

FirstFree-map :
    (p q : ℕ → Bool) (lo hi size : ℕ) (r : Option ℕ)
    → ((e : ℕ) → lo ≤ e → e < hi → p e ≡ q e)
    → FirstFree p lo hi size r
    → FirstFree q lo hi size r
FirstFree-map p q lo hi size none same all = λ e a b c. sym (same e a b) ∙ all e a b c
FirstFree-map p q lo hi size (some c) same (a, b, s, free, before) =
    (a, b, s, sym (same c a b) ∙ free, λ e x y. sym (same e x (omega arith)) ∙ before e x y)

-- The bit of block e in the bitmap block x of group b.
abbrev marked_in : Block → ℕ → ℕ → Bool
marked_in x b e = bit (x ((e - b) / 8)) ((e - b) % 8)

same_bit :
    (sb : Superblock) (d : Disk) (g e : ℕ)
    → g * bpb ≤ e
    → e < g * bpb + bpb
    → marked_in (d.blocks (bblock sb (g * bpb))) (g * bpb) e ≡ used sb d e
unfolding used
same_bit sb d g e lo hi =
    let at : e - g * bpb ≡ e % bpb = omega arith in
    let group : bblock sb (g * bpb) ≡ bblock sb e = omega arith in rw (at, group)

find_bit-FirstFree :
    (k bi b size lo hi : ℕ) (x : Block)
    → lo ≡ b + bi
    → hi ≡ lo + k
    → FirstFree (marked_in x b) lo hi size (find_bit k bi b size x)
unfolding find_bit
find_bit-FirstFree zero bi b size lo hi x el eh = λ e a c s. absurd (omega arith)
find_bit-FirstFree (suc k) bi b size lo hi x el eh =
    let at : bi ≡ lo - b = omega arith in
    elim (dec_lt (b + bi) size) [
      | no out ↦ rw (not_lt→ltb (b + bi) size (omega arith)) (λ e a c s. absurd (omega arith))
      | yes inside ↦
          rw (lt→ltb (b + bi) size inside) (elim (Bool-cases (bit (x (bi / 8)) (bi % 8))) [
            | inl busy ↦ rw busy (
                FirstFree-next (marked_in x b) lo (lo + 1) hi size _ (omega arith)
                  (λ e a c s. subst (λ (j : ℕ). bit (x (j / 8)) (j % 8) ≡ true) (omega arith) busy)
                  (find_bit-FirstFree k (bi + 1) b size (lo + 1) hi x (omega arith) (omega arith)))
            | inr free ↦ rw free (
              omega arith,
              omega arith,
              inside,
              subst (λ (j : ℕ). bit (x (j / 8)) (j % 8) ≡ false) (omega arith) free,
              λ e a c. absurd (omega arith),
            )
          ])
    ]

pub find_block-FirstFree :
    (k g : ℕ) (sb : Superblock) (d : Disk) (hi : ℕ)
    → hi ≡ (g + k) * bpb
    → FirstFree (used sb d) (g * bpb) hi sb.size (find_block k (g * bpb) sb d)
unfolding find_block
find_block-FirstFree zero g sb d hi eh = λ e a c s. absurd (omega arith)
find_block-FirstFree (suc k) g sb d hi eh = elim (dec_lt (g * bpb) sb.size) [
  | no out ↦ rw (not_lt→ltb (g * bpb) sb.size (omega arith)) (λ e a c s. absurd (omega arith))
  | yes inside ↦ rw (lt→ltb (g * bpb) sb.size inside) (
      group _
        (FirstFree-map (marked_in (d.blocks (bblock sb (g * bpb))) (g * bpb)) (used sb d) (g * bpb)
          (g * bpb + bpb) sb.size _ (same_bit sb d g)
          (find_bit-FirstFree bpb 0 (g * bpb) sb.size (g * bpb) (g * bpb + bpb) _ (omega arith)
            refl))
        (subst (λ (b : ℕ). FirstFree (used sb d) b hi sb.size (find_block k b sb d)) (omega arith)
          (find_block-FirstFree k (g + 1) sb d hi (omega arith))))
]
  where
    group :
        (r : Option ℕ)
        → FirstFree (used sb d) (g * bpb) (g * bpb + bpb) sb.size r
        → FirstFree (used sb d) (g * bpb + bpb) hi sb.size (find_block k (g * bpb + bpb) sb d)
        → FirstFree
            (used sb d)
            (g * bpb)
            hi
            sb.size
            (elim r [ none ↦ find_block k (g * bpb + bpb) sb d | some x ↦ some x ])
    group none all rest =
        FirstFree-next (used sb d) (g * bpb) (g * bpb + bpb) hi sb.size _ (omega arith) all rest
    group (some c) (a, b, s, free, before) rest = (a, omega arith, s, free, before)

-- The bitmap: bytes below 256, its own blocks lie on the disk and are marked as used, and no number wraps.
pub record IsBitmap (sb : Superblock) (d : Disk) : Type 0 where
  pub byte : (b i : ℕ) → d.blocks b i < 256
  pub inside : (b : ℕ) → b < sb.size → bblock sb b < sb.size
  pub own : (b : ℕ) → b < sb.size → used sb d (bblock sb b) ≡ true
  pub small : sb.size / bpb + sb.bmapstart < 2 ^ 32

-- What a change of one bit does to the set of used blocks.
module _ (sb : Superblock) (d : Disk) (h : IsBitmap sb d) (b c : ℕ) (lb : b < sb.size)
    (lc : c < sb.size) where
  pub used-with_bit :
      (change : ℕ → ℕ → ℕ) (v : Bool)
      → ((i j x : ℕ)
          → i < 8
          → j < 8
          → x < 256
          → bit (change x i) j ≡ (if i == j then v else bit x j))
      → used sb (log_write (bblock sb b) (with_bit change b (d.blocks (bblock sb b))) d) c
        ≡ (if b == c then v else used sb d c)
  unfolding used
  used-with_bit change v law =
      let sm = h.small in
      let x : Block = d.blocks (bblock sb b) in
      let y : Block = with_bit change b x in
      elim (ℕ_discrete (bblock sb b) (bblock sb c)) [
        | no ne ↦
            let other : b ≢ c = λ e. ne (ap (bblock sb) e) in
            rw (update_ne d.blocks (bblock sb b) (bblock sb c) y ne, ne→==_false b c other) refl
        | yes e ↦ rw (← e) (
            rw (update_self d.blocks (bblock sb b) y)
              (elim (ℕ_discrete (b % bpb / 8) (c % bpb / 8)) [
                | no ne ↦
                    let other : b ≢ c = λ q. ne (ap (λ (m : ℕ). m % bpb / 8) q) in
                    rw
                      (
                        update_ne x (b % bpb / 8) (c % bpb / 8)
                            (change (x (b % bpb / 8)) (b % bpb % 8)) ne,
                        ne→==_false b c other,
                      )
                      refl
                | yes q ↦ rw (← q) (
                    rw (update_self x (b % bpb / 8) (change (x (b % bpb / 8)) (b % bpb % 8))) (
                      law (b % bpb % 8) (c % bpb % 8) (x (b % bpb / 8)) (omega arith) (omega arith)
                        (h.byte _ _)
                      ∙ ap (λ (t : Bool). if t then v else bit (x (b % bpb / 8)) (c % bpb % 8))
                          (same_test e q)))
              ]))
      ]
    where
      same_test :
          bblock sb b ≡ bblock sb c
          → b % bpb / 8 ≡ c % bpb / 8
          → (b % bpb % 8 == c % bpb % 8) ≡ (b == c)
      same_test e q = elim (ℕ_discrete b c) [
        | yes r ↦ ground arith
        | no r ↦
            let sm = h.small in
            let other : b % bpb % 8 ≢ c % bpb % 8 = λ z. r (omega arith) in
            ne→==_false (b % bpb % 8) (c % bpb % 8) other ∙ sym (ne→==_false b c r)
      ]
