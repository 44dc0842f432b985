-- ===== src/Fs/Bits.antt =====
-- The bits of a byte: `set_bit` and `clear_bit` change one of them.
use mathlib.Core.Bool.{false≢true}
use xv7_riscv.Fs.{bit, set_bit, clear_bit}
use xv7_riscv.Prelude.{
  ℕ, Bool, ◌≡◌, true, not, ◌<◌, if◌then◌else◌, suc, arith, false, ◌==◌, refl, ◌&&◌, zero, ltb,
  Bool-cases, inr, inl, ℕ_discrete,
}

-- The test p holds at each number under the bound.
every : (ℕ → Bool) → ℕ → Bool
every p zero = true
every p (suc bound) = let rest = every p bound in if p bound then rest else false

every-at : (p : ℕ → Bool) (bound : ℕ) → every p bound ≡ true → (x : ℕ) → x < bound → p x ≡ true
unfolding every
every-at p zero h x lt = absurd (omega arith)
every-at p (suc bound) h x lt = elim (Bool-cases (p bound)) [
  | inr bad ↦ absurd (false≢true (rw bad at h))
  | inl good ↦ elim (ℕ_discrete x bound) [
    | yes e ↦ rw e good
    | no ne ↦ every-at p bound (rw good at h) x (omega arith)
  ]
]

abbrev same : Bool → Bool → Bool
same true b = b
same false b = not b

same-eq : (a b : Bool) → same a b ≡ true → a ≡ b
same-eq true true h = refl
same-eq true false h = cc
same-eq false true h = cc
same-eq false false h = refl

set_right : ℕ → ℕ → ℕ → Bool
unfolding set_bit bit
set_right i j x =
    same (bit (set_bit x i) j) (if i == j then true else bit x j) && ltb (set_bit x i) 256

clear_right : ℕ → ℕ → ℕ → Bool
unfolding clear_bit bit
clear_right i j x =
    same (bit (clear_bit x i) j) (if i == j then false else bit x j) && ltb (clear_bit x i) 256

set_table : every (λ i. every (λ j. every (set_right i j) 256) 8) 8 ≡ true
unfolding every set_right
set_table = refl

clear_table : every (λ i. every (λ j. every (clear_right i j) 256) 8) 8 ≡ true
unfolding every clear_right
clear_table = refl

at_all :
    (p : ℕ → ℕ → ℕ → Bool) (i j x : ℕ)
    → every (λ i. every (λ j. every (p i j) 256) 8) 8 ≡ true
    → i < 8
    → j < 8
    → x < 256
    → p i j x ≡ true
at_all p i j x h li lj lx = every-at (p i j) 256 (every-at _ 8 (every-at _ 8 h i li) j lj) x lx

module _ (i j x : ℕ) (li : i < 8) (lj : j < 8) (lx : x < 256) where
  pub bit-set_bit : (bit (set_bit x i) j ≡ (if i == j then true else bit x j)) × (set_bit x i < 256)
  unfolding set_right
  bit-set_bit =
      let h = at_all set_right i j x set_table li lj lx in
      (same-eq _ _ (ground arith), ground arith)

  pub bit-clear_bit :
      (bit (clear_bit x i) j ≡ (if i == j then false else bit x j)) × (clear_bit x i < 256)
  unfolding clear_right
  bit-clear_bit =
      let h = at_all clear_right i j x clear_table li lj lx in
      (same-eq _ _ (ground arith), ground arith)
