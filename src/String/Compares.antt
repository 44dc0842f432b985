-- ===== src/String/Compares.antt =====
-- What `memcmp` and `strncmp` return.
use xv7_riscv.String.{memcmp, strncmp, difference, Memory}
use xv7_riscv.Prelude.{
  ℕ, Bool, inl, ◌+◌, ◌≡◌, not, arith, ◌==◌, ◌<◌, subst, true, false, ◌||◌, suc, ◌⊎◌, inr,
  Bool-cases, zero, refl,
}

-- How a comparison of the n bytes from p and from q on ends: with 0 after all of them, or with the
-- difference of the first pair that `stop` stops at.
abbrev pub Compared : (ℕ → ℕ → Bool) → ℕ → ℕ → ℕ → Memory → ℕ → Type 0
Compared stop p q n m r =
    ((r ≡ 0) × ((j : ℕ) → j < n → stop (m (p + j)) (m (q + j)) ≡ false))
    ⊎ ((i : ℕ) × (i < n)
        × (stop (m (p + i)) (m (q + i)) ≡ true)
        × (r ≡ difference (m (p + i)) (m (q + i)))
        × ((j : ℕ) → j < i → stop (m (p + j)) (m (q + j)) ≡ false))

moved : (P : ℕ → ℕ → Type 0) {a b c d : ℕ} → a ≡ c → b ≡ d → P a b → P c d
moved P {b} {c} e f x = subst (λ (y : ℕ). P c y) f (subst (λ (y : ℕ). P y b) e x)

module _ (stop : ℕ → ℕ → Bool) (m : Memory) where
  Compared-stop :
      (p q n : ℕ) → stop (m p) (m q) ≡ true → Compared stop p q (suc n) m (difference (m p) (m q))
  Compared-stop p q n h = inr (
    0,
    omega arith,
    moved (λ (x y : ℕ). stop (m x) (m y) ≡ true) (omega arith) (omega arith) h,
    moved (λ (x y : ℕ). difference (m p) (m q) ≡ difference (m x) (m y)) (omega arith) (omega arith)
        refl,
    λ j lt. absurd (omega arith),
  )

  further :
      (p q j : ℕ)
      → stop (m p) (m q) ≡ false
      → ((i : ℕ) → i + 1 ≡ j → stop (m (p + 1 + i)) (m (q + 1 + i)) ≡ false)
      → stop (m (p + j)) (m (q + j)) ≡ false
  further p q zero h rest =
      moved (λ (x y : ℕ). stop (m x) (m y) ≡ false) (omega arith) (omega arith) h
  further p q (suc i) h rest =
      moved (λ (x y : ℕ). stop (m x) (m y) ≡ false) (omega arith) (omega arith)
        (rest i (omega arith))

  Compared-next :
      (p q n r : ℕ)
      → stop (m p) (m q) ≡ false
      → Compared stop (p + 1) (q + 1) n m r
      → Compared stop p q (suc n) m r
  Compared-next p q n r h (inl (z, all)) =
      inl (z, λ j lt. further p q j h (λ i e. all i (omega arith)))
  Compared-next p q n r h (inr (i, lt, st, e, before)) = inr (
    i + 1,
    omega arith,
    moved (λ (x y : ℕ). stop (m x) (m y) ≡ true) (omega arith) (omega arith) st,
    moved (λ (x y : ℕ). r ≡ difference (m x) (m y)) (omega arith) (omega arith) e,
    λ j lt2. further p q j h (λ i2 e2. before i2 (omega arith)),
  )

abbrev pub differ : ℕ → ℕ → Bool
differ a b = not (a == b)

-- `strncmp` also stops at the null byte.
abbrev pub differ_or_end : ℕ → ℕ → Bool
differ_or_end a b = (a == 0) || not (a == b)

-- `memcmp` returns 0 if the n bytes are the same, and otherwise the difference of the first two that
-- differ.
pub memcmp_lem : (s1 s2 n : ℕ) (m : Memory) → Compared differ s1 s2 n m (memcmp s1 s2 n m)
unfolding memcmp
memcmp_lem s1 s2 zero m = inl (refl, λ j lt. absurd (omega arith))
memcmp_lem s1 s2 (suc n) m = elim (Bool-cases (differ (m s1) (m s2))) [
  | inl h ↦ rw h (Compared-stop differ m s1 s2 n h)
  | inr h ↦ rw h (Compared-next differ m s1 s2 n _ h (memcmp_lem (s1 + 1) (s2 + 1) n m))
]

-- `strncmp` returns 0 if the first n bytes are the same and none of them ends the string, and
-- otherwise the difference of the first two that differ or end the first string.
pub strncmp_lem : (p q n : ℕ) (m : Memory) → Compared differ_or_end p q n m (strncmp p q n m)
unfolding strncmp
strncmp_lem p q zero m = inl (refl, λ j lt. absurd (omega arith))
strncmp_lem p q (suc n) m = elim (Bool-cases (differ_or_end (m p) (m q))) [
  | inl h ↦ ground (arith, Compared-stop differ_or_end m p q n h)
  | inr h ↦
      ground (arith, Compared-next differ_or_end m p q n _ h (strncmp_lem (p + 1) (q + 1) n m))
]
