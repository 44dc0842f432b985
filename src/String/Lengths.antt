-- ===== src/String/Lengths.antt =====
-- What `strlen` returns, also of a string that `safestrcpy` has written.
use xv7_riscv.String.{strlen, strlen_from, safestrcpy, Memory}
use xv7_riscv.String.Copies.{NonNull, Apart, safestrcpy_lem}
use xv7_riscv.Prelude.{
  ℕ, ◌≤◌, ◌<◌, rounds, ◌≢◌, ◌+◌, ◌≡◌, some, arith, min, suc, ◌-◌, ℕ_discrete, inl, ne→==_false, inr,
  sym, zero, ◌∙◌, ap,
}

strlen_from-found :
    (fuel n s l : ℕ) (m : Memory)
    → n ≤ l
    → l < n + fuel
    → NonNull s l m
    → m (s + l) ≡ 0
    → strlen_from fuel n s m ≡ some l
unfolding strlen_from
strlen_from-found zero n s l m lo hi full null = absurd (omega arith)
strlen_from-found (suc k) n s l m lo hi full null = elim (ℕ_discrete n l) [
  | yes e ↦ ground arith
  | no ne ↦
      rw (ne→==_false (m (s + n)) 0 (full (s + n) (omega arith) (omega arith)))
        (strlen_from-found k (n + 1) s l m (omega arith) (omega arith) full null)
]

-- `strlen` ends at the first null byte and returns its offset, with a round more than that.
pub strlen_lem :
    (fuel s l : ℕ) (m : Memory)
    → l < fuel
    → NonNull s l m
    → m (s + l) ≡ 0
    → strlen fuel s m ≡ some l
unfolding strlen
strlen_lem fuel s l m lt full null =
    strlen_from-found fuel 0 s l m (omega arith) (omega arith) full null

-- A string of length l is copied by `safestrcpy` to a string of length l or, where that does not fit
-- into n bytes with its null byte, n - 1; n is above 0, the two do not overlap, and the loop of `strlen`
-- is given more than l rounds.
pub strlen-safestrcpy :
    (fuel s t n l : ℕ) (m : Memory)
    → rounds n ≢ 0
    → Apart s t (rounds n)
    → l < fuel
    → NonNull t l m
    → m (t + l) ≡ 0
    → strlen fuel s (safestrcpy s t n m) ≡ some (min l (rounds n - 1))
strlen-safestrcpy fuel s t n l m pos apart lt full null = elim (safestrcpy_lem s t n m apart) [
  | inl (z, rest) ↦ absurd (pos z)
  | inr (c, small, full_c, last, bytes, zero_c, rest) ↦
      let not_below : ¬ (l < c) = λ h. full_c (t + l) (omega arith) (omega arith) null in
      let e : c ≡ min l (rounds n - 1) = elim last [
        | inl h ↦ omega arith
        | inr z ↦
            let not_above : ¬ (c < l) = λ h. full (t + c) (omega arith) (omega arith) z in
            omega arith
      ] in
      strlen_lem fuel s c _ (omega arith)
        (λ a lo hi z. full_c (t + (a - s)) (omega arith) (omega arith) (sym (bytes a lo hi) ∙ z))
        zero_c
      ∙ ap some e
]
