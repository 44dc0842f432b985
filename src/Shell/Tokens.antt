-- ===== src/Shell/Tokens.antt =====
-- The tokens of user/sh.c: where they begin and end.
use xv7_riscv.Shell.{
  Token, has, whitespace, symbols, skip_from, skip, word_from, token_at, gettoken, peek,
}
use xv7_riscv.Ulib.{strchr}
use mathlib.Core.Bool.{false≢true}
use xv7_riscv.Shell.{Outcome, ok, panics, out_of_fuel}
use xv7_riscv.Prelude.{
  ℕ, zero, suc, ◌+◌, ◌-◌, ◌≤◌, ◌<◌, ◌≡◌, ◌≢◌, refl, sym, ◌∙◌, ap, subst, Bool, true, false,
  Bool-cases, inl, inr, ◌==◌, ltb, not, ◌&&◌, ◌||◌, List, [], ◌∷◌, arith, ==_iff, ne→==_false,
  ℕ_discrete,
}

-- The bytes that no word contains.
unfoldable pub special : ℕ → Bool
special c = (c == 0) || has whitespace c || has symbols c

module _ (b : ℕ → ℕ) (es : ℕ) where
  -- A line ends in its first 0.
  abbrev pub IsLine : Type 0
  IsLine = (b es ≡ 0) × ((a : ℕ) → a < es → b a ≢ 0)

  -- A word is not empty, and goes from the address q to the first special byte behind it.
  abbrev pub IsWord : ℕ → ℕ → Type 0
  IsWord q eq =
      (q < eq)
      × (eq ≤ es)
      × ((a : ℕ) → q ≤ a → a < eq → special (b a) ≡ false)
      × (special (b eq) ≡ true)

  skip_from-le : (k s : ℕ) → s ≤ es → (s ≤ skip_from b es k s) × (skip_from b es k s ≤ es)
  unfolding skip_from
  skip_from-le zero s le = (omega arith, le)
  skip_from-le (suc k) s le = elim (Bool-cases (ltb s es && has whitespace (b s))) [
    | inr e ↦ rw e (omega arith, le)
    | inl e ↦ rw e (
        let lt : s < es = ground (arith, e) in
        let h = skip_from-le k (s + 1) (omega arith) in (omega arith, h.1))
  ]

  skip_from-stops :
      (k s : ℕ) → b es ≡ 0 → s ≤ es → es ≤ s + k → has whitespace (b (skip_from b es k s)) ≡ false
  unfolding skip_from strchr
  skip_from-stops zero s z le more = let e : s ≡ es = omega arith in rw (e, z) refl
  skip_from-stops (suc k) s z le more = elim (Bool-cases (ltb s es && has whitespace (b s))) [
    | inl e ↦ rw e (
        let lt : s < es = ground (arith, e) in
        skip_from-stops k (s + 1) z (omega arith) (omega arith))
    | inr e ↦ rw e (stopped (ℕ_discrete s es) e)
  ]
    where
      stopped :
          Dec (s ≡ es) → (ltb s es && has whitespace (b s)) ≡ false → has whitespace (b s) ≡ false
      stopped (yes same) e = rw (same, z) refl
      stopped (no ne) e = let lt : s < es = omega arith in ground (arith, e, lt)

  -- Where a word ends that goes on at s.
  abbrev WordEnd : ℕ → ℕ → Type 0
  WordEnd s e =
      (s ≤ e)
      × (e ≤ es)
      × ((a : ℕ) → s ≤ a → a < e → special (b a) ≡ false)
      × (special (b e) ≡ true)

  word_from-WordEnd : (k s : ℕ) → IsLine → s ≤ es → es ≤ s + k → WordEnd s (word_from b es k s)
  unfolding word_from special
  word_from-WordEnd zero s line le more =
      let e : s ≡ es = omega arith in
      (omega arith, le, λ a lo hi. absurd (omega arith), rw (e, line.0) refl)
  word_from-WordEnd (suc k) s line le more =
      elim (Bool-cases (ltb s es && not (has whitespace (b s)) && not (has symbols (b s)))) [
        | inl e ↦ rw e (
            let lt : s < es = ground (arith, e) in
            let h = word_from-WordEnd k (s + 1) line (omega arith) (omega arith) in
            (omega arith, h.1, inside h.2 e lt, h.3))
        | inr e ↦ rw e (omega arith, le, λ a lo hi. absurd (omega arith), stops e)
      ]
    where
      inside :
          {e : ℕ}
          → ((a : ℕ) → s + 1 ≤ a → a < e → special (b a) ≡ false)
          → (ltb s es && not (has whitespace (b s)) && not (has symbols (b s))) ≡ true
          → s < es
          → (a : ℕ) → s ≤ a
          → a < e
          → special (b a) ≡ false
      inside h e lt a lo hi = elim (ℕ_discrete s a) [
        | no ne ↦ h a (omega arith) hi
        | yes same ↦
            rw (sym same) (let z = ne→==_false (b s) 0 (line.1 s lt) in ground (arith, e, z))
      ]

      stops :
          (ltb s es && not (has whitespace (b s)) && not (has symbols (b s))) ≡ false
          → special (b s) ≡ true
      stops e = elim (ℕ_discrete s es) [
        | yes same ↦ rw (same, line.0) refl
        | no ne ↦ let lt : s < es = omega arith in ground (arith, e, lt)
      ]

  skip-le : (s : ℕ) → s ≤ es → (s ≤ skip b es s) × (skip b es s ≤ es)
  skip-le s le = skip_from-le (es - s) s le

  before_end : (s : ℕ) → IsLine → s ≤ es → b s ≢ 0 → s < es
  before_end s line le ne = elim (ℕ_discrete s es) [
    | yes same ↦ absurd (ne (ap b same ∙ line.0))
    | no other ↦ omega arith
  ]

  -- What `gettoken` finds: a token that is not 0 moves the pointer, and 'a' is a word.
  abbrev pub Found : ℕ → Token → Type 0
  Found s t =
      (s ≤ t.q)
      × (t.q ≤ t.eq)
      × (t.eq ≤ es)
      × (b t.q ≢ 0 → t.q < t.eq)
      × (t.tok ≡ 97 → IsWord t.q t.eq)

  abbrev plain : List ℕ
  plain = 124 ∷ 40 ∷ 41 ∷ 59 ∷ 38 ∷ 60 ∷ []

  nonspecial :
      (c : ℕ)
      → c ≢ 0
      → has whitespace c ≡ false
      → has plain c ≡ false
      → (c == 62) ≡ false
      → special c ≡ false
  unfolding special strchr
  nonspecial c ne sp p g = ground (arith, ne, sp, p, g)

  plain-97 : (c : ℕ) → has plain c ≡ true → c ≢ 97
  unfolding strchr
  plain-97 c h e = false≢true (subst (λ x. has plain x ≡ true) e h)

  word_from-IsWord :
      (s : ℕ) → IsLine → s ≤ es → special (b s) ≡ false → IsWord s (word_from b es (es - s) s)
  word_from-IsWord s line le n =
      let h = word_from-WordEnd (es - s) s line le (omega arith) in
      (first (ℕ_discrete s (word_from b es (es - s) s)) h, h.1, h.2, h.3)
    where
      first : {e : ℕ} → Dec (s ≡ e) → WordEnd s e → s < e
      first (no ne) h = omega arith
      first (yes same) h = absurd (false≢true (sym n ∙ ap (λ x. special (b x)) same ∙ h.3))

  token_at-Found :
      (s : ℕ)
      → IsLine
      → s ≤ es
      → has whitespace (b s) ≡ false
      → Found s (record { tok = (token_at b es s).0; q = s; eq = (token_at b es s).1 })
  unfolding token_at
  token_at-Found s line le sp = elim (ℕ_discrete (b s) 0) [
    | yes z ↦ rw z (omega arith, omega arith, le, λ ne. absurd (ne refl), λ e. absurd (omega arith))
    | no ne ↦
        let lt : s < es = before_end s line le ne in
        rw (ne→==_false (b s) 0 ne) (elim (Bool-cases (has plain (b s))) [
          | inl p ↦ rw p (
            omega arith,
            omega arith,
            omega arith,
            λ _. omega arith,
            λ e. absurd (plain-97 (b s) p e),
          )
          | inr p ↦ rw p (elim (Bool-cases (b s == 62)) [
            | inl g ↦ rw g (elim (Bool-cases (b (s + 1) == 62)) [
              | inl g2 ↦ rw g2 (
                  let lt2 : s + 1 < es =
                    before_end (s + 1) line (omega arith)
                      (λ z. omega ((==_iff (b (s + 1)) 62).0 g2, arith)) in
                  (
                    omega arith,
                    omega arith,
                    omega arith,
                    λ _. omega arith,
                    λ e. absurd (omega arith),
                  ))
              | inr g2 ↦ rw g2 (
                omega arith,
                omega arith,
                omega arith,
                λ _. omega arith,
                λ e. absurd (omega arith),
              )
            ])
            | inr g ↦ rw g (
                let w = word_from-IsWord s line le (nonspecial (b s) ne sp p g) in
                (omega arith, omega arith, w.1, λ _. w.0, λ _. w))
          ])
        ])
  ]

  -- What holds of the result of a parser, which is not out of rounds.
  abbrev pub Good {ℓ} : {A : Type ℓ} → (A → ℕ → Type 0) → Outcome A → Type 0
  Good P (ok a s) = P a s
  Good P panics = Unit {0}
  Good P out_of_fuel = ⊥

  -- A token that begins at a byte other than 0 moves the pointer; so does a word.
  abbrev pub Next : ℕ → Token → ℕ → Type 0
  Next s t s1 =
      (s ≤ s1) × (s1 ≤ es) × (b s ≢ 0 → s < s1) × (t.tok ≡ 97 → IsWord t.q t.eq × (s < s1))

  pub gettoken-Next : (s : ℕ) → IsLine → s ≤ es → Good (Next s) (gettoken b es s)
  unfolding gettoken
  gettoken-Next s line le =
      let q = skip-le s le in
      let stop = skip_from-stops (es - s) s line.0 le (omega arith) in
      let f = token_at-Found (skip b es s) line q.1 stop in
      let eq = (token_at b es (skip b es s)).1 in
      let after = skip-le eq f.2 in
      let first = skip b es s in
      let last = skip b es eq in
      let low : s ≤ first = q.0 in
      let mid : first ≤ eq = f.1 in
      let high : eq ≤ last = after.0 in
      (
        omega arith,
        after.1,
        λ ne. moved low mid high (ℕ_discrete s first) ne f.3,
        λ e. let w : first < eq = (f.4 e).0 in (f.4 e, omega arith),
      )
    where
      moved :
          {q e l : ℕ} → s ≤ q → q ≤ e → e ≤ l → Dec (s ≡ q) → b s ≢ 0 → (b q ≢ 0 → q < e) → s < l
      moved low mid high (no other) ne h = omega arith
      moved {q = q} {e = e} low mid high (yes same) ne h =
          let w : q < e = h (λ z. ne (ap b same ∙ z)) in omega arith

  abbrev pub Peeked : ℕ → Bool → ℕ → Type 0
  Peeked s p s1 = (s ≤ s1) × (s1 ≤ es) × (p ≡ true → b s1 ≢ 0)

  pub peek-Peeked : (toks : List ℕ) (s : ℕ) → IsLine → s ≤ es → Good (Peeked s) (peek b es toks s)
  unfolding peek
  peek-Peeked toks s line le =
      let q = skip-le s le in (q.0, q.1, λ e z. false≢true (ground (arith, e, z)))
