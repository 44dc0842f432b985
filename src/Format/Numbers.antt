-- ===== src/Format/Numbers.antt =====
-- The digits that `printint` of kernel/printf.c prints.
use xv7_riscv.Format.{
  store_digits, put_buf, store_sign, printint, digits, negative, negate, int_buf,
}
use xv7_riscv.Ulib.{atoi_from, atoi}
use xv7_riscv.Prelude.{
  ℕ, zero, suc, ◌+◌, ◌-◌, ◌*◌, ◌/◌, ◌%◌, ◌^◌, ◌≤◌, ◌<◌, ◌≡◌, refl, sym, ◌∙◌, ap, subst, Bool, true,
  false, Bool-cases, inl, inr, ◌==◌, leb, ◌&&◌, if◌then◌else◌, List, ◌∷◌, update, arith, ℕ_discrete,
  ==_iff, ne→==_false, ◌⊎◌,
}

put_buf-update : (n i c : ℕ) (buf : ℕ → ℕ) → n ≤ i → put_buf n (update buf i c) ≡ put_buf n buf
unfolding put_buf
put_buf-update zero i c buf le = refl
put_buf-update (suc n) i c buf le = rw (put_buf-update n i c buf (omega arith)) (ground arith)

-- One more byte.
put_buf-store : (i c : ℕ) (buf : ℕ → ℕ) → put_buf (i + 1) (update buf i c) ≡ c ∷ put_buf i buf
unfolding put_buf
put_buf-store i c buf =
    let e : suc i ≡ i + 1 = omega arith in
    subst (λ m. put_buf m (update buf i c) ≡ c ∷ put_buf i buf) e
      (rw (put_buf-update i i c buf (omega arith)) (ground arith))

-- `atoi` reads a digit.
atoi_from-digit :
    (n d : ℕ) (s : List ℕ)
    → d < 10
    → n * 10 + d < 2 ^ 32
    → atoi_from n (digits d ∷ s) ≡ atoi_from (n * 10 + d) s
unfolding atoi_from
atoi_from-digit n d s lt small =
    let e : digits d ≡ d + 48 = ground arith in
    let m : (n * 10 + (d + 48) - 48) % 2 ^ 32 ≡ n * 10 + d = omega arith in
    let inside : (leb 48 (d + 48) && leb (d + 48) 57) ≡ true = ground arith in
    rw (e, m, inside) refl

-- `atoi` reads what the loop of `printint` has stored as the number, if the loop has as many rounds as
-- the number has binary digits.
atoi-store_digits :
    (k x i : ℕ) (buf : ℕ → ℕ)
    → x < 2 ^ k
    → x < 2 ^ 32
    → atoi_from 0
        (put_buf (store_digits k digits 10 x i buf).0 (store_digits k digits 10 x i buf).1)
      ≡ atoi_from x (put_buf i buf)
unfolding store_digits
atoi-store_digits zero x i buf lt small =
    let e : 0 ≡ x = omega arith in ap (λ n. atoi_from n (put_buf i buf)) e
atoi-store_digits (suc k) x i buf lt small =
    let c = digits (x % 10) in
    let read : atoi_from (x / 10) (c ∷ put_buf i buf) ≡ atoi_from x (put_buf i buf) =
      let whole : x / 10 * 10 + x % 10 ≡ x = omega arith in
      atoi_from-digit (x / 10) (x % 10) (put_buf i buf) (omega arith) (omega arith)
      ∙ ap (λ n. atoi_from n (put_buf i buf)) whole in
    elim (ℕ_discrete (x / 10) 0) [
      | yes z ↦ rw ((==_iff (x / 10) 0).1 z) (
          ap (λ s. atoi_from 0 s) (put_buf-store i c buf)
          ∙ ap (λ n. atoi_from n (c ∷ put_buf i buf)) (sym z)
          ∙ read)
      | no ne ↦ rw (ne→==_false (x / 10) 0 ne) (
          atoi-store_digits k (x / 10) (i + 1) (update buf i c) (omega arith) (omega arith)
          ∙ ap (λ s. atoi_from (x / 10) s) (put_buf-store i c buf)
          ∙ read)
    ]

-- `atoi` of user/ulib.c reads what `printint` prints in base 10 for a number from 0 to 2 ^ 31 - 1 as
-- that number.
pub atoi-printint : (x : ℕ) → x < 2 ^ 31 → atoi (printint x 10 true) ≡ x
unfolding atoi printint store_sign put_buf atoi_from
atoi-printint x lt =
    let e : negative x ≡ false = ground arith in
    rw e (atoi-store_digits 32 x 0 (λ _. 0) (omega arith) (omega arith))

abbrev pub IsBase : ℕ → Type 0
IsBase base = (base ≡ 10) ⊎ (base ≡ 16)

div_base :
    (m base x : ℕ) → IsBase base → x < 10 ^ suc m → (x / base < 10 ^ m) × (x < 10 → x / base ≡ 0)
div_base m base x (inl e) lt = rw e (omega arith, λ h. omega arith)
div_base m base x (inr e) lt = rw e (omega arith, λ h. omega arith)

-- The index behind the last digit.
store_digits-le :
    (m k : ℕ) (digit : ℕ → ℕ) (base x i : ℕ) (buf : ℕ → ℕ)
    → IsBase base
    → x < 10 ^ suc m
    → (store_digits k digit base x i buf).0 ≤ i + suc m
unfolding store_digits
store_digits-le m zero digit base x i buf which lt = omega arith
store_digits-le zero (suc k) digit base x i buf which lt =
    rw ((==_iff (x / base) 0).1 ((div_base 0 base x which lt).1 (omega arith))) (omega arith)
store_digits-le (suc m) (suc k) digit base x i buf which lt =
    let le =
      store_digits-le m k digit base (x / base) (i + 1) (update buf i (digit (x % base))) which
        (div_base (suc m) base x which lt).0 in
    elim (Bool-cases (x / base == 0)) [ inl e ↦ rw e (omega arith) | inr e ↦ rw e (omega arith) ]

store_sign-le : (b : Bool) (a : ℕ × (ℕ → ℕ)) → a.0 ≤ 10 → (store_sign b a).0 ≤ 11
unfolding store_sign
store_sign-le true a le = omega arith
store_sign-le false a le = omega arith

-- `printint` with base 10 or 16 stores at most 11 bytes in its buffer of 16, for every `int`, with
-- either digits and with or without a sign.
pub int_buf_fits :
    (digit : ℕ → ℕ) (integer base : ℕ) (sign : Bool)
    → IsBase base
    → integer < 2 ^ 32
    → (int_buf digit integer base sign).0 ≤ 11
int_buf_fits digit integer base sign which lt =
    let below = sign && negative integer in
    let x : ℕ = if below then negate integer else integer in
    let small : x < 2 ^ 32 = ground arith in
    store_sign-le below (store_digits 32 digit base x 0 (λ _. 0))
      (store_digits-le 9 32 digit base x 0 (λ _. 0) which (omega arith))
