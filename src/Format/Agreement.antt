-- ===== src/Format/Agreement.antt =====
-- The `printf` of the kernel and that of user/printf.c.
use xv7_riscv.Format.{
  Arg, Printed, printf, printf_arg, convert, store_digits, put_buf, store_sign, printint, digits,
  take_int, negative, negate,
}
use xv7_riscv.Format.User.{upper_digits, user_printint, user_convert, vprintf_from, vprintf}
use xv7_riscv.Prelude.{
  fun_ext, ℕ, zero, suc, ◌+◌, ◌%◌, ◌/◌, ◌≡◌, refl, ap, ◌==◌, Bool, true, false, Bool-cases, inl,
  inr, not, ◌&&◌, ◌||◌, if◌then◌else◌, List, [], ◌∷◌, ◌++◌, none, some, update, arith,
}

-- The conversions that only one of the two knows, or that print digits above 9: 'x', 'p', 'l' and 'c'.
abbrev pub differs : ℕ → Bool
differs c = (c == 120) || (c == 112) || (c == 108) || (c == 99)

-- A format without these; the state is `true` behind a '%'.
unfoldable pub portable : Bool → List ℕ → Bool
portable state [] = true
portable false (c ∷ fmt) = portable (c == 37) fmt
portable true (c ∷ fmt) = not (differs c) && portable false fmt

digits-upper : (x : ℕ) → digits (x % 10) ≡ upper_digits (x % 10)
digits-upper x = ground arith

store_digits-upper :
    (k x i : ℕ) (buf : ℕ → ℕ)
    → store_digits k digits 10 x i buf ≡ store_digits k upper_digits 10 x i buf
unfolding store_digits
store_digits-upper zero x i buf = refl
store_digits-upper (suc k) x i buf =
    rw
      (digits-upper x, store_digits-upper k (x / 10) (i + 1) (update buf i (upper_digits (x % 10))))
      refl

printint-upper : (x : ℕ) → printint x 10 true ≡ user_printint x 10 true
unfolding printint user_printint
printint-upper x =
    let y : ℕ = if negative x then negate x else x in
    ap (λ a. let (i, buf) = store_sign (negative x) a in put_buf i buf)
      (store_digits-upper 32 y 0 (λ _. 0))

convert-user : (c : ℕ) (args : List Arg) → differs c ≡ false → convert c args ≡ user_convert c args
unfolding convert user_convert
convert-user c args h = elim (Bool-cases (c == 100)) [
  | inl e ↦ rw e (ap (λ (f : ℕ → List ℕ). take_int f args) (fun_ext printint-upper))
  | inr e ↦ ground (arith, h, e)
]

vprintf_from-printf :
    (state : Bool) (fmt : List ℕ) (args : List Arg)
    → portable state fmt ≡ true
    → vprintf_from state fmt args ≡ (if state then printf_arg fmt args else printf fmt args)
unfolding vprintf_from printf portable
vprintf_from-printf false [] args h = refl
vprintf_from-printf true [] args h = refl
vprintf_from-printf false (c ∷ fmt) args h =
    plain (c == 37) h (λ k. vprintf_from-printf true fmt args k)
      (λ k. vprintf_from-printf false fmt args k)
  where
    plain :
        (b : Bool)
        → portable b fmt ≡ true
        → (portable true fmt ≡ true → vprintf_from true fmt args ≡ printf_arg fmt args)
        → (portable false fmt ≡ true → vprintf_from false fmt args ≡ printf fmt args)
        → elim b [
          | true ↦ vprintf_from true fmt args
          | false ↦ elim (vprintf_from false fmt args) [ none ↦ none | some out ↦ some (c ∷ out) ]
        ]
          ≡ elim b [
            | false ↦ elim (printf fmt args) [ none ↦ none | some out ↦ some (c ∷ out) ]
            | true ↦ printf_arg fmt args
          ]
    plain true k t f = t k
    plain false k t f = rw (f k) refl
vprintf_from-printf true (c ∷ fmt) args h =
    let later : portable false fmt ≡ true = ground (arith, h) in
    let same : differs c ≡ false = ground (arith, h) in
    printed (user_convert c args) (convert-user c args same)
      (λ left. vprintf_from-printf false fmt left later)
  where
    printed :
        (a : Printed)
        → convert c args ≡ a
        → ((left : List Arg) → vprintf_from false fmt left ≡ printf fmt left)
        → elim a [
          | none ↦ none
          | some (s, left) ↦ elim (vprintf_from false fmt left) [
            | none ↦ none
            | some out ↦ some (s ++ out)
          ]
        ]
          ≡ printf_arg (c ∷ fmt) args
    printed none e k = rw (printf_arg, e) refl
    printed (some (s, left)) e k = rw (printf_arg, e, k left) refl

-- On a format that has no conversion 'x', 'p', 'l' or 'c', `vprintf` of user/printf.c prints the bytes
-- that `printf` of kernel/printf.c prints, for all arguments; both fail together where an argument is
-- missing or of another type.
pub vprintf-printf :
    (fmt : List ℕ) (args : List Arg)
    → portable false fmt ≡ true
    → vprintf fmt args ≡ printf fmt args
vprintf-printf fmt args h = vprintf_from-printf false fmt args h
