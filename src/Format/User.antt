-- ===== src/Format/User.antt =====
-- user/printf.c: the bytes that reach the descriptor.
use xv7_riscv.Format.{Arg, Printed, put_nibbles, int_buf, put_buf, take_int, take_long, take_str}
use xv7_riscv.Prelude.{
  ℕ, ◌+◌, ◌%◌, ◌^◌, ◌==◌, leb, Bool, true, false, if◌then◌else◌, List, [], ◌∷◌, ◌++◌, Option, none,
  some,
}

-- "0123456789ABCDEF"
abbrev pub upper_digits : ℕ → ℕ
upper_digits i = if leb 10 i then i + 55 else i + 48

unfoldable pub user_printint : ℕ → ℕ → Bool → List ℕ
user_printint xx base sgn = let (i, buf) = int_buf upper_digits xx base sgn in put_buf i buf

unfoldable pub user_printptr : ℕ → List ℕ
user_printptr x = 48 ∷ 120 ∷ put_nibbles 16 upper_digits x

-- What is printed in the state '%' for 'd', 'l', 'x', 'p', 's', 'c', '%' and the rest.
unfoldable pub user_convert : ℕ → List Arg → Printed
user_convert c args =
    if c == 100
    then take_int (λ x. user_printint x 10 true) args
    else if c == 108
    then take_long (λ x. user_printint (x % 2 ^ 32) 10 false) args
    else if c == 120
    then take_int (λ x. user_printint x 16 false) args
    else if c == 112
    then take_long user_printptr args
    else if c == 115
    then take_str args
    else if c == 99
    then take_int (λ x. x % 2 ^ 8 ∷ []) args
    else if c == 37
    then some (37 ∷ [], args)
    else some (37 ∷ c ∷ [], args)

-- The loop, with `true` for the state '%'.
unfoldable pub vprintf_from : Bool → List ℕ → List Arg → Option (List ℕ)
vprintf_from state [] args = some []
vprintf_from false (c ∷ fmt) args = elim (c == 37) [
  | true ↦ vprintf_from true fmt args
  | false ↦ elim (vprintf_from false fmt args) [ none ↦ none | some out ↦ some (c ∷ out) ]
]
vprintf_from true (c ∷ fmt) args = elim (user_convert c args) [
  | none ↦ none
  | some (s, left) ↦ elim (vprintf_from false fmt left) [ none ↦ none | some out ↦ some (s ++ out) ]
]

abbrev pub vprintf : List ℕ → List Arg → Option (List ℕ)
vprintf fmt args = vprintf_from false fmt args
