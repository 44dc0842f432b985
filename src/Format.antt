-- ===== src/Format.antt =====
-- kernel/printf.c. A byte string is the list of its bytes before the 0, and what is printed is the list
-- of the bytes that reach `console_put`. An `int` is a number below 2 ^ 32.
pub mod Agreement
pub mod Numbers
pub mod User
mod Tests
use xv7_riscv.Prelude.{
  ℕ, zero, suc, ◌+◌, ◌-◌, ◌*◌, ◌/◌, ◌%◌, ◌^◌, ◌==◌, leb, Bool, true, false, ◌&&◌, if◌then◌else◌,
  List, [], ◌∷◌, ◌++◌, Option, none, some, update, get_or,
}

-- "0123456789abcdef"
abbrev pub digits : ℕ → ℕ
digits i = if leb 10 i then i + 87 else i + 48

abbrev pub negative : ℕ → Bool
negative x = leb (2 ^ 31) x

abbrev pub negate : ℕ → ℕ
negate x = (2 ^ 32 - x) % 2 ^ 32

-- The loop that fills `buf` from index i on: the index behind the last digit, and the buffer.
unfoldable pub store_digits : ℕ → (ℕ → ℕ) → ℕ → ℕ → ℕ → (ℕ → ℕ) → ℕ × (ℕ → ℕ)
store_digits zero digit base x i buf = (i, buf)
store_digits (suc k) digit base x i buf =
    let buf1 = update buf i (digit (x % base)) in
    let rest = store_digits k digit base (x / base) (i + 1) buf1 in
    if x / base == 0 then (i + 1, buf1) else rest

-- The loop that prints `buf` from index i - 1 down.
unfoldable pub put_buf : ℕ → (ℕ → ℕ) → List ℕ
put_buf zero buf = []
put_buf (suc i) buf = buf i ∷ put_buf i buf

unfoldable pub store_sign : Bool → ℕ × (ℕ → ℕ) → ℕ × (ℕ → ℕ)
store_sign sign (i, buf) = if sign then (i + 1, update buf i 45) else (i, buf)

-- The buffer when all is stored; a number below 2 ^ 32 has at most 32 digits.
abbrev pub int_buf : (ℕ → ℕ) → ℕ → ℕ → Bool → ℕ × (ℕ → ℕ)
int_buf digit integer base sign =
    let below = sign && negative integer in
    store_sign below
      (store_digits 32 digit base (if below then negate integer else integer) 0 (λ _. 0))

unfoldable pub printint : ℕ → ℕ → Bool → List ℕ
printint integer base sign = let (i, buf) = int_buf digits integer base sign in put_buf i buf

-- The loop of `printptr`; an `unsigned long` is a number below 2 ^ 64.
unfoldable pub put_nibbles : ℕ → (ℕ → ℕ) → ℕ → List ℕ
put_nibbles zero digit x = []
put_nibbles (suc k) digit x = digit (x / 2 ^ 60) ∷ put_nibbles k digit ((x * 2 ^ 4) % 2 ^ 64)

unfoldable pub printptr : ℕ → List ℕ
printptr x = 48 ∷ 120 ∷ put_nibbles 16 digits x

-- What `va_arg` fetches. An argument that is of another type, or missing, is `none`.
pub data Arg : Type 0 where
  int long : (x : ℕ) → Arg
  str : (s : Option (List ℕ)) → Arg

-- What a conversion prints, and the arguments that are left.
abbrev pub Printed : Type 0
Printed = Option (List ℕ × List Arg)

unfoldable pub take_int : (ℕ → List ℕ) → List Arg → Printed
take_int f (int x ∷ args) = some (f x, args)
take_int f (long x ∷ args) = none
take_int f (str s ∷ args) = none
take_int f [] = none

unfoldable pub take_long : (ℕ → List ℕ) → List Arg → Printed
take_long f (long x ∷ args) = some (f x, args)
take_long f (int x ∷ args) = none
take_long f (str s ∷ args) = none
take_long f [] = none

-- "(null)" stands for the null pointer.
unfoldable pub take_str : List Arg → Printed
take_str (str (some s) ∷ args) = some (s, args)
take_str (str none ∷ args) = some (40 ∷ 110 ∷ 117 ∷ 108 ∷ 108 ∷ 41 ∷ [], args)
take_str (int x ∷ args) = none
take_str (long x ∷ args) = none
take_str [] = none

-- The `switch`, for 'd', 'x', 'p', 's', '%' and the rest.
unfoldable pub convert : ℕ → List Arg → Printed
convert c args =
    if c == 100
    then take_int (λ x. printint x 10 true) args
    else if c == 120
    then take_int (λ x. printint x 16 true) args
    else if c == 112
    then take_long printptr args
    else if c == 115
    then take_str args
    else if c == 37
    then some (37 ∷ [], args)
    else some (37 ∷ c ∷ [], args)

-- The loop of `printf`, and what follows a '%'.
unfoldable mutual
  pub printf : List ℕ → List Arg → Option (List ℕ)
  printf [] args = some []
  printf (c ∷ fmt) args = elim (c == 37) [
    | false ↦ elim (printf fmt args) [ none ↦ none | some out ↦ some (c ∷ out) ]
    | true ↦ printf_arg fmt args
  ]

  pub printf_arg : List ℕ → List Arg → Option (List ℕ)
  printf_arg [] args = some []
  printf_arg (c ∷ fmt) args = elim (convert c args) [
    | none ↦ none
    | some (s, left) ↦ elim (printf fmt left) [ none ↦ none | some out ↦ some (s ++ out) ]
  ]
