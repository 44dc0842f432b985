-- ===== src/Format/Tests.antt =====
-- Runs of kernel/printf.c and user/printf.c.
use xv7_riscv.Format.{
  int, str, printf, convert, printint, store_digits, put_buf, store_sign, take_int, take_str,
  digits, int_buf,
}
use xv7_riscv.Format.User.{vprintf}
use xv7_riscv.Format.Numbers.{atoi-printint, int_buf_fits}
use xv7_riscv.Format.Agreement.{vprintf-printf, portable}
use xv7_riscv.Ulib.{atoi}
use xv7_riscv.Prelude.{ℕ, ◌≡◌, ◌≤◌, ◌^◌, refl, inl, true, List, [], ◌∷◌, some, arith}

atoi-printint_example : atoi (printint 1789 10 true) ≡ 1789
atoi-printint_example = atoi-printint 1789 (omega arith)

-- "-2147483648"
least_int : printint (2 ^ 31) 10 true ≡ 45 ∷ 50 ∷ 49 ∷ 52 ∷ 55 ∷ 52 ∷ 56 ∷ 51 ∷ 54 ∷ 52 ∷ 56 ∷ []
unfolding printint store_digits store_sign put_buf
least_int = refl

int_buf_fits_example : (int_buf digits (2 ^ 31) 10 true).0 ≤ 11
int_buf_fits_example = int_buf_fits digits (2 ^ 31) 10 true (inl refl) (omega arith)

-- "pid %d %s\n" for 7 and "init"
abbrev format : List ℕ
format = 112 ∷ 105 ∷ 100 ∷ 32 ∷ 37 ∷ 100 ∷ 32 ∷ 37 ∷ 115 ∷ 10 ∷ []

vprintf-printf_example :
    vprintf format (int 7 ∷ str (some (105 ∷ 110 ∷ 105 ∷ 116 ∷ [])) ∷ [])
    ≡ printf format (int 7 ∷ str (some (105 ∷ 110 ∷ 105 ∷ 116 ∷ [])) ∷ [])
unfolding portable
vprintf-printf_example =
    vprintf-printf format (int 7 ∷ str (some (105 ∷ 110 ∷ 105 ∷ 116 ∷ [])) ∷ []) refl

prints :
    printf format (int 7 ∷ str (some (105 ∷ 110 ∷ 105 ∷ 116 ∷ [])) ∷ [])
    ≡ some (112 ∷ 105 ∷ 100 ∷ 32 ∷ 55 ∷ 32 ∷ 105 ∷ 110 ∷ 105 ∷ 116 ∷ 10 ∷ [])
unfolding printf convert take_int take_str printint store_digits store_sign put_buf
prints = refl
