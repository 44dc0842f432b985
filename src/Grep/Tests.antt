-- ===== src/Grep/Tests.antt =====
-- Runs of user/grep.c: the pattern "a.*b$".
use xv7_riscv.Grep.{match}
use xv7_riscv.Grep.Language.{Means, match_iff}
use xv7_riscv.Prelude.{ℕ, List, ◌∷◌, [], ◌≡◌, true, false, ◌↔◌, refl}

abbrev pattern_of_test : List ℕ
pattern_of_test = 97 ∷ 46 ∷ 42 ∷ 98 ∷ 36 ∷ []

abbrev text_of_test : List ℕ
text_of_test = 120 ∷ 97 ∷ 98 ∷ 99 ∷ 98 ∷ []

match_run : match pattern_of_test text_of_test ≡ true
unfolding match
match_run = refl

no_match_run : match pattern_of_test (120 ∷ 97 ∷ 98 ∷ 99 ∷ []) ≡ false
unfolding match
no_match_run = refl

match_iff_example : (match pattern_of_test text_of_test ≡ true) ↔ Means pattern_of_test text_of_test
match_iff_example = match_iff pattern_of_test text_of_test
