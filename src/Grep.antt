-- ===== src/Grep.antt =====
-- The matcher of user/grep.c, for the operators ^ . * $. A string is the list of its bytes before the
-- null byte.
pub mod Language
mod Tests
use xv7_riscv.Prelude.{ℕ, List, Bool, ◌∷◌, false, true, if◌then◌else◌, [], ◌==◌, ◌||◌}

abbrev pub caret : ℕ
caret = 94

abbrev pub dot : ℕ
dot = 46

abbrev pub asterisk : ℕ
asterisk = 42

abbrev pub dollar : ℕ
dollar = 36

-- `matchstar` of a byte c, with `matchhere` of the pattern that follows
unfoldable pub matchstar : ℕ → (List ℕ → Bool) → List ℕ → Bool
matchstar c here [] = here []
matchstar c here (x ∷ text) =
    let rest = matchstar c here text in
    if here (x ∷ text) then true else if (x == c) || (c == dot) then rest else false

-- `*text != '\0' && (re[0] == '.' || re[0] == *text)`, and what follows at the next byte
abbrev pub match_one : ℕ → (List ℕ → Bool) → List ℕ → Bool
match_one c here [] = false
match_one c here (x ∷ text) = if (c == dot) || (c == x) then here text else false

abbrev pub is_end : List ℕ → Bool
is_end [] = true
is_end (x ∷ text) = false

unfoldable pub matchhere : List ℕ → List ℕ → Bool
unfolding matchstar
matchhere [] text = true
matchhere (c ∷ []) text = if c == dollar then is_end text else match_one c (matchhere []) text
matchhere (c ∷ d ∷ re) text =
    let star = matchstar c (matchhere re) text in
    let one = match_one c (matchhere (d ∷ re)) text in if d == asterisk then star else one

-- The loop of `match`
unfoldable pub match_from : List ℕ → List ℕ → Bool
match_from re [] = matchhere re []
match_from re (x ∷ text) =
    let rest = match_from re text in if matchhere re (x ∷ text) then true else rest

unfoldable pub match : List ℕ → List ℕ → Bool
unfolding match_from matchhere
match [] text = match_from [] text
match (c ∷ re) text = if c == caret then matchhere re text else match_from (c ∷ re) text
