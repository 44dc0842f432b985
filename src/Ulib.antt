-- ===== src/Ulib.antt =====
-- `atoi` and `strchr` of user/ulib.c. A string is the list of its bytes before the 0.
use xv7_riscv.Prelude.{
  ℕ, ◌+◌, ◌-◌, ◌*◌, ◌%◌, ◌^◌, leb, ◌&&◌, if◌then◌else◌, List, [], ◌∷◌, Option, none, ◌==◌, some,
}

-- The loop of `atoi` over the bytes of a string; n is an `int`.
unfoldable pub atoi_from : ℕ → List ℕ → ℕ
atoi_from n [] = n
atoi_from n (c ∷ s) =
    let rest = atoi_from ((n * 10 + c - 48) % 2 ^ 32) s in if leb 48 c && leb c 57 then rest else n

unfoldable pub atoi : List ℕ → ℕ
atoi s = atoi_from 0 s

-- The string from the first byte c on.
unfoldable pub strchr : List ℕ → ℕ → Option (List ℕ)
strchr [] c = none
strchr (x ∷ s) c = let rest = strchr s c in if x == c then some (x ∷ s) else rest
