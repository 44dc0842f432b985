-- ===== src/String/Tests.antt =====
-- Runs of kernel/string.c.
use xv7_riscv.String.{Memory, memmove, strncmp, safestrcpy, move_down}
use xv7_riscv.String.Moves.{memmove_lem}
use xv7_riscv.String.Copies.{NonNull, safestrcpy_lem}
use xv7_riscv.Prelude.{update, ℕ, rounds, ◌≡◌, arith, ◌≤◌, ◌⊎◌, ◌^◌, refl, ◌<◌, inr, ◌-◌, ◌+◌}

-- "init" at address 100.
abbrev word : Memory
word = update (update (update (update (λ _. 0) 100 105) 101 110) 102 105) 103 116

memmove_lem_example : memmove 102 100 4 word 105 ≡ 116
memmove_lem_example = memmove_lem 102 100 4 word 105

memmove_down : memmove 102 100 4 word 103 ≡ 110
unfolding memmove move_down
memmove_down = refl

strncmp_below : strncmp 100 102 4 word ≡ 2 ^ 32 - 6
unfolding strncmp
strncmp_below = refl

word-NonNull : NonNull 100 4 word
word-NonNull a lo hi = ground arith

safestrcpy_lem_example :
    ((rounds 3 ≡ 0) × (safestrcpy 200 100 3 word ≡ word))
    ⊎ ((c : ℕ) × (c < rounds 3)
        × NonNull 100 c word
        × ((c + 1 ≡ rounds 3) ⊎ (word (100 + c) ≡ 0))
        × ((a : ℕ) → 200 ≤ a → a < 200 + c → safestrcpy 200 100 3 word a ≡ word (100 + (a - 200)))
        × (safestrcpy 200 100 3 word (200 + c) ≡ 0)
        × ((a : ℕ) → (a < 200) ⊎ (200 + rounds 3 ≤ a) → safestrcpy 200 100 3 word a ≡ word a))
safestrcpy_lem_example = safestrcpy_lem 200 100 3 word (inr (omega arith))
