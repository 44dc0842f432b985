-- ===== src/String.antt =====
-- The functions of kernel/string.c over a memory of bytes. A pointer is an address, and the addresses
-- that a call passes do not wrap. An `int` result is its value modulo 2 ^ 32.
pub mod Moves
pub mod Compares
pub mod Copies
pub mod Lengths
mod Tests
use xv7_riscv.Prelude.{
  ℕ, suc, ◌+◌, if◌then◌else◌, rounds, Option, update, ◌^◌, not, ◌-◌, ◌==◌, none, ◌%◌, ltb, ◌&&◌,
  some, zero,
}

abbrev pub Memory : Type 0
Memory = ℕ → ℕ

-- The loop of `memset` over the k bytes from p on.
unfoldable pub memset_from : ℕ → ℕ → ℕ → Memory → Memory
memset_from zero p c m = m
memset_from (suc k) p c m = memset_from k (p + 1) c (update m p (c % 256))

unfoldable pub memset : ℕ → ℕ → ℕ → Memory → Memory
unfolding memset_from
memset dst c n m = memset_from n dst c m

-- `a - b` for two bytes, as an `int`.
abbrev pub difference : ℕ → ℕ → ℕ
difference a b = (a + 2 ^ 32 - b) % 2 ^ 32

unfoldable pub memcmp : ℕ → ℕ → ℕ → Memory → ℕ
memcmp s1 s2 zero m = 0
memcmp s1 s2 (suc n) m =
    let rest = memcmp (s1 + 1) (s2 + 1) n m in
    if not (m s1 == m s2) then difference (m s1) (m s2) else rest

-- The two loops of `memmove`.
unfoldable pub move_down : ℕ → ℕ → ℕ → Memory → Memory
move_down zero s d m = m
move_down (suc k) s d m = move_down k (s - 1) (d - 1) (update m (d - 1) (m (s - 1)))

unfoldable pub move_up : ℕ → ℕ → ℕ → Memory → Memory
move_up zero s d m = m
move_up (suc k) s d m = move_up k (s + 1) (d + 1) (update m d (m s))

unfoldable pub memmove : ℕ → ℕ → ℕ → Memory → Memory
unfolding move_down move_up
memmove dst src n m =
    if n == 0
    then m
    else if ltb src dst && ltb dst (src + n)
    then move_down n (src + n) (dst + n) m
    else move_up n src dst m

unfoldable pub memcpy : ℕ → ℕ → ℕ → Memory → Memory
unfolding memmove
memcpy dst src n m = memmove dst src n m

unfoldable pub strncmp : ℕ → ℕ → ℕ → Memory → ℕ
strncmp p q zero m = 0
strncmp p q (suc n) m =
    let rest = strncmp (p + 1) (q + 1) n m in
    if not (m p == 0) && (m p == m q) then rest else difference (m p) (m q)

-- The loop `while (k-- > 0 && (*s++ = *t++) != 0)`: what is left of k, s at the end, and the memory.
unfoldable pub copy_from : ℕ → ℕ → ℕ → Memory → ℕ × ℕ × Memory
copy_from zero s t m = (0, s, m)
copy_from (suc k) s t m =
    let rest = copy_from k (s + 1) (t + 1) (update m s (m t)) in
    if m t == 0 then (k, s + 1, update m s (m t)) else rest

-- The second loop of `strncpy`.
unfoldable pub pad : ℕ → ℕ → Memory → Memory
pad zero s m = m
pad (suc k) s m = pad k (s + 1) (update m s 0)

unfoldable pub strncpy : ℕ → ℕ → ℕ → Memory → Memory
unfolding copy_from pad
strncpy s t n m = let (k, s', m') = copy_from (rounds n) s t m in pad k s' m'

unfoldable pub safestrcpy : ℕ → ℕ → ℕ → Memory → Memory
unfolding copy_from
safestrcpy s t n m =
    let (k, s', m') = copy_from (rounds n - 1) s t m in if rounds n == 0 then m else update m' s' 0

-- The loop of `strlen` from n on, with fuel.
unfoldable pub strlen_from : ℕ → ℕ → ℕ → Memory → Option ℕ
strlen_from zero n s m = none
strlen_from (suc k) n s m =
    let rest = strlen_from k (n + 1) s m in if m (s + n) == 0 then some n else rest

unfoldable pub strlen : ℕ → ℕ → Memory → Option ℕ
unfolding strlen_from
strlen fuel s m = strlen_from fuel 0 s m
