-- ===== src/Pipe/Fifo.antt =====
-- A pipe is a queue of at most PIPESIZE bytes, although its counters wrap around.
use mathlib.Core.Path.{ap₂, ap}
use xv7_riscv.Prelude.{
  ℕ, zero, suc, ◌+◌, ◌-◌, ◌%◌, ◌^◌, ◌≤◌, ◌<◌, ◌≡◌, ◌≢◌, ◌∙◌, List, [], ◌∷◌, ◌++◌, length, update,
  arith, ap, update_ne, refl,
}
use xv7_riscv.Pipe.{Pipe, pipe_size, incr, init, put, skip}

-- The number of bytes in the pipe: a difference of 32-bit counters.
abbrev pub count : Pipe → ℕ
count p = (p.nwrite + 2 ^ 32 - p.nread) % 2 ^ 32

pub record IsValid (p : Pipe) : Type 0 where
  pub read_in : p.nread < 2 ^ 32
  pub write_in : p.nwrite < 2 ^ 32
  pub fits : count p ≤ pipe_size

-- The n bytes from counter r on.
abbrev pub window : (ℕ → ℕ) → ℕ → ℕ → List ℕ
window bytes r zero = []
window bytes r (suc n) = bytes (r % pipe_size) ∷ window bytes (incr r) n

-- The bytes in the pipe, oldest first.
abbrev pub contents : Pipe → List ℕ
contents p = window p.bytes p.nread (count p)

length-window : (bytes : ℕ → ℕ) (r n : ℕ) → length (window bytes r n) ≡ n
length-window bytes r zero = refl
length-window bytes r (suc n) = ap suc (length-window bytes (incr r) n)

pub length-contents : (p : Pipe) → length (contents p) ≡ count p
length-contents p = length-window p.bytes p.nread (count p)

pub init-IsValid : IsValid init
unfolding init
init-IsValid = omega arith

-- Storing one byte behind a window that is not full extends it.
window-put :
    (bytes : ℕ → ℕ) (ch n r w : ℕ)
    → n < pipe_size
    → w % pipe_size ≡ (r + n) % pipe_size
    → window (update bytes (w % pipe_size) ch) r (suc n) ≡ window bytes r n ++ (ch ∷ [])
window-put bytes ch zero r w h e = ground arith
window-put bytes ch (suc n) r w h e =
    ap₂ ◌∷◌ (update_ne bytes (w % pipe_size) (r % pipe_size) ch (omega arith))
      (window-put bytes ch n (incr r) w (omega arith) (omega arith))

pub not_full :
    (p : Pipe) → IsValid p → p.nwrite ≢ (p.nread + pipe_size) % 2 ^ 32 → count p < pipe_size
not_full p v h = omega arith

pub count-put :
    (p : Pipe) (ch : ℕ) → IsValid p → count p < pipe_size → count (put ch p) ≡ suc (count p)
unfolding put
count-put p ch v h = omega arith

pub put-IsValid : (p : Pipe) (ch : ℕ) → IsValid p → count p < pipe_size → IsValid (put ch p)
unfolding put
put-IsValid p ch v h = omega arith

pub put-contents :
    (p : Pipe) (ch : ℕ)
    → IsValid p
    → count p < pipe_size
    → contents (put ch p) ≡ contents p ++ (ch ∷ [])
unfolding put
put-contents p ch v h =
    ap (window (put ch p).bytes p.nread) (count-put p ch v h)
    ∙ window-put p.bytes ch (count p) p.nread p.nwrite h (omega arith)

pub skip-IsValid : (p : Pipe) → IsValid p → p.nread ≢ p.nwrite → IsValid (skip p)
unfolding skip
skip-IsValid p v h = omega arith

pub skip-contents :
    (p : Pipe)
    → IsValid p
    → p.nread ≢ p.nwrite
    → contents p ≡ p.bytes (p.nread % pipe_size) ∷ contents (skip p)
unfolding skip
skip-contents p v h = ap (window p.bytes p.nread) counted
  where
    counted : count p ≡ suc (count (skip p))
    counted = omega arith
