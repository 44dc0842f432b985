-- ===== src/Console/Window.antt =====
-- A stretch of the ring of kernel/console.c.
use xv7_riscv.Console.{input_buf_size}
use xv7_riscv.Prelude.{
  ℕ, zero, suc, ◌+◌, ◌%◌, ◌<◌, ◌≡◌, refl, ◌∙◌, ap, List, [], ◌∷◌, ◌++◌, length, update, update_ne,
  update_self, arith,
}

-- The n bytes from index r on.
abbrev pub window : (ℕ → ℕ) → ℕ → ℕ → List ℕ
window buf r zero = []
window buf r (suc n) = buf (r % input_buf_size) ∷ window buf (r + 1) n

pub length-window : (buf : ℕ → ℕ) (r n : ℕ) → length (window buf r n) ≡ n
length-window buf r zero = refl
length-window buf r (suc n) = ap suc (length-window buf (r + 1) n)

-- The indices count modulo the size.
pub window-same :
    (buf : ℕ → ℕ) (r q n : ℕ)
    → r % input_buf_size ≡ q % input_buf_size
    → window buf r n ≡ window buf q n
window-same buf r q zero e = refl
window-same buf r q (suc n) e = rw (e, window-same buf (r + 1) (q + 1) n (omega arith)) refl

pub window-append :
    (buf : ℕ → ℕ) (r a b m q : ℕ)
    → m ≡ a + b
    → q % input_buf_size ≡ (r + a) % input_buf_size
    → window buf r m ≡ window buf r a ++ window buf q b
window-append buf r zero b m q e f =
    let all : m ≡ b = omega arith in
    ap (λ (k : ℕ). window buf r k) all ∙ window-same buf r q b (omega arith)
window-append buf r (suc a) b zero q e f = absurd (omega arith)
window-append buf r (suc a) b (suc m) q e f =
    ap (λ (l : List ℕ). buf (r % input_buf_size) ∷ l)
      (window-append buf (r + 1) a b m q (omega arith) (omega arith))

-- A byte behind the stretch, and fewer than the ring has, leaves it as it is.
pub window-behind :
    (buf : ℕ → ℕ) (r n d w c : ℕ)
    → n + d < input_buf_size
    → w % input_buf_size ≡ (r + n + d) % input_buf_size
    → window (update buf (w % input_buf_size) c) r n ≡ window buf r n
window-behind buf r zero d w c lt e = refl
window-behind buf r (suc n) d w c lt e =
    rw
      (
        update_ne buf (w % input_buf_size) (r % input_buf_size) c (omega arith),
        window-behind buf (r + 1) n d w c (omega arith) (omega arith),
      )
      refl

-- A byte right behind it makes it longer.
pub window-put :
    (buf : ℕ → ℕ) (r n w c : ℕ)
    → n < input_buf_size
    → w % input_buf_size ≡ (r + n) % input_buf_size
    → window (update buf (w % input_buf_size) c) r (suc n) ≡ window buf r n ++ (c ∷ [])
window-put buf r n w c lt e =
    window-append (update buf (w % input_buf_size) c) r n 1 (suc n) w (omega arith) e
    ∙ ap (λ (l : List ℕ). l ++ update buf (w % input_buf_size) c (w % input_buf_size) ∷ [])
        (window-behind buf r n 0 w c (omega arith) (omega arith))
    ∙ ap (λ (x : ℕ). window buf r n ++ (x ∷ [])) (update_self buf (w % input_buf_size) c)

-- The list less its last byte.
abbrev pub drop_last : List ℕ → List ℕ
drop_last [] = []
drop_last (x ∷ []) = []
drop_last (x ∷ y ∷ l) = x ∷ drop_last (y ∷ l)

pub drop_last-window : (buf : ℕ → ℕ) (r n : ℕ) → drop_last (window buf r (suc n)) ≡ window buf r n
drop_last-window buf r zero = refl
drop_last-window buf r (suc n) =
    ap (λ (l : List ℕ). buf (r % input_buf_size) ∷ l) (drop_last-window buf (r + 1) n)
