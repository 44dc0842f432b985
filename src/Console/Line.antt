-- ===== src/Console/Line.antt =====
-- The line that is being typed in kernel/console.c and the complete ones, as the indices tell them.
use xv7_riscv.Console.{input_buf_size, Console, distance, put_byte}
use xv7_riscv.Console.Window.{
  window, length-window, window-append, window-behind, window-put, drop_last, drop_last-window,
}
use xv7_riscv.Prelude.{
  ℕ, suc, ◌+◌, ◌-◌, ◌%◌, ◌^◌, ◌≤◌, ◌<◌, ◌≡◌, ◌≢◌, refl, sym, ◌∙◌, ap, List, [], ◌∷◌, ◌++◌, length,
  arith,
}

-- The bytes of complete lines that are not yet read, and those of the line that is being typed.
abbrev pub pending : Console → List ℕ
pending s = window s.buf s.read_index (distance s.write_index s.read_index)

abbrev pub line : Console → List ℕ
line s = window s.buf s.write_index (distance s.edit_index s.write_index)

pub record IsValid (s : Console) : Type 0 where
  pub read_in : s.read_index < 2 ^ 32
  pub write_in : s.write_index < 2 ^ 32
  pub edit_in : s.edit_index < 2 ^ 32
  pub fits :
      distance s.write_index s.read_index + distance s.edit_index s.write_index ≤ input_buf_size

-- The complete lines, and the line that is being typed.
pub record Input : Type 0 where
  pub complete : List ℕ
  pub typed : List ℕ

abbrev pub input : Console → Input
input s = record { complete = pending s; typed = line s }

abbrev pub Good : Console → Input → Type 0
Good s i = IsValid s × (input s ≡ i)

pub same_input :
    (s : Console) (q l : List ℕ)
    → pending s ≡ q
    → line s ≡ l
    → input s ≡ record { complete = q; typed = l }
same_input s q l e f =
    ap (λ (x : List ℕ). record { complete = x; typed = line s }) e
    ∙ ap (λ (x : List ℕ). record { complete = q; typed = x }) f

-- The bytes between the reader and the end of the line.
pub length-input :
    (s : Console)
    → IsValid s
    → length (pending s) + length (line s) ≡ distance s.edit_index s.read_index
length-input s v = omega (
  arith,
  length-window s.buf s.read_index (distance s.write_index s.read_index),
  length-window s.buf s.write_index (distance s.edit_index s.write_index),
)

pub erased-Good :
    (s : Console)
    → IsValid s
    → s.edit_index ≢ s.write_index
    → Good
        (record s { edit_index = (s.edit_index + (2 ^ 32 - 1)) % 2 ^ 32 })
        (record { complete = pending s; typed = drop_last (line s) })
erased-Good s v ne =
    let s1 : Console = record s { edit_index = (s.edit_index + (2 ^ 32 - 1)) % 2 ^ 32 } in
    let n : ℕ = distance s.edit_index s.write_index - 1 in
    let before : distance s.edit_index s.write_index ≡ suc n = omega arith in
    let after : distance s1.edit_index s.write_index ≡ n = omega arith in
    let shorter : line s1 ≡ drop_last (line s) =
      ap (λ (k : ℕ). window s.buf s.write_index k) after
      ∙ sym (drop_last-window s.buf s.write_index n)
      ∙ ap (λ (k : ℕ). drop_last (window s.buf s.write_index k)) (sym before) in
    (omega arith, same_input s1 (pending s) (drop_last (line s)) refl shorter)

module _ (s : Console) (v : IsValid s)
    (room : distance s.edit_index s.read_index < input_buf_size) where
  abbrev ready : ℕ
  ready = distance s.write_index s.read_index

  abbrev edited : ℕ
  edited = distance s.edit_index s.write_index

  pub put-line : (c : ℕ) → window (put_byte c s).buf s.write_index (suc edited) ≡ line s ++ (c ∷ [])
  put-line c = window-put s.buf s.write_index edited s.edit_index c (omega arith) (omega arith)

  pub put-pending : (c : ℕ) → window (put_byte c s).buf s.read_index ready ≡ pending s
  put-pending c =
      window-behind s.buf s.read_index ready edited s.edit_index c (omega arith) (omega arith)

  pub put-Good :
      (c : ℕ) → Good (put_byte c s) (record { complete = pending s; typed = line s ++ (c ∷ []) })
  put-Good c =
      let longer : distance (put_byte c s).edit_index s.write_index ≡ suc edited = omega arith in
      (
        omega arith,
        same_input (put_byte c s) (pending s) (line s ++ (c ∷ [])) (put-pending c)
            (ap (λ (k : ℕ). window (put_byte c s).buf s.write_index k) longer ∙ put-line c),
      )

  pub commit-Good :
      (c : ℕ)
      → Good
          (record (put_byte c s) { write_index = (put_byte c s).edit_index })
          (record { complete = pending s ++ (line s ++ (c ∷ [])); typed = [] })
  commit-Good c =
      let s1 : Console = record (put_byte c s) { write_index = (put_byte c s).edit_index } in
      let longer : distance s1.write_index s.read_index ≡ ready + suc edited = omega arith in
      let nothing : distance s1.edit_index s1.write_index ≡ 0 = omega arith in
      let all : pending s1 ≡ pending s ++ (line s ++ (c ∷ [])) =
        window-append s1.buf s.read_index ready (suc edited) (distance s1.write_index s.read_index)
          s.write_index longer (omega arith)
        ∙ ap (λ (l : List ℕ). l ++ window s1.buf s.write_index (suc edited)) (put-pending c)
        ∙ ap (λ (l : List ℕ). pending s ++ l) (put-line c) in
      (
        omega arith,
        same_input s1 (pending s ++ (line s ++ (c ∷ []))) [] all
            (ap (λ (k : ℕ). window s1.buf s1.write_index k) nothing),
      )
