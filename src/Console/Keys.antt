-- ===== src/Console/Keys.antt =====
-- What a key of kernel/console.c does to the line that is being typed and to the bytes that can be
-- read.
use xv7_riscv.Console.{
  input_buf_size, control_p, del, newline, Console, Event, distance, translated, put_byte, commit,
  store, erase, console_handle_irq, wakes,
}
use xv7_riscv.Console.Window.{window, drop_last}
use xv7_riscv.Prelude.{
  ℕ, ◌+◌, ◌-◌, ◌%◌, ◌^◌, ◌<◌, ◌≡◌, refl, sym, ◌∙◌, ap, not, ◌&&◌, ◌||◌, ltb, ◌==◌, if◌then◌else◌,
  Bool-cases, List, [], ◌∷◌, ◌++◌, length, arith, inl, inr, ==_iff, ℕ_discrete, ne→==_false, subst,
}
use xv7_riscv.Console.Line.{
  pending, line, IsValid, Input, input, Good, same_input, length-input, erased-Good, put-Good,
  commit-Good,
}

-- A byte is appended while there is room, and a newline or the last byte that there is room for
-- completes the line.
abbrev pub enter : ℕ → Input → Input
enter c i =
    let typed1 = i.typed ++ (c ∷ []) in
    if (c == newline) || (length i.complete + length i.typed + 1 == input_buf_size)
    then record { complete = i.complete ++ typed1; typed = [] }
    else record i { typed = typed1 }

abbrev pub press : ℕ → Input → Input
press c i =
    if c == control_p
    then i
    else if c == del
    then record i { typed = drop_last i.typed }
    else if not (c == 0) && ltb (length i.complete + length i.typed) input_buf_size
    then enter (translated c) i
    else i

module _ (s : Console) (v : IsValid s)
    (room : distance s.edit_index s.read_index < input_buf_size) where
  -- Both sides test for the newline and for the last free byte.
  same_test :
      (c : ℕ)
      → ((c == newline) || (distance (put_byte c s).edit_index s.read_index == input_buf_size))
        ≡ ((c == newline) || (length (pending s) + length (line s) + 1 == input_buf_size))
  same_test c =
      let one_more : distance (put_byte c s).edit_index s.read_index
          ≡ length (pending s) + length (line s) + 1 =
        omega (arith, length-input s v) in
      ap (λ (k : ℕ). (c == newline) || (k == input_buf_size)) one_more

  commit_or_put : (c : ℕ) → Good (commit c (put_byte c s)).0 (enter c (input s))
  commit_or_put c =
      elim (Bool-cases
        ((c == newline) || (length (pending s) + length (line s) + 1 == input_buf_size))) [
          | inl ends ↦
              let commits : commit c (put_byte c s) ≡ (
                record (put_byte c s) { write_index = (put_byte c s).edit_index },
                wakes ∷ [],
              ) =
                rw (same_test c ∙ ends) refl in
              let entered : enter c (input s)
                  ≡ record { complete = pending s ++ (line s ++ (c ∷ [])); typed = [] } =
                rw ends refl in
              subst (λ (i : Input). Good (commit c (put_byte c s)).0 i) (sym entered)
                (subst
                  (λ (r : Console × List Event).
                    Good r.0 (record { complete = pending s ++ (line s ++ (c ∷ [])); typed = [] }))
                  (sym commits) (commit-Good s v room c))
          | inr goes ↦
              let waits : commit c (put_byte c s) ≡ (put_byte c s, []) =
                rw (same_test c ∙ goes) refl in
              let entered : enter c (input s)
                  ≡ record { complete = pending s; typed = line s ++ (c ∷ []) } =
                rw goes refl in
              subst (λ (i : Input). Good (commit c (put_byte c s)).0 i) (sym entered)
                (subst
                  (λ (r : Console × List Event).
                    Good r.0 (record { complete = pending s; typed = line s ++ (c ∷ []) }))
                  (sym waits) (put-Good s v room c))
        ]

  store-Good : (c : ℕ) → Good (store c s).0 (enter (translated c) (input s))
  unfolding store
  store-Good c = commit_or_put (translated c)

erase-Good :
    (s : Console)
    → IsValid s
    → Good (erase s).0 (record { complete = pending s; typed = drop_last (line s) })
unfolding erase
erase-Good s v = elim (ℕ_discrete s.edit_index s.write_index) [
  | yes e ↦
      let stays : (erase s).0 ≡ s = rw ((==_iff s.edit_index s.write_index).1 e) refl in
      let none_typed : distance s.edit_index s.write_index ≡ 0 = omega arith in
      let empty : line s ≡ drop_last (line s) =
        ap (λ (k : ℕ). window s.buf s.write_index k) none_typed
        ∙ ap (λ (k : ℕ). drop_last (window s.buf s.write_index k)) (sym none_typed) in
      subst (λ (u : Console). Good u (record { complete = pending s; typed = drop_last (line s) }))
        (sym stays) (v, same_input s (pending s) (drop_last (line s)) refl empty)
  | no ne ↦
      let shrinks : (erase s).0 ≡ record s { edit_index = (s.edit_index + (2 ^ 32 - 1)) % 2 ^ 32 } =
        rw (ne→==_false s.edit_index s.write_index ne) refl in
      subst (λ (u : Console). Good u (record { complete = pending s; typed = drop_last (line s) }))
        (sym shrinks) (erased-Good s v ne)
]

-- On indices that are 32-bit numbers and a ring that is not more than full, a key does to the line
-- that is being typed and to the complete ones what `press` says: a backspace takes the last byte of
-- the line and never one of a complete line, other keys than control-P and the null byte append their
-- byte while there is room, and a newline or the last byte with room completes the line. The indices
-- stay so, also where they wrap around.
pub console_refines :
    (c : ℕ) (s : Console)
    → IsValid s
    → IsValid (console_handle_irq c s).0 × (input (console_handle_irq c s).0 ≡ press c (input s))
unfolding console_handle_irq
console_refines c s v = elim (Bool-cases (c == control_p)) [
  | inl lists ↦ rw lists (v, refl)
  | inr a ↦ elim (Bool-cases (c == del)) [
    | inl erases ↦ rw (a, erases) (erase-Good s v)
    | inr b ↦
        let full = ap (λ (k : ℕ). not (c == 0) && ltb k input_buf_size) (length-input s v) in
        elim (Bool-cases
          (not (c == 0) && ltb (distance s.edit_index s.read_index) input_buf_size)) [
            | inl stores ↦ rw (a, b, stores, full ∙ stores) (store-Good s v (ground arith) c)
            | inr drops ↦ rw (a, b, drops, full ∙ drops) (v, refl)
          ]
  ]
]
