-- ===== src/Console/Reads.antt =====
-- What `console_read` of kernel/console.c takes from the complete lines.
use xv7_riscv.Console.{
  input_buf_size, newline, Console, Exit, returned, failed, sleeping, distance, read_from,
}
use xv7_riscv.Console.Window.{window, window-same}
use xv7_riscv.Console.Line.{pending, line, IsValid}
use xv7_riscv.Prelude.{
  ℕ, zero, suc, ◌+◌, ◌-◌, ◌%◌, ◌^◌, ◌≤◌, ◌≡◌, ◌≢◌, ◌<◌, ◌⊎◌, subst, refl, ◌∙◌, ap, Bool, true,
  false, not, ◌==◌, if◌then◌else◌, Bool-cases, List, [], ◌∷◌, ◌++◌, length, inl, inr, arith, ==_iff,
  ne→==_false, ℕ_discrete,
}

-- The console with its first pending byte taken.
abbrev taken : Console → Console
taken s = record s { read_index = (s.read_index + 1) % 2 ^ 32 }

taken-IsValid : (s : Console) → IsValid s → s.read_index ≢ s.write_index → IsValid (taken s)
taken-IsValid s v ne = omega arith

taken-pending :
    (s : Console)
    → IsValid s
    → s.read_index ≢ s.write_index
    → pending s ≡ s.buf (s.read_index % input_buf_size) ∷ pending (taken s)
taken-pending s v ne =
    let n : ℕ = distance s.write_index (taken s).read_index in
    let more : distance s.write_index s.read_index ≡ suc n = omega arith in
    ap (λ (k : ℕ). window s.buf s.read_index k) more
    ∙ ap (λ (l : List ℕ). s.buf (s.read_index % input_buf_size) ∷ l)
        (window-same s.buf (s.read_index + 1) (taken s).read_index n (omega arith))

abbrev pub LastNewline : List ℕ → Type 0
LastNewline [] = ⊥
LastNewline (c ∷ []) = c ≡ newline
LastNewline (c ∷ (d ∷ cs)) = LastNewline (d ∷ cs)

-- A byte before that is no newline changes nothing.
LastNewline-before : (c : ℕ) (cs : List ℕ) → c ≢ newline → LastNewline (c ∷ cs) → LastNewline cs
LastNewline-before c [] ne h = absurd (ne h)
LastNewline-before c (d ∷ cs) ne h = h

LastNewline-after : (c : ℕ) (cs : List ℕ) → LastNewline cs → LastNewline (c ∷ cs)
LastNewline-after c [] h = absurd h
LastNewline-after c (d ∷ cs) h = h

module _ (target : ℕ) (copied : ℕ → Bool) (killed : Bool) where
  -- How a read of n bytes more ends that has stored cs.
  abbrev pub Ends : ℕ → Exit → Console → List ℕ → Type 0
  Ends n (returned v) s cs = v ≡ target - n + length cs
  Ends n failed s cs = (killed ≡ true) × (pending s ≡ [])
  Ends n (sleeping k) s cs = (k + length cs ≡ n) × (pending s ≡ [])

  -- The bytes stored from byte i of the target on could be stored, and only the last may be a newline.
  abbrev pub Stored : ℕ → List ℕ → Type 0
  Stored i [] = Unit {0}
  Stored i (c ∷ cs) = (copied i ≡ true) × (c ≡ newline → cs ≡ []) × Stored (i + 1) cs

  -- Why a read with n bytes to go stops that has stored cs. To return, it has stored all of them, or a
  -- newline at the end, or has lost the next byte, which cannot be stored. To fail or to sleep it loses
  -- none.
  abbrev pub Stops : ℕ → Exit → List ℕ → List ℕ → Type 0
  Stops n (returned v) cs [] = (length cs ≤ n) × ((length cs ≡ n) ⊎ LastNewline cs)
  Stops n (returned v) cs (x ∷ xs) =
      (length cs < n) × (copied (target - n + length cs) ≡ false) × (¬ LastNewline cs)
  Stops n _ cs lost = (lost ≡ []) × (¬ LastNewline cs)

  -- Of the pending bytes cs are stored, and `lost` is taken and not stored.
  abbrev pub Reads : ℕ → Console → Exit × Console × List ℕ → Type 0
  Reads n s (e, u, cs) =
      (lost : List ℕ) × IsValid u
      × (pending s ≡ cs ++ (lost ++ pending u))
      × (line u ≡ line s)
      × (length lost ≤ 1)
      × Ends n e u cs
      × Stored (target - n) cs
      × Stops n e cs lost

  Ends-next :
      (n c : ℕ) (e : Exit) (u : Console) (cs : List ℕ)
      → suc n ≤ target
      → Ends n e u cs
      → Ends (suc n) e u (c ∷ cs)
  Ends-next n c (returned v) u cs le h = omega arith
  Ends-next n c failed u cs le h = h
  Ends-next n c (sleeping k) u cs le (h, z) = (omega arith, z)

  Stops-next :
      (n c : ℕ) (e : Exit) (cs lost : List ℕ)
      → suc n ≤ target
      → c ≢ newline
      → Stops n e cs lost
      → Stops (suc n) e (c ∷ cs) lost
  Stops-next n c (returned v) cs [] le ne (few, inl all) = (omega arith, inl (omega arith))
  Stops-next n c (returned v) cs [] le ne (few, inr last) =
      (omega arith, inr (LastNewline-after c cs last))
  Stops-next n c (returned v) cs (x ∷ xs) le ne (few, bad, none) = (
    omega arith,
    subst (λ (m : ℕ). copied m ≡ false) (omega arith) bad,
    λ h. none (LastNewline-before c cs ne h),
  )
  Stops-next n c failed cs lost le ne (e, none) = (e, λ h. none (LastNewline-before c cs ne h))
  Stops-next n c (sleeping k) cs lost le ne (e, none) =
      (e, λ h. none (LastNewline-before c cs ne h))

  Reads-wait :
      (n : ℕ) (s : Console)
      → IsValid s
      → s.read_index ≡ s.write_index
      → Reads (suc n) s (if killed then failed else sleeping (suc n), s, [])
  Reads-wait n s v e =
      let nothing : distance s.write_index s.read_index ≡ 0 = omega arith in
      let empty : pending s ≡ [] = ap (λ (k : ℕ). window s.buf s.read_index k) nothing in
      (
        [],
        v,
        refl,
        refl,
        omega arith,
        elim (Bool-cases killed) [ inl k ↦ rw k (refl, empty) | inr k ↦ rw k (omega arith, empty) ],
        tt,
        elim (Bool-cases killed) [ inl k ↦ rw k (refl, λ z. z) | inr k ↦ rw k (refl, λ z. z) ],
      )

  -- One byte is stored, and then what the rest stores.
  Reads-next :
      (n : ℕ) (s : Console) (r : Exit × Console × List ℕ)
      → suc n ≤ target
      → IsValid s
      → s.read_index ≢ s.write_index
      → copied (target - suc n) ≡ true
      → s.buf (s.read_index % input_buf_size) ≢ newline
      → Reads n (taken s) r
      → Reads (suc n) s (r.0, r.1, s.buf (s.read_index % input_buf_size) ∷ r.2)
  Reads-next n s (e, u, cs) le v ne good other (lost, vu, queue, same, few, ends, stored, stops) = (
    lost,
    vu,
    taken-pending s v ne ∙ ap (λ (l : List ℕ). s.buf (s.read_index % input_buf_size) ∷ l) queue,
    same,
    few,
    Ends-next n (s.buf (s.read_index % input_buf_size)) e u cs le ends,
    (good, λ z. absurd (other z), subst (λ (i : ℕ). Stored i cs) (omega arith) stored),
    Stops-next n (s.buf (s.read_index % input_buf_size)) e cs lost le other stops,
  )

  -- The three ways on when there is a byte: it cannot be stored, it ends the line, or the rest follows.
  abbrev outcome : ℕ → Console → Exit × Console × List ℕ → Bool → Bool → Exit × Console × List ℕ
  outcome n s r bad last =
      if bad
      then (returned (target - suc n), taken s, [])
      else if last
      then (returned (target - n), taken s, s.buf (s.read_index % input_buf_size) ∷ [])
      else (r.0, r.1, s.buf (s.read_index % input_buf_size) ∷ r.2)

  Reads-outcome :
      (n : ℕ) (s : Console) (r : Exit × Console × List ℕ) (bad last : Bool)
      → suc n ≤ target
      → IsValid s
      → s.read_index ≢ s.write_index
      → not (copied (target - suc n)) ≡ bad
      → (s.buf (s.read_index % input_buf_size) == newline) ≡ last
      → Reads n (taken s) r
      → Reads (suc n) s (outcome n s r bad last)
  Reads-outcome n s r true last le v ne b l rest = (
    s.buf (s.read_index % input_buf_size) ∷ [],
    taken-IsValid s v ne,
    taken-pending s v ne,
    refl,
    omega arith,
    omega arith,
    tt,
    (
      omega arith,
      let bad : copied (target - suc n) ≡ false = ground arith in
          subst (λ (m : ℕ). copied m ≡ false) (omega arith) bad,
      λ z. z,
    ),
  )
  Reads-outcome n s r false true le v ne b l rest = (
    [],
    taken-IsValid s v ne,
    taken-pending s v ne,
    refl,
    omega arith,
    omega arith,
    (ground arith, λ z. refl, tt),
    (omega arith, inr (ground arith)),
  )
  Reads-outcome n s r false false le v ne b l rest =
      Reads-next n s r le v ne (ground arith) (λ z. absurd (ground arith)) rest

  -- For valid indices and n bytes still wanted of the target, a read takes pending bytes in order and
  -- leaves the rest and the line that is being typed. All that it stores could be stored. It returns
  -- the number of bytes stored so far, once it has stored n bytes or a newline, or has lost the next
  -- byte, which could not be stored. It stores nothing behind a newline, and loses no other byte. It
  -- fails only if the process is killed, and then or when it sleeps no pending byte is left.
  pub console_read_lem :
      (n : ℕ) (s : Console)
      → n ≤ target
      → IsValid s
      → Reads n s (read_from target copied killed n s)
  unfolding read_from
  console_read_lem zero s le v =
      ([], v, refl, refl, omega arith, omega arith, tt, (omega arith, inl refl))
  console_read_lem (suc n) s le v = elim (ℕ_discrete s.read_index s.write_index) [
    | yes e ↦ rw ((==_iff s.read_index s.write_index).1 e) (Reads-wait n s v e)
    | no ne ↦
        let rest : Reads n (taken s) (read_from target copied killed n (taken s)) =
          console_read_lem n (taken s) (omega arith) (taken-IsValid s v ne) in
        rw (ne→==_false s.read_index s.write_index ne) (
          Reads-outcome n s (read_from target copied killed n (taken s))
            (not (copied (target - suc n))) (s.buf (s.read_index % input_buf_size) == newline) le v
            ne refl refl rest)
  ]
