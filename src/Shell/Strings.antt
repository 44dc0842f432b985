-- ===== src/Shell/Strings.antt =====
-- The strings that user/sh.c hands to `exec` and `open`.
use xv7_riscv.Shell.{
  skip, Cmd, exec, redir, pipe, list, back, Outcome, ok, panics, out_of_fuel, put_zeros,
  nulterminate, parsecmd, parseline, peek,
}
use xv7_riscv.Shell.Tokens.{IsLine, IsWord, Good, special}
use xv7_riscv.Shell.Parsing.{Within, IsArgs, IsCmd, parseline-IsCmd}
use mathlib.Core.Bool.{false≢true}
use xv7_riscv.Prelude.{
  ℕ, ◌+◌, ◌*◌, ◌≤◌, ◌<◌, ◌≡◌, ◌≢◌, refl, sym, ◌∙◌, ap, subst, false, Bool-cases, inl, inr, ◌==◌,
  if◌then◌else◌, List, [], ◌∷◌, update, arith, ℕ_discrete, ==_iff,
}

module _ (b : ℕ → ℕ) (n : ℕ) where
  -- A later buffer: the bytes that words contain are as before, and a 0 stays.
  abbrev Later : (ℕ → ℕ) → (ℕ → ℕ) → Type 0
  Later c d = ((a : ℕ) → special (b a) ≡ false → d a ≡ c a) × ((a : ℕ) → c a ≡ 0 → d a ≡ 0)

  -- The bytes of the line from q to eq as a string of the buffer.
  abbrev pub IsString : (ℕ → ℕ) → ℕ → ℕ → Type 0
  IsString c q eq =
      (q < eq) × ((a : ℕ) → q ≤ a → a < eq → (c a ≡ b a) × (special (b a) ≡ false)) × (c eq ≡ 0)

  abbrev pub AreArgs : (ℕ → ℕ) → List (ℕ × ℕ) → Type 0
  AreArgs c [] = Unit {0}
  AreArgs c ((q, eq) ∷ argv) = IsString c q eq × AreArgs c argv

  -- All strings of a command are words of the line with a 0 behind them.
  abbrev pub AreStrings : (ℕ → ℕ) → Cmd → Type 0
  AreStrings c (exec argv) = AreArgs c argv
  AreStrings c (redir cmd r) = AreStrings c cmd × IsString c r.file r.efile
  AreStrings c (pipe left right) = AreStrings c left × AreStrings c right
  AreStrings c (list left right) = AreStrings c left × AreStrings c right
  AreStrings c (back cmd) = AreStrings c cmd

  Later-chain : (c d e : ℕ → ℕ) → Later c d → Later d e → Later c e
  Later-chain c d e (h, z) (k, y) = (λ a sp. k a sp ∙ h a sp, λ a e. y a (z a e))

  Later-update : (c : ℕ → ℕ) (q eq : ℕ) → IsWord b n q eq → Later c (update c eq 0)
  Later-update c q eq w = (λ a sp. kept a sp (ℕ_discrete eq a), λ a z. ground (arith, z))
    where
      kept : (a : ℕ) → special (b a) ≡ false → Dec (eq ≡ a) → update c eq 0 a ≡ c a
      kept a sp (no ne) = ground (arith, ne)
      kept a sp (yes e) = absurd (false≢true (sym sp ∙ ap (λ x. special (b x)) (sym e) ∙ w.3))

  put_zeros-Later : (argv : List (ℕ × ℕ)) (c : ℕ → ℕ) → IsArgs b n argv → Later c (put_zeros argv c)
  put_zeros-Later [] c h = (λ a sp. refl, λ a z. z)
  put_zeros-Later ((q, eq) ∷ argv) c (w, h) =
      Later-chain c (update c eq 0) (put_zeros argv (update c eq 0)) (Later-update c q eq w)
        (put_zeros-Later argv (update c eq 0) h)

  nulterminate-Later : (cmd : Cmd) (c : ℕ → ℕ) → IsCmd b n cmd → Later c (nulterminate cmd c)
  unfolding nulterminate
  nulterminate-Later (exec argv) c h = put_zeros-Later argv c h
  nulterminate-Later (redir cmd r) c (h, w) =
      Later-chain c (nulterminate cmd c) _ (nulterminate-Later cmd c h)
        (Later-update (nulterminate cmd c) r.file r.efile w)
  nulterminate-Later (pipe left right) c (h, k) =
      Later-chain c (nulterminate left c) _ (nulterminate-Later left c h)
        (nulterminate-Later right (nulterminate left c) k)
  nulterminate-Later (list left right) c (h, k) =
      Later-chain c (nulterminate left c) _ (nulterminate-Later left c h)
        (nulterminate-Later right (nulterminate left c) k)
  nulterminate-Later (back cmd) c h = nulterminate-Later cmd c h

  IsString-Later : (c d : ℕ → ℕ) (q eq : ℕ) → Later c d → IsString c q eq → IsString d q eq
  IsString-Later c d q eq (h, z) (lt, same, e) =
      (lt, λ a lo hi. let k = same a lo hi in (h a k.1 ∙ k.0, k.1), z eq e)

  AreArgs-Later : (c d : ℕ → ℕ) (argv : List (ℕ × ℕ)) → Later c d → AreArgs c argv → AreArgs d argv
  AreArgs-Later c d [] l h = tt
  AreArgs-Later c d ((q, eq) ∷ argv) l (s, h) =
      (IsString-Later c d q eq l s, AreArgs-Later c d argv l h)

  AreStrings-Later : (c d : ℕ → ℕ) (cmd : Cmd) → Later c d → AreStrings c cmd → AreStrings d cmd
  AreStrings-Later c d (exec argv) l h = AreArgs-Later c d argv l h
  AreStrings-Later c d (redir cmd r) l (h, s) =
      (AreStrings-Later c d cmd l h, IsString-Later c d r.file r.efile l s)
  AreStrings-Later c d (pipe left right) l (h, k) =
      (AreStrings-Later c d left l h, AreStrings-Later c d right l k)
  AreStrings-Later c d (list left right) l (h, k) =
      (AreStrings-Later c d left l h, AreStrings-Later c d right l k)
  AreStrings-Later c d (back cmd) l h = AreStrings-Later c d cmd l h

  -- The bytes that words contain are still those of the line.
  abbrev Whole : (ℕ → ℕ) → Type 0
  Whole c = (a : ℕ) → special (b a) ≡ false → c a ≡ b a

  Whole-Later : (c d : ℕ → ℕ) → Later c d → Whole c → Whole d
  Whole-Later c d (h, z) w a sp = h a sp ∙ w a sp

  update-IsString :
      (c : ℕ → ℕ) (q eq : ℕ) → Whole c → IsWord b n q eq → IsString (update c eq 0) q eq
  update-IsString c q eq whole w = (
    w.0,
    λ a lo hi.
        let sp = w.2 a lo hi in
        (Whole-Later c (update c eq 0) (Later-update c q eq w) whole a sp, sp),
    ground arith,
  )

  put_zeros-AreArgs :
      (argv : List (ℕ × ℕ)) (c : ℕ → ℕ)
      → Whole c
      → IsArgs b n argv
      → AreArgs (put_zeros argv c) argv
  put_zeros-AreArgs [] c whole h = tt
  put_zeros-AreArgs ((q, eq) ∷ argv) c whole (w, h) =
      let c1 : ℕ → ℕ = update c eq 0 in
      (
        IsString-Later c1 (put_zeros argv c1) q eq (put_zeros-Later argv c1 h)
            (update-IsString c q eq whole w),
        put_zeros-AreArgs argv c1 (Whole-Later c c1 (Later-update c q eq w) whole) h,
      )

  nulterminate-both :
      (left right : Cmd) (c : ℕ → ℕ)
      → IsCmd b n left
      → IsCmd b n right
      → AreStrings (nulterminate left c) left
      → AreStrings (nulterminate right (nulterminate left c)) left
  nulterminate-both left right c h k s =
      AreStrings-Later (nulterminate left c) (nulterminate right (nulterminate left c)) left
        (nulterminate-Later right (nulterminate left c) k) s

  nulterminate-AreStrings :
      (cmd : Cmd) (c : ℕ → ℕ) → Whole c → IsCmd b n cmd → AreStrings (nulterminate cmd c) cmd
  unfolding nulterminate
  nulterminate-AreStrings (exec argv) c whole h = put_zeros-AreArgs argv c whole h
  nulterminate-AreStrings (redir cmd r) c whole (h, w) =
      let c1 : ℕ → ℕ = nulterminate cmd c in
      let whole1 : Whole c1 = Whole-Later c c1 (nulterminate-Later cmd c h) whole in
      (
        AreStrings-Later c1 (update c1 r.efile 0) cmd (Later-update c1 r.file r.efile w)
            (nulterminate-AreStrings cmd c whole h),
        update-IsString c1 r.file r.efile whole1 w,
      )
  nulterminate-AreStrings (pipe left right) c whole (h, k) =
      let c1 : ℕ → ℕ = nulterminate left c in
      (
        nulterminate-both left right c h k (nulterminate-AreStrings left c whole h),
        nulterminate-AreStrings right c1 (Whole-Later c c1 (nulterminate-Later left c h) whole) k,
      )
  nulterminate-AreStrings (list left right) c whole (h, k) =
      let c1 : ℕ → ℕ = nulterminate left c in
      (
        nulterminate-both left right c h k (nulterminate-AreStrings left c whole h),
        nulterminate-AreStrings right c1 (Whole-Later c c1 (nulterminate-Later left c h) whole) k,
      )
  nulterminate-AreStrings (back cmd) c whole h = nulterminate-AreStrings cmd c whole h

  -- What `parsecmd` returns.
  abbrev Parsed : Outcome (Cmd × (ℕ → ℕ)) → Type 0
  Parsed (ok (cmd, c) s) = AreStrings c cmd × (s ≡ n)
  Parsed panics = Unit {0}
  Parsed out_of_fuel = ⊥

  parsecmd-Parsed : IsLine b n → Parsed (parsecmd b n)
  unfolding parsecmd peek
  parsecmd-Parsed line =
      parsed (parseline b n (4 * n + 4) 0)
        (parseline-IsCmd b n line (4 * n + 4) 0 (omega arith) (omega arith))
    where
      parsed :
          (o : Outcome Cmd)
          → Good b n (Within b n (IsCmd b n) 0) o
          → Parsed
              (elim (elim o as (λ _. Outcome Cmd) [
                | ok cmd s ↦ ok cmd (skip b n s)
                | panics ↦ panics
                | out_of_fuel ↦ out_of_fuel
              ])
                as (λ _. Outcome (Cmd × (ℕ → ℕ))) [
                  | ok cmd s ↦ if s == n then ok (cmd, nulterminate cmd b) s else panics
                  | panics ↦ panics
                  | out_of_fuel ↦ out_of_fuel
                ])
      parsed panics h = tt
      parsed out_of_fuel h = h
      parsed (ok cmd s) h = elim (Bool-cases (skip b n s == n)) [
        | inl e ↦
            rw e (nulterminate-AreStrings cmd b (λ a sp. refl) h.2, (==_iff (skip b n s) n).0 e)
        | inr e ↦ rw e tt
      ]

  -- For every line, `parsecmd` ends: it returns a command or calls `panic`.
  pub parsecmd_ends : IsLine b n → parsecmd b n ≢ out_of_fuel
  parsecmd_ends line e = subst Parsed e (parsecmd-Parsed line)

  -- If `parsecmd` returns, it has read the whole line, and each argument and file name of the command is
  -- a string of the buffer: its bytes are those of the line that the parser found, none of them is 0,
  -- white space or a symbol, there is at least one, and a 0 follows them.
  pub parsecmd-AreStrings :
      (cmd : Cmd) (c : ℕ → ℕ) (s : ℕ)
      → IsLine b n
      → parsecmd b n ≡ ok (cmd, c) s
      → AreStrings c cmd × (s ≡ n)
  parsecmd-AreStrings cmd c s line e = subst Parsed e (parsecmd-Parsed line)
