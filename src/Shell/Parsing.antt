-- ===== src/Shell/Parsing.antt =====
-- The parsers of user/sh.c end, and find words.
use xv7_riscv.Shell.{
  Redir, Cmd, exec, redir, pipe, list, back, Outcome, ok, panics, out_of_fuel, Parser, Token,
  redircmd, wrap, gettoken, peek, parseredirs, parseargs, parsebacks, parseline, parsepipe,
  parseexec, parseblock, ◌>>=◌, maxargs,
}
use xv7_riscv.Shell.Tokens.{IsLine, IsWord, Good, Next, Peeked, gettoken-Next, peek-Peeked}
use xv7_riscv.Prelude.{
  ==_iff, ℕ, zero, suc, ◌+◌, ◌-◌, ◌*◌, ◌≤◌, ◌<◌, ◌≢◌, refl, Bool, true, false, Bool-cases, inl, inr,
  ◌==◌, leb, List, [], ◌∷◌, ◌++◌, length, arith,
}

module _ (b : ℕ → ℕ) (es : ℕ) where
  abbrev pub IsArgs : List (ℕ × ℕ) → Type 0
  IsArgs [] = Unit {0}
  IsArgs ((q, eq) ∷ argv) = IsWord b es q eq × IsArgs argv

  abbrev pub IsRedirs : List Redir → Type 0
  IsRedirs [] = Unit {0}
  IsRedirs (r ∷ redirs) = IsWord b es r.file r.efile × IsRedirs redirs

  -- All strings of a command are words of the line.
  abbrev pub IsCmd : Cmd → Type 0
  IsCmd (exec argv) = IsArgs argv
  IsCmd (redir cmd r) = IsCmd cmd × IsWord b es r.file r.efile
  IsCmd (pipe left right) = IsCmd left × IsCmd right
  IsCmd (list left right) = IsCmd left × IsCmd right
  IsCmd (back cmd) = IsCmd cmd

  wrap-IsCmd :
      (redirs : List Redir) (cmd : Cmd) → IsRedirs redirs → IsCmd cmd → IsCmd (wrap redirs cmd)
  unfolding wrap
  wrap-IsCmd [] cmd h k = k
  wrap-IsCmd (r ∷ redirs) cmd h k = (wrap-IsCmd redirs cmd h.1 k, h.0)

  IsArgs-append :
      (argv : List (ℕ × ℕ)) (q eq : ℕ)
      → IsArgs argv
      → IsWord b es q eq
      → IsArgs (argv ++ ((q, eq) ∷ []))
  IsArgs-append [] q eq h w = (w, tt)
  IsArgs-append (a ∷ argv) q eq h w = (h.0, IsArgs-append argv q eq h.1 w)

  -- The result of a parser that starts at s.
  abbrev pub Within : {A : Type 0} → (A → Type 0) → ℕ → A → ℕ → Type 0
  Within P s a s1 = (s ≤ s1) × (s1 ≤ es) × P a

  Good-chain :
      {A B : Type 0} (P : A → ℕ → Type 0) (Q : B → ℕ → Type 0) (o : Outcome A) (f : A → Parser B)
      → Good b es P o
      → ((a : A) (s : ℕ) → P a s → Good b es Q (f a s))
      → Good b es Q (elim o [ ok a s' ↦ f a s' | panics ↦ panics | out_of_fuel ↦ out_of_fuel ])
  Good-chain P Q (ok a s) f h k = k a s h
  Good-chain P Q panics f h k = tt
  Good-chain P Q out_of_fuel f h k = h

  -- From a later place.
  Good-later :
      {A : Type 0} (P : A → Type 0) (s s1 : ℕ) (o : Outcome A)
      → s ≤ s1
      → Good b es (Within P s1) o
      → Good b es (Within P s) o
  Good-later P s s1 (ok a s2) le h = let m : s1 ≤ s2 = h.0 in (omega arith, h.1, h.2)
  Good-later P s s1 panics le h = tt
  Good-later P s s1 out_of_fuel le h = h

  module _ (line : IsLine b es) where
    -- A symbol that was looked for is passed.
    pass :
        {B : Type 0} (Q : B → ℕ → Type 0) (s : ℕ) (f : Token → Parser B)
        → s ≤ es
        → ((t : Token) (s1 : ℕ) → Next b es s t s1 → Good b es Q (f t s1))
        → Good b es Q ((gettoken b es >>= f) s)
    pass Q s f le k =
        Good-chain (Next b es s) Q (gettoken b es s) f (gettoken-Next b es s line le) k

    look :
        {B : Type 0} (Q : B → ℕ → Type 0) (toks : List ℕ) (s : ℕ) (x y : Parser B)
        → s ≤ es
        → ((s1 : ℕ) → s ≤ s1 → s1 ≤ es → Good b es Q (x s1))
        → ((s1 : ℕ) → s ≤ s1 → s1 ≤ es → b s1 ≢ 0 → Good b es Q (y s1))
        → Good b es Q ((peek b es toks >>= λ p. elim p [ false ↦ x | true ↦ y ]) s)
    look {B = B} Q toks s x y le k l =
        Good-chain (Peeked b es s) Q (peek b es toks s) (λ p. elim p [ false ↦ x | true ↦ y ])
          (peek-Peeked b es toks s line le) go
      where
        go :
            (p : Bool) (s1 : ℕ)
            → Peeked b es s p s1
            → Good b es Q ((elim p as (λ _. Parser B) [ false ↦ x | true ↦ y ]) s1)
        go false s1 h = k s1 h.0 h.1
        go true s1 h = l s1 h.0 h.1 (h.2 refl)

    redircmd-IsWord :
        (t f : Token) → IsWord b es f.q f.eq → IsWord b es (redircmd t f).file (redircmd t f).efile
    unfolding redircmd
    redircmd-IsWord t f w = elim (Bool-cases (t.tok == 60)) [
      | inl e ↦ rw e w
      | inr e ↦ rw e (elim (Bool-cases (t.tok == 62)) [ inl g ↦ rw g w | inr g ↦ rw g w ])
    ]

    parseredirs-IsRedirs :
        (k : ℕ) (redirs : List Redir) (s : ℕ)
        → s ≤ es
        → es < s + k
        → IsRedirs redirs
        → Good b es (Within IsRedirs s) (parseredirs b es k redirs s)
    unfolding parseredirs
    parseredirs-IsRedirs zero redirs s le more h = absurd (omega arith)
    parseredirs-IsRedirs (suc k) redirs s le more h =
        let Q = Within IsRedirs s in
        look Q (60 ∷ 62 ∷ []) s _ _ le (λ s1 lo hi. (lo, hi, h))
          (λ s1 lo hi ne. pass Q s1 _ hi (λ t s2 n.
            let step : s1 < s2 = n.2 ne in
            pass Q s2 _ n.1 (λ f s3 m.
              let onward : s2 ≤ s3 = m.0 in
              elim (Bool-cases (f.tok == 97)) [
                | inr e ↦ rw e tt
                | inl e ↦ rw e (
                    let w = (m.3 ((==_iff f.tok 97).0 e)).0 in
                    Good-later IsRedirs s s3 _ (omega arith) (
                      parseredirs-IsRedirs k (redircmd t f ∷ redirs) s3 m.1 (omega arith)
                        (redircmd-IsWord t f w, h)))
              ])))

    parseargs-IsCmd :
        (k : ℕ) (argv : List (ℕ × ℕ)) (redirs : List Redir) (s : ℕ)
        → s ≤ es
        → es < s + k
        → IsArgs argv
        → IsRedirs redirs
        → Good b es (Within IsCmd s) (parseargs b es k argv redirs s)
    unfolding parseargs
    parseargs-IsCmd zero argv redirs s le more h g = absurd (omega arith)
    parseargs-IsCmd (suc k) argv redirs s le more h g =
        let Q = Within IsCmd s in
        let done = wrap-IsCmd redirs (exec argv) g h in
        look Q (124 ∷ 41 ∷ 38 ∷ 59 ∷ []) s _ _ le
          (λ s1 lo hi. pass Q s1 _ hi (λ t s2 n.
            let onward : s1 ≤ s2 = n.0 in
            elim (Bool-cases (t.tok == 0)) [
              | inl e ↦ rw e (omega arith, n.1, done)
              | inr e ↦ rw e (elim (Bool-cases (t.tok == 97)) [
                | inr e2 ↦ rw e2 tt
                | inl e2 ↦ rw e2 (
                    let w = n.3 ((==_iff t.tok 97).0 e2) in
                    let step : s1 < s2 = w.1 in
                    elim (Bool-cases (leb maxargs (length argv + 1))) [
                      | inl e3 ↦ rw e3 tt
                      | inr e3 ↦ rw e3 (
                          Good-chain (Within IsRedirs s2) Q (parseredirs b es k redirs s2) _
                            (parseredirs-IsRedirs k redirs s2 n.1 (omega arith) g)
                            (λ r s3 m.
                              let later : s2 ≤ s3 = m.0 in
                              Good-later IsCmd s s3 _ (omega arith) (
                                parseargs-IsCmd k (argv ++ ((t.q, t.eq) ∷ [])) r s3 m.1
                                  (omega arith) (IsArgs-append argv t.q t.eq h w.0) m.2)))
                    ])
              ])
            ]))
          (λ s1 lo hi ne. (lo, hi, done))

    parsebacks-IsCmd :
        (k : ℕ) (cmd : Cmd) (s : ℕ)
        → s ≤ es
        → es < s + k
        → IsCmd cmd
        → Good b es (Within IsCmd s) (parsebacks b es k cmd s)
    unfolding parsebacks
    parsebacks-IsCmd zero cmd s le more h = absurd (omega arith)
    parsebacks-IsCmd (suc k) cmd s le more h =
        let Q = Within IsCmd s in
        look Q (38 ∷ []) s _ _ le (λ s1 lo hi. (lo, hi, h))
          (λ s1 lo hi ne. pass Q s1 _ hi (λ t s2 n.
            let step : s1 < s2 = n.2 ne in
            Good-later IsCmd s s2 _ (omega arith)
              (parsebacks-IsCmd k (back cmd) s2 n.1 (omega arith) h)))

    mutual
      unfolding parseline

      pub parseline-IsCmd :
          (k s : ℕ)
          → s ≤ es
          → 4 * (es - s) + 4 ≤ k
          → Good b es (Within IsCmd s) (parseline b es k s)
      parseline-IsCmd zero s le more = absurd (omega arith)
      parseline-IsCmd (suc k) s le more =
          let Q = Within IsCmd s in
          Good-chain (Within IsCmd s) Q (parsepipe b es k s) _
            (parsepipe-IsCmd k s le (omega arith))
            (λ left s1 h.
              let lo1 : s ≤ s1 = h.0 in
              Good-chain (Within IsCmd s1) Q (parsebacks b es k left s1) _
                (parsebacks-IsCmd k left s1 h.1 (omega arith) h.2)
                (λ cmd s2 g.
                  let lo2 : s1 ≤ s2 = g.0 in
                  look Q (59 ∷ []) s2 _ _ g.1 (λ s3 lo hi. (omega arith, hi, g.2))
                    (λ s3 lo hi ne. pass Q s3 _ hi (λ t s4 n.
                      let step : s3 < s4 = n.2 ne in
                      Good-chain (Within IsCmd s4) Q (parseline b es k s4) _
                        (parseline-IsCmd k s4 n.1 (omega arith))
                        (λ right s5 m.
                          let lo5 : s4 ≤ s5 = m.0 in (omega arith, m.1, (g.2, m.2)))))))

      parsepipe-IsCmd :
          (k s : ℕ)
          → s ≤ es
          → 4 * (es - s) + 3 ≤ k
          → Good b es (Within IsCmd s) (parsepipe b es k s)
      parsepipe-IsCmd zero s le more = absurd (omega arith)
      parsepipe-IsCmd (suc k) s le more =
          let Q = Within IsCmd s in
          Good-chain (Within IsCmd s) Q (parseexec b es k s) _
            (parseexec-IsCmd k s le (omega arith))
            (λ left s1 h.
              let lo1 : s ≤ s1 = h.0 in
              look Q (124 ∷ []) s1 _ _ h.1 (λ s3 lo hi. (omega arith, hi, h.2))
                (λ s3 lo hi ne. pass Q s3 _ hi (λ t s4 n.
                  let step : s3 < s4 = n.2 ne in
                  Good-chain (Within IsCmd s4) Q (parsepipe b es k s4) _
                    (parsepipe-IsCmd k s4 n.1 (omega arith))
                    (λ right s5 m. let lo5 : s4 ≤ s5 = m.0 in (omega arith, m.1, (h.2, m.2))))))

      parseexec-IsCmd :
          (k s : ℕ)
          → s ≤ es
          → 4 * (es - s) + 2 ≤ k
          → Good b es (Within IsCmd s) (parseexec b es k s)
      parseexec-IsCmd zero s le more = absurd (omega arith)
      parseexec-IsCmd (suc k) s le more =
          let Q = Within IsCmd s in
          look Q (40 ∷ []) s _ _ le
            (λ s1 lo hi.
              Good-chain (Within IsRedirs s1) Q (parseredirs b es k [] s1) _
                (parseredirs-IsRedirs k [] s1 hi (omega arith) tt)
                (λ r s2 m.
                  let lo2 : s1 ≤ s2 = m.0 in
                  Good-later IsCmd s s2 _ (omega arith)
                    (parseargs-IsCmd k [] r s2 m.1 (omega arith) tt m.2)))
            (λ s1 lo hi ne. Good-later IsCmd s s1 _ lo (parseblock-IsCmd k s1 hi ne (omega arith)))

      parseblock-IsCmd :
          (k s : ℕ)
          → s ≤ es
          → b s ≢ 0
          → 4 * (es - s) + 1 ≤ k
          → Good b es (Within IsCmd s) (parseblock b es k s)
      parseblock-IsCmd zero s le ne more = absurd (omega arith)
      parseblock-IsCmd (suc k) s le ne more =
          let Q = Within IsCmd s in
          look Q (40 ∷ []) s _ _ le (λ s1 lo hi. tt)
            (λ s1 lo hi ne1. pass Q s1 _ hi (λ t s2 n.
              let step : s1 < s2 = n.2 ne1 in
              Good-chain (Within IsCmd s2) Q (parseline b es k s2) _
                (parseline-IsCmd k s2 n.1 (omega arith))
                (λ cmd s3 h.
                  let lo3 : s2 ≤ s3 = h.0 in
                  look Q (41 ∷ []) s3 _ _ h.1 (λ s4 lo hi. tt)
                    (λ s4 lo4 hi4 ne4. pass Q s4 _ hi4 (λ t s5 m.
                      let lo5 : s4 ≤ s5 = m.0 in
                      Good-chain (Within IsRedirs s5) Q (parseredirs b es k [] s5) _
                        (parseredirs-IsRedirs k [] s5 m.1 (omega arith) tt)
                        (λ r s6 g.
                          let lo6 : s5 ≤ s6 = g.0 in
                          (omega arith, g.1, wrap-IsCmd r cmd g.2 h.2)))))))
