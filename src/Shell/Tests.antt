-- ===== src/Shell/Tests.antt =====
-- Runs of the parser of user/sh.c.
use xv7_riscv.Shell.{
  exec, redir, pipe, Cmd, ok, out_of_fuel, parsecmd, parseline, parseargs, parsebacks, parseredirs,
  peek, gettoken, token_at, word_from, skip_from, redircmd, wrap, nulterminate,
}
use xv7_riscv.Shell.Tokens.{IsLine}
use xv7_riscv.Shell.Strings.{AreStrings, parsecmd_ends, parsecmd-AreStrings}
use xv7_riscv.Ulib.{strchr}
use xv7_riscv.Prelude.{ℕ, ◌≡◌, ◌≢◌, refl, [], ◌∷◌, get_or, arith}

-- "ls a|wc>f\n"
abbrev line : ℕ → ℕ
line i = get_or (108 ∷ 115 ∷ 32 ∷ 97 ∷ 124 ∷ 119 ∷ 99 ∷ 62 ∷ 102 ∷ 10 ∷ []) i 0

abbrev command : Cmd
command =
    pipe (exec ((0, 2) ∷ (3, 4) ∷ []))
      (redir (exec ((5, 7) ∷ [])) (record { file = 8; efile = 9; mode = 0x601; fd = 1 }))

line-IsLine : IsLine line 10
line-IsLine = (refl, λ a lt. ground arith)

parses : parsecmd line 10 ≡ ok (command, nulterminate command line) 10
unfolding parsecmd parseline parseargs parsebacks parseredirs peek gettoken token_at word_from
    skip_from redircmd wrap strchr
parses = refl

parsecmd_ends_example : parsecmd line 10 ≢ out_of_fuel
parsecmd_ends_example = parsecmd_ends line 10 line-IsLine

parsecmd-AreStrings_example :
    AreStrings line 10 (nulterminate command line) command × (◌≡◌ {A = ℕ} 10 10)
parsecmd-AreStrings_example =
    parsecmd-AreStrings line 10 command (nulterminate command line) 10 line-IsLine parses
