-- ===== src/Shell.antt =====
-- The parser of user/sh.c. The line is a memory of bytes b up to the address es of its 0, and a pointer
-- into it is an address.
pub mod Parsing
pub mod Strings
pub mod Tokens
mod Tests
use xv7_riscv.Ulib.{strchr}
use xv7_riscv.Prelude.{
  ℕ, zero, suc, ◌+◌, ◌-◌, ◌*◌, ◌==◌, ltb, leb, Bool, true, false, not, ◌&&◌, if◌then◌else◌, List,
  [], ◌∷◌, ◌++◌, length, Option, none, some, update,
}

-- MAXARGS
abbrev pub maxargs : ℕ
maxargs = 10

-- A string of the line is its address and that of its end. A mode is the sum of its flags: O_RDONLY 0,
-- O_WRONLY 1, O_CREATE 0x200, O_TRUNC 0x400.
pub record Redir : Type 0 where
  pub file : ℕ
  pub efile : ℕ
  pub mode : ℕ
  pub fd : ℕ

pub data Cmd : Type 0 where
  exec : (argv : List (ℕ × ℕ)) → Cmd
  redir : (cmd : Cmd) → (r : Redir) → Cmd
  pipe : (left right : Cmd) → Cmd
  list : (left right : Cmd) → Cmd
  back : (cmd : Cmd) → Cmd

-- What a parser leaves: a result and the pointer, a call of `panic`, or no rounds.
pub data Outcome {ℓ} (A : Type ℓ) : Type ℓ where
  ok : (a : A) → (s : ℕ) → Outcome A
  panics : Outcome A
  out_of_fuel : Outcome A

abbrev pub Parser : Type 0 → Type 0
Parser A = ℕ → Outcome A

infixl 5 ◌>>=◌
abbrev pub ◌>>=◌ : {A B : Type 0} → Parser A → (A → Parser B) → Parser B
◌>>=◌ m f s = elim (m s) [ ok a s' ↦ f a s' | panics ↦ panics | out_of_fuel ↦ out_of_fuel ]

abbrev pub ret : {A : Type 0} → A → Parser A
ret a s = ok a s

abbrev pub panic : {A : Type 0} → Parser A
panic s = panics

abbrev pub has : List ℕ → ℕ → Bool
has toks c = elim (strchr toks c) [ none ↦ false | some rest ↦ true ]

-- " \t\r\n\v" and "<|>&;()"
abbrev pub whitespace : List ℕ
whitespace = 32 ∷ 9 ∷ 13 ∷ 10 ∷ 11 ∷ []

abbrev pub symbols : List ℕ
symbols = 60 ∷ 124 ∷ 62 ∷ 38 ∷ 59 ∷ 40 ∷ 41 ∷ []

-- The kinds of token: a symbol stands for itself, '+' for ">>" and 'a' for a word.
pub record Token : Type 0 where
  pub tok : ℕ
  pub q : ℕ
  pub eq : ℕ

-- The redirection for '<', '>' and '+'.
unfoldable pub redircmd : Token → Token → Redir
redircmd t f =
    if t.tok == 60
    then record { file = f.q; efile = f.eq; mode = 0; fd = 0 }
    else if t.tok == 62
    then record { file = f.q; efile = f.eq; mode = 0x601; fd = 1 }
    else record { file = f.q; efile = f.eq; mode = 0x201; fd = 1 }

-- A command in its redirections, the last of which comes first.
unfoldable pub wrap : List Redir → Cmd → Cmd
wrap [] cmd = cmd
wrap (r ∷ redirs) cmd = redir (wrap redirs cmd) r

module _ (b : ℕ → ℕ) (es : ℕ) where
  unfoldable pub skip_from : ℕ → ℕ → ℕ
  skip_from zero s = s
  skip_from (suc k) s =
      let rest = skip_from k (s + 1) in if ltb s es && has whitespace (b s) then rest else s

  abbrev pub skip : ℕ → ℕ
  skip s = skip_from (es - s) s

  unfoldable pub word_from : ℕ → ℕ → ℕ
  word_from zero s = s
  word_from (suc k) s =
      let rest = word_from k (s + 1) in
      if ltb s es && not (has whitespace (b s)) && not (has symbols (b s)) then rest else s

  -- The `switch` of `gettoken`: the token at s and its end.
  unfoldable pub token_at : ℕ → ℕ × ℕ
  token_at s =
      let c = b s in
      if c == 0
      then (0, s)
      else if has (124 ∷ 40 ∷ 41 ∷ 59 ∷ 38 ∷ 60 ∷ []) c
      then (c, s + 1)
      else if c == 62
      then if b (s + 1) == 62 then (43, s + 2) else (62, s + 1)
      else (97, word_from (es - s) s)

  unfoldable pub gettoken : Parser Token
  gettoken s =
      let q = skip s in
      let (tok, eq) = token_at q in ok (record { tok = tok; q = q; eq = eq }) (skip eq)

  unfoldable pub peek : List ℕ → Parser Bool
  peek toks s = let s1 = skip s in ok (not (b s1 == 0) && has toks (b s1)) s1

  unfoldable pub parseredirs : ℕ → List Redir → Parser (List Redir)
  parseredirs zero redirs s = out_of_fuel
  parseredirs (suc k) redirs s =
      (do
        more ← peek (60 ∷ 62 ∷ [])
        elim more [
          | false ↦ ret redirs
          | true ↦ do
            t ← gettoken
            f ← gettoken
            if not (f.tok == 97) then panic else parseredirs k (redircmd t f ∷ redirs)
        ])
        s

  -- The loop of `parseexec` over the arguments.
  unfoldable pub parseargs : ℕ → List (ℕ × ℕ) → List Redir → Parser Cmd
  parseargs zero argv redirs s = out_of_fuel
  parseargs (suc k) argv redirs s =
      (do
        ends ← peek (124 ∷ 41 ∷ 38 ∷ 59 ∷ [])
        elim ends [
          | true ↦ ret (wrap redirs (exec argv))
          | false ↦ do
            t ← gettoken
            if t.tok == 0
                then ret (wrap redirs (exec argv))
                else if not (t.tok == 97)
                then panic
                else if leb maxargs (length argv + 1)
                then panic
                else (do
                  redirs1 ← parseredirs k redirs
                  parseargs k (argv ++ ((t.q, t.eq) ∷ [])) redirs1)
        ])
        s

  -- The loop of `parseline` over '&'.
  unfoldable pub parsebacks : ℕ → Cmd → Parser Cmd
  parsebacks zero cmd s = out_of_fuel
  parsebacks (suc k) cmd s =
      (do
        more ← peek (38 ∷ [])
        elim more [ false ↦ ret cmd | true ↦ do _ ← gettoken; parsebacks k (back cmd) ])
        s

  unfoldable mutual
    pub parseline : ℕ → Parser Cmd
    parseline zero s = out_of_fuel
    parseline (suc k) s =
        (do
          left ← parsepipe k
          cmd ← parsebacks k left
          more ← peek (59 ∷ [])
          elim more [
            | false ↦ ret cmd
            | true ↦ do _ ← gettoken; right ← parseline k; ret (list cmd right)
          ])
          s

    pub parsepipe : ℕ → Parser Cmd
    parsepipe zero s = out_of_fuel
    parsepipe (suc k) s =
        (do
          left ← parseexec k
          more ← peek (124 ∷ [])
          elim more [
            | false ↦ ret left
            | true ↦ do _ ← gettoken; right ← parsepipe k; ret (pipe left right)
          ])
          s

    pub parseexec : ℕ → Parser Cmd
    parseexec zero s = out_of_fuel
    parseexec (suc k) s =
        (do
          opens ← peek (40 ∷ [])
          elim opens [
            | true ↦ parseblock k
            | false ↦ do redirs ← parseredirs k []; parseargs k [] redirs
          ])
          s

    pub parseblock : ℕ → Parser Cmd
    parseblock zero s = out_of_fuel
    parseblock (suc k) s =
        (do
          opens ← peek (40 ∷ [])
          elim opens [
            | false ↦ panic
            | true ↦ do
              _ ← gettoken
              cmd ← parseline k
              closes ← peek (41 ∷ [])
              elim closes [
                | false ↦ panic
                | true ↦ do _ ← gettoken; redirs ← parseredirs k []; ret (wrap redirs cmd)
              ]
          ])
          s

-- The ends of the strings of a command.
abbrev pub put_zeros : List (ℕ × ℕ) → (ℕ → ℕ) → ℕ → ℕ
put_zeros [] b = b
put_zeros ((q, eq) ∷ argv) b = put_zeros argv (update b eq 0)

unfoldable pub nulterminate : Cmd → (ℕ → ℕ) → ℕ → ℕ
nulterminate (exec argv) b = put_zeros argv b
nulterminate (redir cmd r) b = update (nulterminate cmd b) r.efile 0
nulterminate (pipe left right) b = nulterminate right (nulterminate left b)
nulterminate (list left right) b = nulterminate right (nulterminate left b)
nulterminate (back cmd) b = nulterminate cmd b

-- A line of n bytes with what is left of it, which is to be nothing; `none` is a panic.
unfoldable pub parsecmd : (ℕ → ℕ) → ℕ → Outcome (Cmd × (ℕ → ℕ))
parsecmd b n = elim ((do cmd ← parseline b n (4 * n + 4); _ ← peek b n []; ret cmd) 0) [
  | ok cmd s ↦ if s == n then ok (cmd, nulterminate cmd b) s else panics
  | panics ↦ panics
  | out_of_fuel ↦ out_of_fuel
]
