-- ===== src/Fs/Paths.antt =====
-- Paths of kernel/fs.c: `skipelem` and `namex`. A path is the list of its bytes before the null byte.
pub mod Elements
pub mod Holders
pub mod Rounds
use xv7_riscv.Fs.{Disk, Superblock}
use xv7_riscv.Fs.Inode.{Inode, Itable, iget, idup, ilock}
use xv7_riscv.Fs.Content.{iput}
use xv7_riscv.Fs.Directory.{dirlookup, dirsiz, t_dir, Search}
use xv7_riscv.Prelude.{
  ℕ, List, Option, Bool, ◌∷◌, none, false, true, if◌then◌else◌, ltb, some, suc, ◌==◌, [], min,
  update, zero, length, not, get_or, ◌&&◌, ◌+◌,
}

abbrev pub slash : ℕ
slash = 47

-- `while (*path == '/') path++`
unfoldable pub skip_slashes : List ℕ → List ℕ
skip_slashes [] = []
skip_slashes (c ∷ path) = if c == slash then skip_slashes path else c ∷ path

-- `while (*path != '/' && *path != 0) path++`: the bytes that it passes, and the rest.
unfoldable pub split_elem : List ℕ → List ℕ × List ℕ
split_elem [] = ([], [])
split_elem (c ∷ path) =
    let (s, rest) = split_elem path in if c == slash then ([], c ∷ path) else (c ∷ s, rest)

-- The first DIRSIZ bytes, or all and a null byte: what `skipelem` writes over the bytes of `name`.
unfoldable pub put_name : List ℕ → (ℕ → ℕ) → ℕ → ℕ
put_name s name i =
    if ltb i (min (length s) dirsiz)
    then get_or s i 0
    else if (i == length s) && ltb i dirsiz
    then 0
    else name i

-- The element, which is copied to `name`, and the rest of the path; `none` is the result 0.
unfoldable pub next_elem : List ℕ → Option (List ℕ × List ℕ)
unfolding split_elem skip_slashes
next_elem [] = none
next_elem (c ∷ path) = let (s, rest) = split_elem (c ∷ path) in some (s, skip_slashes rest)

unfoldable pub skipelem : List ℕ → Option (List ℕ × List ℕ)
unfolding skip_slashes next_elem
skipelem path = next_elem (skip_slashes path)

-- The inodes and the disk.
pub record Tree : Type 0 where
  pub table : Itable
  pub disk : Disk

abbrev pub put_inode : Superblock → ℕ → Tree → Option Tree
put_inode sb i w = elim (iput sb i w.table w.disk) [
  | none ↦ none
  | some (t, d) ↦ some (record { table = t; disk = d })
]

-- A return of the null pointer, after `iput`.
abbrev pub give_up : Superblock → ℕ → Tree → Option (Option ℕ × Tree)
give_up sb i w = elim (put_inode sb i w) [ none ↦ none | some w' ↦ some (none, w') ]

-- The body of the loop of `namex` at the inode in entry i: the inode to return, or the next one.
pub data Stage : Type 0 where
  stop : Option ℕ → Tree → Stage
  enter : ℕ → Tree → Stage

unfoldable pub enter_elem : Superblock → Bool → List ℕ → List ℕ → ℕ → Tree → Option Stage
unfolding put_name
enter_elem sb parent s rest i w = elim (ilock sb w.disk (w.table i)) [
  | none ↦ none
  | some ip ↦
      let w1 = record w { table = update w.table i ip } in
      let leave : Option Stage = elim (put_inode sb i w1) [
        | none ↦ none
        | some w2 ↦ some (stop none w2)
      ] in
      let at_end : Bool = elim rest [ [] ↦ true | _ ↦ false ] in
      if not (ip.type == t_dir)
      then leave
      else if parent && at_end
      then some (stop (some i) w1)
      else elim (dirlookup sb (put_name s (λ _. 0)) ip w1.disk) [
        | none ↦ none
        | some r ↦
            let w2 : Tree = record { table = update w1.table i r.dp; disk = r.disk } in
            elim r.found [
              | none ↦ elim (put_inode sb i w2) [ none ↦ none | some w3 ↦ some (stop none w3) ]
              | some (off, inum) ↦ elim (iget ip.dev inum w2.table) [
                | none ↦ none
                | some (j, t3) ↦ elim (put_inode sb i (record w2 { table = t3 })) [
                  | none ↦ none
                  | some w4 ↦ some (enter j w4)
                ]
              ]
            ]
      ]
]

-- The loop of `namex`, for at most the given number of rounds; `out` is the result when they run out.
-- Each round takes a byte of the path at least.
unfoldable pub namex_from :
    Option (Option ℕ × Tree) → ℕ → Superblock → Bool → List ℕ → ℕ → Tree → Option (Option ℕ × Tree)
unfolding enter_elem skipelem
namex_from out zero sb parent path i w = out
namex_from out (suc k) sb parent path i w = elim (skipelem path) [
  | none ↦ if parent then give_up sb i w else some (some i, w)
  | some (s, rest) ↦ elim (enter_elem sb parent s rest i w) [
    | none ↦ none
    | some (stop r w') ↦ some (r, w')
    | some (enter j w') ↦ namex_from out k sb parent rest j w'
  ]
]

-- ROOTDEV and ROOTINO are 1. `cwd` is the entry of the process's directory.
unfoldable pub namex : Superblock → Bool → List ℕ → ℕ → Tree → Option (Option ℕ × Tree)
unfolding namex_from
namex sb parent path cwd w =
    let absolute : Bool = elim path [ [] ↦ false | c ∷ _ ↦ c == slash ] in
    let start : Option (ℕ × Itable) =
      if absolute then iget 1 1 w.table else some (cwd, idup cwd w.table) in
    elim start [
      | none ↦ none
      | some (i, t) ↦ namex_from none (length path + 1) sb parent path i (record w { table = t })
    ]

unfoldable pub namei : Superblock → List ℕ → ℕ → Tree → Option (Option ℕ × Tree)
unfolding namex
namei sb path cwd w = namex sb false path cwd w

unfoldable pub nameiparent : Superblock → List ℕ → ℕ → Tree → Option (Option ℕ × Tree)
unfolding namex
nameiparent sb path cwd w = namex sb true path cwd w
