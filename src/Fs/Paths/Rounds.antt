-- ===== src/Fs/Paths/Rounds.antt =====
-- The rounds of `namex` of kernel/fs.c.
use xv7_riscv.Fs.{Superblock}
use xv7_riscv.Fs.Paths.{
  Tree, Stage, stop, enter, enter_elem, give_up, namex_from, skipelem, next_elem, split_elem,
  skip_slashes,
}
use xv7_riscv.Fs.Paths.Elements.{
  length-skip_slashes, length-split_elem, Starts, skip_slashes-Starts,
}
use xv7_riscv.Prelude.{
  ℕ, zero, suc, ◌<◌, ◌≡◌, refl, Bool, if◌then◌else◌, List, [], ◌∷◌, length, Option, none, some,
  arith,
}

-- What `skipelem` leaves is shorter.
abbrev Shorter : List ℕ → Option (List ℕ × List ℕ) → Type 0
Shorter path none = Unit {0}
Shorter path (some (s, rest)) = length rest < length path

next_elem-Shorter : (q : List ℕ) → Starts q → Shorter q (next_elem q)
unfolding next_elem split_elem
next_elem-Shorter [] st = tt
next_elem-Shorter (c ∷ p) st =
    let short = length-split_elem p in
    let shorter = length-skip_slashes (split_elem p).1 in rw st (omega arith)

skipelem-Shorter : (path : List ℕ) → Shorter path (skipelem path)
unfolding skipelem
skipelem-Shorter path =
    widen (next_elem (skip_slashes path))
      (next_elem-Shorter (skip_slashes path) (skip_slashes-Starts path))
  where
    widen : (o : Option (List ℕ × List ℕ)) → Shorter (skip_slashes path) o → Shorter path o
    widen none h = tt
    widen (some (s, rest)) h = let le = length-skip_slashes path in omega arith

-- The loop of `namex` ends within one round more than its path has bytes: with more rounds than bytes
-- the result does not depend on what is returned when the rounds run out.
pub namex_from_rounds :
    (out1 out2 : Option (Option ℕ × Tree))
    → (k : ℕ) (sb : Superblock) (parent : Bool) (path : List ℕ) (i : ℕ) (w : Tree) → length path < k
    → namex_from out1 k sb parent path i w ≡ namex_from out2 k sb parent path i w
unfolding namex_from
namex_from_rounds out1 out2 zero sb parent path i w lt = absurd (omega arith)
namex_from_rounds out1 out2 (suc k) sb parent path i w lt =
    found (skipelem path) (skipelem-Shorter path)
      (λ rest j v h. namex_from_rounds out1 out2 k sb parent rest j v h)
  where
    Same : Type 0
    Same =
        (rest : List ℕ) (j : ℕ) (v : Tree)
        → length rest < k
        → namex_from out1 k sb parent rest j v ≡ namex_from out2 k sb parent rest j v

    staged :
        (rest : List ℕ) (o : Option Stage)
        → length rest < k
        → Same
        → elim o as (λ _. Option (Option ℕ × Tree)) [
          | none ↦ none
          | some (stop r w') ↦ some (r, w')
          | some (enter j w') ↦ namex_from out1 k sb parent rest j w'
        ]
          ≡ elim o [
            | none ↦ none
            | some (stop r w') ↦ some (r, w')
            | some (enter j w') ↦ namex_from out2 k sb parent rest j w'
          ]
    staged rest none h same = refl
    staged rest (some (stop r v)) h same = refl
    staged rest (some (enter j v)) h same = same rest j v h

    found :
        (o : Option (List ℕ × List ℕ))
        → Shorter path o
        → Same
        → elim o as (λ _. Option (Option ℕ × Tree)) [
          | none ↦ if parent then give_up sb i w else some (some i, w)
          | some (s, rest) ↦ elim (enter_elem sb parent s rest i w) [
            | none ↦ none
            | some (stop r w') ↦ some (r, w')
            | some (enter j w') ↦ namex_from out1 k sb parent rest j w'
          ]
        ]
          ≡ elim o [
            | none ↦ if parent then give_up sb i w else some (some i, w)
            | some (s, rest) ↦ elim (enter_elem sb parent s rest i w) [
              | none ↦ none
              | some (stop r w') ↦ some (r, w')
              | some (enter j w') ↦ namex_from out2 k sb parent rest j w'
            ]
          ]
    found none h same = refl
    found (some (s, rest)) h same = staged rest (enter_elem sb parent s rest i w) (omega arith) same
