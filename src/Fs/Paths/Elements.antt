-- ===== src/Fs/Paths/Elements.antt =====
-- The elements that repeated calls of `skipelem` take from a path.
use xv7_riscv.Fs.Paths.{slash, skip_slashes, split_elem, next_elem, skipelem}
use xv7_riscv.Prelude.{
  none, some, ℕ, List, [], ◌∷◌, ◌≡◌, length, suc, Bool-cases, ◌≤◌, if◌then◌else◌, ◌==◌, inl, arith,
  false, inr, refl, ap, ◌<◌, Bool, ◌∙◌, sym, zero,
}

-- The elements, as the loop of `namex` meets them.
unfoldable pub elements : ℕ → List ℕ → List (List ℕ)
elements zero path = []
elements (suc k) path = elim (skipelem path) [ none ↦ [] | some (s, rest) ↦ s ∷ elements k rest ]

-- The reference: the parts between the slashes, less the empty ones.
abbrev pub cons_head : ℕ → List (List ℕ) → List (List ℕ)
cons_head c [] = (c ∷ []) ∷ []
cons_head c (s ∷ l) = (c ∷ s) ∷ l

unfoldable pub split_on : List ℕ → List (List ℕ)
split_on [] = [] ∷ []
split_on (c ∷ path) = let rest = split_on path in if c == slash then [] ∷ rest else cons_head c rest

abbrev pub drop_empty : List (List ℕ) → List (List ℕ)
drop_empty [] = []
drop_empty ([] ∷ l) = drop_empty l
drop_empty ((c ∷ s) ∷ l) = (c ∷ s) ∷ drop_empty l

skip_slashes-split :
    (path : List ℕ) → drop_empty (split_on (skip_slashes path)) ≡ drop_empty (split_on path)
unfolding skip_slashes split_on
skip_slashes-split [] = refl
skip_slashes-split (c ∷ path) = elim (Bool-cases (c == slash)) [
  | inl h ↦ rw h (skip_slashes-split path)
  | inr h ↦ ap (λ (b : Bool). drop_empty (split_on (if b then skip_slashes path else c ∷ path))) h
]

-- The first part, and what the others are.
split_elem-split_on :
    (path : List ℕ)
    → (l : List (List ℕ)) × (split_on path ≡ (split_elem path).0 ∷ l)
      × (drop_empty l ≡ drop_empty (split_on (split_elem path).1))
unfolding split_on split_elem
split_elem-split_on [] = ([], refl, refl)
split_elem-split_on (c ∷ path) =
    let (l, e, r) = split_elem-split_on path in
    elim (Bool-cases (c == slash)) [
      | inl h ↦ rw h (split_on path, refl, rw h refl)
      | inr h ↦ rw h (l, rw e refl, r)
    ]

pub length-skip_slashes : (path : List ℕ) → length (skip_slashes path) ≤ length path
unfolding skip_slashes
length-skip_slashes [] = omega arith
length-skip_slashes (c ∷ path) = ground (arith, length-skip_slashes path)

pub length-split_elem : (path : List ℕ) → length (split_elem path).1 ≤ length path
unfolding split_elem
length-split_elem [] = omega arith
length-split_elem (c ∷ path) = ground (arith, length-split_elem path)

-- A path that starts with no slash.
abbrev pub Starts : List ℕ → Type 0
Starts [] = Unit {0}
Starts (c ∷ path) = (c == slash) ≡ false

pub skip_slashes-Starts : (path : List ℕ) → Starts (skip_slashes path)
unfolding skip_slashes
skip_slashes-Starts [] = tt
skip_slashes-Starts (c ∷ path) = elim (Bool-cases (c == slash)) [
  | inl h ↦ rw h (skip_slashes-Starts path)
  | inr h ↦ rw h h
]

module _ (k : ℕ) (path : List ℕ) where
  abbrev after : List ℕ → List (List ℕ)
  after q = elim (next_elem q) [ none ↦ [] | some (s, rest) ↦ s ∷ elements k rest ]

  elements-step :
      (q : List ℕ)
      → skip_slashes path ≡ q
      → Starts q
      → length q ≤ k
      → ((rest : List ℕ) → length rest < k → elements k rest ≡ drop_empty (split_on rest))
      → after q ≡ drop_empty (split_on q)
  unfolding next_elem split_elem split_on
  elements-step [] e st le ih = refl
  elements-step (c ∷ p) e st le ih =
      let (l, e2, r) = split_elem-split_on p in
      let short = length-split_elem p in
      let shorter = length-skip_slashes (split_elem p).1 in
      rw (st, e2)
        (ap (λ (t : List (List ℕ)). (c ∷ (split_elem p).0) ∷ t)
          (ih (skip_slashes (split_elem p).1) (omega arith)
            ∙ skip_slashes-split (split_elem p).1
            ∙ sym r))

-- The elements that repeated calls of `skipelem` take from a path, with one call more than it has
-- bytes, are the parts between its slashes, less the empty ones.
pub elements_lem :
    (k : ℕ) (path : List ℕ) → length path < k → elements k path ≡ drop_empty (split_on path)
unfolding elements skipelem
elements_lem zero path lt = absurd (omega arith)
elements_lem (suc k) path lt =
    let short = length-skip_slashes path in
    elements-step k path (skip_slashes path) refl (skip_slashes-Starts path) (omega arith)
      (λ rest h. elements_lem k rest h)
    ∙ skip_slashes-split path
