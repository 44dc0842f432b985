-- ===== src/Grep/Language.antt =====
-- What a pattern of user/grep.c means, and that `match` decides it.
use mathlib.Core.Bool.{false≢true}
use xv7_riscv.Grep.{
  caret, dot, asterisk, dollar, matchstar, match_one, is_end, matchhere, match_from, match,
}
use xv7_riscv.Prelude.{
  ℕ, List, ◌∷◌, ◌≡◌, Bool, ◌⊎◌, ◌++◌, true, if◌then◌else◌, [], ◌≢◌, Bool-cases, arith, ◌==◌, inl,
  inr, ◌||◌, refl, ap, ◌↔◌, ℕ_discrete, ==_iff, ne→==_false, subst, sym,
}

-- The parts of a pattern: a byte or a dot, that with a star, and a dollar at the end.
pub data Item : Type 0 where
  one : ℕ → Item
  star : ℕ → Item
  end : Item

unfoldable pub items : List ℕ → List Item
items [] = []
items (c ∷ []) = if c == dollar then end ∷ [] else one c ∷ []
items (c ∷ d ∷ re) =
    let starred = items re in
    let plain = items (d ∷ re) in if d == asterisk then star c ∷ starred else one c ∷ plain

-- The byte x is one that c stands for.
abbrev pub StandsFor : ℕ → ℕ → Type 0
StandsFor c x = (c ≡ dot) ⊎ (c ≡ x)

abbrev pub AllStandFor : ℕ → List ℕ → Type 0
AllStandFor c [] = Unit {0}
AllStandFor c (x ∷ w) = StandsFor c x × AllStandFor c w

-- The text starts with a match of the items.
abbrev pub Starts : List Item → List ℕ → Type 0
Starts [] t = Unit {0}
Starts (one c ∷ is) t = (x : ℕ) × (u : List ℕ) × (t ≡ x ∷ u) × StandsFor c x × Starts is u
Starts (star c ∷ is) t = (w u : List ℕ) × (t ≡ w ++ u) × AllStandFor c w × Starts is u
Starts (end ∷ is) t = (t ≡ []) × Starts is t

-- A match somewhere in the text; after ^, only at its start.
abbrev pub Somewhere : List Item → List ℕ → Type 0
Somewhere is t = (v u : List ℕ) × (t ≡ v ++ u) × Starts is u

unfoldable pub Means : List ℕ → List ℕ → Type 0
Means [] t = Somewhere [] t
Means (c ∷ re) t =
    ((c ≡ caret) × Starts (items re) t) ⊎ ((c ≢ caret) × Somewhere (items (c ∷ re)) t)

-- Where `matchstar` finds a match, for any pattern that follows.
module _ (c : ℕ) (here : List ℕ → Bool) where
  abbrev Splits : List ℕ → Type 0
  Splits t = (w u : List ℕ) × (t ≡ w ++ u) × AllStandFor c w × (here u ≡ true)

  matchstar-Splits : (t : List ℕ) → matchstar c here t ≡ true → Splits t
  unfolding matchstar
  matchstar-Splits [] h = ([], [], refl, tt, h)
  matchstar-Splits (x ∷ t) h = elim (Bool-cases (here (x ∷ t))) [
    | inl now ↦ ([], x ∷ t, refl, tt, now)
    | inr later ↦ elim (Bool-cases ((x == c) || (c == dot))) [
      | inl goes ↦
          let (w, u, e, all, m) = matchstar-Splits t (rw (later, goes) at h) in
          (x ∷ w, u, ap (λ (l : List ℕ). x ∷ l) e, (ground arith, all), m)
      | inr stops ↦ absurd (false≢true (rw (later, stops) at h))
    ]
  ]

  Splits-matchstar :
      (t w u : List ℕ) → t ≡ w ++ u → AllStandFor c w → here u ≡ true → matchstar c here t ≡ true
  unfolding matchstar
  Splits-matchstar [] [] u e all m = rw e m
  Splits-matchstar [] (x ∷ w) u e all m = absurd (ground arith)
  Splits-matchstar (x ∷ t) [] u e all m = rw (rw (← e) at m) refl
  Splits-matchstar (x ∷ t) (y ∷ w) u e (s, all) m =
      let rest = Splits-matchstar t w u (cc) all m in
      elim (Bool-cases (here (x ∷ t))) [
        | inl now ↦ rw now refl
        | inr later ↦ rw (later, rest) (ground arith)
      ]

-- A single byte or dot.
module _ (c : ℕ) (here : List ℕ → Bool) where
  match_one-first :
      (t : List ℕ)
      → match_one c here t ≡ true
      → (x : ℕ) × (u : List ℕ) × (t ≡ x ∷ u) × StandsFor c x × (here u ≡ true)
  match_one-first [] h = absurd (false≢true h)
  match_one-first (x ∷ t) h = elim (Bool-cases ((c == dot) || (c == x))) [
    | inl goes ↦ (x, t, refl, ground arith, rw goes at h)
    | inr stops ↦ absurd (false≢true (rw stops at h))
  ]

  match_one-cons :
      (x : ℕ) (u : List ℕ) → StandsFor c x → here u ≡ true → match_one c here (x ∷ u) ≡ true
  match_one-cons x u s m = ground arith

matchhere-Starts : (re t : List ℕ) → matchhere re t ≡ true → Starts (items re) t
unfolding matchhere items
matchhere-Starts [] t h = tt
matchhere-Starts (c ∷ []) t h = elim (Bool-cases (c == dollar)) [
  | inl d ↦ rw d (at_end t (rw d at h), tt)
  | inr d ↦
      let (x, u, e, s, m) = match_one-first c (matchhere []) t (rw d at h) in rw d (x, u, e, s, tt)
]
  where
    at_end : (t : List ℕ) → is_end t ≡ true → t ≡ []
    at_end [] h = refl
    at_end (x ∷ t) h = absurd (false≢true h)
matchhere-Starts (c ∷ d ∷ re) t h = elim (Bool-cases (d == asterisk)) [
  | inl a ↦
      let (w, u, e, all, m) = matchstar-Splits c (matchhere re) t (rw a at h) in
      rw a (w, u, e, all, matchhere-Starts re u m)
  | inr a ↦
      let (x, u, e, s, m) = match_one-first c (matchhere (d ∷ re)) t (rw a at h) in
      rw a (x, u, e, s, matchhere-Starts (d ∷ re) u m)
]

Starts-matchhere : (re t : List ℕ) → Starts (items re) t → matchhere re t ≡ true
unfolding matchhere items
Starts-matchhere [] t h = refl
Starts-matchhere (c ∷ []) t h = elim (Bool-cases (c == dollar)) [
  | inl d ↦ let (e, z) = rw d at h in rw d (rw e refl)
  | inr d ↦
      let (x, u, e, s, z) = rw d at h in rw d (rw e (match_one-cons c (matchhere []) x u s refl))
]
Starts-matchhere (c ∷ d ∷ re) t h = elim (Bool-cases (d == asterisk)) [
  | inl a ↦
      let (w, u, e, all, m) = rw a at h in
      rw a (Splits-matchstar c (matchhere re) t w u e all (Starts-matchhere re u m))
  | inr a ↦
      let (x, u, e, s, m) = rw a at h in
      rw a (rw e (match_one-cons c (matchhere (d ∷ re)) x u s (Starts-matchhere (d ∷ re) u m)))
]

match_from-Somewhere : (re t : List ℕ) → match_from re t ≡ true → Somewhere (items re) t
unfolding match_from
match_from-Somewhere re [] h = ([], [], refl, matchhere-Starts re [] h)
match_from-Somewhere re (x ∷ t) h = elim (Bool-cases (matchhere re (x ∷ t))) [
  | inl now ↦ ([], x ∷ t, refl, matchhere-Starts re (x ∷ t) now)
  | inr later ↦
      let (v, u, e, m) = match_from-Somewhere re t (rw later at h) in
      (x ∷ v, u, ap (λ (l : List ℕ). x ∷ l) e, m)
]

Somewhere-match_from :
    (re t v u : List ℕ) → t ≡ v ++ u → Starts (items re) u → match_from re t ≡ true
unfolding match_from
Somewhere-match_from re [] [] u e m = rw e (Starts-matchhere re u m)
Somewhere-match_from re [] (x ∷ v) u e m = absurd (ground arith)
Somewhere-match_from re (x ∷ t) [] u e m =
    let now : matchhere re (x ∷ t) ≡ true =
      subst (λ (l : List ℕ). matchhere re l ≡ true) (sym e) (Starts-matchhere re u m) in
    rw now refl
Somewhere-match_from re (x ∷ t) (y ∷ v) u e m =
    let rest = Somewhere-match_from re t v u (cc) m in
    elim (Bool-cases (matchhere re (x ∷ t))) [
      | inl now ↦ rw now refl
      | inr later ↦ rw (later, rest) refl
    ]

-- `match` returns 1 exactly if the text has a match of the pattern: at its start if the pattern begins
-- with ^, and anywhere otherwise. There, a byte stands for itself and a dot for any byte, each with a
-- star for a run of any length, and a dollar at the end for the end of the text.
pub match_iff : (re t : List ℕ) → (match re t ≡ true) ↔ Means re t
unfolding match Means items
match_iff [] t = (match_from-Somewhere [] t, λ (v, u, e, m). Somewhere-match_from [] t v u e m)
match_iff (c ∷ re) t = elim (ℕ_discrete c caret) [
  | yes a ↦ rw ((==_iff c caret).1 a) (
    λ h. inl (a, matchhere-Starts re t h),
    λ r. elim r [ inl (z, s) ↦ Starts-matchhere re t s | inr (z, s) ↦ absurd (z a) ],
  )
  | no a ↦ rw (ne→==_false c caret a) (
    λ h. inr (a, match_from-Somewhere (c ∷ re) t h),
    λ r. elim r [
      | inl (z, s) ↦ absurd (a z)
      | inr (z, (v, u, e, m)) ↦ Somewhere-match_from (c ∷ re) t v u e m
    ],
  )
]
