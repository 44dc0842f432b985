-- ===== src/Fs/Inode/Table.antt =====
-- `iget`: one entry of the table for each inode in use.
use mathlib.Core.Bool.{false≢true}
use xv7_riscv.Fs.Inode.{
  Inode, Itable, Slot, cached, empty, find_inode, iget_at, iget, ninode, positive, idup,
}
use xv7_riscv.Prelude.{
  ℕ, ◌<◌, Bool, Option, ◌≡◌, ◌≤◌, ◌&&◌, arith, ◌==◌, ◌+◌, true, some, false, inl, ◌≢◌, suc, ◌⊎◌,
  none, Bool-cases, if◌then◌else◌, inr, zero, ℕ_discrete, refl, subst, sym, ◌∙◌, update, ==_iff,
  ◌^◌, update_ne,
}

-- No two entries in use are for one inode.
abbrev pub Distinct : Itable → Type 0
Distinct t =
    (i j : ℕ)
    → i < 50
    → j < 50
    → 0 < (t i).ref
    → 0 < (t j).ref
    → (t i).dev ≡ (t j).dev
    → (t i).inum ≡ (t j).inum
    → i ≡ j

abbrev pub holds : ℕ → ℕ → Inode → Bool
holds dev inum ip = positive ip.ref && (ip.dev == dev) && (ip.inum == inum)

-- What the loop of `iget` from entry i on has found.
abbrev Scanned : ℕ → ℕ → Option ℕ → ℕ → ℕ → Itable → Slot → Type 0
Scanned k i free dev inum t (cached j) = (i ≤ j) × (j < i + k) × (holds dev inum (t j) ≡ true)
Scanned k i free dev inum t (empty none) =
    (free ≡ none) × ((j : ℕ) → i ≤ j → j < i + k → (holds dev inum (t j) ≡ false) × ((t j).ref ≢ 0))
Scanned k i free dev inum t (empty (some e)) =
    ((j : ℕ) → i ≤ j → j < i + k → holds dev inum (t j) ≡ false)
    × ((free ≡ some e) ⊎ ((i ≤ e) × (e < i + k) × ((t e).ref ≡ 0)))

Scanned-end :
    (i : ℕ) (free : Option ℕ) (dev inum : ℕ) (t : Itable) → Scanned 0 i free dev inum t (empty free)
Scanned-end i none dev inum t = (refl, λ j lo hi. absurd (omega arith))
Scanned-end i (some x) dev inum t = (λ j lo hi. absurd (omega arith), inl refl)

-- The first empty entry, after entry i.
abbrev first_free : Option ℕ → ℕ → Itable → Option ℕ
first_free free i t = elim free [ none ↦ if (t i).ref == 0 then some i else none | some e ↦ some e ]

Scanned-next :
    (k i : ℕ) (free : Option ℕ) (dev inum : ℕ) (t : Itable) (r : Slot)
    → holds dev inum (t i) ≡ false
    → Scanned k (i + 1) (first_free free i t) dev inum t r
    → Scanned (suc k) i free dev inum t r
Scanned-next k i free dev inum t (cached j) h (lo, hi, at) = (omega arith, omega arith, at)
Scanned-next k i free dev inum t (empty none) h (no_free, all) = (
  ground arith,
  λ j lo hi. elim (ℕ_discrete i j) [
    | yes e ↦ rw (← e) (h, λ z. absurd (ground arith))
    | no ne ↦ all j (omega arith) (omega arith)
  ],
)
Scanned-next k i free dev inum t (empty (some e)) h (all, e_free) = (
  λ j lo hi. elim (ℕ_discrete i j) [
    | yes q ↦ rw (← q) h
    | no ne ↦ all j (omega arith) (omega arith)
  ],
  first free refl e_free,
)
  where
    first :
        (f : Option ℕ)
        → f ≡ free
        → (first_free f i t ≡ some e) ⊎ ((i + 1 ≤ e) × (e < i + 1 + k) × ((t e).ref ≡ 0))
        → (free ≡ some e) ⊎ ((i ≤ e) × (e < i + suc k) × ((t e).ref ≡ 0))
    first f q (inr (lo, hi, z)) = inr (omega arith, omega arith, z)
    first none q (inl x) = elim (ℕ_discrete (t i).ref 0) [
      | yes z ↦
          let at : i ≡ e = ground arith in
          inr (omega arith, omega arith, subst (λ (m : ℕ). (t m).ref ≡ 0) at z)
      | no ne ↦ absurd (ground arith)
    ]
    first (some y) q (inl x) = inl (sym q ∙ x)

find_inode-Scanned :
    (k i : ℕ) (free : Option ℕ) (dev inum : ℕ) (t : Itable)
    → Scanned k i free dev inum t (find_inode k i free dev inum t)
unfolding find_inode
find_inode-Scanned zero i free dev inum t = Scanned-end i free dev inum t
find_inode-Scanned (suc k) i free dev inum t = elim (Bool-cases (holds dev inum (t i))) [
  | inl h ↦ rw h (omega arith, omega arith, h)
  | inr h ↦ rw h (
      Scanned-next k i free dev inum t _ h
        (find_inode-Scanned k (i + 1) (first_free free i t) dev inum t))
]

update-Distinct :
    (t : Itable) (i : ℕ) (x : Inode)
    → Distinct t
    → ((j : ℕ) → j < 50 → i ≢ j → 0 < (t j).ref → x.dev ≡ (t j).dev → x.inum ≢ (t j).inum)
    → Distinct (update t i x)
update-Distinct t i x d apart a b la lb ra rb ed ei = elim (ℕ_discrete i a) [
  | yes p ↦ elim (ℕ_discrete i b) [
    | yes q ↦ sym p ∙ q
    | no q ↦
        let at : update t i x a ≡ x = rw ((==_iff i a).1 p) refl in
        let away : update t i x b ≡ t b = update_ne t i b x q in
        absurd (apart b lb q (rw away at rb) (rw (at, away) at ed) (rw (at, away) at ei))
  ]
  | no p ↦
      let there : update t i x a ≡ t a = update_ne t i a x p in
      elim (ℕ_discrete i b) [
        | yes q ↦
            let at : update t i x b ≡ x = rw ((==_iff i b).1 q) refl in
            absurd (
              apart a la p (rw there at ra) (sym (rw (there, at) at ed))
                (sym (rw (there, at) at ei)))
        | no q ↦
            let away : update t i x b ≡ t b = update_ne t i b x q in
            d a b la lb (rw there at ra) (rw away at rb) (rw (there, away) at ed)
              (rw (there, away) at ei)
      ]
]

-- How `iget` can end.
abbrev pub Got : ℕ → ℕ → Itable → Option (ℕ × Itable) → Type 0
Got dev inum t none = (j : ℕ) → j < 50 → (holds dev inum (t j) ≡ false) × ((t j).ref ≢ 0)
Got dev inum t (some (i, t')) =
    (i < 50)
    × Distinct t'
    × (((holds dev inum (t i) ≡ true) × (t' ≡ idup i t))
        ⊎ (((j : ℕ) → j < 50 → holds dev inum (t j) ≡ false)
            × ((t i).ref ≡ 0)
            × (t' ≡ update t i (record (t i) { dev = dev; inum = inum; ref = 1; valid = false }))))

-- In a table that has at most one entry in use for an inode, with counts below 2 ^ 31: `iget` adds a
-- reference to the entry of the inode if it has one; it gives the inode an entry that is not in use if
-- there is one; and it panics if all entries are in use for others. The table keeps at most one entry
-- in use for an inode.
pub iget_lem :
    (dev inum : ℕ) (t : Itable)
    → Distinct t
    → ((i : ℕ) → i < 50 → (t i).ref < 2 ^ 31)
    → Got dev inum t (iget dev inum t)
unfolding iget iget_at idup
iget_lem dev inum t d small =
    go (find_inode ninode 0 none dev inum t) (find_inode-Scanned ninode 0 none dev inum t)
  where
    in_use :
        (j : ℕ)
        → 0 < (t j).ref
        → (t j).ref < 2 ^ 31
        → dev ≡ (t j).dev
        → inum ≡ (t j).inum
        → holds dev inum (t j) ≡ true
    in_use j a b c e = ground arith

    go : (r : Slot) → Scanned ninode 0 none dev inum t r → Got dev inum t (iget_at r dev inum t)
    go (cached i) (lo, hi, at) = (
      omega arith,
      update-Distinct t i _ d
          (λ j lj ne rj ed ei. ne (d i j (omega arith) lj (ground arith) rj ed ei)),
      inl (at, refl),
    )
    go (empty none) (z, all) = λ j lj. all j (omega arith) (omega arith)
    go (empty (some i)) (all, inl z) = absurd (ground arith)
    go (empty (some i)) (all, inr (lo, hi, z)) = (
      omega arith,
      update-Distinct t i _ d (λ j lj ne rj ed ei.
          false≢true (sym (all j (omega arith) (omega arith)) ∙ in_use j rj (small j lj) ed ei)),
      inr (λ j lj. all j (omega arith) (omega arith), z, refl),
    )
