-- ===== src/Virtio/Requests.antt =====
-- The requests of kernel/virtio_disk.c that are under way.
use xv7_riscv.Virtio.{
  num, Desc, Queue, Chain, alloc_desc, free_desc, undo_one, undo_two, alloc3_desc, cleared,
}
use xv7_riscv.Virtio.Descriptors.{
  Owned, Allocated, alloc_desc-Allocated, Freed, free_desc-Freed, Linked, members,
}
use xv7_riscv.Fs.Holders.{count}
use xv7_riscv.Prelude.{
  ℕ, ◌%◌, ◌<◌, ◌≡◌, ◌≢◌, refl, sym, ◌∙◌, ap, List, [], ◌∷◌, Option, none, some, update_ne, arith,
}

abbrev pub InRange : Chain → Type 0
InRange c = (c.first < num) × (c.second < num) × (c.third < num)

-- The descriptors of some requests.
abbrev pub flat : List Chain → List ℕ
flat [] = []
flat (c ∷ cs) = members c (flat cs)

abbrev pub AllLinked : Queue → List Chain → Type 0
AllLinked q [] = Unit {0}
AllLinked q (c ∷ cs) = InRange c × Linked c q × AllLinked q cs

-- Each descriptor is free or belongs to one of the requests, once, and each request is a chain.
abbrev pub Exact : List Chain → Queue → Type 0
Exact cs q = Owned (flat cs) q × AllLinked q cs

-- The descriptors of the list are as before.
abbrev pub Same : List ℕ → Queue → Queue → Type 0
Same l q q1 = (j : ℕ) → count j l ≢ 0 → q1.desc j ≡ q.desc j

Linked-Same :
    (c : Chain) (l : List ℕ) (q q1 : Queue) → Same (members c l) q q1 → Linked c q → Linked c q1
Linked-Same c l q q1 same (f0, n0, f1, n1, f2) =
    let e0 = same c.first (λ z. ground (arith, z)) in
    let e1 = same c.second (λ z. ground (arith, z)) in
    let e2 = same c.third (λ z. ground (arith, z)) in
    (
      ap (λ (d : Desc). d.flags % 2) e0 ∙ f0,
      ap (λ (d : Desc). d.next) e0 ∙ n0,
      ap (λ (d : Desc). d.flags % 2) e1 ∙ f1,
      ap (λ (d : Desc). d.next) e1 ∙ n1,
      ap (λ (d : Desc). d.flags % 2) e2 ∙ f2,
    )

pub AllLinked-Same :
    (cs : List Chain) (q q1 : Queue) → Same (flat cs) q q1 → AllLinked q cs → AllLinked q1 cs
AllLinked-Same [] q q1 same h = tt
AllLinked-Same (c ∷ cs) q q1 same (r, k, h) = (
  r,
  Linked-Same c (flat cs) q q1 same k,
  AllLinked-Same cs q q1 (λ j ne. same j (λ z. ne (omega arith))) h,
)

-- What a start leaves: no request, or one more.
abbrev pub Taken3 : List ℕ → Queue → Option (Option Chain × Queue) → Type 0
Taken3 l q none = ⊥
Taken3 l q (some (none, q1)) = Owned l q1 × Same l q q1
Taken3 l q (some (some c, q1)) = InRange c × Owned (members c l) q1 × (q1.desc ≡ q.desc)

undo_one-Taken3 :
    (l : List ℕ) (a : ℕ) (q q1 : Queue)
    → a < num
    → count a l ≡ 0
    → Owned (a ∷ l) q1
    → Same l q q1
    → Taken3 l q (undo_one a q1)
unfolding undo_one
undo_one-Taken3 l a q q1 lt z own same = back (free_desc a q1) (free_desc-Freed l a q1 lt own)
  where
    back :
        (o : Option Queue)
        → Freed l a q1 o
        → Taken3 l q (elim o [ none ↦ none | some q2 ↦ some (none, q2) ])
    back none h = h
    back (some q2) (own2, d) = (
      own2,
      λ j ne.
          let other : a ≢ j = λ e. ne (ap (λ i. count i l) (sym e) ∙ z) in
          ap (λ d. d j) d ∙ update_ne q1.desc a j cleared other ∙ same j ne,
    )

undo_two-Taken3 :
    (l : List ℕ) (a b : ℕ) (q q1 : Queue)
    → a < num
    → b < num
    → Owned (a ∷ b ∷ l) q1
    → q1.desc ≡ q.desc
    → Taken3 l q (undo_two a b q1)
unfolding undo_two
undo_two-Taken3 l a b q q1 la lb own same =
    back (free_desc a q1) (free_desc-Freed (b ∷ l) a q1 la own)
  where
    back :
        (o : Option Queue)
        → Freed (b ∷ l) a q1 o
        → Taken3 l q (elim o [ none ↦ none | some q2 ↦ undo_one b q2 ])
    back none h = h
    back (some q2) (own2, d) =
        let za : count a l ≡ 0 = ground (arith, own a la) in
        let zb : count b l ≡ 0 = ground (arith, own b lb) in
        undo_one-Taken3 l b q q2 lb zb own2 (λ j ne.
          let other : a ≢ j = λ e. ne (ap (λ i. count i l) (sym e) ∙ za) in
          ap (λ d. d j) d ∙ update_ne q1.desc a j cleared other ∙ ap (λ d. d j) same)

pub alloc3_desc-Taken3 : (l : List ℕ) (q : Queue) → Owned l q → Taken3 l q (alloc3_desc q)
unfolding alloc3_desc
alloc3_desc-Taken3 l q own = one (alloc_desc q) (alloc_desc-Allocated l q own)
  where
    three :
        (a b : ℕ) (q1 q2 : Queue) (o : Option (ℕ × Queue))
        → a < num
        → b < num
        → Owned (b ∷ a ∷ l) q2
        → q2.desc ≡ q.desc
        → Allocated (b ∷ a ∷ l) q2 o
        → Taken3 l q (elim o [
          | none ↦ undo_two a b q2
          | some (c, q3) ↦ some (some (record { first = a; second = b; third = c }), q3)
        ])
    three a b q1 q2 none la lb own2 d h =
        undo_two-Taken3 l a b q q2 la lb (λ j lt. ground (arith, own2 j lt)) d
    three a b q1 q2 (some (c, q3)) la lb own2 d h =
        ((la, lb, h.0), (λ j lt. ground (arith, h.1 j lt)), h.2 ∙ d)

    two :
        (a : ℕ) (q1 : Queue) (o : Option (ℕ × Queue))
        → a < num
        → count a l ≡ 0
        → Owned (a ∷ l) q1
        → q1.desc ≡ q.desc
        → Allocated (a ∷ l) q1 o
        → Taken3 l q (elim o [
          | none ↦ undo_one a q1
          | some (b, q2) ↦ elim (alloc_desc q2) [
            | none ↦ undo_two a b q2
            | some (c, q3) ↦ some (some (record { first = a; second = b; third = c }), q3)
          ]
        ])
    two a q1 none la z own1 d h = undo_one-Taken3 l a q q1 la z own1 (λ j ne. ap (λ d. d j) d)
    two a q1 (some (b, q2)) la z own1 d h =
        three a b q1 q2 (alloc_desc q2) la h.0 h.1 (h.2 ∙ d)
          (alloc_desc-Allocated (b ∷ a ∷ l) q2 h.1)

    one :
        (o : Option (ℕ × Queue))
        → Allocated l q o
        → Taken3 l q (elim o [
          | none ↦ some (none, q)
          | some (a, q1) ↦ elim (alloc_desc q1) [
            | none ↦ undo_one a q1
            | some (b, q2) ↦ elim (alloc_desc q2) [
              | none ↦ undo_two a b q2
              | some (c, q3) ↦ some (some (record { first = a; second = b; third = c }), q3)
            ]
          ]
        ])
    one none h = (own, λ j ne. refl)
    one (some (a, q1)) h =
        two a q1 (alloc_desc q1) h.0 h.3 h.1 h.2 (alloc_desc-Allocated (a ∷ l) q1 h.1)
