-- ===== src/Virtio/Descriptors.antt =====
-- The descriptors of kernel/virtio_disk.c: each is free, or belongs to one request.
use xv7_riscv.Virtio.{
  num, Desc, Queue, Chain, find_desc, alloc_desc, free_desc, free_chain, cleared,
}
use xv7_riscv.Fs.Holders.{count}
use xv7_riscv.Prelude.{
  update_ne, ℕ, zero, suc, ◌+◌, ◌%◌, ◌≤◌, ◌<◌, ◌≡◌, ◌≢◌, refl, sym, ◌∙◌, ap, subst, Bool, true,
  false, Bool-cases, inl, inr, leb, ◌||◌, List, [], ◌∷◌, Option, none, some, update, arith,
}

abbrev pub bit : Bool → ℕ
bit true = 1
bit false = 0

-- Each descriptor is free, or once in the list.
abbrev pub Owned : List ℕ → Queue → Type 0
Owned l q = (j : ℕ) → j < num → bit (q.free j) + count j l ≡ 1

-- What an allocation gives.
abbrev pub Allocated : List ℕ → Queue → Option (ℕ × Queue) → Type 0
Allocated l q none = Unit {0}
Allocated l q (some (i, q1)) = (i < num) × Owned (i ∷ l) q1 × (q1.desc ≡ q.desc) × (count i l ≡ 0)

abbrev FreeAt : (ℕ → Bool) → Option ℕ → Type 0
FreeAt free none = Unit {0}
FreeAt free (some i) = (i < num) × (free i ≡ true)

find_desc-FreeAt : (k i : ℕ) (free : ℕ → Bool) → i + k ≤ num → FreeAt free (find_desc k i free)
unfolding find_desc
find_desc-FreeAt zero i free le = tt
find_desc-FreeAt (suc k) i free le = elim (Bool-cases (free i)) [
  | inl e ↦ rw e (omega arith, e)
  | inr e ↦ rw e (find_desc-FreeAt k (i + 1) free (omega arith))
]

pub alloc_desc-Allocated : (l : List ℕ) (q : Queue) → Owned l q → Allocated l q (alloc_desc q)
unfolding alloc_desc
alloc_desc-Allocated l q own =
    got (find_desc num 0 q.free) (find_desc-FreeAt num 0 q.free (omega arith))
  where
    got :
        (o : Option ℕ)
        → FreeAt q.free o
        → Allocated l q
            (elim o [ none ↦ none | some i ↦ some (i, record q { free = update q.free i false }) ])
    got none h = tt
    got (some i) (lt, e) =
        (lt, λ j le. ground (arith, own j le, e), refl, ground (arith, own i lt, e))

-- A descriptor that is given back.
abbrev pub Freed : List ℕ → ℕ → Queue → Option Queue → Type 0
Freed l i q none = ⊥
Freed l i q (some q1) = Owned l q1 × (q1.desc ≡ update q.desc i cleared)

pub free_desc-Freed :
    (l : List ℕ) (i : ℕ) (q : Queue) → i < num → Owned (i ∷ l) q → Freed l i q (free_desc i q)
unfolding free_desc
free_desc-Freed l i q lt own =
    let e : (leb num i || q.free i) ≡ false = ground (arith, own i lt) in
    rw e (λ j le. ground (arith, own j le, own i lt), refl)

-- A request that has been formatted: its descriptors are a chain of three.
abbrev pub Linked : Chain → Queue → Type 0
Linked c q =
    ((q.desc c.first).flags % 2 ≡ 1)
    × ((q.desc c.first).next ≡ c.second)
    × ((q.desc c.second).flags % 2 ≡ 1)
    × ((q.desc c.second).next ≡ c.third)
    × ((q.desc c.third).flags % 2 ≡ 0)

abbrev pub members : Chain → List ℕ → List ℕ
members c l = c.first ∷ c.second ∷ c.third ∷ l

-- `free_chain` gives back the three descriptors of a request.
abbrev pub Returned : List ℕ → Chain → Queue → Option Queue → Type 0
Returned l c q none = ⊥
Returned l c q (some q1) =
    Owned l q1 × ((j : ℕ) → count j (members c []) ≡ 0 → q1.desc j ≡ q.desc j)

Freed-some :
    (l : List ℕ) (i : ℕ) (q : Queue) (o : Option Queue)
    → Freed l i q o
    → (q1 : Queue) × (o ≡ some q1) × Owned l q1 × (q1.desc ≡ update q.desc i cleared)
Freed-some l i q none h = absurd h
Freed-some l i q (some q1) h = (q1, refl, h.0, h.1)

free_chain-next :
    (k : ℕ) (l : List ℕ) (i : ℕ) (q : Queue)
    → i < num
    → Owned (i ∷ l) q
    → (q.desc i).flags % 2 ≡ 1
    → (q1 : Queue) × Owned l q1
      × (q1.desc ≡ update q.desc i cleared)
      × (free_chain (suc k) i q ≡ free_chain k (q.desc i).next q1)
unfolding free_chain
free_chain-next k l i q lt own odd =
    let (q1, e, own1, d) = Freed-some l i q (free_desc i q) (free_desc-Freed l i q lt own) in
    (q1, own1, d, rw (free_chain, e, odd) refl)

free_chain-last :
    (k : ℕ) (l : List ℕ) (i : ℕ) (q : Queue)
    → i < num
    → Owned (i ∷ l) q
    → (q.desc i).flags % 2 ≡ 0
    → Freed l i q (free_chain (suc k) i q)
unfolding free_chain
free_chain-last k l i q lt own even =
    let (q1, e, own1, d) = Freed-some l i q (free_desc i q) (free_desc-Freed l i q lt own) in
    rw (free_chain, e, even) (own1, d)

-- The descriptors of a request are three.
pub apart :
    (l : List ℕ) (c : Chain) (q : Queue)
    → c.first < num
    → c.second < num
    → Owned (members c l) q
    → (c.first ≢ c.second) × (c.first ≢ c.third) × (c.second ≢ c.third)
apart l c q l0 l1 own =
    let a = own c.first l0 in
    let b = own c.second l1 in
    (λ e. ground (arith, a, e), λ e. ground (arith, a, e), λ e. ground (arith, b, e))

update-ne3 :
    (d d1 d2 d3 : ℕ → Desc) (c : Chain) (j : ℕ)
    → d1 ≡ update d c.first cleared
    → d2 ≡ update d1 c.second cleared
    → d3 ≡ update d2 c.third cleared
    → count j (members c []) ≡ 0
    → d3 j ≡ d j
update-ne3 d d1 d2 d3 c j e1 e2 e3 z =
    let n0 : c.first ≢ j = λ e. ground (arith, z, e) in
    let n1 : c.second ≢ j = λ e. ground (arith, z, e) in
    let n2 : c.third ≢ j = λ e. ground (arith, z, e) in
    ap (λ d. d j) e3
    ∙ update_ne d2 c.third j cleared n2
    ∙ ap (λ d. d j) e2
    ∙ update_ne d1 c.second j cleared n1
    ∙ ap (λ d. d j) e1
    ∙ update_ne d c.first j cleared n0

Returned-Freed :
    (l : List ℕ) (c : Chain) (q q1 q2 : Queue) (o : Option Queue)
    → q1.desc ≡ update q.desc c.first cleared
    → q2.desc ≡ update q1.desc c.second cleared
    → Freed l c.third q2 o
    → Returned l c q o
Returned-Freed l c q q1 q2 none d1 d2 h = h
Returned-Freed l c q q1 q2 (some q3) d1 d2 (own, d3) =
    (own, λ j z. update-ne3 q.desc q1.desc q2.desc q3.desc c j d1 d2 d3 z)

pub free_chain-Returned :
    (k : ℕ) (l : List ℕ) (c : Chain) (q : Queue)
    → c.first < num
    → c.second < num
    → c.third < num
    → Owned (members c l) q
    → Linked c q
    → Returned l c q (free_chain (suc (suc (suc k))) c.first q)
free_chain-Returned k l c q l0 l1 l2 own (f0, n0, f1, n1, f2) =
    let (ne01, ne02, ne12) = apart l c q l0 l1 own in
    let (q1, own1, d1, e1) =
      free_chain-next (suc (suc k)) (c.second ∷ c.third ∷ l) c.first q l0 own f0 in
    let same1 : q1.desc c.second ≡ q.desc c.second =
      ap (λ d. d c.second) d1 ∙ update_ne q.desc c.first c.second cleared ne01 in
    let (q2, own2, d2, e2) =
      free_chain-next (suc k) (c.third ∷ l) c.second q1 l1 own1
        (ap (λ (d : Desc). d.flags % 2) same1 ∙ f1) in
    let same2 : q2.desc c.third ≡ q.desc c.third =
      ap (λ d. d c.third) d2
      ∙ update_ne q1.desc c.second c.third cleared ne12
      ∙ ap (λ d. d c.third) d1
      ∙ update_ne q.desc c.first c.third cleared ne02 in
    let steps : free_chain (suc (suc (suc k))) c.first q ≡ free_chain (suc k) c.third q2 =
      e1
      ∙ ap (λ i. free_chain (suc (suc k)) i q1) n0
      ∙ e2
      ∙ ap (λ i. free_chain (suc k) i q2) (ap (λ (d : Desc). d.next) same1 ∙ n1) in
    subst (Returned l c q) (sym steps) (
      Returned-Freed l c q q1 q2 (free_chain (suc k) c.third q2) d1 d2
        (free_chain-last k l c.third q2 l2 own2 (ap (λ (d : Desc). d.flags % 2) same2 ∙ f2)))
