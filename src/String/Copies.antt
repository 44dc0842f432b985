-- ===== src/String/Copies.antt =====
-- What `strncpy` and `safestrcpy` write.
use xv7_riscv.String.Moves.{memset_lem}
use xv7_riscv.String.{copy_from, pad, strncpy, safestrcpy, Memory, memset, memset_from}
use xv7_riscv.Prelude.{
  ℕ, ◌≤◌, arith, ◌+◌, ◌<◌, ◌⊎◌, inl, ◌≢◌, ◌≡◌, suc, update, ◌-◌, ℕ_discrete, ==_iff, update_ne, inr,
  ne→==_false, zero, refl, subst, ◌∙◌, ap, sym, rounds, if◌then◌else◌, leb, ◌&&◌, ltb, dec_lt,
}

-- The k bytes from t on, of which none is null.
abbrev pub NonNull : ℕ → ℕ → Memory → Type 0
NonNull t k m = (a : ℕ) → t ≤ a → a < t + k → m a ≢ 0

-- The k bytes from s on and the k bytes from t on do not overlap.
abbrev pub Apart : ℕ → ℕ → ℕ → Type 0
Apart s t k = (s + k ≤ t) ⊎ (t + k ≤ s)

-- How `copy_from` ends: `count` bytes that are not null are copied; then all k are done, or a null byte
-- is copied as well.
record Copied (k s t : ℕ) (m : Memory) (r : ℕ × ℕ × Memory) : Type 0 where
  count : ℕ
  full : NonNull t count m
  bytes : (a : ℕ) → s ≤ a → a < s + count → r.2 a ≡ m (t + (a - s))
  other : (a : ℕ) → (a < s) ⊎ (s + k ≤ a) → r.2 a ≡ m a
  ending :
      ((count ≡ k) × (r.0 ≡ 0) × (r.1 ≡ s + k))
      ⊎ ((r.0 + count + 1 ≡ k)
          × (m (t + count) ≡ 0)
          × (r.1 ≡ s + count + 1)
          × (r.2 (s + count) ≡ 0)
          × ((a : ℕ) → s + count < a → r.2 a ≡ m a))

count_le : {k s t : ℕ} {m : Memory} {r : ℕ × ℕ × Memory} (c : Copied k s t m r) → c.count ≤ k
count_le c = elim c.ending [ inl h ↦ omega arith | inr h ↦ omega arith ]

module _ (k s t : ℕ) (m : Memory) (apart : Apart s t (suc k)) (ne : m t ≢ 0) where
  unchanged : (a : ℕ) → s ≢ a → update m s (m t) a ≡ m a
  unchanged a h = update_ne m s a (m t) h

  Copied-next :
      (r : ℕ × ℕ × Memory) → Copied k (s + 1) (t + 1) (update m s (m t)) r → Copied (suc k) s t m r
  Copied-next r c =
      let small : c.count ≤ k = count_le c in
      record {
        count = c.count + 1;
        full = λ a lo hi. elim (ℕ_discrete t a) [
          | yes e ↦ subst (λ (x : ℕ). m x ≢ 0) e ne
          | no q ↦ λ z. c.full a (omega arith) (omega arith) (unchanged a (omega arith) ∙ z)
        ];
        bytes = λ a lo hi. elim (ℕ_discrete s a) [
          | yes e ↦ c.other a (inl (omega arith)) ∙ ground arith
          | no q ↦
              c.bytes a (omega arith) (omega arith)
              ∙ unchanged (t + 1 + (a - (s + 1))) (omega arith)
              ∙ ap m (omega arith)
        ];
        other = λ a h. c.other a (omega arith) ∙ unchanged a (omega arith);
        ending = elim c.ending [
          | inl (e, z, p) ↦ inl (omega arith, z, omega arith)
          | inr (e, null, p, z, rest) ↦ inr (
            omega arith,
            ap m (omega arith) ∙ sym (unchanged (t + 1 + c.count) (omega arith)) ∙ null,
            omega arith,
            ap r.2 (omega arith) ∙ z,
            λ a h. rest a (omega arith) ∙ unchanged a (omega arith),
          )
        ];
      }

copy_from-Copied : (k s t : ℕ) (m : Memory) → Apart s t k → Copied k s t m (copy_from k s t m)
unfolding copy_from
copy_from-Copied zero s t m apart = record {
  count = 0;
  full = λ a lo hi. absurd (omega arith);
  bytes = λ a lo hi. absurd (omega arith);
  other = λ a h. refl;
  ending = inl (refl, refl, omega arith);
}
copy_from-Copied (suc k) s t m apart = elim (ℕ_discrete (m t) 0) [
  | yes z ↦ rw ((==_iff (m t) 0).1 z) (record {
    count = 0;
    full = λ a lo hi. absurd (omega arith);
    bytes = λ a lo hi. absurd (omega arith);
    other = λ a h. update_ne m s a (m t) (omega arith);
    ending = inr (
      omega arith,
      ground arith,
      omega arith,
      ground arith,
      λ a h. update_ne m s a (m t) (omega arith),
    );
  })
  | no ne ↦
      rw (ne→==_false (m t) 0 ne)
        (Copied-next k s t m apart ne _ (copy_from-Copied k (s + 1) (t + 1) _ (omega arith)))
]

pad-memset : (k s : ℕ) (m : Memory) → pad k s m ≡ memset s 0 k m
unfolding pad memset memset_from
pad-memset zero s m = refl
pad-memset (suc k) s m = pad-memset k (s + 1) _

pad-at :
    (k s : ℕ) (m : Memory) (a : ℕ) → pad k s m a ≡ (if leb s a && ltb a (s + k) then 0 else m a)
pad-at k s m a = ap (λ (f : Memory). f a) (pad-memset k s m) ∙ memset_lem s 0 k m a

-- What the two loops of `strncpy` leave.
ended :
    (k s t : ℕ) (m : Memory) (r : ℕ × ℕ × Memory) (c : Copied k s t m r) (a : ℕ)
    → (if leb r.1 a && ltb a (r.1 + r.0) then 0 else r.2 a) ≡ (
        if leb s a && ltb a (s + k)
        then if ltb a (s + c.count) then m (t + (a - s)) else 0
        else m a)
ended k s t m r c a =
    let small = count_le c in
    elim (dec_lt a s) [
      | yes below ↦ elim c.ending [
        | inl h ↦ ground (arith, c.other a (inl below))
        | inr h ↦ ground (arith, c.other a (inl below))
      ]
      | no p ↦ elim (dec_lt a (s + k)) [
        | no q ↦ elim c.ending [
          | inl h ↦ ground (arith, c.other a (inr (omega arith)))
          | inr h ↦ ground (arith, c.other a (inr (omega arith)))
        ]
        | yes q ↦ elim (dec_lt a (s + c.count)) [
          | yes x ↦ elim c.ending [
            | inl h ↦ ground (arith, c.bytes a (omega arith) x)
            | inr h ↦ ground (arith, c.bytes a (omega arith) x)
          ]
          | no x ↦ elim c.ending [
            | inl h ↦ absurd (omega arith)
            | inr h ↦ elim (ℕ_discrete (s + c.count) a) [
              | yes e ↦ ground (arith, ap r.2 (sym e) ∙ h.3)
              | no ne ↦ ground arith
            ]
          ]
        ]
      ]
    ]

-- What `safestrcpy` leaves with its last store.
terminated :
    (k s t : ℕ) (m : Memory) (r : ℕ × ℕ × Memory)
    → k ≢ 0
    → Copied (k - 1) s t m r
    → (c : ℕ) × (c < k)
      × NonNull t c m
      × ((c + 1 ≡ k) ⊎ (m (t + c) ≡ 0))
      × ((a : ℕ) → s ≤ a → a < s + c → update r.2 r.1 0 a ≡ m (t + (a - s)))
      × (update r.2 r.1 0 (s + c) ≡ 0)
      × ((a : ℕ) → (a < s) ⊎ (s + k ≤ a) → update r.2 r.1 0 a ≡ m a)
terminated k s t m r ne c =
    let small = count_le c in
    (
      c.count,
      omega arith,
      c.full,
      elim c.ending [ inl h ↦ inl (omega arith) | inr h ↦ inr h.1 ],
      λ a lo hi. elim c.ending [
        | inl h ↦ update_ne r.2 r.1 a 0 (omega arith) ∙ c.bytes a lo hi
        | inr h ↦ update_ne r.2 r.1 a 0 (omega arith) ∙ c.bytes a lo hi
      ],
      elim c.ending [
        | inl h ↦ ground arith
        | inr h ↦ update_ne r.2 r.1 (s + c.count) 0 (omega arith) ∙ h.3
      ],
      λ a x. elim c.ending [
        | inl h ↦ update_ne r.2 r.1 a 0 (omega arith) ∙ c.other a (omega arith)
        | inr h ↦ update_ne r.2 r.1 a 0 (omega arith) ∙ c.other a (omega arith)
      ],
    )

-- Where source and destination do not overlap, `strncpy` copies the bytes before the first null byte
-- of the source, at most n, sets the rest of the n bytes of the destination to null, and changes no
-- other byte.
pub strncpy_lem :
    (s t n : ℕ) (m : Memory)
    → Apart s t (rounds n)
    → (c : ℕ) × (c ≤ rounds n)
      × NonNull t c m
      × ((c ≡ rounds n) ⊎ (m (t + c) ≡ 0))
      × ((a : ℕ)
          → strncpy s t n m a ≡ (
              if leb s a && ltb a (s + rounds n)
              then if ltb a (s + c) then m (t + (a - s)) else 0
              else m a))
unfolding strncpy
strncpy_lem s t n m apart =
    let r = copy_from (rounds n) s t m in
    let c : Copied (rounds n) s t m r = copy_from-Copied (rounds n) s t m apart in
    (
      c.count,
      count_le c,
      c.full,
      elim c.ending [ inl h ↦ inl h.0 | inr h ↦ inr h.1 ],
      λ a. pad-at r.0 r.1 r.2 a ∙ ended (rounds n) s t m r c a,
    )

-- For n above 0, where source and destination do not overlap: `safestrcpy` copies the bytes before the
-- first null byte of the source, at most n - 1, puts a null byte behind them, and changes no byte
-- outside the n bytes of the destination. For any other n it changes nothing.
pub safestrcpy_lem :
    (s t n : ℕ) (m : Memory)
    → Apart s t (rounds n)
    → ((rounds n ≡ 0) × (safestrcpy s t n m ≡ m))
      ⊎ ((c : ℕ) × (c < rounds n)
          × NonNull t c m
          × ((c + 1 ≡ rounds n) ⊎ (m (t + c) ≡ 0))
          × ((a : ℕ) → s ≤ a → a < s + c → safestrcpy s t n m a ≡ m (t + (a - s)))
          × (safestrcpy s t n m (s + c) ≡ 0)
          × ((a : ℕ) → (a < s) ⊎ (s + rounds n ≤ a) → safestrcpy s t n m a ≡ m a))
unfolding safestrcpy
safestrcpy_lem s t n m apart = elim (ℕ_discrete (rounds n) 0) [
  | yes z ↦ inl (z, rw ((==_iff (rounds n) 0).1 z) refl)
  | no ne ↦
      rw (ne→==_false (rounds n) 0 ne) (
        inr
          (terminated (rounds n) s t m _ ne (copy_from-Copied (rounds n - 1) s t m (omega arith))))
]
