-- ===== src/Vm/Copyin/Strings.antt =====
-- What `copyin_str` leaves in the buffer.
use mathlib.Core.Bool.{false≢true}
use xv7_riscv.Kalloc.{Kmem, page_size}
use xv7_riscv.Vm.{walkaddr, page_round_down}
use xv7_riscv.Vm.Copyin.{span, byte_at, copy_string, copyin_from, copyin_str}
use xv7_riscv.Prelude.{
  Option, some, none, if◌then◌else◌, ◌==◌, ℕ, ◌≤◌, ◌<◌, Bool, dec_lt, ◌≡◌, ◌≢◌, ◌⊎◌, true, arith,
  ◌+◌, false, update, suc, inl, ℕ_discrete, ◌∙◌, ==_iff, update_self, update_ne, subst, ne→==_false,
  sym, zero, refl, ap, ◌-◌, inr, Bool-cases,
}

-- The bytes from lo to hi are those of f, which has them all, and none is null.
abbrev pub Full : (ℕ → Option ℕ) → (ℕ → ℕ) → ℕ → ℕ → Type 0
Full f d lo hi = (i : ℕ) → lo ≤ i → i < hi → (f i ≡ some (d i)) × (d i ≢ 0)

-- A string of bytes of f that starts at lo and ends below hi, with the null byte of f.
abbrev pub Ended : (ℕ → Option ℕ) → (ℕ → ℕ) → ℕ → ℕ → Type 0
Ended f d lo hi = (j : ℕ) × (lo ≤ j) × (j < hi) × (d j ≡ 0) × (f j ≡ some 0) × Full f d lo j

-- The bytes outside are as they were.
abbrev pub Outside : (ℕ → ℕ) → (ℕ → ℕ) → ℕ → ℕ → Type 0
Outside d d' lo hi = (a : ℕ) → (a < lo) ⊎ (hi ≤ a) → d' a ≡ d a

record Copied (f : ℕ → Option ℕ) (d d' : ℕ → ℕ) (lo hi : ℕ) (null : Bool) : Type 0 where
  outside : Outside d d' lo hi
  ended : null ≡ true → Ended f d' lo hi
  full : null ≡ false → Full f d' lo hi

-- The end of a string in two parts.
Full-join :
    (f : ℕ → Option ℕ) (d : ℕ → ℕ) (lo mid hi : ℕ)
    → Full f d lo mid
    → Full f d mid hi
    → Full f d lo hi
Full-join f d lo mid hi a b i x y = elim (dec_lt i mid) [
  | yes p ↦ a i x p
  | no p ↦ b i (omega arith) y
]

-- Only the bytes of f in the range count.
Full-same :
    (f g : ℕ → Option ℕ) (d : ℕ → ℕ) (lo hi : ℕ)
    → ((i : ℕ) → lo ≤ i → i < hi → f i ≡ g i)
    → Full f d lo hi
    → Full g d lo hi
Full-same f g d lo hi same full i x y = (sym (same i x y) ∙ (full i x y).0, (full i x y).1)

further :
    (f : ℕ → Option ℕ) (d : ℕ → ℕ) (c to hi : ℕ) (d' : ℕ → ℕ) (null : Bool)
    → c ≢ 0
    → f to ≡ some c
    → to < hi
    → Copied f (update d to c) d' (to + 1) hi null
    → Copied f d d' to hi null
further f d c to hi d' null ne fc lt r =
    let kept : d' to ≡ c = r.outside to (inl (omega arith)) ∙ update_self d to c in
    let first : Full f d' to (to + 1) = λ i a b.
      subst (λ (m : ℕ). (f m ≡ some (d' m)) × (d' m ≢ 0)) (omega arith)
        (fc ∙ ap some (sym kept), λ z. ne (sym kept ∙ z)) in
    record {
      outside = λ a h. r.outside a (omega arith) ∙ update_ne d to a c (omega arith);
      ended = λ t.
          let (j, lo, up, z, fz, full) = r.ended t in
          (j, omega arith, up, z, fz, Full-join f d' to (to + 1) j first full);
      full = λ t. Full-join f d' to (to + 1) hi first (r.full t);
    }

-- f has the n bytes of memory from p on, from index `to` on.
copy_string-Copied :
    (n p to hi : ℕ) (f : ℕ → Option ℕ) (mem d : ℕ → ℕ)
    → hi ≡ to + n
    → ((i : ℕ) → to ≤ i → i < hi → f i ≡ some (byte_at mem (p + (i - to))))
    → Copied f d (copy_string n p to mem d).1 to hi (copy_string n p to mem d).0
unfolding copy_string
copy_string-Copied zero p to hi f mem d e src = record {
  outside = λ a h. refl;
  ended = λ z. absurd (cc);
  full = λ z i a b. absurd (omega arith);
}
copy_string-Copied (suc n) p to hi f mem d e src =
    let here : f to ≡ some (byte_at mem p) =
      src to (omega arith) (omega arith) ∙ ap (λ (a : ℕ). some (byte_at mem a)) (omega arith) in
    elim (ℕ_discrete (byte_at mem p) 0) [
      | yes z ↦ rw ((==_iff (byte_at mem p) 0).1 z) (record {
        outside = λ a h. update_ne d to a 0 (omega arith);
        ended = λ t. (
          to,
          omega arith,
          omega arith,
          update_self d to 0,
          here ∙ ap some z,
          λ i a b. absurd (omega arith),
        );
        full = λ t. absurd (cc);
      })
      | no ne ↦
          let d1 : ℕ → ℕ = update d to (byte_at mem p) in
          let c =
            copy_string-Copied n (p + 1) (to + 1) hi f mem d1 (omega arith) (λ i a b.
              src i (omega arith) b ∙ ap (λ (a : ℕ). some (byte_at mem a)) (omega arith)) in
          rw (ne→==_false (byte_at mem p) 0 ne)
            (further f d (byte_at mem p) to hi _ _ ne here (omega arith) c)
    ]

-- The byte that the user has at address x, if its page is one that the user may access.
abbrev pub user_byte : ℕ → Kmem → ℕ → Option ℕ
user_byte pagetable k x =
    let pa = walkaddr pagetable (page_round_down x) k in
    if pa == 0 then none else some (byte_at k.mem (pa + (x - page_round_down x)))

-- The user's bytes from srcva on, from index `to` on.
abbrev pub user_bytes : ℕ → Kmem → ℕ → ℕ → ℕ → Option ℕ
user_bytes pagetable k srcva to i = user_byte pagetable k (srcva + (i - to))

-- How `copyin_str` ends.
pub record CopiedIn (pagetable srcva : ℕ) (k : Kmem) (d d' : ℕ → ℕ) (to max : ℕ) (ok : Bool)
    : Type 0 where
  pub outside : Outside d d' to (to + max)
  pub ended : ok ≡ true → Ended (user_bytes pagetable k srcva to) d' to (to + max)
  pub failed :
      ok ≡ false
      → Full (user_bytes pagetable k srcva to) d' to (to + max)
        ⊎ ((x : ℕ) × (srcva ≤ x) × (x < srcva + max) × (user_byte pagetable k x ≡ none))

module _ (pagetable : ℕ) (k : Kmem) where
  nowhere : (x : ℕ) → walkaddr pagetable (page_round_down x) k ≡ 0 → user_byte pagetable k x ≡ none
  nowhere x e = rw ((==_iff (walkaddr pagetable (page_round_down x) k) 0).1 e) refl

  -- In what is left of its page an address goes through the same entry.
  in_page :
      (srcva max to i : ℕ)
      → to ≤ i
      → i < to + span srcva max
      → walkaddr pagetable (page_round_down srcva) k ≢ 0
      → user_bytes pagetable k srcva to i
        ≡ some (
            byte_at k.mem (
              walkaddr pagetable (page_round_down srcva) k
              + (srcva - page_round_down srcva)
              + (i - to)))
  in_page srcva max to i lo hi mapped =
      let same : page_round_down (srcva + (i - to)) ≡ page_round_down srcva = omega arith in
      let pa : ℕ = walkaddr pagetable (page_round_down srcva) k in
      ap
        (λ (r : ℕ).
          let pa = walkaddr pagetable r k in
          if pa == 0 then none else some (byte_at k.mem (pa + (srcva + (i - to) - r))))
        same
      ∙ ap
          (λ (b : Bool).
            if b
            then none
            else some (byte_at k.mem (pa + (srcva + (i - to) - page_round_down srcva))))
          (ne→==_false pa 0 mapped)
      ∙ ap (λ (a : ℕ). some (byte_at k.mem a)) (omega arith)

  -- Behind the page the next round counts from its start.
  next_page :
      (srcva max to i : ℕ)
      → to + span srcva max ≤ i
      → i < to + max
      → user_bytes pagetable k (page_round_down srcva + page_size) (to + span srcva max) i
        ≡ user_bytes pagetable k srcva to i
  next_page srcva max to i lo hi = ap (user_byte pagetable k) (omega arith)

  -- A round that fills what is left of a page, and the rounds that follow.
  round-CopiedIn :
      (srcva to max : ℕ) (d d1 d' : ℕ → ℕ) (ok : Bool)
      → Copied (user_bytes pagetable k srcva to) d d1 to (to + span srcva max) false
      → CopiedIn pagetable
          (page_round_down srcva + page_size)
          k
          d1
          d'
          (to + span srcva max)
          (max - span srcva max)
          ok
      → CopiedIn pagetable srcva k d d' to max ok
  round-CopiedIn srcva to max d d1 d' ok c r =
      let f = user_bytes pagetable k srcva to in
      let n : ℕ = span srcva max in
      let g = user_bytes pagetable k (page_round_down srcva + page_size) (to + n) in
      let first : Full f d' to (to + n) = λ i a b.
        let e = r.outside i (inl b) in
        let (s, nz) = c.full refl i a b in (s ∙ ap some (sym e), λ z. nz (sym e ∙ z)) in
      record {
        outside = λ a h. r.outside a (omega arith) ∙ c.outside a (omega arith);
        ended = λ t.
            let (j, lo, up, z, gz, full) = r.ended t in
            (
              j,
              omega arith,
              omega arith,
              z,
              sym (next_page srcva max to j lo (omega arith)) ∙ gz,
              Full-join f d' to (to + n) j first (
                  Full-same g f d' (to + n) j (λ i a b. next_page srcva max to i a (omega arith))
                    full),
            );
        failed = λ t. elim (r.failed t) [
          | inl full ↦ inl (
              Full-join f d' to (to + n) (to + max) first (λ i a b.
                Full-same g f d' (to + n) (to + max) (λ i a b. next_page srcva max to i a b)
                  (λ i a b. full i a (omega arith)) i a b))
          | inr (x, lo, hi, z) ↦ inr (x, omega arith, omega arith, z)
        ];
      }

  copyin_from-CopiedIn :
      (fuel : ℕ) (d : ℕ → ℕ) (to srcva max : ℕ)
      → max ≤ fuel
      → CopiedIn pagetable srcva k d
          (copyin_from fuel pagetable d to srcva max k).1
          to
          max
          (copyin_from fuel pagetable d to srcva max k).0
  unfolding copyin_from
  copyin_from-CopiedIn zero d to srcva max enough = record {
    outside = λ a h. refl;
    ended = λ t. absurd (false≢true t);
    failed = λ t. inl (λ i a b. absurd (omega arith));
  }
  copyin_from-CopiedIn (suc fuel) d to srcva max enough = elim (ℕ_discrete max 0) [
    | yes z ↦ rw ((==_iff max 0).1 z) (record {
      outside = λ a h. refl;
      ended = λ t. absurd (false≢true t);
      failed = λ t. inl (λ i a b. absurd (omega arith));
    })
    | no some_left ↦
        let pa0 : ℕ = walkaddr pagetable (page_round_down srcva) k in
        let p : ℕ = pa0 + (srcva - page_round_down srcva) in
        let n : ℕ = span srcva max in
        rw (ne→==_false max 0 some_left) (elim (ℕ_discrete pa0 0) [
          | yes unmapped ↦ rw ((==_iff pa0 0).1 unmapped) (record {
            outside = λ a h. refl;
            ended = λ t. absurd (false≢true t);
            failed = λ t. inr (srcva, omega arith, omega arith, nowhere srcva unmapped);
          })
          | no mapped ↦
              let c =
                copy_string-Copied n p to (to + n) (user_bytes pagetable k srcva to) k.mem d refl
                  (λ i a b. in_page srcva max to i a b mapped) in
              rw (ne→==_false pa0 0 mapped) (elim (Bool-cases (copy_string n p to k.mem d).0) [
                | inl null ↦ rw null (record {
                  outside = λ a h. c.outside a (omega arith);
                  ended = λ t.
                      let (j, lo, up, z, fz, f) = c.ended null in (j, lo, omega arith, z, fz, f);
                  failed = λ t. absurd (false≢true (sym t));
                })
                | inr more ↦ rw more (
                    round-CopiedIn srcva to max d _ _ _
                      (subst
                        (Copied (user_bytes pagetable k srcva to) d (copy_string n p to k.mem d).1
                          to (to + n))
                        more c)
                      (copyin_from-CopiedIn fuel (copy_string n p to k.mem d).1 (to + n)
                        (page_round_down srcva + page_size) (max - n) (omega arith)))
              ])
        ])
  ]

-- `copyin_str` changes only the first max bytes of the buffer. If it succeeds, they start with the
-- bytes that the user has from srcva on, up to the first null byte and with it, all of them in pages
-- that the user may access. If it fails, all max bytes are the user's and none is null, or one of the
-- max addresses from srcva on is in no page that the user may access.
pub copyin_str_lem :
    (pagetable : ℕ) (d : ℕ → ℕ) (srcva max : ℕ) (k : Kmem)
    → CopiedIn pagetable srcva k d
        (copyin_str pagetable d srcva max k).1
        0
        max
        (copyin_str pagetable d srcva max k).0
unfolding copyin_str
copyin_str_lem pagetable d srcva max k =
    copyin_from-CopiedIn pagetable k max d 0 srcva max (omega arith)
