-- ===== src/String/Moves.antt =====
-- What `memset` and `memmove` write.
use xv7_riscv.String.{memset, memset_from, memmove, move_up, move_down, Memory}
use xv7_riscv.Prelude.{
  ℕ, ◌<◌, ◌≤◌, ◌≡◌, ◌⊎◌, ◌+◌, if◌then◌else◌, suc, leb, ◌%◌, ◌-◌, arith, ◌&&◌, ◌∙◌, ℕ_discrete, ltb,
  inl, dec_lt, inr, Bool-cases, zero, update_ne, refl, ap,
}

memset_from-other :
    (k p c : ℕ) (m : Memory) (a : ℕ) → (a < p) ⊎ (p + k ≤ a) → memset_from k p c m a ≡ m a
unfolding memset_from
memset_from-other zero p c m a h = refl
memset_from-other (suc k) p c m a h = memset_from-other k (p + 1) c _ a (omega arith) ∙ ground arith

memset_from-set :
    (k p c : ℕ) (m : Memory) (a : ℕ) → p ≤ a → a < p + k → memset_from k p c m a ≡ c % 256
unfolding memset_from
memset_from-set zero p c m a lo hi = absurd (omega arith)
memset_from-set (suc k) p c m a lo hi = elim (ℕ_discrete p a) [
  | yes e ↦ memset_from-other k (p + 1) c _ a (inl (omega arith)) ∙ ground arith
  | no ne ↦ memset_from-set k (p + 1) c _ a (omega arith) (omega arith)
]

-- `memset` sets the n bytes from dst on to the low byte of c, and no other byte.
pub memset_lem :
    (dst c n : ℕ) (m : Memory) (a : ℕ)
    → memset dst c n m a ≡ (if leb dst a && ltb a (dst + n) then c % 256 else m a)
unfolding memset
memset_lem dst c n m a = elim (dec_lt a dst) [
  | yes below ↦ memset_from-other n dst c m a (inl below) ∙ ground arith
  | no p ↦ elim (dec_lt a (dst + n)) [
    | yes q ↦ memset_from-set n dst c m a (omega arith) q ∙ ground arith
    | no q ↦ memset_from-other n dst c m a (inr (omega arith)) ∙ ground arith
  ]
]

move_up-other : (k s d : ℕ) (m : Memory) (a : ℕ) → (a < d) ⊎ (d + k ≤ a) → move_up k s d m a ≡ m a
unfolding move_up
move_up-other zero s d m a h = refl
move_up-other (suc k) s d m a h = move_up-other k (s + 1) (d + 1) _ a (omega arith) ∙ ground arith

move_up-moved :
    (k s d : ℕ) (m : Memory) (a : ℕ)
    → (d ≤ s) ⊎ (s + k ≤ d)
    → d ≤ a
    → a < d + k
    → move_up k s d m a ≡ m (s + (a - d))
unfolding move_up
move_up-moved zero s d m a apart lo hi = absurd (omega arith)
move_up-moved (suc k) s d m a apart lo hi = elim (ℕ_discrete d a) [
  | yes e ↦ move_up-other k (s + 1) (d + 1) _ a (inl (omega arith)) ∙ ground arith
  | no ne ↦
      let same : s + 1 + (a - (d + 1)) ≡ s + (a - d) = omega arith in
      move_up-moved k (s + 1) (d + 1) _ a (omega arith) (omega arith) (omega arith)
      ∙ update_ne m d (s + 1 + (a - (d + 1))) (m s) (omega arith)
      ∙ ap m same
]

-- `s'` and `d'` are the pointers of the loop, behind the k bytes from s and d on.
move_down-other :
    (k d s' d' : ℕ) (m : Memory) (a : ℕ)
    → d' ≡ d + k
    → (a < d) ⊎ (d + k ≤ a)
    → move_down k s' d' m a ≡ m a
unfolding move_down
move_down-other zero d s' d' m a e h = refl
move_down-other (suc k) d s' d' m a e h =
    move_down-other k d (s' - 1) (d' - 1) _ a (omega arith) (omega arith) ∙ ground arith

move_down-moved :
    (k s d s' d' : ℕ) (m : Memory) (a : ℕ)
    → s' ≡ s + k
    → d' ≡ d + k
    → s ≤ d
    → d ≤ a
    → a < d + k
    → move_down k s' d' m a ≡ m (s + (a - d))
unfolding move_down
move_down-moved zero s d s' d' m a es ed below lo hi = absurd (omega arith)
move_down-moved (suc k) s d s' d' m a es ed below lo hi = elim (ℕ_discrete (d + k) a) [
  | yes e ↦
      let from : s' - 1 ≡ s + (a - d) = omega arith in
      move_down-other k d (s' - 1) (d' - 1) _ a (omega arith) (inr (omega arith)) ∙ ground arith
  | no ne ↦
      move_down-moved k s d (s' - 1) (d' - 1) _ a (omega arith) (omega arith) below lo (omega arith)
      ∙ update_ne m (d' - 1) (s + (a - d)) (m (s' - 1)) (omega arith)
]

-- After `memmove` the n bytes from dst on are what the n bytes from src on were, also where the two
-- overlap, and no other byte has changed.
pub memmove_lem :
    (dst src n : ℕ) (m : Memory) (a : ℕ)
    → memmove dst src n m a ≡ (if leb dst a && ltb a (dst + n) then m (src + (a - dst)) else m a)
unfolding memmove
memmove_lem dst src n m a = elim (Bool-cases (leb dst a && ltb a (dst + n))) [
  | inl inside ↦ elim (Bool-cases (ltb src dst && ltb dst (src + n))) [
    | inl down ↦ ground (
      arith,
      move_down-moved n src dst (src + n) (dst + n) m a refl refl (ground arith) (ground arith)
          (ground arith),
    )
    | inr up ↦
        ground (arith, move_up-moved n src dst m a (ground arith) (ground arith) (ground arith))
  ]
  | inr outside ↦ elim (Bool-cases (ltb src dst && ltb dst (src + n))) [
    | inl down ↦ ground (arith, move_down-other n dst (src + n) (dst + n) m a refl (ground arith))
    | inr up ↦ ground (arith, move_up-other n src dst m a (ground arith))
  ]
]
