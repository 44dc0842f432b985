-- ===== src/File/Counts.antt =====
-- How many descriptors hold a pointer, for the reference counts of kernel/file.c.
use xv7_riscv.Proc.{nofile}
use xv7_riscv.Prelude.{
  Bool, ℕ, suc, ◌≤◌, ◌<◌, true, update, arith, ◌*◌, false, ◌+◌, ◌≡◌, ℕ_discrete, ◌==◌, zero,
  update_ne, update_self, refl,
}

-- How many of the first k entries of a table hold v.
abbrev pub one_if : Bool → ℕ
one_if true = 1
one_if false = 0

unfoldable pub holds : ℕ → (ℕ → ℕ) → ℕ → ℕ
holds zero g v = 0
holds (suc k) g v = holds k g v + one_if (g k == v)

-- How many descriptors of the first k processes hold v.
unfoldable pub total : ℕ → (ℕ → ℕ → ℕ) → ℕ → ℕ
unfolding holds
total zero o v = 0
total (suc k) o v = total k o v + holds nofile (o k) v

module _ (g : ℕ → ℕ) (i w v : ℕ) where
  holds-outside : (k : ℕ) → k ≤ i → holds k (update g i w) v ≡ holds k g v
  unfolding holds
  holds-outside zero le = refl
  holds-outside (suc k) le = ground (arith, holds-outside k (omega arith))

  pub holds-update :
      (k : ℕ) → i < k → holds k (update g i w) v + one_if (g i == v) ≡ holds k g v + one_if (w == v)
  unfolding holds
  holds-update zero lt = absurd (omega arith)
  holds-update (suc k) lt = elim (ℕ_discrete i k) [
    | yes e ↦ ground (arith, holds-outside k (omega arith))
    | no ne ↦ ground (arith, holds-update k (omega arith))
  ]

module _ (o : ℕ → ℕ → ℕ) (p : ℕ) (g : ℕ → ℕ) (v : ℕ) where
  total-outside : (k : ℕ) → k ≤ p → total k (update o p g) v ≡ total k o v
  unfolding total
  total-outside zero le = refl
  total-outside (suc k) le =
      rw (update_ne o p k g (omega arith)) (rw (total-outside k (omega arith)) refl)

  pub total-update :
      (k : ℕ)
      → p < k
      → total k (update o p g) v + holds nofile (o p) v ≡ total k o v + holds nofile g v
  unfolding total
  total-update zero lt = absurd (omega arith)
  total-update (suc k) lt = elim (ℕ_discrete p k) [
    | yes e ↦ rw (← e) (rw (update_self o p g) (rw (total-outside p (omega arith)) (omega arith)))
    | no ne ↦ let rest = total-update k (omega arith) in rw (update_ne o p k g ne) (omega arith)
  ]

-- A change of one descriptor.
pub total-slot :
    (o : ℕ → ℕ → ℕ) (p fd w v : ℕ)
    → p < 64
    → fd < 16
    → total 64 (update o p (update (o p) fd w)) v + one_if (o p fd == v)
      ≡ total 64 o v + one_if (w == v)
total-slot o p fd w v lp lf =
    let a = total-update o p (update (o p) fd w) v 64 lp in
    let b = holds-update (o p) fd w v 16 lf in omega arith

holds_le : (k : ℕ) (g : ℕ → ℕ) (v : ℕ) → holds k g v ≤ k
unfolding holds
holds_le zero g v = omega arith
holds_le (suc k) g v = ground (arith, holds_le k g v)

pub total_le : (k : ℕ) (o : ℕ → ℕ → ℕ) (v : ℕ) → total k o v ≤ 16 * k
unfolding total
total_le zero o v = omega arith
total_le (suc k) o v = let a = total_le k o v in let b = holds_le 16 (o k) v in omega arith

holds-at : (k : ℕ) (g : ℕ → ℕ) (i : ℕ) → i < k → 1 ≤ holds k g (g i)
unfolding holds
holds-at zero g i lt = absurd (omega arith)
holds-at (suc k) g i lt = elim (ℕ_discrete i k) [
  | yes e ↦ ground arith
  | no ne ↦ ground (arith, holds-at k g i (omega arith))
]

pub total-at : (k : ℕ) (o : ℕ → ℕ → ℕ) (p fd : ℕ) → p < k → fd < 16 → 1 ≤ total k o (o p fd)
unfolding total
total-at zero o p fd lp lf = absurd (omega arith)
total-at (suc k) o p fd lp lf = elim (ℕ_discrete p k) [
  | yes e ↦ let h = holds-at 16 (o p) fd lf in rw (← e) (omega arith)
  | no ne ↦ ground (arith, total-at k o p fd (omega arith) lf)
]
