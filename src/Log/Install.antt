-- ===== src/Log/Install.antt =====
-- What the loop of `install_trans` does to the disk.
use xv7_riscv.Prelude.{
  ℕ, zero, suc, ◌+◌, ◌-◌, ◌≤◌, ◌<◌, ◌≡◌, ◌≢◌, ◌⊎◌, ◌∙◌, inl, inr, refl, arith, Bool, true, false,
  ◌||◌, ◌==◌, if◌then◌else◌, dec_lt, Bool-cases, ap, ℕ_discrete,
}
use native.Mathlib.Numerals.{add-one}
use xv7_riscv.BlockStore.{Block, Store}
use xv7_riscv.Log.{Log, install_block, install_from}
use xv7_riscv.Log.Blocks.{IsHome}

-- Block c is one of the first k blocks of a header.
unfoldable pub logged : ℕ → (ℕ → ℕ) → ℕ → Bool
logged zero block c = false
logged (suc k) block c = (block k == c) || logged k block c

pub logged-true :
    (k : ℕ) (block : ℕ → ℕ) (c : ℕ) → logged k block c ≡ true → (j : ℕ) × (j < k) × (block j ≡ c)
unfolding logged
logged-true zero block c h = absurd (ground arith)
logged-true (suc k) block c h = elim (Bool-cases (block k == c)) [
  | inl e ↦ (k, omega arith, ground arith)
  | inr e ↦ let (j, lt, q) = logged-true k block c (ground arith) in (j, omega arith, q)
]

pub logged-false :
    (k : ℕ) (block : ℕ → ℕ) (c j : ℕ) → logged k block c ≡ false → j < k → block j ≢ c
unfolding logged
logged-false zero block c j h lt = absurd (omega arith)
logged-false (suc k) block c j h lt = elim (dec_lt j k) [
  | yes q ↦ logged-false k block c j (ground arith) q
  | no q ↦ let e : j ≡ k = omega arith in rw e (ground arith)
]

pub logged_intro : (k : ℕ) (block : ℕ → ℕ) (j : ℕ) → j < k → logged k block (block j) ≡ true
unfolding logged
logged_intro zero block j lt = absurd (omega arith)
logged_intro (suc k) block j lt = elim (dec_lt j k) [
  | yes q ↦ ground (arith, logged_intro k block j q)
  | no q ↦ let e : j ≡ k = omega arith in rw e (ground arith)
]

pub logged_ext :
    (k : ℕ) (f g : ℕ → ℕ) (c : ℕ) → ((j : ℕ) → j < k → f j ≡ g j) → logged k f c ≡ logged k g c
unfolding logged
logged_ext zero f g c h = refl
logged_ext (suc k) f g c h = rw (h k (omega arith), logged_ext k f g c (λ j lt. h j (omega arith)))

pub logged-suc :
    (k : ℕ) (block : ℕ → ℕ) (c : ℕ) → logged (k + 1) block c ≡ ((block k == c) || logged k block c)
unfolding logged
logged-suc k block c = rw add-one

module _ (recovering : Bool) (t : ℕ) (log : Log) (s : Store) where
  install_block-power : (install_block recovering t log s).power ≡ s.power - 1
  unfolding install_block
  install_block-power = ground arith

  install_block-view :
      (c : ℕ)
      → log.lh.block t ≢ c
      → log.start + t + 1 ≢ c
      → (install_block recovering t log s).view c ≡ s.view c
  unfolding install_block
  install_block-view c h q = ground arith

  install_block-disk :
      (c : ℕ)
      → (install_block recovering t log s).disk c ≡ (
          if s.power == 0
          then s.disk c
          else if log.lh.block t == c
          then s.view (log.start + t + 1)
          else s.disk c)
  unfolding install_block
  install_block-disk c = ground arith

module _ (recovering : Bool) (log : Log) where
  pub install_from-power :
      (k t : ℕ) (s : Store) → (install_from k t recovering log s).power ≡ s.power - k
  unfolding install_from
  install_from-power zero t s = omega arith
  install_from-power (suc k) t s = omega (
    arith,
    install_from-power k (t + 1) (install_block recovering t log s),
    install_block-power recovering t log s,
  )

  pub install_from-no_power :
      (k t : ℕ) (s : Store) (c : ℕ)
      → s.power ≡ 0
      → (install_from k t recovering log s).disk c ≡ s.disk c
  unfolding install_from
  install_from-no_power zero t s c h = refl
  install_from-no_power (suc k) t s c h =
      install_from-no_power k (t + 1) (install_block recovering t log s) c
        (omega (arith, install_block-power recovering t log s))
      ∙ ground (arith, install_block-disk recovering t log s c)

  -- Only the blocks of the header are written.
  pub install_from-disk_other :
      (k t : ℕ) (s : Store) (c : ℕ)
      → ((j : ℕ) → j < t + k → log.lh.block j ≢ c)
      → (install_from k t recovering log s).disk c ≡ s.disk c
  unfolding install_from
  install_from-disk_other zero t s c h = refl
  install_from-disk_other (suc k) t s c h =
      install_from-disk_other k (t + 1) (install_block recovering t log s) c
        (λ j q. h j (omega arith))
      ∙ ground (arith, h t (omega arith), install_block-disk recovering t log s c)

module _ (recovering : Bool) (n : ℕ) (log : Log) (v : ℕ → Block) where
  -- From round t on the log blocks are read as v at the blocks of the header.
  abbrev pub LogViews : ℕ → Store → Type 0
  LogViews t s = (j : ℕ) → t ≤ j → j < n → s.view (log.start + j + 1) ≡ v (log.lh.block j)

  install_block-LogViews :
      (t : ℕ) (s : Store)
      → ((j : ℕ) → j < n → IsHome n log (log.lh.block j))
      → t < n
      → LogViews t s
      → LogViews (t + 1) (install_block recovering t log s)
  install_block-LogViews t s home lt h j lo hi =
      install_block-view recovering t log s (log.start + j + 1) (omega (arith, home t lt))
        (omega arith)
      ∙ h j (omega arith) hi

  -- With power for every round each block of the header ends as v.
  pub install_from-disk :
      (k t : ℕ) (s : Store) (j : ℕ)
      → ((j : ℕ) → j < n → IsHome n log (log.lh.block j))
      → t + k ≡ n
      → LogViews t s
      → k ≤ s.power
      → (t ≤ j) ⊎ (s.disk (log.lh.block j) ≡ v (log.lh.block j))
      → j < n
      → (install_from k t recovering log s).disk (log.lh.block j) ≡ v (log.lh.block j)
  unfolding install_from
  install_from-disk zero t s j home e h p (inl lo) hi = absurd (omega arith)
  install_from-disk zero t s j home e h p (inr q) hi = q
  install_from-disk (suc k) t s j home e h p lo hi =
      install_from-disk k (t + 1) (install_block recovering t log s) j home (omega arith)
        (install_block-LogViews t s home (omega arith) h)
        (omega (arith, install_block-power recovering t log s)) (next lo) hi
    where
      written :
          log.lh.block t ≡ log.lh.block j
          → (install_block recovering t log s).disk (log.lh.block j) ≡ v (log.lh.block j)
      written q = ground (
        arith,
        install_block-disk recovering t log s (log.lh.block j),
        h t (omega arith) (omega arith),
      )

      next :
          (t ≤ j) ⊎ (s.disk (log.lh.block j) ≡ v (log.lh.block j))
          → (t + 1 ≤ j)
            ⊎ ((install_block recovering t log s).disk (log.lh.block j) ≡ v (log.lh.block j))
      next old = elim (ℕ_discrete (log.lh.block t) (log.lh.block j)) [
        | yes q ↦ inr (written q)
        | no q ↦ elim old [
          | inl lo ↦ elim (dec_lt t j) [
            | yes lt ↦ inl (omega arith)
            | no ge ↦ absurd (q (ap log.lh.block (omega arith)))
          ]
          | inr done ↦ inr (ground (arith, install_block-disk recovering t log s (log.lh.block j)))
        ]
      ]
