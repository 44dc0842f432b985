-- ===== src/Log/Blocks.antt =====
-- What one round of each loop of kernel/log.c, and a whole loop, does to the disk and to the cache.
use xv7_riscv.Prelude.{
  sym, ℕ_discrete, inr, inl, dec_lt, ◌∙◌, ℕ, zero, suc, ◌+◌, ◌-◌, ◌≤◌, ◌<◌, ◌≡◌, ◌≢◌, ◌⊎◌, refl,
  arith, ◌==◌, if◌then◌else◌,
}
use xv7_riscv.BlockStore.{Store}
use xv7_riscv.Log.{Log, log_block, log_from}

-- Block c is neither the header nor one of the first n log blocks.
abbrev pub IsHome : ℕ → Log → ℕ → Type 0
IsHome n log c = (c < log.start) ⊎ (log.start + n < c)

-- The buffers of the n logged blocks are pinned, and none of the blocks is the header or a log block.
pub record IsReady (n : ℕ) (log : Log) (s : Store) : Type 0 where
  pub pinned : (j : ℕ) → j < n → 1 ≤ s.refcnt (log.lh.block j)
  pub home : (j : ℕ) → j < n → IsHome n log (log.lh.block j)

module _ (t : ℕ) (log : Log) (s : Store) where
  abbrev from : ℕ
  from = log.lh.block t

  abbrev to : ℕ
  to = log.start + t + 1

  log_block-power : (log_block t log s).power ≡ s.power - 1
  unfolding log_block
  log_block-power = ground arith

  log_block-refcnt : (c : ℕ) → (log_block t log s).refcnt c ≡ s.refcnt c
  unfolding log_block
  log_block-refcnt c = ground arith

  log_block-view : (c : ℕ) → 1 ≤ s.refcnt from → to ≢ c → (log_block t log s).view c ≡ s.view c
  unfolding log_block
  log_block-view c h ne = ground arith

  log_block-view_log :
      0 < s.power → 1 ≤ s.refcnt from → to ≢ from → (log_block t log s).view to ≡ s.view from
  unfolding log_block
  log_block-view_log p h ne = ground arith

  log_block-disk :
      (c : ℕ)
      → (log_block t log s).disk c
        ≡ (if s.power == 0 then s.disk c else if to == c then s.view from else s.disk c)
  unfolding log_block
  log_block-disk c = ground arith

module _ (n : ℕ) (log : Log) where
  pub log_from-power : (k t : ℕ) (s : Store) → (log_from k t log s).power ≡ s.power - k
  unfolding log_from
  log_from-power zero t s = omega arith
  log_from-power (suc k) t s =
      omega (arith, log_from-power k (t + 1) (log_block t log s), log_block-power t log s)

  pub log_from-refcnt : (k t : ℕ) (s : Store) (c : ℕ) → (log_from k t log s).refcnt c ≡ s.refcnt c
  unfolding log_from
  log_from-refcnt zero t s c = refl
  log_from-refcnt (suc k) t s c =
      log_from-refcnt k (t + 1) (log_block t log s) c ∙ log_block-refcnt t log s c

  log_block-IsReady : (t : ℕ) (s : Store) → IsReady n log s → IsReady n log (log_block t log s)
  log_block-IsReady t s r = record {
    pinned = λ j h. rw (log_block-refcnt t log s (log.lh.block j)) (r.pinned j h);
    home = r.home;
  }

  pub log_from-view :
      (k t : ℕ) (s : Store) (c : ℕ)
      → t + k ≤ n
      → IsReady n log s
      → IsHome n log c
      → (log_from k t log s).view c ≡ s.view c
  unfolding log_from
  log_from-view zero t s c h r m = refl
  log_from-view (suc k) t s c h r m =
      log_from-view k (t + 1) (log_block t log s) c (omega arith) (log_block-IsReady t s r) m
      ∙ log_block-view t log s c (r.pinned t (omega arith)) (omega arith)

  -- Only the log blocks from t + 1 on are written.
  pub log_from-disk_other :
      (k t : ℕ) (s : Store) (c : ℕ)
      → (c ≤ log.start + t) ⊎ (log.start + t + k < c)
      → (log_from k t log s).disk c ≡ s.disk c
  unfolding log_from
  log_from-disk_other zero t s c h = refl
  log_from-disk_other (suc k) t s c h =
      log_from-disk_other k (t + 1) (log_block t log s) c (omega arith)
      ∙ ground (arith, log_block-disk t log s c)

  -- With power for every round, log block j + 1 holds what the cache holds for logged block j.
  pub log_from-disk :
      (k t : ℕ) (s : Store) (j : ℕ)
      → t + k ≤ n
      → IsReady n log s
      → k ≤ s.power
      → t ≤ j
      → j < t + k
      → (log_from k t log s).disk (log.start + j + 1) ≡ s.view (log.lh.block j)
  unfolding log_from
  log_from-disk zero t s j h r p lo hi = absurd (omega arith)
  log_from-disk (suc k) t s j h r p lo hi = elim (dec_lt t j) [
    | yes q ↦
        log_from-disk k (t + 1) (log_block t log s) j (omega arith) (log_block-IsReady t s r)
          (omega (arith, log_block-power t log s)) (omega arith) (omega arith)
        ∙ log_block-view t log s (log.lh.block j) (r.pinned t (omega arith))
            (omega (arith, r.home j (omega arith)))
    | no q ↦
        let e : j ≡ t = omega arith in
        rw e (
          log_from-disk_other k (t + 1) (log_block t log s) (log.start + t + 1) (inl (omega arith))
          ∙ ground (arith, log_block-disk t log s (log.start + t + 1)))
  ]

  -- With power for every round, the log blocks are read as what was written to them.
  pub log_from-view_log :
      (k t : ℕ) (s : Store) (j : ℕ)
      → t + k ≤ n
      → IsReady n log s
      → k ≤ s.power
      → (t ≤ j) ⊎ (s.view (log.start + j + 1) ≡ s.view (log.lh.block j))
      → j < t + k
      → (log_from k t log s).view (log.start + j + 1) ≡ s.view (log.lh.block j)
  unfolding log_from
  log_from-view_log zero t s j h r p (inl lo) hi = absurd (omega arith)
  log_from-view_log zero t s j h r p (inr q) hi = q
  log_from-view_log (suc k) t s j h r p lo hi =
      log_from-view_log k (t + 1) (log_block t log s) j (omega arith) (log_block-IsReady t s r)
        (omega (arith, log_block-power t log s)) next (omega arith)
      ∙ same
    where
      same : (log_block t log s).view (log.lh.block j) ≡ s.view (log.lh.block j)
      same =
          log_block-view t log s (log.lh.block j) (r.pinned t (omega arith))
            (omega (arith, r.home j (omega arith)))

      log_block-view_to :
          t ≡ j → (log_block t log s).view (log.start + j + 1) ≡ s.view (log.lh.block j)
      log_block-view_to e = rw (← e) (
          log_block-view_log t log s (omega arith) (r.pinned t (omega arith))
            (omega (arith, r.home t (omega arith))))

      next :
          (t + 1 ≤ j)
          ⊎ ((log_block t log s).view (log.start + j + 1)
              ≡ (log_block t log s).view (log.lh.block j))
      next = elim (ℕ_discrete t j) [
        | yes e ↦ inr (log_block-view_to e ∙ sym same)
        | no ne ↦ elim lo [
          | inl le ↦ inl (omega arith)
          | inr q ↦ inr (
              log_block-view t log s (log.start + j + 1) (r.pinned t (omega arith)) (omega arith)
              ∙ q
              ∙ sym same)
        ]
      ]
