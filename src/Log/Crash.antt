-- ===== src/Log/Crash.antt =====
-- A crash at any point of `commit`, and of any number of recoveries after it, leaves all of the
-- transaction or nothing of it.
use xv7_riscv.Prelude.{
  rounds, ℕ, ◌+◌, ◌-◌, ◌≤◌, ◌<◌, ◌^◌, ◌≡◌, ◌⊎◌, ◌≢◌, false, ap, ◌∙◌, arith, inl, Bool-cases, dec_lt,
  if◌then◌else◌, inr, fun_ext, ltb, List, lt→ltb, not_lt→ltb, refl, rounds_of,
}
use xv7_riscv.BlockStore.{Block, Store}
use xv7_riscv.Log.{
  Log, write_log, log_from, write_head, install_trans, install_from, commit, clear, false, ltb,
}
use xv7_riscv.Log.Blocks.{
  IsHome, IsReady, log_from-power, log_from-disk_other, log_from-disk, log_from-view_log,
}
use xv7_riscv.Log.Head.{
  write_head-power, write_head-n, write_head-block, write_head-disk_other, write_head-view_other,
  write_head-no_power,
}
use xv7_riscv.Log.Install.{
  logged, logged-true, logged-false, install_from-power, install_from-disk_other, install_from-disk,
  install_from-no_power,
}
use xv7_riscv.Log.Recovery.{
  restart, restarts, IsClean, IsCommitted, Before, After, logged_only, finished, installed,
  SameHome, restart_clean, restarts-Before, restarts-After, restart_installs,
}

-- A commit that begins: no transaction is on the disk, and the logged blocks are pinned.
pub record IsCommit (log : Log) (s : Store) : Type 0 where
  pub clean : IsClean log s.disk
  pub ready : IsReady log.lh.n log s
  pub small : log.lh.n < 2 ^ 31

module _ (log : Log) (s : Store) (w : IsCommit log s) where
  open w use {clean, ready, small}

  abbrev n : ℕ
  n = log.lh.n

  abbrev s1 : Store
  s1 = write_log log s

  abbrev s2 : Store
  s2 = write_head log s1

  abbrev s3 : Store
  s3 = install_trans false log s2

  abbrev s4 : Store
  s4 = write_head (clear log) s3

  rounds-n : rounds log.lh.n ≡ n
  rounds-n = rounds_of n small

  s1_lem : s1 ≡ log_from n 0 log s
  unfolding write_log
  s1_lem = ap (λ (k : ℕ). log_from k 0 log s) rounds-n

  s3_lem : s3 ≡ install_from n 0 false log s2
  unfolding install_trans
  s3_lem = ap (λ (k : ℕ). install_from k 0 false log s2) rounds-n

  s1-power : s1.power ≡ s.power - n
  s1-power = rw s1_lem (log_from-power n log n 0 s)

  s2-power : s2.power ≡ s.power - n - 1
  s2-power = write_head-power log s1 ∙ omega (arith, s1-power)

  s3-power : s3.power ≡ s.power - n - 1 - n
  s3-power = rw s3_lem (omega (arith, install_from-power false log n 0 s2, s2-power))

  home : (j : ℕ) → j < n → IsHome n log (log.lh.block j)
  home = ready.home

  s1-disk : (c : ℕ) → (c ≤ log.start) ⊎ (log.start + n < c) → s1.disk c ≡ s.disk c
  s1-disk c h = rw s1_lem (log_from-disk_other n log n 0 s c (omega arith))

  s2-disk : (c : ℕ) → IsHome n log c → s2.disk c ≡ s.disk c
  s2-disk c h = write_head-disk_other log s1 c (omega arith) ∙ s1-disk c (omega arith)

  s3-disk : (c : ℕ) → ((j : ℕ) → j < n → log.lh.block j ≢ c) → s3.disk c ≡ s2.disk c
  s3-disk c h = rw s3_lem (install_from-disk_other false log n 0 s2 c (λ j lt. h j (omega arith)))

  s3-no_power : (c : ℕ) → s2.power ≡ 0 → s3.disk c ≡ s2.disk c
  s3-no_power c h = rw s3_lem (install_from-no_power false log n 0 s2 c h)

  -- Without power for the header the home blocks and the header are the old ones.
  s4-Before : s.power ≤ n → Before log s.disk s4.disk
  s4-Before p = (
    ap (λ (b : Block). b 0) (kept log.start (inl (omega arith))) ∙ clean,
    λ c h. kept c (omega arith),
  )
    where
      kept : (c : ℕ) → (c ≤ log.start) ⊎ (log.start + n < c) → s4.disk c ≡ s.disk c
      kept c h =
          write_head-no_power (clear log) s3 (omega (arith, s3-power)) c
          ∙ s3-no_power c (omega (arith, s2-power))
          ∙ write_head-no_power log s1 (omega (arith, s1-power)) c
          ∙ s1-disk c h

  module _ (p : n < s.power) where
    s1-copies : (j : ℕ) → j < n → s1.disk (log.start + j + 1) ≡ s.view (log.lh.block j)
    s1-copies j lt =
        rw s1_lem (
          log_from-disk n log n 0 s j (omega arith) ready (omega arith) (omega arith) (omega arith))

    s3-IsCommitted : IsCommitted log s.view s3.disk
    s3-IsCommitted = record {
      header = ap (λ (b : Block). b 0) start_kept ∙ write_head-n log s1 (omega (arith, s1-power));
      blocks = λ j lt.
          ap (λ (b : Block). b (j + 1)) start_kept
          ∙ write_head-block log s1 j (omega (arith, s1-power)) (rw rounds-n lt);
      copies = λ j lt.
          s3-disk (log.start + j + 1) (λ i q. omega (arith, home i q))
          ∙ write_head-disk_other log s1 (log.start + j + 1) (omega arith)
          ∙ s1-copies j lt;
    }
      where
        start_kept : s3.disk log.start ≡ s2.disk log.start
        start_kept = s3-disk log.start (λ i q. omega (arith, home i q))

    s3-unlogged : (c : ℕ) → IsHome n log c → logged n log.lh.block c ≡ false → s3.disk c ≡ s.disk c
    s3-unlogged c h e = s3-disk c (λ j lt. logged-false n log.lh.block c j e lt) ∙ s2-disk c h

    s3-SameHome : SameHome log (installed log s.view s3.disk) (installed log s.view s.disk)
    s3-SameHome c h = elim (Bool-cases (logged n log.lh.block c)) [
      | inl e ↦ rw e
      | inr e ↦ rw e (s3-unlogged c h e)
    ]

    s2-views : (j : ℕ) → j < n → s2.view (log.start + j + 1) ≡ s.view (log.lh.block j)
    s2-views j lt =
        write_head-view_other log s1 (log.start + j + 1) (omega arith)
        ∙ rw s1_lem (
            log_from-view_log n log n 0 s j (omega arith) ready (omega arith) (inl (omega arith))
              (omega arith))

    s3-copy : (j : ℕ) → n ≤ s2.power → j < n → s3.disk (log.lh.block j) ≡ s.view (log.lh.block j)
    s3-copy j q lt = rw s3_lem (
        install_from-disk false n log s.view n 0 s2 j home (omega arith) (λ i lo hi. s2-views i hi)
          q (inl (omega arith)) lt)

    s3-installed : n ≤ s2.power → SameHome log s3.disk (installed log s.view s.disk)
    s3-installed q c h = elim (Bool-cases (logged n log.lh.block c)) [
      | inl e ↦
          let (j, lt, at) = logged-true n log.lh.block c e in rw e (rw (← at) (s3-copy j q lt))
      | inr e ↦ rw e (s3-unlogged c h e)
    ]

    -- With power for the header the transaction is on the disk, in the log or at home.
    s4-After : After log s.view s.disk s4.disk
    s4-After = elim (dec_lt 0 s3.power) [
      | yes q ↦ finished (write_head-n (clear log) s3 q) (λ c h.
          write_head-disk_other (clear log) s3 c (omega arith)
          ∙ s3-installed (omega (arith, s2-power, s3-power)) c h)
      | no q ↦
          let same : s4.disk ≡ s3.disk =
            fun_ext (write_head-no_power (clear log) s3 (omega arith)) in
          rw same (logged_only s3-IsCommitted s3-SameHome)
    ]

  commit-disk : (commit log s).1.disk ≡ (if ltb 0 n then s4.disk else s.disk)
  unfolding commit
  commit-disk = rw rounds-n (ground arith)

  s4-lem :
      (powers : List ℕ) (power : ℕ)
      → n < power
      → SameHome log
          (restart power log (restarts powers log s4.disk))
          (if ltb n s.power then installed log s.view s.disk else s.disk)
  s4-lem powers power lt c h = elim (dec_lt n s.power) [
    | yes p ↦ rw (lt→ltb n s.power p) (
        restart_installs log s.view s.disk small home (restarts powers log s4.disk) power
          (restarts-After log s.view s.disk small home powers s4.disk (s4-After p)) lt c h)
    | no p ↦
        let b = restarts-Before log s.disk powers s4.disk (s4-Before (omega arith)) in
        rw (not_lt→ltb n s.power (omega arith))
          (restart_clean log (restarts powers log s4.disk) power b.0 c (omega arith) ∙ b.1 c h)
  ]

  empty-lem :
      (powers : List ℕ) (power : ℕ)
      → n ≡ 0
      → SameHome log
          (restart power log (restarts powers log s.disk))
          (if ltb n s.power then installed log s.view s.disk else s.disk)
  unfolding logged
  empty-lem powers power e c h =
      let b = restarts-Before log s.disk powers s.disk (clean, λ c h. refl) in
      restart_clean log (restarts powers log s.disk) power b.0 c (omega arith)
      ∙ b.1 c h
      ∙ rw e (ground arith)

  -- Power fails after s.power block writes of a commit, then after the given number of writes of any
  -- number of boots; a boot with enough power follows. Every block outside the log then holds the
  -- transaction's data if it is logged and the commit had power for all n log blocks and the header,
  -- and what it held before the commit in every other case.
  pub crash_atomicity :
      (powers : List ℕ) (power : ℕ)
      → n < power
      → SameHome log
          (restart power log (restarts powers log (commit log s).1.disk))
          (if ltb n s.power then installed log s.view s.disk else s.disk)
  crash_atomicity powers power lt c h = elim (dec_lt 0 n) [
    | yes p ↦ rw (commit-disk, lt→ltb 0 n p) (s4-lem powers power lt c h)
    | no p ↦
        rw (commit-disk, not_lt→ltb 0 n (omega arith)) (empty-lem powers power (omega arith) c h)
  ]
