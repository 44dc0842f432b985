-- ===== src/Log/Recovery.antt =====
-- Recovery at boot (`initlog`), from a disk that a crash may have left at any point.
use xv7_riscv.Prelude.{
  rounds, ℕ, ◌+◌, ◌<◌, ◌≡◌, refl, if◌then◌else◌, true, List, [], ◌∷◌, ◌≢◌, dec_lt, ap, ◌∙◌, sym,
  arith, ◌^◌, ◌≤◌, Bool-cases, ◌-◌, inl, inr, rounds_of,
}
use xv7_riscv.BlockStore.{Block, Store, reboot}
use xv7_riscv.Log.{
  Log, read_head, write_head, install_trans, initlog, recover_from_log, clear, install_from,
}
use xv7_riscv.Log.Blocks.{IsHome}
use xv7_riscv.Log.Head.{
  read_head-n, read_head-block, read_head-disk, read_head-power, read_head-view, read_head-start,
  write_head-no_power, write_head-n, write_head-disk_other,
}
use xv7_riscv.Log.Install.{
  logged, install_from-disk_other, install_from-power, install_from-disk, logged-true, logged-false,
}

abbrev pub Disk : Type 0
Disk = ℕ → Block

-- The disk after booting from `disk`, when the machine stops after `power` block writes.
unfoldable pub restart : ℕ → Log → Disk → Disk
restart power log disk = (initlog log.dev log.start log.size log (reboot disk power)).1.disk

-- Boots that are cut off, one after the other.
unfoldable pub restarts : List ℕ → Log → Disk → Disk
restarts [] log disk = disk
restarts (power ∷ powers) log disk = restarts powers log (restart power log disk)

-- No transaction is committed on the disk.
abbrev pub IsClean : Log → Disk → Type 0
IsClean log disk = disk log.start 0 ≡ 0

-- The disk with v at the blocks that the header of the log lists.
abbrev pub installed : Log → (ℕ → Block) → Disk → Disk
installed log v disk c = if logged log.lh.n log.lh.block c then v c else disk c

-- The disk holds the header of the log, and v at its blocks in the log blocks.
pub record IsCommitted (log : Log) (v : ℕ → Block) (disk : Disk) : Type 0 where
  pub header : disk log.start 0 ≡ log.lh.n
  pub blocks : (j : ℕ) → j < log.lh.n → disk log.start (j + 1) ≡ log.lh.block j
  pub copies : (j : ℕ) → j < log.lh.n → disk (log.start + j + 1) ≡ v (log.lh.block j)

-- The two disks agree on every home block.
abbrev pub SameHome : Log → Disk → Disk → Type 0
SameHome log d e = (c : ℕ) → IsHome log.lh.n log c → d c ≡ e c

-- What a crash before the commit point leaves.
abbrev pub Before : Log → Disk → Disk → Type 0
Before log old disk = IsClean log disk × SameHome log disk old

-- What a crash after the commit point leaves: the log block by block, or the finished transaction.
pub data After (log : Log) (v : ℕ → Block) (old : Disk) (disk : Disk) : Type 0 where
  logged_only :
      IsCommitted log v disk
      → SameHome log (installed log v disk) (installed log v old)
      → After log v old disk
  finished : IsClean log disk → SameHome log disk (installed log v old) → After log v old disk

module _ (log : Log) (disk : Disk) (power : ℕ) where
  -- the log after `read_head` at boot
  abbrev booted : Log
  booted = (read_head log (reboot disk power)).0

  abbrev booted_store : Store
  booted_store = (read_head log (reboot disk power)).1

  booted-n : booted.lh.n ≡ disk log.start 0
  unfolding reboot
  booted-n = read_head-n log (reboot disk power)

  booted-block :
      (j : ℕ) → j < rounds (disk log.start 0) → booted.lh.block j ≡ disk log.start (j + 1)
  unfolding reboot
  booted-block j lt = read_head-block log (reboot disk power) j lt

  booted_store-view : (c : ℕ) → booted_store.view c ≡ disk c
  unfolding reboot
  booted_store-view c = read_head-view log (reboot disk power) c refl

  booted_store-disk : booted_store.disk ≡ disk
  unfolding reboot
  booted_store-disk = read_head-disk log (reboot disk power)

  booted_store-power : booted_store.power ≡ power
  unfolding reboot
  booted_store-power = read_head-power log (reboot disk power)

  booted-start : booted.start ≡ log.start
  booted-start = read_head-start log (reboot disk power)

  -- the store once the blocks are installed
  abbrev replayed : Store
  replayed = install_trans true booted booted_store

  restart_lem : restart power log disk ≡ (write_head (clear booted) replayed).disk
  unfolding restart initlog recover_from_log
  restart_lem = refl

  restart-disk_other : (c : ℕ) → log.start ≢ c → restart power log disk c ≡ replayed.disk c
  restart-disk_other c h =
      rw restart_lem
        (write_head-disk_other (clear booted) replayed c (λ e. h (sym booted-start ∙ e)))

  restart-no_power : replayed.power ≡ 0 → (c : ℕ) → restart power log disk c ≡ replayed.disk c
  restart-no_power h c = rw restart_lem (write_head-no_power (clear booted) replayed h c)

  restart-n : 0 < replayed.power → IsClean log (restart power log disk)
  unfolding read_head
  restart-n h = rw restart_lem (write_head-n (clear booted) replayed h)

module _ (log : Log) (disk : Disk) (power : ℕ) (clean : IsClean log disk) where
  replayed_clean : (c : ℕ) → (replayed log disk power).disk c ≡ disk c
  unfolding install_trans install_from
  replayed_clean c =
      rw (booted-n log disk power, clean)
        (ap (λ (d : Disk). d c) (booted_store-disk log disk power))

  -- Without a committed transaction a boot changes nothing but the header block.
  pub restart_clean : (c : ℕ) → log.start ≢ c → restart power log disk c ≡ disk c
  restart_clean c h = restart-disk_other log disk power c h ∙ replayed_clean c

  restart-IsClean : IsClean log (restart power log disk)
  restart-IsClean = elim (dec_lt 0 (replayed log disk power).power) [
    | yes p ↦ restart-n log disk power p
    | no p ↦
        ap (λ (b : Block). b 0)
          (restart-no_power log disk power (omega arith) log.start ∙ replayed_clean log.start)
        ∙ clean
  ]

module _ (log : Log) (v : ℕ → Block) (disk : Disk) (power : ℕ) (small : log.lh.n < 2 ^ 31)
    (home : (j : ℕ) → j < log.lh.n → IsHome log.lh.n log (log.lh.block j))
    (committed : IsCommitted log v disk) where
  open committed use {header, blocks, copies}

  abbrev log' : Log
  log' = booted log disk power

  abbrev store' : Store
  store' = booted_store log disk power

  rounds-header : rounds (disk log.start 0) ≡ log.lh.n
  rounds-header = rw header (rounds_of log.lh.n small)

  same-block : (j : ℕ) → j < log.lh.n → log'.lh.block j ≡ log.lh.block j
  same-block j lt = booted-block log disk power j (rw rounds-header lt) ∙ blocks j lt

  replayed_lem : replayed log disk power ≡ install_from log.lh.n 0 true log' store'
  unfolding install_trans
  replayed_lem =
      ap (λ (k : ℕ). install_from k 0 true log' store')
        (ap (λ (k : ℕ). rounds k) (booted-n log disk power) ∙ rounds-header)

  replayed-power : (replayed log disk power).power ≡ power - log.lh.n
  replayed-power = rw (
    replayed_lem,
    install_from-power true log' log.lh.n 0 store',
    booted_store-power log disk power,
  )

  replayed_other :
      (c : ℕ)
      → ((j : ℕ) → j < log.lh.n → log.lh.block j ≢ c)
      → (replayed log disk power).disk c ≡ disk c
  replayed_other c h =
      rw replayed_lem (
        install_from-disk_other true log' log.lh.n 0 store' c
          (λ j q e. h j (omega arith) (sym (same-block j (omega arith)) ∙ e)))
      ∙ ap (λ (d : Disk). d c) (booted_store-disk log disk power)

  home' : (j : ℕ) → j < log.lh.n → IsHome log.lh.n log' (log'.lh.block j)
  home' j lt = omega (arith, same-block j lt, booted-start log disk power, home j lt)

  views' : (j : ℕ) → j < log.lh.n → store'.view (log'.start + j + 1) ≡ v (log'.lh.block j)
  unfolding read_head
  views' j lt =
      booted_store-view log disk power (log'.start + j + 1)
      ∙ copies j lt
      ∙ ap v (sym (same-block j lt))

  replayed_copy :
      (j : ℕ)
      → log.lh.n ≤ power
      → j < log.lh.n
      → (replayed log disk power).disk (log.lh.block j) ≡ v (log.lh.block j)
  replayed_copy j p lt =
      rw (replayed_lem, ← same-block j lt)
        (install_from-disk true log.lh.n log' v log.lh.n 0 store' j home' (omega arith)
          (λ i lo hi. views' i hi) (omega (arith, booted_store-power log disk power))
          (inl (omega arith)) lt)

  -- A boot that is not cut off installs the transaction, and clears the header.
  restart_full : log.lh.n < power → SameHome log (restart power log disk) (installed log v disk)
  restart_full p c h =
      restart-disk_other log disk power c (omega arith)
      ∙ elim (Bool-cases (logged log.lh.n log.lh.block c)) [
        | inl e ↦
            let (j, lt, q) = logged-true log.lh.n log.lh.block c e in
            rw e (rw (← q) (replayed_copy j (omega arith) lt))
        | inr e ↦ rw e (replayed_other c (λ j lt. logged-false log.lh.n log.lh.block c j e lt))
      ]

  -- A boot that is cut off before it clears the header changes no block but those of the header.
  restart_cut :
      (c : ℕ)
      → power ≤ log.lh.n
      → ((j : ℕ) → j < log.lh.n → log.lh.block j ≢ c)
      → restart power log disk c ≡ disk c
  restart_cut c p h =
      restart-no_power log disk power (omega (arith, replayed-power)) c ∙ replayed_other c h

  restart_cut-IsCommitted : power ≤ log.lh.n → IsCommitted log v (restart power log disk)
  restart_cut-IsCommitted p = record {
    header = ap (λ (b : Block). b 0) start_kept ∙ header;
    blocks = λ j lt. ap (λ (b : Block). b (j + 1)) start_kept ∙ blocks j lt;
    copies =
        λ j lt. restart_cut (log.start + j + 1) p (λ i q. omega (arith, home i q)) ∙ copies j lt;
  }
    where
      start_kept : restart power log disk log.start ≡ disk log.start
      start_kept = restart_cut log.start p (λ i q. omega (arith, home i q))

  restart_cut-SameHome :
      power ≤ log.lh.n
      → SameHome log (installed log v (restart power log disk)) (installed log v disk)
  restart_cut-SameHome p c h = elim (Bool-cases (logged log.lh.n log.lh.block c)) [
    | inl e ↦ rw e
    | inr e ↦ rw e (restart_cut c p (λ j lt. logged-false log.lh.n log.lh.block c j e lt))
  ]

module _ (log : Log) (old : Disk) where
  restart-Before :
      (disk : Disk) (power : ℕ) → Before log old disk → Before log old (restart power log disk)
  restart-Before disk power (clean, same) = (
    restart-IsClean log disk power clean,
    λ c h. restart_clean log disk power clean c (omega arith) ∙ same c h,
  )

  pub restarts-Before :
      (powers : List ℕ) (disk : Disk)
      → Before log old disk
      → Before log old (restarts powers log disk)
  unfolding restarts
  restarts-Before [] disk p = p
  restarts-Before (power ∷ powers) disk p =
      restarts-Before powers (restart power log disk) (restart-Before disk power p)

module _ (log : Log) (v : ℕ → Block) (old : Disk) (small : log.lh.n < 2 ^ 31)
    (home : (j : ℕ) → j < log.lh.n → IsHome log.lh.n log (log.lh.block j)) where
  -- A boot, cut off anywhere, keeps what a later boot needs.
  restart-After :
      (disk : Disk) (power : ℕ) → After log v old disk → After log v old (restart power log disk)
  restart-After disk power (finished clean same) =
      finished (restart-IsClean log disk power clean)
        (λ c h. restart_clean log disk power clean c (omega arith) ∙ same c h)
  restart-After disk power (logged_only whole same) = elim (dec_lt log.lh.n power) [
    | yes p ↦
        finished
          (restart-n log disk power
            (omega (arith, replayed-power log v disk power small home whole)))
          (λ c h. restart_full log v disk power small home whole p c h ∙ same c h)
    | no p ↦
        logged_only (restart_cut-IsCommitted log v disk power small home whole (omega arith))
          (λ c h.
            restart_cut-SameHome log v disk power small home whole (omega arith) c h ∙ same c h)
  ]

  pub restarts-After :
      (powers : List ℕ) (disk : Disk)
      → After log v old disk
      → After log v old (restarts powers log disk)
  unfolding restarts
  restarts-After [] disk p = p
  restarts-After (power ∷ powers) disk p =
      restarts-After powers (restart power log disk) (restart-After disk power p)

  pub restart_installs :
      (disk : Disk) (power : ℕ)
      → After log v old disk
      → log.lh.n < power
      → SameHome log (restart power log disk) (installed log v old)
  restart_installs disk power (finished clean same) lt c h =
      restart_clean log disk power clean c (omega arith) ∙ same c h
  restart_installs disk power (logged_only whole same) lt c h =
      restart_full log v disk power small home whole lt c h ∙ same c h
