-- ===== src/Log/Absorb.antt =====
-- `log_write`: a block is logged once, and stays pinned until the commit.
use mathlib.Core.Path.{subst, ap}
use xv7_riscv.Prelude.{
  rounds, ℕ, zero, suc, ◌+◌, ◌≤◌, ◌<◌, ◌≡◌, ◌≢◌, ◌⊎◌, arith, Bool-cases, ◌==◌, inl, inr, dec_lt,
  update, some, ==_iff, false, sym, ℕ_discrete, Bool, ◌∙◌, ne→==_false, true, ◌||◌, if◌then◌else◌,
  ==_refl, refl, ap, rounds_of,
}
use xv7_riscv.BlockStore.{Store, pin}
use xv7_riscv.Log.{Log, log_size, absorb, log_write, none_outstanding, update, some, false, Bool}
use xv7_riscv.Log.Blocks.{IsReady}
use xv7_riscv.Log.Install.{logged, logged-true, logged-suc, logged_intro, logged_ext}

pub absorb-le : (k i : ℕ) (block : ℕ → ℕ) (b : ℕ) → absorb k i block b ≤ i + k
unfolding absorb
absorb-le zero i block b = omega arith
absorb-le (suc k) i block b = ground (arith, absorb-le k (i + 1) block b)

-- What the search finds holds the block.
absorb_found :
    (k i : ℕ) (block : ℕ → ℕ) (b : ℕ) → absorb k i block b < i + k → block (absorb k i block b) ≡ b
unfolding absorb
absorb_found zero i block b h = absurd (omega arith)
absorb_found (suc k) i block b h = elim (Bool-cases (block i == b)) [
  | inl e ↦ rw e (ground arith)
  | inr e ↦ rw e (absorb_found k (i + 1) block b (ground arith))
]

-- What it does not find is not there.
absorb_missed :
    (k i : ℕ) (block : ℕ → ℕ) (b j : ℕ)
    → absorb k i block b ≡ i + k
    → i ≤ j
    → j < i + k
    → block j ≢ b
unfolding absorb
absorb_missed zero i block b j h lo hi = absurd (omega arith)
absorb_missed (suc k) i block b j h lo hi = elim (Bool-cases (block i == b)) [
  | inl e ↦ absurd (ground arith)
  | inr e ↦ elim (dec_lt i j) [
    | yes q ↦ absorb_missed k (i + 1) block b j (ground arith) (omega arith) (omega arith)
    | no q ↦ let e' : j ≡ i = omega arith in rw e' (ground arith)
  ]
]

-- Blocks of the log, and the header, are start .. start + size - 1.
abbrev pub IsOutside : Log → ℕ → Type 0
IsOutside log c = (c < log.start) ⊎ (log.start + log.size ≤ c)

pub record IsLogging (log : Log) (s : Store) : Type 0 where
  pub fits : log.lh.n ≤ log_size
  pub room : log.lh.n < log.size
  pub pinned : (j : ℕ) → j < log.lh.n → 1 ≤ s.refcnt (log.lh.block j)
  pub outside : (j : ℕ) → j < log.lh.n → IsOutside log (log.lh.block j)
  pub once : (i j : ℕ) → i < log.lh.n → j < log.lh.n → log.lh.block i ≡ log.lh.block j → i ≡ j

-- A log that only `log_write` has filled is ready to be committed.
pub IsLogging-IsReady : {log : Log} {s : Store} → IsLogging log s → IsReady log.lh.n log s
IsLogging-IsReady {log} w = record {
  pinned = w.pinned;
  home = λ j lt. omega (arith, w.outside j lt, w.room);
}

module _ (b : ℕ) (log : Log) (s : Store) where
  abbrev slot : ℕ
  slot = absorb (rounds log.lh.n) 0 log.lh.block b

  abbrev blocks' : ℕ → ℕ
  blocks' = update log.lh.block slot b

  abbrev log_with : ℕ → Log
  log_with n = record log { lh = record { n = n; block = blocks' } }

  -- What a `log_write` that returns has done.
  abbrev wrote : Bool → Log × Store
  wrote true = (log_with (log.lh.n + 1), pin b s)
  wrote false = (log_with log.lh.n, s)

  log_write-guards :
      {r : Log × Store}
      → log_write b log s ≡ some r
      → (log.lh.n < log_size) × (log.lh.n + 1 < log.size) × (none_outstanding log ≡ false)
  unfolding log_write
  log_write-guards h = ground arith

  log_write-wrote : {r : Log × Store} → log_write b log s ≡ some r → wrote (slot == log.lh.n) ≡ r
  unfolding log_write
  log_write-wrote h = elim (Bool-cases (slot == log.lh.n)) [
    | inl e ↦ rw e (ground arith)
    | inr e ↦ rw e (ground arith)
  ]

  module _ (w : IsLogging log s) (away : IsOutside log b) (more : log.lh.n + 1 < log.size)
      (space : log.lh.n < log_size) where
    rounds-n : rounds log.lh.n ≡ log.lh.n
    rounds-n = rounds_of log.lh.n (omega (arith, w.fits))

    slot-le : slot ≤ log.lh.n
    slot-le = omega (arith, rounds-n, absorb-le (rounds log.lh.n) 0 log.lh.block b)

    slot-missed : slot ≡ log.lh.n → (j : ℕ) → j < log.lh.n → log.lh.block j ≢ b
    slot-missed e j lt =
        absorb_missed (rounds log.lh.n) 0 log.lh.block b j (omega (arith, rounds-n)) (omega arith)
          (omega (arith, rounds-n))

    slot-found : slot ≢ log.lh.n → log.lh.block slot ≡ b
    slot-found e =
        absorb_found (rounds log.lh.n) 0 log.lh.block b (omega (arith, rounds-n, slot-le))

    appended-IsLogging : slot ≡ log.lh.n → IsLogging (log_with (log.lh.n + 1)) (pin b s)
    unfolding pin
    appended-IsLogging e = record {
      fits = omega arith;
      room = omega arith;
      pinned = λ j lt. ground (arith, w.pinned j);
      outside = λ j lt. ground (arith, w.outside j);
      once = λ i j li lj q. ground (arith, w.once i j, slot-missed e i, slot-missed e j);
    }

    same_blocks : slot ≢ log.lh.n → (j : ℕ) → blocks' j ≡ log.lh.block j
    same_blocks e j = ground (arith, slot-found e)

    absorbed-IsLogging : slot ≢ log.lh.n → IsLogging (log_with log.lh.n) s
    absorbed-IsLogging e = record {
      fits = w.fits;
      room = w.room;
      pinned = λ j lt. rw (same_blocks e j) (w.pinned j lt);
      outside = λ j lt. rw (same_blocks e j) (w.outside j lt);
      once = λ i j li lj q. w.once i j li lj (sym (same_blocks e i) ∙ q ∙ same_blocks e j);
    }

    wrote-IsLogging : IsLogging (wrote (slot == log.lh.n)).0 (wrote (slot == log.lh.n)).1
    wrote-IsLogging = elim (ℕ_discrete slot log.lh.n) [
      | yes e ↦ rw ((==_iff slot log.lh.n).1 e) (appended-IsLogging e)
      | no e ↦ rw (ne→==_false slot log.lh.n e) (absorbed-IsLogging e)
    ]

    -- The blocks of the header afterwards: those before, and b; once each.
    Adds : Log × Store → Type 0
    Adds (log', s') =
        ((c : ℕ) → logged log'.lh.n log'.lh.block c ≡ ((b == c) || logged log.lh.n log.lh.block c))
        × (log'.lh.n ≡ (if logged log.lh.n log.lh.block b then log.lh.n else log.lh.n + 1))

    appended-Adds : slot ≡ log.lh.n → Adds (log_with (log.lh.n + 1), pin b s)
    unfolding Adds
    appended-Adds e = (
      λ c.
          logged-suc log.lh.n blocks' c
          ∙ rw (logged_ext log.lh.n blocks' log.lh.block c (λ j lt. ground arith))
              (rw e (rw ==_refl refl)),
      elim (Bool-cases (logged log.lh.n log.lh.block b)) [
        | inl q ↦
            let (j, lt, at) = logged-true log.lh.n log.lh.block b q in
            absurd (slot-missed e j lt at)
        | inr q ↦ rw q
      ],
    )

    absorbed-Adds : slot ≢ log.lh.n → Adds (log_with log.lh.n, s)
    unfolding Adds
    absorbed-Adds e = (λ c. same c, rw found)
      where
        found : logged log.lh.n log.lh.block b ≡ true
        found =
            ap (λ (x : ℕ). logged log.lh.n log.lh.block x) (sym (slot-found e))
            ∙ logged_intro log.lh.n log.lh.block slot (omega (arith, slot-le))

        same : (c : ℕ) → logged log.lh.n blocks' c ≡ ((b == c) || logged log.lh.n log.lh.block c)
        same c =
            logged_ext log.lh.n blocks' log.lh.block c (λ j lt. same_blocks e j)
            ∙ elim (Bool-cases (b == c)) [ inl q ↦ rw (q, ← (==_iff b c).0 q) found | inr q ↦ rw q ]

    wrote-Adds : Adds (wrote (slot == log.lh.n))
    wrote-Adds = elim (ℕ_discrete slot log.lh.n) [
      | yes e ↦ rw ((==_iff slot log.lh.n).1 e) (appended-Adds e)
      | no e ↦ rw (ne→==_false slot log.lh.n e) (absorbed-Adds e)
    ]

module _ (b : ℕ) (log : Log) (s : Store) {log' : Log} {s' : Store}
    (h : log_write b log s ≡ some (log', s')) where
  -- `log_write` of a block outside the log keeps a log that is being filled well formed: within its
  -- bounds, its blocks pinned and listed once.
  pub log_write-IsLogging : IsLogging log s → IsOutside log b → IsLogging log' s'
  log_write-IsLogging w away =
      let g = log_write-guards b log s h in
      subst (λ (r : Log × Store). IsLogging r.0 r.1) (log_write-wrote b log s h)
        (wrote-IsLogging b log s w away g.1 g.0)

  -- After a `log_write` of b that returns, the header lists b and the blocks that it listed before,
  -- and has grown by one exactly if it did not list b.
  pub log_write-logged :
      IsLogging log s
      → IsOutside log b
      → ((c : ℕ) → logged log'.lh.n log'.lh.block c ≡ ((b == c) || logged log.lh.n log.lh.block c))
        × (log'.lh.n ≡ (if logged log.lh.n log.lh.block b then log.lh.n else log.lh.n + 1))
  unfolding Adds
  log_write-logged w away =
      let g = log_write-guards b log s h in
      subst (λ (r : Log × Store). Adds b log s w away g.1 g.0 r) (log_write-wrote b log s h)
        (wrote-Adds b log s w away g.1 g.0)
