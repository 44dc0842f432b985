-- ===== src/Log/Space.antt =====
-- Several file system operations at a time: `begin_op` reserves log space, and nobody runs out of it.
use xv7_riscv.Prelude.{
  ℕ, suc, ◌+◌, ◌*◌, ◌≤◌, ◌<◌, ◌^◌, ◌≡◌, ◌≢◌, List, [], ◌∷◌, ◌++◌, length, length-append, true,
  false, some, none, arith, Bool, ap, ◌∙◌, subst, sym, refl, ◌-◌,
}
use xv7_riscv.BlockStore.{Store}
use xv7_riscv.Log.{
  Log, log_size, max_op_blocks, begin_op, end_op_enter, end_op_leave, log_write, commit, Bool,
}

-- `budgets` has an entry for each operation between `begin_op` and `end_op`: how many more blocks it
-- may log, of the MAXOPBLOCKS that an operation is allowed.
pub record System : Type 0 where
  pub log : Log
  pub store : Store
  pub budgets : List ℕ

abbrev pub total : List ℕ → ℕ
total [] = 0
total (k ∷ ks) = k + total ks

abbrev pub AllBelow : ℕ → List ℕ → Type 0
AllBelow m [] = Unit {0}
AllBelow m (k ∷ ks) = (k ≤ m) × AllBelow m ks

-- Each process runs one critical section of kernel/log.c at a time; while one commits, the others may
-- go on, as the lock is not held.
pub data Step (s : System) : System → Type 0 where
  begins :
      {log' : Log}
      → begin_op s.log ≡ some log'
      → Step s (record s { log = log'; budgets = max_op_blocks ∷ s.budgets })
  writes :
      (b k : ℕ) (xs ys : List ℕ) {log' : Log} {store' : Store}
      → s.budgets ≡ xs ++ (suc k ∷ ys)
      → log_write b s.log s.store ≡ some (log', store')
      → Step s (record { log = log'; store = store'; budgets = xs ++ (k ∷ ys) })
  ends :
      (k : ℕ) (xs ys : List ℕ) (do_commit : Bool) {log' : Log}
      → s.budgets ≡ xs ++ (k ∷ ys)
      → end_op_enter s.log ≡ some (log', do_commit)
      → Step s (record s { log = log'; budgets = xs ++ ys })
  commits :
      s.log.committing ≡ true
      → Step s (record s {
        log = end_op_leave (commit s.log s.store).0;
        store = (commit s.log s.store).1;
      })

pub record InSpace (z : ℕ) (s : System) : Type 0 where
  pub space : s.log.lh.n + total s.budgets ≤ log_size
  pub count : s.log.outstanding ≡ length s.budgets
  pub few : length s.budgets ≤ 3
  pub bounded : AllBelow max_op_blocks s.budgets
  pub idle : s.log.committing ≡ true → length s.budgets ≡ 0
  pub same : s.log.size ≡ z

total-append : (xs ys : List ℕ) → total (xs ++ ys) ≡ total xs + total ys
total-append [] ys = omega arith
total-append (x ∷ xs) ys = omega (arith, total-append xs ys)

total-le : (m : ℕ) (ks : List ℕ) → AllBelow m ks → total ks ≤ length ks * m
total-le m [] h = omega arith
total-le m (k ∷ ks) h = omega (arith, total-le m ks h.1)

AllBelow-append : (m : ℕ) (xs ys : List ℕ) → AllBelow m xs → AllBelow m ys → AllBelow m (xs ++ ys)
AllBelow-append m [] ys h k = k
AllBelow-append m (x ∷ xs) ys h k = (h.0, AllBelow-append m xs ys h.1 k)

AllBelow-left : (m : ℕ) (xs ys : List ℕ) → AllBelow m (xs ++ ys) → AllBelow m xs
AllBelow-left m [] ys h = tt
AllBelow-left m (x ∷ xs) ys h = (h.0, AllBelow-left m xs ys h.1)

AllBelow-right : (m : ℕ) (xs ys : List ℕ) → AllBelow m (xs ++ ys) → AllBelow m ys
AllBelow-right m [] ys h = h
AllBelow-right m (x ∷ xs) ys h = AllBelow-right m xs ys h.1

begin_op-InSpace :
    {z : ℕ} (s : System) {log' : Log}
    → InSpace z s
    → begin_op s.log ≡ some log'
    → InSpace z (record s { log = log'; budgets = max_op_blocks ∷ s.budgets })
unfolding begin_op
begin_op-InSpace s v h = record {
  space = ground (arith, v.space, total-le max_op_blocks s.budgets v.bounded, v.count);
  count = ground (arith, v.count);
  few = ground (arith, v.count);
  bounded = (omega arith, v.bounded);
  idle = λ e. ground arith;
  same = ground (arith, v.same);
}

module _ (b : ℕ) (log : Log) (s : Store) {log' : Log} {s' : Store}
    (h : log_write b log s ≡ some (log', s')) where
  log_write-n : log'.lh.n ≤ log.lh.n + 1
  unfolding log_write
  log_write-n = ground arith

  log_write-same :
      (log'.outstanding ≡ log.outstanding)
      × (log'.committing ≡ log.committing)
      × (log'.size ≡ log.size)
  unfolding log_write
  log_write-same = ground arith

log_write-InSpace :
    {z : ℕ} (s : System) (b k : ℕ) (xs ys : List ℕ) {log' : Log} {store' : Store}
    → InSpace z s
    → s.budgets ≡ xs ++ (suc k ∷ ys)
    → log_write b s.log s.store ≡ some (log', store')
    → InSpace z (record { log = log'; store = store'; budgets = xs ++ (k ∷ ys) })
log_write-InSpace s b k xs ys v e h =
    let (o, c, z) = log_write-same b s.log s.store h in
    let n = log_write-n b s.log s.store h in
    let t = ap total e ∙ total-append xs (suc k ∷ ys) in
    let l = ap length e ∙ length-append xs (suc k ∷ ys) in
    let l' = length-append xs (k ∷ ys) in
    let all : AllBelow max_op_blocks (xs ++ (suc k ∷ ys)) =
      subst (AllBelow max_op_blocks) e v.bounded in
    let right = AllBelow-right max_op_blocks xs (suc k ∷ ys) all in
    record {
      space = omega (arith, v.space, total-append xs (k ∷ ys));
      count = omega (arith, v.count);
      few = omega (arith, v.few);
      bounded =
          AllBelow-append max_op_blocks xs (k ∷ ys)
            (AllBelow-left max_op_blocks xs (suc k ∷ ys) all) (omega (arith, right.0), right.1);
      idle = λ q. omega (arith, v.idle (sym c ∙ q));
      same = omega (arith, v.same);
    }

module _ (log : Log) {log' : Log} {do_commit : Bool}
    (h : end_op_enter log ≡ some (log', do_commit)) where
  end_op_enter-same : (log'.lh.n ≡ log.lh.n) × (log'.size ≡ log.size) × (log.committing ≡ false)
  unfolding end_op_enter
  end_op_enter-same = ground arith

  end_op_enter-outstanding :
      (0 < log.outstanding)
      → log.outstanding < 2 ^ 32
      → (log'.outstanding + 1 ≡ log.outstanding) × (log'.committing ≡ true → log'.outstanding ≡ 0)
  unfolding end_op_enter
  end_op_enter-outstanding p q = ground arith

end_op-InSpace :
    {z : ℕ} (s : System) (k : ℕ) (xs ys : List ℕ) (do_commit : Bool) {log' : Log}
    → InSpace z s
    → s.budgets ≡ xs ++ (k ∷ ys)
    → end_op_enter s.log ≡ some (log', do_commit)
    → InSpace z (record s { log = log'; budgets = xs ++ ys })
end_op-InSpace s k xs ys do_commit v e h =
    let (n, z, c) = end_op_enter-same s.log h in
    let t = ap total e ∙ total-append xs (k ∷ ys) in
    let l = ap length e ∙ length-append xs (k ∷ ys) in
    let l' = length-append xs ys in
    let all : AllBelow max_op_blocks (xs ++ (k ∷ ys)) =
      subst (AllBelow max_op_blocks) e v.bounded in
    let right = AllBelow-right max_op_blocks xs (k ∷ ys) all in
    let (o, i) =
      end_op_enter-outstanding s.log h (omega (arith, v.count)) (omega (arith, v.count, v.few)) in
    record {
      space = omega (arith, v.space, total-append xs ys);
      count = omega (arith, v.count);
      few = omega (arith, v.few);
      bounded =
          AllBelow-append max_op_blocks xs ys (AllBelow-left max_op_blocks xs (k ∷ ys) all) right.1;
      idle = λ q. omega (arith, i q, v.count);
      same = omega (arith, v.same);
    }

module _ (log : Log) (s : Store) where
  commit-same :
      ((commit log s).0.lh.n ≤ log.lh.n)
      × ((commit log s).0.outstanding ≡ log.outstanding)
      × ((commit log s).0.size ≡ log.size)
  unfolding commit
  commit-same = ground arith

Step-InSpace : {z : ℕ} {s t : System} → Step s t → InSpace z s → InSpace z t
unfolding end_op_leave
Step-InSpace {s} (begins h) v = begin_op-InSpace s v h
Step-InSpace {s} (writes b k xs ys e h) v = log_write-InSpace s b k xs ys v e h
Step-InSpace {s} (ends k xs ys do_commit e h) v = end_op-InSpace s k xs ys do_commit v e h
Step-InSpace {s} (commits e) v =
    let (n, o, z) = commit-same s.log s.store in
    record {
      space = omega (arith, v.space);
      count = omega (arith, v.count);
      few = v.few;
      bounded = v.bounded;
      idle = λ q. v.idle e;
      same = omega (arith, v.same);
    }

-- The system at boot: no operation is under way.
abbrev pub IsIdle : System → Type 0
IsIdle s =
    (s.log.lh.n ≡ 0) × (s.log.outstanding ≡ 0) × (s.log.committing ≡ false) × (s.budgets ≡ [])

pub data Reach (s : System) : System → Type 0 where
  start : Reach s s
  later : {t u : System} → Reach s t → Step t u → Reach s u

Reach-InSpace : {s t : System} → IsIdle s → Reach s t → InSpace s.log.size t
Reach-InSpace {s} (n, o, c, b) start =
    let l = ap length b in
    record {
      space = omega (arith, ap total b);
      count = omega arith;
      few = omega arith;
      bounded = subst (AllBelow max_op_blocks) (sym b) tt;
      idle = λ q. omega arith;
      same = refl;
    }
Reach-InSpace i (later r st) = Step-InSpace st (Reach-InSpace i r)

-- From boot on, no `end_op` of an operation that has begun panics, and no `log_write` of an operation
-- that has logged fewer than MAXOPBLOCKS blocks panics when the log has more than LOGSIZE blocks; with
-- each block that the log has less, down from LOGSIZE, the operation may log one block less: with a log
-- of LOGSIZE blocks, fewer than MAXOPBLOCKS - 1 blocks before this one.
pub no_log_panic :
    {s t : System}
    → IsIdle s
    → Reach s t
    → (b k : ℕ) (xs ys : List ℕ) → t.budgets ≡ xs ++ (k ∷ ys)
    → (log_size + 1 - s.log.size < k → log_write b t.log t.store ≢ none)
      × (end_op_enter t.log ≢ none)
unfolding log_write end_op_enter
no_log_panic {t = t} i r b k xs ys e =
    let v = Reach-InSpace i r in
    let l = ap length e ∙ length-append xs (k ∷ ys) in
    let s = ap total e ∙ total-append xs (k ∷ ys) in
    (λ p. ground (arith, v.space, v.count, v.few, v.same), ground (arith, v.idle))
