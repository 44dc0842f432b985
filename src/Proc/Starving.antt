-- ===== src/Proc/Starving.antt =====
-- Which process the lottery of kernel/proc.c picks once total_tickets has passed the results of `rand`.
use mathlib.Core.Bool.{false≢true}
use native.Mathlib.Nat.{suc-mul}
use xv7_riscv.Proc.{nproc, Table}
use xv7_riscv.Proc.Scheduler.{Lottery, rand, is_runnable, to_ulong, add_tickets, find_winner, draw}
use xv7_riscv.Prelude.{
  ℕ, zero, suc, ◌+◌, ◌*◌, ◌%◌, ◌^◌, ◌≤◌, ◌<◌, ◌≡◌, refl, sym, ◌∙◌, ap, true, ltb, Bool-cases, some,
  update, update_self, update_ne, arith, ne→==_false, lt→ltb, inl, inr, ℕ_discrete, subst,
}

rand_small : (lfsr : ℕ) → rand lfsr < 2 ^ 16
unfolding rand
rand_small lfsr = omega arith

module _ (t : Table) (m : ℕ) (few : (j : ℕ) → (t.proc j).tickets ≤ m) where
  -- Room for the tickets of k more processes.
  abbrev HasRoom : ℕ → Lottery → Type 0
  HasRoom k s = s.total_tickets + k * m < 2 ^ 31

  -- A number of tickets below 2 ^ 31 is not negative.
  plain : (i : ℕ) → m < 2 ^ 31 → to_ulong (t.proc i).tickets ≡ (t.proc i).tickets
  plain i lt = rw (lt→ltb (t.proc i).tickets (2 ^ 31) (omega (arith, few i))) refl

  add_tickets-earlier :
      (k i : ℕ) (s : Lottery) (j : ℕ) → j < i → (add_tickets k i t s).tickets j ≡ s.tickets j
  unfolding add_tickets
  add_tickets-earlier zero i s j lt = refl
  add_tickets-earlier (suc k) i s j lt = elim (Bool-cases (is_runnable (t.proc i).state)) [
    | inr skip ↦ rw skip (add_tickets-earlier k (i + 1) s j (omega arith))
    | inl runs ↦
        let total = (s.total_tickets + to_ulong (t.proc i).tickets) % 2 ^ 64 in
        let entries = update s.tickets i (total % 2 ^ 32) in
        rw runs (
          add_tickets-earlier k (i + 1) (record s { total_tickets = total; tickets = entries }) j
            (omega arith)
          ∙ update_ne s.tickets i j (total % 2 ^ 32) (omega arith))
  ]

  more : (k : ℕ) → suc k * m ≡ k * m + m
  more k = suc-mul k m

  -- The sum never falls, and the entry of a process that can run is a sum on the way.
  add_tickets-grows :
      (k i : ℕ) (s : Lottery)
      → HasRoom k s
      → (s.total_tickets ≤ (add_tickets k i t s).total_tickets)
        × ((add_tickets k i t s).total_tickets < 2 ^ 31)
  unfolding add_tickets
  add_tickets-grows zero i s room = (omega arith, omega arith)
  add_tickets-grows (suc k) i s room = elim (Bool-cases (is_runnable (t.proc i).state)) [
    | inr skip ↦ rw skip (add_tickets-grows k (i + 1) s (omega (arith, more k)))
    | inl runs ↦
        let total = (s.total_tickets + to_ulong (t.proc i).tickets) % 2 ^ 64 in
        let entries = update s.tickets i (total % 2 ^ 32) in
        let exact : total ≡ s.total_tickets + (t.proc i).tickets =
          omega (arith, more k, few i, plain i (omega (arith, more k))) in
        let room' : total + k * m < 2 ^ 31 = omega (arith, more k, few i, exact) in
        let (above, below) =
          add_tickets-grows k (i + 1) (record s { total_tickets = total; tickets = entries })
            room' in
        rw runs (omega arith, below)
  ]

  add_tickets-share :
      (k i : ℕ) (s : Lottery) (j : ℕ)
      → HasRoom k s
      → i ≤ j
      → j < i + k
      → is_runnable (t.proc j).state ≡ true
      → (s.total_tickets ≤ (add_tickets k i t s).tickets j)
        × ((add_tickets k i t s).tickets j < 2 ^ 31)
  unfolding add_tickets
  add_tickets-share zero i s j room le lt can = absurd (omega arith)
  add_tickets-share (suc k) i s j room le lt can = elim (ℕ_discrete i j) [
    | yes e ↦
        let runs : is_runnable (t.proc i).state ≡ true =
          subst (λ (q : ℕ). is_runnable (t.proc q).state ≡ true) (sym e) can in
        let total = (s.total_tickets + to_ulong (t.proc i).tickets) % 2 ^ 64 in
        let entries = update s.tickets i (total % 2 ^ 32) in
        let exact : total ≡ s.total_tickets + (t.proc i).tickets =
          omega (arith, more k, few i, plain i (omega (arith, more k))) in
        let kept : (add_tickets k (i + 1) t
                (record s { total_tickets = total; tickets = entries })).tickets
              j
            ≡ total % 2 ^ 32 =
          add_tickets-earlier k (i + 1) (record s { total_tickets = total; tickets = entries }) j
            (omega arith)
          ∙ ap (λ (q : ℕ). entries q) (sym e)
          ∙ update_self s.tickets i (total % 2 ^ 32) in
        rw runs
          (omega (arith, more k, few i, kept, exact), omega (arith, more k, few i, kept, exact))
    | no ne ↦ elim (Bool-cases (is_runnable (t.proc i).state)) [
      | inr skip ↦
          rw skip (
            add_tickets-share k (i + 1) s j (omega (arith, more k)) (omega arith) (omega arith) can)
      | inl runs ↦
          let total = (s.total_tickets + to_ulong (t.proc i).tickets) % 2 ^ 64 in
          let entries = update s.tickets i (total % 2 ^ 32) in
          let exact : total ≡ s.total_tickets + (t.proc i).tickets =
            omega (arith, more k, few i, plain i (omega (arith, more k))) in
          let room' : total + k * m < 2 ^ 31 = omega (arith, more k, few i, exact) in
          let (above, below) =
            add_tickets-share k (i + 1) (record s { total_tickets = total; tickets = entries }) j
              room' (omega arith) (omega arith) can in
          rw runs (omega arith, below)
    ]
  ]

-- The second loop stops at an entry above the winner.
find_winner-stops :
    (k i winner : ℕ) (tickets : ℕ → ℕ) (j : ℕ)
    → i ≤ j
    → j < i + k
    → ltb winner (to_ulong (tickets j)) ≡ true
    → find_winner k i winner tickets ≤ j
unfolding find_winner
find_winner-stops zero i winner tickets j le lt h = absurd (omega arith)
find_winner-stops (suc k) i winner tickets j le lt h =
    elim (Bool-cases (ltb winner (to_ulong (tickets i)))) [
      | inl now ↦ rw now le
      | inr later ↦ elim (ℕ_discrete i j) [
        | yes e ↦
            let bad = subst (λ (q : ℕ). ltb winner (to_ulong (tickets q)) ≡ true) (sym e) h in
            absurd (false≢true (sym later ∙ bad))
        | no ne ↦
            rw later (find_winner-stops k (i + 1) winner tickets j (omega arith) (omega arith) h)
      ]
    ]

-- Once total_tickets is at least 2 ^ 16, and while 64 processes with at most m tickets each keep it
-- below 2 ^ 31, a turn of `scheduler` picks no process after one that can run, whatever the lottery
-- number; and total_tickets does not fall. So of the processes that can run only the first is chosen.
pub scheduler_starves :
    (t : Table) (s : Lottery) (m j : ℕ)
    → ((i : ℕ) → (t.proc i).tickets ≤ m)
    → 2 ^ 16 ≤ s.total_tickets
    → s.total_tickets + nproc * m < 2 ^ 31
    → j < nproc
    → is_runnable (t.proc j).state ≡ true
    → (p : ℕ) × (u : Lottery) × (draw t s ≡ some (p, u))
      × (p ≤ j)
      × (s.total_tickets ≤ u.total_tickets)
unfolding draw
scheduler_starves t s m j few big room lt can =
    let s1 = add_tickets nproc 0 t s in
    let (above, small) = add_tickets-grows t m few nproc 0 s room in
    let (share, fits) = add_tickets-share t m few nproc 0 s j room (omega arith) lt can in
    let winner = rand s1.lfsr % s1.total_tickets in
    let low : winner < s1.tickets j = omega (arith, rand_small s1.lfsr, above, share) in
    let over : ltb winner (to_ulong (s1.tickets j)) ≡ true =
      rw (lt→ltb (s1.tickets j) (2 ^ 31) fits) (lt→ltb winner (s1.tickets j) low) in
    (
      find_winner nproc 0 winner s1.tickets,
      record s1 { lfsr = rand s1.lfsr },
      rw (ne→==_false s1.total_tickets 0 (omega (arith, above, big))) refl,
      find_winner-stops nproc 0 winner s1.tickets j (omega arith) lt over,
      above,
    )
