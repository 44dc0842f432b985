-- ===== src/Proc/Wakeup.antt =====
-- What the loops over the process table do to each process.
use xv7_riscv.Prelude.{
  ℕ, zero, suc, ◌+◌, ◌≤◌, ◌<◌, ◌≡◌, ◌≢◌, ◌⊎◌, arith, ◌∙◌, false, if◌then◌else◌, dec_lt, not, true,
  ◌==◌, refl, inl, ◌&&◌, ℕ_discrete, inr, ==_refl, ==_iff, ne→==_false, subst,
}
use xv7_riscv.Proc.{
  nproc, runnable, is_sleeping, Channel, Table, set_proc, wake, wakeup_from, wakeup, kill_from,
  kill_at, kill, same_channel,
}

module _ (me : ℕ) (channel : Channel) where
  wakeup_from-other :
      (k i : ℕ) (t : Table) (j : ℕ)
      → (j < i) ⊎ (i + k ≤ j)
      → (wakeup_from k i me channel t).proc j ≡ t.proc j
  unfolding wakeup_from
  wakeup_from-other zero i t j h = refl
  wakeup_from-other (suc k) i t j h = wakeup_from-other k (i + 1) _ j (omega arith) ∙ ground arith

  wakeup_from-me : (k i : ℕ) (t : Table) → (wakeup_from k i me channel t).proc me ≡ t.proc me
  unfolding wakeup_from
  wakeup_from-me zero i t = refl
  wakeup_from-me (suc k) i t = wakeup_from-me k (i + 1) _ ∙ ground arith

  wakeup_from-wake :
      (k i : ℕ) (t : Table) (j : ℕ)
      → me ≢ j
      → i ≤ j
      → j < i + k
      → (wakeup_from k i me channel t).proc j ≡ wake channel (t.proc j)
  unfolding wakeup_from
  wakeup_from-wake zero i t j ne lo hi = absurd (omega arith)
  wakeup_from-wake (suc k) i t j ne lo hi = elim (dec_lt i j) [
    | yes q ↦ wakeup_from-wake k (i + 1) _ j ne (omega arith) (omega arith) ∙ ground arith
    | no q ↦
        let e : i ≡ j = omega arith in
        wakeup_from-other k (i + 1) _ j (inl (omega arith)) ∙ ground arith
  ]

  wakeup_from-rest :
      (k i : ℕ) (t : Table)
      → ((wakeup_from k i me channel t).initproc ≡ t.initproc)
        × ((wakeup_from k i me channel t).nextpid ≡ t.nextpid)
  unfolding wakeup_from
  wakeup_from-rest zero i t = (refl, refl)
  wakeup_from-rest (suc k) i t = ground (
    arith,
    wakeup_from-rest k (i + 1) (if i == me then t else set_proc t i (wake channel (t.proc i))),
  )

  pub wakeup-me : (t : Table) → (wakeup me channel t).proc me ≡ t.proc me
  unfolding wakeup
  wakeup-me t = wakeup_from-me nproc 0 t

  -- `wakeup` makes runnable exactly the other processes that sleep on the channel, and changes nothing
  -- else.
  pub wakeup-proc :
      (t : Table) (j : ℕ)
      → j < 64
      → (wakeup me channel t).proc j ≡ (
          if not (me == j)
            && is_sleeping (t.proc j).state
            && same_channel (t.proc j).channel channel
          then record (t.proc j) { state = runnable }
          else t.proc j)
  unfolding wakeup wake
  wakeup-proc t j lt = elim (ℕ_discrete me j) [
    | yes e ↦ rw (← e) (wakeup_from-me nproc 0 t ∙ rw ==_refl refl)
    | no ne ↦
        wakeup_from-wake nproc 0 t j ne (omega arith) (omega arith) ∙ rw (ne→==_false me j ne) refl
  ]

-- The process that `kill` finds.
kill_from-found :
    (k i pid : ℕ) (t : Table)
    → ((kill_from k i pid t ≡ (false, t)) × ((j : ℕ) → i ≤ j → j < i + k → (t.proc j).pid ≢ pid))
      ⊎ ((j : ℕ) × (i ≤ j)
          × (j < i + k)
          × ((t.proc j).pid ≡ pid)
          × (kill_from k i pid t ≡ (true, kill_at j t))
          × ((m : ℕ) → i ≤ m → m < j → (t.proc m).pid ≢ pid))
unfolding kill_from
kill_from-found zero i pid t = inl (refl, λ j lo hi. absurd (omega arith))
kill_from-found (suc k) i pid t = elim (ℕ_discrete (t.proc i).pid pid) [
  | yes e ↦ inr (
    i,
    omega arith,
    omega arith,
    e,
    rw ((==_iff (t.proc i).pid pid).1 e) refl,
    λ m lo hi. absurd (omega arith),
  )
  | no ne ↦ elim (kill_from-found k (i + 1) pid t) [
    | inl (r, none_there) ↦ inl (
      rw (ne→==_false (t.proc i).pid pid ne) r,
      λ j lo hi. elim (ℕ_discrete i j) [
        | yes q ↦ subst (λ (x : ℕ). (t.proc x).pid ≢ pid) q ne
        | no q ↦ none_there j (omega arith) (omega arith)
      ],
    )
    | inr (j, lo, hi, at, r, first) ↦ inr (
      j,
      omega arith,
      omega arith,
      at,
      rw (ne→==_false (t.proc i).pid pid ne) r,
      λ m a b. elim (ℕ_discrete i m) [
        | yes q ↦ subst (λ (x : ℕ). (t.proc x).pid ≢ pid) q ne
        | no q ↦ first m (omega arith) (omega arith)
      ],
    )
  ]
]

-- `kill` fails, and changes nothing, if no process has the pid; otherwise it marks the first process
-- that has it as killed, makes it runnable if it sleeps, and changes nothing else.
pub kill_lem :
    (pid : ℕ) (t : Table)
    → ((kill pid t ≡ (false, t)) × ((j : ℕ) → j < 64 → (t.proc j).pid ≢ pid))
      ⊎ ((j : ℕ) × (j < 64)
          × ((t.proc j).pid ≡ pid)
          × ((m : ℕ) → m < j → (t.proc m).pid ≢ pid)
          × (kill pid t ≡ (
            true,
            set_proc t j (record (t.proc j) {
              killed = true;
              state = if is_sleeping (t.proc j).state then runnable else (t.proc j).state;
            }),
          )))
unfolding kill kill_at
kill_lem pid t = elim (kill_from-found nproc 0 pid t) [
  | inl (r, none_there) ↦ inl (r, λ j hi. none_there j (omega arith) (omega arith))
  | inr (j, lo, hi, at, r, first) ↦ inr (j, omega arith, at, λ m b. first m (omega arith) b, r)
]
