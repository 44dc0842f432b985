-- ===== src/Sleeplock/Owners.antt =====
-- Who owns a sleep lock, and that nobody sleeps on a free one.
use xv7_riscv.Sleeplock.{
  initsleeplock, acquiresleep, releasesleep, holdingsleep, Phase, outside, asleep, owning, woken,
  System, Step, takes, sleeps, releases, Steps, start, later,
}
use xv7_riscv.Prelude.{ℕ, ℕ_discrete, arith, ◌≡◌, ◌↔◌, true, ◌≢◌, update}

record IsOwned (s : System) : Type 0 where
  owner : (p : ℕ) → (s.phase p ≡ owning) ↔ (holdingsleep p s.lock ≡ true)
  busy : (p : ℕ) → s.phase p ≡ asleep → s.lock.locked ≢ 0

start-IsOwned : IsOwned (record { lock = initsleeplock; phase = λ _. outside })
unfolding holdingsleep
start-IsOwned = record {
  owner = λ p. (λ e. absurd (cc), λ e. absurd (cc));
  busy = λ p e. absurd (cc);
}

woken-outside : (x : Phase) → woken x ≢ asleep
woken-outside outside e = absurd (cc)
woken-outside asleep e = absurd (cc)
woken-outside owning e = absurd (cc)

Step-IsOwned : {s t : System} → Step s t → IsOwned s → IsOwned t
unfolding holdingsleep acquiresleep releasesleep
Step-IsOwned {s} (takes me lk out got) h = record {
  owner = λ p.
      let old = h.owner p in elim (ℕ_discrete me p) [ yes e ↦ ground arith | no ne ↦ ground arith ];
  busy = λ p e. ground arith;
}
Step-IsOwned {s} (sleeps me out full) h = record {
  owner = λ p.
      let old = h.owner p in elim (ℕ_discrete me p) [ yes e ↦ ground arith | no ne ↦ ground arith ];
  busy = λ p e. let old = h.busy p in ground arith;
}
Step-IsOwned {s} (releases me own) h = record {
  owner = λ p.
      let old = h.owner p in
      let mine = h.owner me in
      elim (ℕ_discrete me p) [ yes e ↦ ground arith | no ne ↦ ground arith ];
  busy = λ p e. absurd (woken-outside (update s.phase me outside p) e);
}

Steps-IsOwned :
    {t : System} → Steps (record { lock = initsleeplock; phase = λ _. outside }) t → IsOwned t
Steps-IsOwned start = start-IsOwned
Steps-IsOwned (later r st) = Step-IsOwned st (Steps-IsOwned r)

-- However the processes interleave on a lock that starts free: at most one owns it, `holdingsleep`
-- is true for exactly that one, and no process sleeps on the lock while it is free.
pub sleeplock_owner :
    {t : System}
    → Steps (record { lock = initsleeplock; phase = λ _. outside }) t
    → ((p q : ℕ) → t.phase p ≡ owning → t.phase q ≡ owning → p ≡ q)
      × ((p : ℕ) → (t.phase p ≡ owning) ↔ (holdingsleep p t.lock ≡ true))
      × ((p : ℕ) → t.phase p ≡ asleep → t.lock.locked ≢ 0)
unfolding holdingsleep
sleeplock_owner r =
    let h = Steps-IsOwned r in
    (λ p q a b. let x = h.owner p in let y = h.owner q in ground arith, h.owner, h.busy)
