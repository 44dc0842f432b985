-- ===== src/Proc/Steps.antt =====
-- The steps of all processes together: a parent that waits is never left asleep over a zombie child.
use mathlib.Core.Bool.{false≢true}
use xv7_riscv.Prelude.{
  ℕ, ◌<◌, ◌≡◌, ◌≢◌, ◌⊎◌, true, false, Bool, arith, inl, subst, ℕ_discrete, sym, Bool-cases, inr,
  update, refl, ◌∙◌, ==_iff, ap, update_ne, Option, some, ◌==◌, ==_refl, Option-cases,
}
use xv7_riscv.Proc.{
  nproc, used, sleeping, runnable, running, zombie, is_zombie, Channel, of_proc, at, Proc, Table,
  set_proc, wakeup, sleep, resume, yield, kill, freeproc, allocproc, allocproc_at, allocpid,
  find_unused,
}
use xv7_riscv.Proc.Family.{
  is_proc, exit_zombie, Waited, reaped, failed, waiting, wait, fork_parent, fork_ready, fork_copy,
  exit_files,
}
use xv7_riscv.Proc.Wakeup.{kill_lem}
use xv7_riscv.Proc.Zombies.{dozes, NoLost, exit_zombie-NoLost, wakeup-Kept}
use xv7_riscv.Proc.Waiting.{WaitEnds, wait_lem}

-- One step of some process on the table, by the functions of kernel/proc.c.
pub data Step (t : Table) : Table → Type 0 where
  waits : (p : ℕ) (stored : Bool) → p < 64 → (t.proc p).state ≡ running → Step t (wait p stored t).1
  exits : (p init status : ℕ) → p < 64 → init < 64 → p ≢ init → Step t (exit_zombie p status init t)
  wakes : (me : ℕ) (channel : Channel) → Step t (wakeup me channel t)
  kills : (pid : ℕ) → Step t (kill pid t).1
  sleeps : (p a : ℕ) → (t.proc p).state ≡ running → Step t (sleep p (at a) t)
  resumes : (p : ℕ) → (t.proc p).state ≡ running → Step t (resume p t)
  yields : (p : ℕ) → (t.proc p).state ≡ running → Step t (yield p t)
  runs :
      (p : ℕ)
      → (t.proc p).state ≡ runnable
      → Step t (set_proc t p (record (t.proc p) { state = running }))
  allocates : (trapframe pagetable : ℕ) → Step t (allocproc trapframe pagetable t).1
  copies :
      (me np : ℕ) (copied : Bool) → (t.proc np).state ≡ used → Step t (fork_copy me np copied t).0
  readies : (np : ℕ) → (t.proc np).state ≡ used → Step t (fork_ready np t)
  closes : (p : ℕ) → (t.proc p).state ≡ running → Step t (exit_files p t).0
  adopts : (me np : ℕ) → (t.proc np).state ≡ used → Step t (fork_parent me np t)

-- A change of one process that does not make it doze, a zombie, or another's child.
module _ (t : Table) (i : ℕ) (x : Proc) where
  set-NoLost :
      ((q : ℕ) → dozes q x ≡ true → dozes q (t.proc i) ≡ true)
      → ((q : ℕ)
          → is_proc x.parent q ≡ true
          → (is_zombie x.state ≡ false)
            ⊎ ((is_zombie (t.proc i).state ≡ is_zombie x.state)
                × (is_proc (t.proc i).parent q ≡ true)))
      → NoLost t
      → NoLost (set_proc t i x)
  unfolding NoLost
  set-NoLost quiet child lost q c qs cs d ch = elim (ℕ_discrete i c) [
    | yes e ↦
        let ci : is_proc x.parent q ≡ true =
          ap (λ (y : Proc). is_proc y.parent q) (sym (at_i c e)) ∙ ch in
        ap (λ (y : Proc). is_zombie y.state) (at_i c e) ∙ elim (child q ci) [
          | inl fine ↦ fine
          | inr (same, old) ↦
              sym same
              ∙ ap (λ (m : ℕ). is_zombie (t.proc m).state) e
              ∙ lost q c qs cs (dozed q d)
                  (subst (λ (m : ℕ). is_proc (t.proc m).parent q ≡ true) e old)
        ]
    | no ne ↦
        ap (λ (y : Proc). is_zombie y.state) (update_ne t.proc i c x ne)
        ∙ lost q c qs cs (dozed q d)
            (ap (λ (y : Proc). is_proc y.parent q) (sym (update_ne t.proc i c x ne)) ∙ ch)
  ]
    where
      at_i : (c : ℕ) → i ≡ c → update t.proc i x c ≡ x
      at_i c e = rw ((==_iff i c).1 e) refl

      dozed : (q : ℕ) → dozes q (update t.proc i x q) ≡ true → dozes q (t.proc q) ≡ true
      dozed q d = elim (ℕ_discrete i q) [
        | yes e ↦
            subst (λ (m : ℕ). dozes q (t.proc m) ≡ true) e
              (quiet q (ap (dozes q) (sym (at_i q e)) ∙ d))
        | no ne ↦ ap (dozes q) (sym (update_ne t.proc i q x ne)) ∙ d
      ]

wakeup-NoLost : (me : ℕ) (channel : Channel) (t : Table) → NoLost t → NoLost (wakeup me channel t)
unfolding NoLost
wakeup-NoLost me channel t lost q c qs cs d ch =
    let kq = wakeup-Kept me channel t q qs in
    let kc = wakeup-Kept me channel t c cs in
    kc.undead
    ∙ lost q c qs cs (kq.quiet q d) (ap (λ (x : Option ℕ). is_proc x q) (sym kc.parent) ∙ ch)

kill-NoLost : (pid : ℕ) (t : Table) → NoLost t → NoLost (kill pid t).1
kill-NoLost pid t lost = elim (kill_lem pid t) [
  | inl (e, n) ↦ rw e lost
  | inr (j, lt, at_j, first, e) ↦
      rw e (set-NoLost t j _ (λ q d. ground arith) (λ q ch. inr (ground arith, ch)) lost)
]

wait-NoLost :
    (p : ℕ) (t : Table) (r : Waited × Table) (stored : Bool)
    → (t.proc p).state ≡ running
    → WaitEnds p stored t r
    → NoLost t
    → NoLost r.1
unfolding NoLost freeproc sleep
wait-NoLost p t (reaped pid, t') stored on (c, lt, ch, z, st, i, e) lost =
    rw e (set-NoLost t c _ (λ q d. absurd (cc)) (λ q h. inl refl) lost)
wait-NoLost p t (failed, t') stored on (e, _) lost = rw e lost
wait-NoLost p t (waiting, t') stored on (e, _, all, _) lost =
    rw e (λ q c qs cs d ch. asleep q c qs cs d ch)
  where
    x : Proc
    x = record (t.proc p) { channel = of_proc p; state = sleeping }

    same_child :
        (q c : ℕ)
        → is_proc (update t.proc p x c).parent q ≡ true
        → is_proc (t.proc c).parent q ≡ true
    same_child q c ch = elim (ℕ_discrete p c) [
      | yes e ↦
          let eq : (p == c) ≡ true = (==_iff p c).1 e in
          subst (λ (m : ℕ). is_proc (t.proc m).parent q ≡ true) e (rw eq at ch)
      | no ne ↦ ap (λ (y : Proc). is_proc y.parent q) (sym (update_ne t.proc p c x ne)) ∙ ch
    ]

    asleep :
        (q c : ℕ)
        → q < 64
        → c < 64
        → dozes q (update t.proc p x q) ≡ true
        → is_proc (update t.proc p x c).parent q ≡ true
        → is_zombie (update t.proc p x c).state ≡ false
    asleep q c qs cs d ch = elim (ℕ_discrete p c) [
      | yes e ↦ rw ((==_iff p c).1 e) refl
      | no ne ↦
          ap (λ (y : Proc). is_zombie y.state) (update_ne t.proc p c x ne) ∙ elim (ℕ_discrete p q) [
            | yes e ↦
                all c cs (
                  subst (λ (m : ℕ). is_proc (t.proc c).parent m ≡ true) (sym e) (same_child q c ch))
            | no nq ↦
                lost q c qs cs (ap (dozes q) (sym (update_ne t.proc p q x nq)) ∙ d)
                  (same_child q c ch)
          ]
    ]

allocproc_at-NoLost :
    (i trapframe pagetable : ℕ) (t : Table)
    → NoLost t
    → NoLost (allocproc_at i trapframe pagetable t).1
unfolding allocproc_at allocpid freeproc NoLost
allocproc_at-NoLost i trapframe pagetable t lost = elim (Bool-cases (trapframe == 0)) [
  | inl e ↦ rw e (set-NoLost t i _ (λ q d. ground arith) (λ q h. inl refl) lost)
  | inr e ↦ elim (Bool-cases (pagetable == 0)) [
    | inl e2 ↦ rw e (rw e2 (set-NoLost t i _ (λ q d. ground arith) (λ q h. inl refl) lost))
    | inr e2 ↦ rw e (rw e2 (set-NoLost t i _ (λ q d. ground arith) (λ q h. inl refl) lost))
  ]
]

allocproc-NoLost :
    (trapframe pagetable : ℕ) (t : Table) → NoLost t → NoLost (allocproc trapframe pagetable t).1
unfolding allocproc
allocproc-NoLost trapframe pagetable t lost = elim (Option-cases (find_unused nproc 0 t)) [
  | inl e ↦ rw (allocproc, e) lost
  | inr (i, e) ↦ rw (allocproc, e) (allocproc_at-NoLost i trapframe pagetable t lost)
]

Step-NoLost : {t u : Table} → Step t u → NoLost t → NoLost u
unfolding sleep resume yield fork_parent fork_ready fork_copy exit_files freeproc
Step-NoLost {t} (waits p stored lt on) lost = wait-NoLost p t _ stored on (wait_lem p stored t) lost
Step-NoLost {t} (exits p init status lt ilt ne) lost =
    exit_zombie-NoLost p init ne ilt status t lt lost
Step-NoLost {t} (wakes me channel) lost = wakeup-NoLost me channel t lost
Step-NoLost {t} (kills pid) lost = kill-NoLost pid t lost
Step-NoLost {t} (sleeps p a on) lost = set-NoLost t p _ (λ q d. ground arith) (λ q h. inl refl) lost
Step-NoLost {t} (resumes p on) lost =
    set-NoLost t p _ (λ q d. ground arith) (λ q h. inl (ground arith)) lost
Step-NoLost {t} (yields p on) lost = set-NoLost t p _ (λ q d. ground arith) (λ q h. inl refl) lost
Step-NoLost {t} (runs p on) lost = set-NoLost t p _ (λ q d. ground arith) (λ q h. inl refl) lost
Step-NoLost {t} (allocates trapframe pagetable) lost = allocproc-NoLost trapframe pagetable t lost
Step-NoLost {t} (copies me np true on) lost =
    set-NoLost t np _ (λ q d. ground arith) (λ q h. inl (ground arith)) lost
Step-NoLost {t} (copies me np false on) lost =
    set-NoLost t np _ (λ q d. ground arith) (λ q h. inl refl) lost
Step-NoLost {t} (readies np on) lost =
    set-NoLost t np _ (λ q d. ground arith) (λ q h. inl refl) lost
Step-NoLost {t} (closes p on) lost =
    set-NoLost t p _ (λ q d. ground arith) (λ q h. inl (ground arith)) lost
Step-NoLost {t} (adopts me np on) lost =
    set-NoLost t np _ (λ q d. ground arith) (λ q h. inl (ground arith)) lost

pub data Reach (t : Table) : Table → Type 0 where
  start : Reach t t
  later : {u v : Table} → Reach t u → Step u v → Reach t v

start-NoLost : (t : Table) → ((c : ℕ) → c < 64 → (t.proc c).state ≢ zombie) → NoLost t
unfolding NoLost
start-NoLost t none_there q c qs cs d h = ground (arith, none_there c cs)

Reach-NoLost : {t v : Table} → NoLost t → Reach t v → NoLost v
Reach-NoLost lost start = lost
Reach-NoLost lost (later r st) = Step-NoLost st (Reach-NoLost lost r)

-- From a table in which no process is a zombie, however the processes interleave: a process that
-- sleeps in `wait` has no child that is a zombie.
pub no_lost_wakeup :
    {t u : Table}
    → ((c : ℕ) → c < 64 → (t.proc c).state ≢ zombie)
    → Reach t u
    → (q c : ℕ) → q < 64
    → c < 64
    → (u.proc q).state ≡ sleeping
    → (u.proc q).channel ≡ of_proc q
    → (u.proc c).parent ≡ some q
    → (u.proc c).state ≢ zombie
unfolding NoLost
no_lost_wakeup {t} {u} none_there r q c qs cs s w ch dead =
    let dozing : dozes q (u.proc q) ≡ true = ground (arith, ==_refl q) in
    false≢true (
      sym (Reach-NoLost (start-NoLost t none_there) r q c qs cs dozing (rw ch (==_refl q)))
      ∙ ap is_zombie dead)
