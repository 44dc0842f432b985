-- ===== src/Proc/Zombies.antt =====
-- No wakeup of a waiting parent is lost: a process that sleeps in `wait` has no zombie child.
use mathlib.Core.Bool.{false≢true}
use xv7_riscv.Prelude.{
  ℕ, zero, suc, ◌+◌, ◌≤◌, ◌<◌, ◌≡◌, ◌≢◌, true, false, Bool, arith, some, ◌==◌, ◌&&◌, Bool-cases,
  leb, ◌∙◌, if◌then◌else◌, refl, inl, ltb, inr, ℕ_discrete, Option, subst, ==_iff, none, sym,
  update_ne, ==_refl, ap,
}
use xv7_riscv.Proc.{
  nproc, is_sleeping, is_zombie, Channel, of_proc, Proc, Table, set_proc, wakeup, same_channel,
}
use xv7_riscv.Proc.Family.{is_proc, reparent_one, reparent_from, exit_zombie, wake_parent}
use xv7_riscv.Proc.Wakeup.{wakeup-proc, wakeup-me}

-- The process with index q sleeps in `wait`.
abbrev pub dozes : ℕ → Proc → Bool
dozes q x = is_sleeping x.state && same_channel x.channel (of_proc q)

unfoldable pub NoLost : Table → Type 0
NoLost t =
    (q c : ℕ)
    → q < 64
    → c < 64
    → dozes q (t.proc q) ≡ true
    → is_proc (t.proc c).parent q ≡ true
    → is_zombie (t.proc c).state ≡ false

-- What may happen to a process that others act on: it keeps its parent, and stays a zombie or none;
-- it may stop sleeping.
pub record Kept (x y : Proc) : Type 0 where
  pub parent : y.parent ≡ x.parent
  pub undead : is_zombie y.state ≡ is_zombie x.state
  pub quiet : (q : ℕ) → dozes q y ≡ true → dozes q x ≡ true

Kept-refl : (x : Proc) → Kept x x
Kept-refl x = record { parent = refl; undead = refl; quiet = λ q h. h }

module _ (me : ℕ) (channel : Channel) (t : Table) (j : ℕ) (lt : j < 64) where
  pub wakeup-Kept : Kept (t.proc j) ((wakeup me channel t).proc j)
  wakeup-Kept =
      rw (wakeup-proc me channel t j lt)
        (record { parent = ground arith; undead = ground arith; quiet = λ q h. ground arith })

module _ (me q : ℕ) (t : Table) (ne : me ≢ q) (lt : q < 64) where
  -- A process that is woken does not sleep in `wait`.
  wakeup_awake : dozes q ((wakeup me (of_proc q) t).proc q) ≡ false
  wakeup_awake = rw (wakeup-proc me (of_proc q) t q lt) (ground arith)

module _ (p init : ℕ) (ne : p ≢ init) (small : init < 64) where
  -- What a round of `reparent` does to process j.
  record Moved (child : Bool) (x y : Proc) : Type 0 where
    parent : y.parent ≡ (if child then some init else x.parent)
    undead : is_zombie y.state ≡ is_zombie x.state
    quiet : (q : ℕ) → dozes q y ≡ true → dozes q x ≡ true

  reparent_one-Moved :
      (i : ℕ) (t : Table) (j : ℕ)
      → j < 64
      → Moved
          ((i == j) && is_proc (t.proc j).parent p)
          (t.proc j)
          ((reparent_one i p init t).proc j)
  unfolding reparent_one
  reparent_one-Moved i t j lt = elim (Bool-cases (is_proc (t.proc i).parent p)) [
    | inl e ↦
        let t1 = set_proc t i (record (t.proc i) { parent = some init }) in
        let k = wakeup-Kept p (of_proc init) t1 j lt in
        rw e (record {
          parent = ground (arith, k.parent);
          undead = ground (arith, k.undead);
          quiet = λ q h. ground (arith, k.quiet q);
        })
    | inr e ↦ rw e (record { parent = ground arith; undead = refl; quiet = λ q h. h })
  ]

  reparent_one-awake :
      (i : ℕ) (t : Table)
      → is_proc (t.proc i).parent p ≡ true
      → dozes init ((reparent_one i p init t).proc init) ≡ false
  unfolding reparent_one
  reparent_one-awake i t e =
      rw e (wakeup_awake p init (set_proc t i (record (t.proc i) { parent = some init })) ne small)

  abbrev in_range : ℕ → ℕ → ℕ → Bool
  in_range i k j = leb i j && ltb j (i + k)

  reparent_from-Moved :
      (k i : ℕ) (t : Table) (j : ℕ)
      → j < 64
      → Moved
          (in_range i k j && is_proc (t.proc j).parent p)
          (t.proc j)
          ((reparent_from k i p init t).proc j)
  unfolding reparent_from
  reparent_from-Moved zero i t j lt = record {
    parent = ground arith;
    undead = refl;
    quiet = λ q h. h;
  }
  reparent_from-Moved (suc k) i t j lt =
      let a = reparent_one-Moved i t j lt in
      let b = reparent_from-Moved k (i + 1) (reparent_one i p init t) j lt in
      record {
        parent = ground (arith, a.parent, b.parent);
        undead = b.undead ∙ a.undead;
        quiet = λ q h. a.quiet q (b.quiet q h);
      }

  stays_awake :
      {x y : Proc} {b : Bool} (q : ℕ) → Moved b x y → dozes q x ≡ false → dozes q y ≡ false
  stays_awake {y = y} q m h = elim (Bool-cases (dozes q y)) [
    | inl e ↦ absurd (cc (m.quiet q e))
    | inr e ↦ e
  ]

  reparent_from-awake :
      (k i : ℕ) (t : Table) (c : ℕ)
      → c < 64
      → i ≤ c
      → c < i + k
      → is_proc (t.proc c).parent p ≡ true
      → dozes init ((reparent_from k i p init t).proc init) ≡ false
  unfolding reparent_from
  reparent_from-awake zero i t c lt lo hi e = absurd (omega arith)
  reparent_from-awake (suc k) i t c lt lo hi e = elim (ℕ_discrete i c) [
    | yes q ↦
        stays_awake init (reparent_from-Moved k (i + 1) (reparent_one i p init t) init small)
          (reparent_one-awake i t (subst (λ (x : ℕ). is_proc (t.proc x).parent p ≡ true) (sym q) e))
    | no q ↦
        let a = reparent_one-Moved i t c lt in
        reparent_from-awake k (i + 1) (reparent_one i p init t) c lt (omega arith) (omega arith)
          (ground (arith, a.parent))
  ]

  module _ (status : ℕ) (t : Table) (psmall : p < 64) (lost : NoLost t) where
    abbrev given : Table
    given = reparent_from nproc 0 p init t

    moved :
        (j : ℕ)
        → j < 64
        → Moved (in_range 0 nproc j && is_proc (t.proc j).parent p) (t.proc j) (given.proc j)
    moved j lt = reparent_from-Moved nproc 0 t j lt

    abbrev woken : Table
    woken = wake_parent p (given.proc p).parent given

    woken-Kept :
        (parent : Option ℕ) (j : ℕ)
        → j < 64
        → Kept (given.proc j) ((wake_parent p parent given).proc j)
    woken-Kept none j lt = wakeup-Kept p Channel.null given j lt
    woken-Kept (some q) j lt = wakeup-Kept p (of_proc q) given j lt

    woken-awake :
        (parent : Option ℕ) (q : ℕ)
        → q < 64
        → p ≢ q
        → is_proc parent q ≡ true
        → dozes q ((wake_parent p parent given).proc q) ≡ false
    woken-awake none q lt h e = cc
    woken-awake (some r) q lt h e =
        let same : r ≡ q = (==_iff r q).0 e in
        subst (λ (x : ℕ). dozes q ((wakeup p (of_proc x) given).proc q) ≡ false) (sym same)
          (wakeup_awake p q given h lt)

    woken-me : (parent : Option ℕ) → (wake_parent p parent given).proc p ≡ given.proc p
    woken-me none = wakeup-me p Channel.null given
    woken-me (some q) = wakeup-me p (of_proc q) given

    abbrev pub exited : Table
    exited = exit_zombie p status init t

    exited-other : (j : ℕ) → p ≢ j → exited.proc j ≡ woken.proc j
    unfolding exit_zombie
    exited-other j ne = update_ne woken.proc p j _ ne

    exited-dozes : (q : ℕ) → dozes q (exited.proc p) ≡ false
    unfolding exit_zombie
    exited-dozes q = rw (==_refl p) refl

    exited-parent : (exited.proc p).parent ≡ (given.proc p).parent
    unfolding exit_zombie
    exited-parent = rw (==_refl p) (ap (λ (x : Proc). x.parent) (woken-me (given.proc p).parent))

    dozed : (q : ℕ) → dozes q (exited.proc q) ≡ true → p ≢ q
    dozed q h e =
        false≢true
          (sym (exited-dozes q) ∙ subst (λ (x : ℕ). dozes q (exited.proc x) ≡ true) (sym e) h)

    all_in_range : (c : ℕ) → c < 64 → in_range 0 nproc c ≡ true
    all_in_range c lt = ground arith

    given-parent :
        (c : ℕ) (b : Bool)
        → c < 64
        → is_proc (t.proc c).parent p ≡ b
        → (given.proc c).parent ≡ (if b then some init else (t.proc c).parent)
    given-parent c b lt e = (moved c lt).parent ∙ rw (all_in_range c lt, e) refl

    adopted :
        (q c : ℕ)
        → c < 64
        → is_proc (t.proc c).parent p ≡ true
        → is_proc (given.proc c).parent q ≡ true
        → init ≡ q
    adopted q c lt mine ch =
        (==_iff init q).0
          (ap (λ (x : Option ℕ). is_proc x q) (sym (given-parent c true lt mine)) ∙ ch)

    kept :
        (q c : ℕ)
        → c < 64
        → is_proc (t.proc c).parent p ≡ false
        → is_proc (given.proc c).parent q ≡ true
        → is_proc (t.proc c).parent q ≡ true
    kept q c lt other ch =
        ap (λ (x : Option ℕ). is_proc x q) (sym (given-parent c false lt other)) ∙ ch

    -- A child that was there before.
    old_child :
        (q c : ℕ)
        → q < 64
        → c < 64
        → p ≢ c
        → dozes q (woken.proc q) ≡ true
        → is_proc (woken.proc c).parent q ≡ true
        → is_zombie (woken.proc c).state ≡ false
    unfolding NoLost
    old_child q c qs cs pc dz ch =
        let wq = woken-Kept (given.proc p).parent q qs in
        let wc = woken-Kept (given.proc p).parent c cs in
        let mq = moved q qs in
        let mc = moved c cs in
        let ch1 : is_proc (given.proc c).parent q ≡ true =
          ap (λ (x : Option ℕ). is_proc x q) (sym wc.parent) ∙ ch in
        wc.undead ∙ mc.undead ∙ elim (Bool-cases (is_proc (t.proc c).parent p)) [
          | inl mine ↦
              let aw = reparent_from-awake nproc 0 t c cs (omega arith) (omega arith) mine in
              let qi = adopted q c cs mine ch1 in
              absurd (
                false≢true
                  (sym (subst (λ (x : ℕ). dozes x (given.proc x) ≡ false) qi aw) ∙ wq.quiet q dz))
          | inr other ↦ lost q c qs cs (mq.quiet q (wq.quiet q dz)) (kept q c cs other ch1)
        ]

    -- The exiting process becomes a zombie only once its parent is awake, and its own zombies are
    -- handed to an init that is awake.
    pub exit_zombie-NoLost : NoLost exited
    unfolding NoLost
    exit_zombie-NoLost q c qs cs dz ch =
        let pq = dozed q dz in
        let dz1 : dozes q (woken.proc q) ≡ true = ap (dozes q) (sym (exited-other q pq)) ∙ dz in
        elim (ℕ_discrete p c) [
          | yes e ↦
              let ch1 : is_proc (given.proc p).parent q ≡ true =
                ap (λ (x : Option ℕ). is_proc x q) (sym exited-parent)
                ∙ subst (λ (x : ℕ). is_proc (exited.proc x).parent q ≡ true) (sym e) ch in
              absurd (false≢true (sym (woken-awake (given.proc p).parent q qs pq ch1) ∙ dz1))
          | no pc ↦
              ap (λ (x : Proc). is_zombie x.state) (exited-other c pc)
              ∙ old_child q c qs cs pc dz1
                  (ap (λ (x : Proc). is_proc x.parent q) (sym (exited-other c pc)) ∙ ch)
        ]
