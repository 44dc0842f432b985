-- ===== src/Spinlock/Nesting.antt =====
-- `push_off` and `pop_off` are matched: interrupts come back when the outermost pair is closed, and
-- only then.
use xv7_riscv.Prelude.{
  ℕ, zero, suc, ◌-◌, ◌<◌, ◌≡◌, List, [], ◌∷◌, Bool, false, Option, none, some, arith, subst, ◌==◌,
  ◌&&◌, refl, if◌then◌else◌, ◌^◌, ltb,
}
use xv7_riscv.Spinlock.{Cpu, push_off, pop_off}

pub data Toggle : Type 0 where
  push pop : Toggle

unfoldable pub toggles : List Toggle → Cpu → Option Cpu
toggles [] c = some c
toggles (push ∷ ts) c = toggles ts (push_off c)
toggles (pop ∷ ts) c = elim (pop_off c) [ none ↦ none | some c' ↦ toggles ts c' ]

-- Where a sequence that starts d pairs deep ends; `none` if it closes a pair that is not open, or goes
-- deeper than an `int` can count.
unfoldable pub depth : List Toggle → ℕ → Option ℕ
depth [] d = some d
depth (push ∷ ts) d = if ltb (suc d) (2 ^ 31) then depth ts (suc d) else none
depth (pop ∷ ts) zero = none
depth (pop ∷ ts) (suc d) = depth ts d

-- The state of a CPU whose interrupts were i0 outside of all pairs, d pairs deep.
pub record IsNested (i0 : Bool) (d : ℕ) (c : Cpu) : Type 0 where
  pub deep : c.noff ≡ d
  pub small : d < 2 ^ 31
  pub outside : d ≡ 0 → c.intr ≡ i0
  pub within : 0 < d → (c.intr ≡ false) × (c.intena ≡ i0)

push-IsNested :
    (i0 : Bool) (d : ℕ) (c : Cpu)
    → IsNested i0 d c
    → suc d < 2 ^ 31
    → IsNested i0 (suc d) (push_off c)
unfolding push_off
push-IsNested i0 d c h lt = record {
  deep = omega (arith, h.deep);
  small = lt;
  outside = λ e. absurd (omega arith);
  within = λ p. ground (arith, h.deep, h.outside, h.within);
}

-- The state after `pop_off`, when it does not panic.
abbrev popped : Cpu → Cpu
popped c = record c { noff = c.noff - 1; intr = (c.noff - 1 == 0) && c.intena }

pop-some : (i0 : Bool) (d : ℕ) (c : Cpu) → IsNested i0 (suc d) c → pop_off c ≡ some (popped c)
unfolding pop_off
pop-some i0 d c h =
    let (i, e) = h.within (omega arith) in let n = h.deep in let l = h.small in ground arith

pop-IsNested : (i0 : Bool) (d : ℕ) (c : Cpu) → IsNested i0 (suc d) c → IsNested i0 d (popped c)
pop-IsNested i0 d c h =
    let (i, e) = h.within (omega arith) in
    let n = h.deep in
    let l = h.small in
    record {
      deep = omega arith;
      small = omega arith;
      outside = λ z. ground arith;
      within = λ p. ground arith;
    }

-- From a CPU d pairs deep, a sequence that closes no pair twice and is never 2^31 pairs deep does not
-- panic, and ends as deep as it counts; so where all pairs are closed, interrupts are as they were outside, and off before.
pub toggles_restore :
    (ts : List Toggle) (i0 : Bool) (d e : ℕ) (c : Cpu)
    → IsNested i0 d c
    → depth ts d ≡ some e
    → (c' : Cpu) × (toggles ts c ≡ some c') × IsNested i0 e c'
unfolding toggles depth
toggles_restore [] i0 d e c h q = (c, refl, subst (λ (k : ℕ). IsNested i0 k c) (ground arith) h)
toggles_restore (push ∷ ts) i0 d e c h q =
    let lt : suc d < 2 ^ 31 = ground arith in
    toggles_restore ts i0 (suc d) e (push_off c) (push-IsNested i0 d c h lt) (ground arith)
toggles_restore (pop ∷ ts) i0 zero e c h q = absurd (ground arith)
toggles_restore (pop ∷ ts) i0 (suc d) e c h q =
    let (c', r, v) = toggles_restore ts i0 d e (popped c) (pop-IsNested i0 d c h) q in
    (c', rw (pop-some i0 d c h, toggles) r, v)
