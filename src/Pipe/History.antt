-- ===== src/Pipe/History.antt =====
-- Any sequence of calls on one pipe, by any number of processes: the bytes come out in the order in
-- which they went in.
use xv7_riscv.Prelude.{
  ℕ, zero, suc, ◌+◌, ◌-◌, ◌<◌, ◌^◌, ◌≡◌, ◌∙◌, List, [], ◌∷◌, ◌++◌, length, Option, Bool, true,
  false, ap, arith, length-append, none, refl, sym, append-nil, ◌≤◌, append_assoc, ◌≢◌, subst,
}
use xv7_riscv.Pipe.{Pipe, Result, init, pipewrite, piperead, pipeclose, some}
use xv7_riscv.Pipe.Fifo.{IsValid, count, contents, length-contents, init-IsValid}
use xv7_riscv.Pipe.Calls.{
  Fetched, Wrote, Replied, waits, reads, whole, dropped, pipewrite_queues, piperead_dequeues,
}

-- A critical section of one process on the pipe; `deliver i` says whether byte i of a read can be
-- stored.
pub data Call : Type 0 where
  writes : (fetch : ℕ → Option ℕ) (killed : ℕ → Bool) (left i : ℕ) → Call
  receives : (deliver : ℕ → Bool) (killed : Bool) (n : ℕ) → Call
  closes : Bool → Call

abbrev pub IsCount : Call → Type 0
IsCount (writes _ _ left _) = left < 2 ^ 31
IsCount (receives _ _ n) = n < 2 ^ 31
IsCount (closes _) = Unit {0}

abbrev pub AllCounts : List Call → Type 0
AllCounts [] = Unit {0}
AllCounts (c ∷ cs) = IsCount c × AllCounts cs

abbrev byte_of : Option ℕ → ℕ
byte_of (some ch) = ch
byte_of none = 0

-- The first m bytes of user memory from offset i on.
abbrev pub fetched : (ℕ → Option ℕ) → ℕ → ℕ → List ℕ
fetched fetch i zero = []
fetched fetch i (suc m) = byte_of (fetch i) ∷ fetched fetch (i + 1) m

-- The pipe after a call, the bytes that the call took from a writer, and those that reached a reader.
unfoldable pub call : Call → Pipe → Pipe × List ℕ × List ℕ
call (writes fetch killed left i) p =
    let p' = (pipewrite fetch killed left i p).1 in (p', fetched fetch i (count p' - count p), [])
call (receives deliver killed n) p = let (r, out) = piperead deliver killed n p in (r.1, [], out)
call (closes writable) p = ((pipeclose writable p).0, [], [])

-- The pipe after the calls, the bytes taken from the writers, and what each call gave to its reader.
unfoldable pub run : List Call → Pipe → Pipe × List ℕ × List (List ℕ)
run [] p = (p, [], [])
run (c ∷ cs) p =
    let (p1, ins, out) = call c p in
    let (p2, ins', outs) = run cs p1 in (p2, ins ++ ins', out ∷ outs)

-- What a call may take off the pipe and lose after the bytes that it gave: a read one byte, if that
-- byte cannot be stored, and other calls nothing.
abbrev pub MayLose : Call → List ℕ → List ℕ → Type 0
MayLose (receives deliver killed n) out gone =
    (length gone ≤ 1) × (gone ≢ [] → deliver (length out) ≡ false)
MayLose _ out gone = (out ≡ []) × (gone ≡ [])

-- The bytes that have left the pipe are, call by call, those that the call gave and may lose.
abbrev pub Passed : List Call → List (List ℕ) → List ℕ → Type 0
Passed [] [] bytes = bytes ≡ []
Passed (c ∷ cs) (out ∷ outs) bytes =
    (gone rest : List ℕ) × (bytes ≡ (out ++ gone) ++ rest)
    × MayLose c out gone
    × Passed cs outs rest
Passed _ _ bytes = ⊥

fetched_lem :
    (fetch : ℕ → Option ℕ) (i : ℕ) (l : List ℕ) → Fetched fetch i l → fetched fetch i (length l) ≡ l
fetched_lem fetch i [] h = refl
fetched_lem fetch i (x ∷ l) (e, h) =
    rw e (ap (λ (m : List ℕ). x ∷ m) (fetched_lem fetch (i + 1) l h))

record Balanced (c : Call) (p : Pipe) (r : Pipe × List ℕ × List ℕ) : Type 0 where
  valid : IsValid r.0
  gone : List ℕ
  may : MayLose c r.2 gone
  balance : contents p ++ r.1 ≡ (r.2 ++ gone) ++ contents r.0

-- Nothing is added, and nothing leaves.
still : (l : List ℕ) → l ++ [] ≡ ([] ++ []) ++ l
still l = append-nil l

call-Balanced : (c : Call) (p : Pipe) → IsCount c → IsValid p → Balanced c p (call c p)
unfolding call pipeclose
call-Balanced (writes fetch killed left i) p small v = record {
  valid = w.valid;
  gone = [];
  may = (refl, refl);
  balance =
      ap (λ (l : List ℕ). contents p ++ l) (rw counted (fetched_lem fetch i w.sent w.fetched))
      ∙ sym w.queued;
}
  where
    w : Wrote fetch killed (i + left) i p (pipewrite fetch killed left i p)
    w = pipewrite_queues fetch killed left i p small v

    counted : count (pipewrite fetch killed left i p).1 - count p ≡ length w.sent
    counted = omega (
      arith,
      ap length w.queued,
      length-append (contents p) w.sent,
      length-contents p,
      length-contents (pipewrite fetch killed left i p).1,
    )
call-Balanced (receives deliver killed n) p small v =
    replied _ (piperead_dequeues deliver killed n p small v)
  where
    replied :
        (r : Result × List ℕ)
        → Replied deliver killed n p r
        → Balanced (receives deliver killed n) p (r.0.1, [], r.1)
    replied r (waits e o) = record {
      valid = v;
      gone = [];
      may = (omega arith, λ ne. absurd (ne refl));
      balance = still (contents p);
    }
    replied r (reads i p' out d) = elim d.took [
      | whole e h ↦ record {
        valid = d.valid;
        gone = [];
        may = (omega arith, λ ne. absurd (ne refl));
        balance =
            append-nil (contents p)
            ∙ d.dequeued
            ∙ ap (λ (l : List ℕ). l ++ contents p') (e ∙ sym (append-nil out));
      }
      | dropped ch e h ↦ record {
        valid = d.valid;
        gone = ch ∷ [];
        may = (
          omega arith,
          λ ne.
              let k : i ≡ length out = omega (arith, d.counted) in
              subst (λ (m : ℕ). deliver m ≡ false) k h,
        );
        balance = append-nil (contents p) ∙ d.dequeued ∙ ap (λ (l : List ℕ). l ++ contents p') e;
      }
    ]
call-Balanced (closes true) p small v = record {
  valid = omega (arith, v.read_in, v.write_in, v.fits);
  gone = [];
  may = (refl, refl);
  balance = still (contents p);
}
call-Balanced (closes false) p small v = record {
  valid = omega (arith, v.read_in, v.write_in, v.fits);
  gone = [];
  may = (refl, refl);
  balance = still (contents p);
}

record Ran (cs : List Call) (p : Pipe) (r : Pipe × List ℕ × List (List ℕ)) : Type 0 where
  valid : IsValid r.0
  left : List ℕ
  passed : Passed cs r.2 left
  balance : contents p ++ r.1 ≡ left ++ contents r.0

module _ {c : Call} {cs : List Call} {p : Pipe} {r : Pipe × List ℕ × List ℕ}
    {r' : Pipe × List ℕ × List (List ℕ)} (b : Balanced c p r) (b' : Ran cs r.0 r') where
  Ran-next : Ran (c ∷ cs) p (r'.0, r.1 ++ r'.1, r.2 ∷ r'.2)
  Ran-next = record {
    valid = b'.valid;
    left = (r.2 ++ b.gone) ++ b'.left;
    passed = (b.gone, b'.left, refl, b.may, b'.passed);
    balance =
        sym (append_assoc (contents p) r.1 r'.1)
        ∙ ap (λ (l : List ℕ). l ++ r'.1) b.balance
        ∙ append_assoc (r.2 ++ b.gone) (contents r.0) r'.1
        ∙ ap (λ (l : List ℕ). (r.2 ++ b.gone) ++ l) b'.balance
        ∙ sym (append_assoc (r.2 ++ b.gone) b'.left (contents r'.0));
  }

run-Ran : (cs : List Call) (p : Pipe) → AllCounts cs → IsValid p → Ran cs p (run cs p)
unfolding run
run-Ran [] p h v = record { valid = v; left = []; passed = refl; balance = append-nil (contents p) }
run-Ran (c ∷ cs) p h v =
    let b = call-Balanced c p h.0 v in Ran-next b (run-Ran cs (call c p).0 h.1 b.valid)

-- From `pipealloc` on, whatever the calls and their order: the bytes taken from the writers are, in
-- order, those that have left the pipe and those in it, which are at most PIPESIZE. Those that have left
-- are, call by call, the bytes that the call gave to its reader, in order, and after them, in a read
-- whose next byte cannot be stored, at most that byte, which is lost.
pub pipe_fifo :
    (cs : List Call)
    → AllCounts cs
    → let (p, ins, outs) = run cs init in
      (left : List ℕ) × (ins ≡ left ++ contents p)
      × Passed cs outs left
      × (length (contents p) ≤ 512)
unfolding run init
pipe_fifo cs h =
    (b.left, b.balance, b.passed, omega (arith, length-contents (run cs init).0, b.valid.fits))
  where
    b : Ran cs init (run cs init)
    b = run-Ran cs init h init-IsValid
