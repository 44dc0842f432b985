-- ===== src/Pipe/Calls.antt =====
-- What `pipewrite` and `piperead` do to the queue that a pipe holds, on every way out.
use xv7_riscv.Prelude.{
  ℕ, zero, suc, ◌+◌, ◌%◌, ◌^◌, ◌<◌, ◌≡◌, ◌≢◌, ◌∙◌, ◌⊎◌, List, [], ◌∷◌, ◌++◌, length, append_assoc,
  append-nil, none, some, inl, inr, Option, Bool, Bool-cases, Option-cases, true, false, sym, ap,
  arith, subst, not, ◌||◌, ◌==◌, refl, rounds_of, ℕ_discrete, ==_iff, ne→==_false, if◌then◌else◌,
  ◌&&◌,
}
use xv7_riscv.Pipe.{
  Pipe, Channel, Exit, returned, failed, sleeping, Result, on_nread, on_nwrite, pipe_size, put,
  skip, write_from, pipewrite, read_from, piperead, not,
}
use xv7_riscv.Pipe.Fifo.{
  IsValid, count, contents, not_full, put-IsValid, put-contents, skip-IsValid, skip-contents,
  window,
}

-- The list is what user memory holds from offset i on.
abbrev pub Fetched : (ℕ → Option ℕ) → ℕ → List ℕ → Type 0
Fetched fetch i [] = Unit {0}
Fetched fetch i (ch ∷ chs) = (fetch i ≡ some ch) × Fetched fetch (i + 1) chs

module _ (fetch : ℕ → Option ℕ) (killed : ℕ → Bool) where
  -- Why the writer stopped at offset m, short of offset n, with the pipe as it left it.
  abbrev pub Stopped : ℕ → ℕ → Pipe → Exit → Type 0
  Stopped n m p (returned r) = (r ≡ m) × ((m ≡ n) ⊎ (fetch m ≡ none))
  Stopped n m p (sleeping r) = (r ≡ m) × (m < n) × (count p ≡ pipe_size)
  Stopped n m p failed = (m < n) × ((p.readopen ≡ false) ⊎ (killed m ≡ true))

  -- The readers are woken unless the writer fails.
  abbrev pub Wakes : Exit → List Channel → Type 0
  Wakes failed ws = ws ≡ []
  Wakes _ ws = ws ≡ on_nread ∷ []

  pub record Wrote (n i : ℕ) (p : Pipe) (r : Result) : Type 0 where
    pub sent : List ℕ
    pub valid : IsValid r.1
    pub queued : contents r.1 ≡ contents p ++ sent
    pub fetched : Fetched fetch i sent
    pub stopped : Stopped n (i + length sent) r.1 r.0
    pub woken : Wakes r.0 r.2

  stop :
      (n i : ℕ) (p : Pipe) (e : Exit) (ws : List Channel)
      → IsValid p
      → Stopped n i p e
      → Wakes e ws
      → Wrote n i p (e, p, ws)
  stop n i p e ws v s w = record {
    sent = [];
    valid = v;
    queued = sym (append-nil (contents p));
    fetched = tt;
    stopped = subst (λ (m : ℕ). Stopped n m p e) (omega arith) s;
    woken = w;
  }

  one_more :
      (n i ch : ℕ) (p : Pipe) (r : Result)
      → IsValid p
      → count p < pipe_size
      → fetch i ≡ some ch
      → Wrote n (i + 1) (put ch p) r
      → Wrote n i p r
  one_more n i ch p r v room e w = record {
    sent = ch ∷ w.sent;
    valid = w.valid;
    queued =
        w.queued
        ∙ ap (λ (l : List ℕ). l ++ w.sent) (put-contents p ch v room)
        ∙ append_assoc (contents p) (ch ∷ []) w.sent;
    fetched = (e, w.fetched);
    stopped = subst (λ (m : ℕ). Stopped n m r.1 r.0) (omega arith) w.stopped;
    woken = w.woken;
  }

  write_from-Wrote :
      (k i n : ℕ) (p : Pipe) → i + k ≡ n → IsValid p → Wrote n i p (write_from fetch killed k i p)
  unfolding write_from
  write_from-Wrote zero i n p q v = stop n i p _ _ v (refl, inl (omega arith)) refl
  write_from-Wrote (suc k) i n p q v = elim (Bool-cases (not p.readopen || killed i)) [
    | inl gone ↦ rw gone (stop n i p failed [] v (omega arith, ground arith) refl)
    | inr on ↦ elim (Bool-cases (p.nwrite == (p.nread + pipe_size) % 2 ^ 32)) [
      | inl full ↦
          rw (on, full)
            (stop n i p (sleeping i) (on_nread ∷ []) v (refl, omega arith, ground arith) refl)
      | inr free ↦ elim (Option-cases (fetch i)) [
        | inl e ↦ rw (on, free, e) (stop n i p (returned i) (on_nread ∷ []) v (refl, inr e) refl)
        | inr (ch, e) ↦
            let room = not_full p v (ground arith) in
            rw (on, free, e)
              (one_more n i ch p _ v room e
                (write_from-Wrote k (i + 1) n (put ch p) (omega arith) (put-IsValid p ch v room)))
      ]
    ]
  ]

  -- A `pipewrite` with a count that is not negative appends a prefix of the user's bytes, in order, to
  -- the queue; it stops at the end, at a byte that it cannot fetch, asleep on a full pipe, or with -1
  -- when the read end is closed or the process is killed; and it wakes the readers unless it fails.
  pub pipewrite_queues :
      (left i : ℕ) (p : Pipe)
      → left < 2 ^ 31
      → IsValid p
      → Wrote (i + left) i p (pipewrite fetch killed left i p)
  unfolding pipewrite
  pipewrite_queues left i p small v =
      rw (rounds_of left small) (write_from-Wrote left i (i + left) p refl v)

module _ (deliver : ℕ → Bool) where
  -- What leaves the queue is what reaches the user, and one byte more if it cannot be delivered.
  pub data Took (n m : ℕ) (p' : Pipe) (taken out : List ℕ) : Type 0 where
    whole : taken ≡ out → (m ≡ n) ⊎ (contents p' ≡ []) → Took n m p' taken out
    dropped : (ch : ℕ) → taken ≡ out ++ (ch ∷ []) → deliver m ≡ false → Took n m p' taken out

  pub record Read (n i : ℕ) (p : Pipe) (r : ℕ × Pipe × List ℕ) : Type 0 where
    pub taken : List ℕ
    pub valid : IsValid r.1
    pub dequeued : contents p ≡ taken ++ contents r.1
    pub counted : r.0 ≡ i + length r.2
    pub took : Took n r.0 r.1 taken r.2

  emptied : (p : Pipe) → IsValid p → p.nread ≡ p.nwrite → contents p ≡ []
  emptied p v e = let z : count p ≡ 0 = omega arith in ap (window p.bytes p.nread) z

  one_taken :
      (n i : ℕ) (p : Pipe) (r : ℕ × Pipe × List ℕ)
      → IsValid p
      → p.nread ≢ p.nwrite
      → Read n (i + 1) (skip p) r
      → Read n i p (r.0, r.1, p.bytes (p.nread % pipe_size) ∷ r.2)
  one_taken n i p r v ne d = record {
    taken = p.bytes (p.nread % pipe_size) ∷ d.taken;
    valid = d.valid;
    dequeued =
        skip-contents p v ne ∙ ap (λ (l : List ℕ). p.bytes (p.nread % pipe_size) ∷ l) d.dequeued;
    counted = omega (arith, d.counted);
    took = elim d.took [
      | whole e h ↦ whole (ap (λ (l : List ℕ). p.bytes (p.nread % pipe_size) ∷ l) e) h
      | dropped ch e h ↦ dropped ch (ap (λ (l : List ℕ). p.bytes (p.nread % pipe_size) ∷ l) e) h
    ];
  }

  read_from-Read :
      (k i n : ℕ) (p : Pipe) → i + k ≡ n → IsValid p → Read n i p (read_from deliver k i p)
  unfolding read_from
  read_from-Read zero i n p q v = record {
    taken = [];
    valid = v;
    dequeued = refl;
    counted = omega arith;
    took = whole refl (inl (omega arith));
  }
  read_from-Read (suc k) i n p q v = elim (ℕ_discrete p.nread p.nwrite) [
    | yes e ↦ rw ((==_iff p.nread p.nwrite).1 e) (record {
      taken = [];
      valid = v;
      dequeued = refl;
      counted = omega arith;
      took = whole refl (inr (emptied p v e));
    })
    | no ne ↦ elim (Bool-cases (deliver i)) [
      | inl d ↦
          rw (ne→==_false p.nread p.nwrite ne, d)
            (one_taken n i p _ v ne
              (read_from-Read k (i + 1) n (skip p) (omega arith) (skip-IsValid p v ne)))
      | inr d ↦
          rw (ne→==_false p.nread p.nwrite ne, d)
            (record {
              taken = p.bytes (p.nread % pipe_size) ∷ [];
              valid = skip-IsValid p v ne;
              dequeued = skip-contents p v ne;
              counted = omega arith;
              took = dropped (p.bytes (p.nread % pipe_size)) refl d;
            })
    ]
  ]

  abbrev pub Reply : Type 0
  Reply = Result × List ℕ

  -- The two ways in which `piperead` gives the lock up.
  pub data Replied (killed : Bool) (n : ℕ) (p : Pipe) : Reply → Type 0 where
    waits :
        contents p ≡ []
        → p.writeopen ≡ true
        → Replied killed n p ((if killed then failed else sleeping 0, p, []), [])
    reads :
        (i : ℕ) (p' : Pipe) (out : List ℕ)
        → Read n 0 p (i, p', out)
        → Replied killed n p ((returned i, p', on_nwrite ∷ []), out)

  -- A `piperead` with a count that is not negative takes the oldest bytes off the queue, hands them to
  -- the user in order and wakes the writers; it takes one byte more, which is lost, if that byte cannot
  -- be stored. Only on an empty pipe with an open write end does it sleep, or fail if killed.
  pub piperead_dequeues :
      (killed : Bool) (n : ℕ) (p : Pipe)
      → n < 2 ^ 31
      → IsValid p
      → Replied killed n p (piperead deliver killed n p)
  unfolding piperead
  piperead_dequeues killed n p small v = elim (Bool-cases ((p.nread == p.nwrite) && p.writeopen)) [
    | inl e ↦ rw e (waits (emptied p v (ground arith)) (ground arith))
    | inr e ↦
        rw (e, rounds_of n small)
          (reads (read_from deliver n 0 p).0 (read_from deliver n 0 p).1 (read_from deliver n 0 p).2
            (read_from-Read n 0 n p (omega arith) v))
  ]
