-- ===== src/Virtio/Runs.antt =====
-- Any number of requests of kernel/virtio_disk.c, in any order.
use xv7_riscv.Virtio.{
  num, Desc, Queue, Chain, free_chain, alloc3_desc, format, submit, rw_start, rw_finish, complete,
  init,
}
use xv7_riscv.Virtio.Descriptors.{bit, Owned, Linked, members, Returned, free_chain-Returned, apart}
use xv7_riscv.Virtio.Requests.{
  InRange, flat, AllLinked, Exact, Same, AllLinked-Same, Taken3, alloc3_desc-Taken3,
}
use xv7_riscv.Fs.Holders.{count}
use xv7_riscv.Prelude.{
  dec_lt, ℕ, ◌+◌, ◌%◌, ◌≡◌, ◌≢◌, refl, sym, ◌∙◌, ap, subst, Bool, true, false, if◌then◌else◌, List,
  [], ◌∷◌, ◌++◌, Option, none, some, update, update_ne, arith, not, ◌==◌, ◌^◌,
}

-- The queue after some steps, and the requests that are under way. A request ends once `disk` of its
-- buffer is false, which the device's interrupt makes it.
pub data Runs : Queue → List Chain → Type 0 where
  start : (q : Queue) → Runs (init q) []
  starts :
      {cs : List Chain} (q q1 : Queue) (b blockno : ℕ) (write : Bool) (c : Chain)
      → Runs q cs
      → rw_start b blockno write q ≡ some (some c, q1)
      → Runs q1 (c ∷ cs)
  waits :
      {cs : List Chain} (q q1 : Queue) (b blockno : ℕ) (write : Bool)
      → Runs q cs
      → rw_start b blockno write q ≡ some (none, q1)
      → Runs q1 cs
  device :
      {cs : List Chain} (q : Queue) (s : ℕ → ℕ) → Runs q cs → Runs (record q { info_status = s }) cs
  completes :
      {cs : List Chain} (q q1 : Queue) (id : ℕ) → Runs q cs → complete id q ≡ some q1 → Runs q1 cs
  finishes :
      (q q1 : Queue) (b : ℕ) (before after : List Chain) (c : Chain)
      → Runs q (before ++ (c ∷ after))
      → q.disk b ≡ false
      → rw_finish c q ≡ some q1
      → Runs q1 (before ++ after)

-- What a start leaves.
abbrev Started : List Chain → Option (Option Chain × Queue) → Type 0
Started cs none = ⊥
Started cs (some (none, q)) = Exact cs q
Started cs (some (some c, q)) = Exact (c ∷ cs) q

format-Linked :
    (c : Chain) (b blockno : ℕ) (write : Bool) (q : Queue)
    → (c.first ≢ c.second) × (c.first ≢ c.third) × (c.second ≢ c.third)
    → Linked c (format c b blockno write q)
unfolding format
format-Linked c b blockno true q (ne01, ne02, ne12) = (
  ground (arith, ne01, ne02),
  ground (arith, ne01, ne02),
  ground (arith, ne12),
  ground (arith, ne12),
  ground arith,
)
format-Linked c b blockno false q (ne01, ne02, ne12) = (
  ground (arith, ne01, ne02),
  ground (arith, ne01, ne02),
  ground (arith, ne12),
  ground (arith, ne12),
  ground arith,
)

update3_ne :
    (d : ℕ → Desc) (c : Chain) (x y w : Desc) (j : ℕ)
    → count j (members c []) ≡ 0
    → update (update (update d c.first x) c.second y) c.third w j ≡ d j
update3_ne d c x y w j z =
    let n0 : c.first ≢ j = λ e. ground (arith, z, e) in
    let n1 : c.second ≢ j = λ e. ground (arith, z, e) in
    let n2 : c.third ≢ j = λ e. ground (arith, z, e) in
    update_ne (update (update d c.first x) c.second y) c.third j w n2
    ∙ update_ne (update d c.first x) c.second j y n1
    ∙ update_ne d c.first j x n0

-- The descriptors of the other requests stay as they are.
format-Same :
    (c : Chain) (b blockno : ℕ) (write : Bool) (q : Queue) (j : ℕ)
    → count j (members c []) ≡ 0
    → (format c b blockno write q).desc j ≡ q.desc j
unfolding format
format-Same c b blockno write q j z = update3_ne q.desc c _ _ _ j z

-- A descriptor of another request is none of these three.
other_request :
    (c : Chain) (l : List ℕ) (q : Queue) (j : ℕ)
    → InRange c
    → Owned (members c l) q
    → count j l ≢ 0
    → count j (members c []) ≡ 0
other_request c l q j (l0, l1, l2) own ne = elim (dec_lt j num) [
  | yes lt ↦ ground (arith, own j lt, ne)
  | no ge ↦ ground (arith, l0, l1, l2, ge)
]

rw_start-Started :
    (cs : List Chain) (b blockno : ℕ) (write : Bool) (q : Queue)
    → Exact cs q
    → Started cs (rw_start b blockno write q)
unfolding rw_start submit format
rw_start-Started cs b blockno write q (own, links) =
    begun (alloc3_desc q) (alloc3_desc-Taken3 (flat cs) q own)
  where
    begun :
        (o : Option (Option Chain × Queue))
        → Taken3 (flat cs) q o
        → Started cs (elim o [
          | none ↦ none
          | some (none, q1) ↦ some (none, q1)
          | some (some c, q1) ↦ some (some c, submit c b (format c b blockno write q1))
        ])
    begun none h = h
    begun (some (none, q1)) h = (h.0, AllLinked-Same cs q q1 h.1 links)
    begun (some (some c, q1)) (r, own1, d) =
        let q2 : Queue = submit c b (format c b blockno write q1) in
        let same : Same (flat cs) q q2 = λ j ne.
          format-Same c b blockno write q1 j (other_request c (flat cs) q1 j r own1 ne)
          ∙ ap (λ d. d j) d in
        let (l0, l1, l2) = r in
        (
          own1,
          (
            r,
            format-Linked c b blockno write q1 (apart (flat cs) c q1 l0 l1 own1),
            AllLinked-Same cs q q2 same links,
          ),
        )

count-flat :
    (j : ℕ) (before after : List Chain) (c : Chain)
    → count j (flat (before ++ (c ∷ after))) ≡ count j (members c (flat (before ++ after)))
count-flat j [] after c = refl
count-flat j (x ∷ before) after c = let e = count-flat j before after c in omega arith

AllLinked-take :
    (q : Queue) (before after : List Chain) (c : Chain)
    → AllLinked q (before ++ (c ∷ after))
    → InRange c × Linked c q × AllLinked q (before ++ after)
AllLinked-take q [] after c h = h
AllLinked-take q (x ∷ before) after c (r, k, h) =
    let (r1, k1, h1) = AllLinked-take q before after c h in (r1, k1, (r, k, h1))

abbrev Finished : List Chain → Option Queue → Type 0
Finished cs none = ⊥
Finished cs (some q) = Exact cs q

rw_finish-Finished :
    (q : Queue) (before after : List Chain) (c : Chain)
    → Exact (before ++ (c ∷ after)) q
    → Finished (before ++ after) (rw_finish c q)
unfolding rw_finish
rw_finish-Finished q before after c (own, links) =
    let (r, link, rest) = AllLinked-take q before after c links in
    let q0 : Queue = record q { info_b = update q.info_b c.first none } in
    let l : List ℕ = flat (before ++ after) in
    let own0 : Owned (members c l) q0 =
      λ j lt. let e = count-flat j before after c in let h = own j lt in omega arith in
    done q0 own0 r rest (free_chain num c.first q0)
      (free_chain-Returned 5 l c q0 r.0 r.1 r.2 own0 link)
  where
    done :
        (q0 : Queue)
        → Owned (members c (flat (before ++ after))) q0
        → InRange c
        → AllLinked q0 (before ++ after)
        → (o : Option Queue) → Returned (flat (before ++ after)) c q0 o
        → Finished (before ++ after) o
    done q0 own0 r rest none h = h
    done q0 own0 r rest (some q1) (own1, d) = (
      own1,
      AllLinked-Same (before ++ after) q0 q1
          (λ j ne. d j (other_request c (flat (before ++ after)) q0 j r own0 ne)) rest,
    )

Exact-kept :
    (cs : List Chain) (q q1 : Queue)
    → q1.free ≡ q.free
    → q1.desc ≡ q.desc
    → Exact cs q
    → Exact cs q1
Exact-kept cs q q1 f d (own, links) = (
  (λ j lt. subst (λ (g : ℕ → Bool). bit (g j) + count j (flat cs) ≡ 1) (sym f) (own j lt)),
  AllLinked-Same cs q q1 (λ j ne. ap (λ d. d j) d) links,
)

complete-Exact :
    (cs : List Chain) (id : ℕ) (q q1 : Queue) → complete id q ≡ some q1 → Exact cs q → Exact cs q1
unfolding complete
complete-Exact cs id q q1 e exact = subst Kept e (kept (not (q.info_status id == 0)) (q.info_b id))
  where
    Kept : Option Queue → Type 0
    Kept none = Unit {0}
    Kept (some q1) = Exact cs q1

    kept :
        (failed : Bool) (o : Option ℕ)
        → Kept (
            if failed then none else elim o [
              | none ↦ none
              | some b ↦
                  some (record q {
                    disk = update q.disk b false;
                    used_idx = (q.used_idx + 1) % 2 ^ 16;
                  })
            ])
    kept true o = tt
    kept false none = tt
    kept false (some b) = exact

-- After any number of requests that have started, waited, been completed by the device and ended, in
-- any order, each descriptor is free and in no request, or not free and once in one request; and the
-- three of a request are linked in their order.
pub one_owner : {q : Queue} {cs : List Chain} → Runs q cs → Exact cs q
unfolding init
one_owner (start q) = (λ j lt. ground (arith, lt), tt)
one_owner (starts {cs = cs} q q1 b blockno write c run e) =
    subst (Started cs) e (rw_start-Started cs b blockno write q (one_owner run))
one_owner (waits {cs = cs} q q1 b blockno write run e) =
    subst (Started cs) e (rw_start-Started cs b blockno write q (one_owner run))
one_owner (device q s run) = one_owner run
one_owner (completes {cs = cs} q q1 id run e) = complete-Exact cs id q q1 e (one_owner run)
one_owner (finishes q q1 b before after c run idle e) =
    subst (Finished (before ++ after)) e (rw_finish-Finished q before after c (one_owner run))

-- Where a request is under way, a further start of `virtio_disk_rw` does not panic, nor does its end of
-- the request, which then has freed all that is not in the other requests.
pub virtio_no_panic :
    (q : Queue) (before after : List Chain) (c : Chain) (b blockno : ℕ) (write : Bool)
    → Runs q (before ++ (c ∷ after))
    → (rw_start b blockno write q ≢ none)
      × ((q1 : Queue) × (rw_finish c q ≡ some q1) × Exact (before ++ after) q1)
virtio_no_panic q before after c b blockno write run =
    let exact = one_owner run in
    (
      (λ e.
          subst (Started (before ++ (c ∷ after))) e
            (rw_start-Started (before ++ (c ∷ after)) b blockno write q exact)),
      finished (rw_finish c q) (rw_finish-Finished q before after c exact),
    )
  where
    finished :
        (o : Option Queue)
        → Finished (before ++ after) o
        → (q1 : Queue) × (o ≡ some q1) × Exact (before ++ after) q1
    finished none h = absurd h
    finished (some q1) h = (q1, refl, h)
