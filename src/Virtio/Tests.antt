-- ===== src/Virtio/Tests.antt =====
-- Runs of kernel/virtio_disk.c.
use xv7_riscv.Virtio.{
  Queue, Chain, cleared, init, rw_start, rw_finish, alloc3_desc, alloc_desc, find_desc, format,
  submit,
}
use xv7_riscv.Virtio.Requests.{Exact}
use xv7_riscv.Virtio.Runs.{Runs, start, starts, one_owner, virtio_no_panic}
use xv7_riscv.Prelude.{ℕ, ◌≡◌, ◌≢◌, refl, true, false, [], ◌∷◌, Option, none, some}

abbrev idle : Queue
idle = record {
  free = λ _. false;
  desc = λ _. cleared;
  ops = λ _. record { type = 0; sector = 0 };
  info_b = λ _. none;
  info_status = λ _. 0;
  ring = λ _. 0;
  idx = 0;
  used_idx = 0;
  disk = λ _. false;
}

abbrev chain : ℕ → ℕ → ℕ → Chain
chain a b c = record { first = a; second = b; third = c }

abbrev after : Option (Option Chain × Queue) → Queue
after none = idle
after (some (c, q)) = q

-- Two requests
abbrev one : Queue
one = after (rw_start 5 40 true (init idle))

abbrev two : Queue
two = after (rw_start 6 41 false one)

both_start :
    (rw_start 5 40 true (init idle) ≡ some (some (chain 0 1 2), one))
    × (rw_start 6 41 false one ≡ some (some (chain 3 4 5), two))
unfolding rw_start alloc3_desc alloc_desc find_desc format submit init
both_start = (refl, refl)

two_requests : Runs two (chain 3 4 5 ∷ chain 0 1 2 ∷ [])
two_requests =
    starts one two 6 41 false (chain 3 4 5)
      (starts (init idle) one 5 40 true (chain 0 1 2) (start idle) both_start.0) both_start.1

one_owner_example : Exact (chain 3 4 5 ∷ chain 0 1 2 ∷ []) two
one_owner_example = one_owner two_requests

-- A third request waits, and the first ends.
virtio_no_panic_example :
    (rw_start 7 42 true two ≢ none)
    × ((q1 : Queue) × (rw_finish (chain 0 1 2) two ≡ some q1) × Exact (chain 3 4 5 ∷ []) q1)
virtio_no_panic_example =
    virtio_no_panic two (chain 3 4 5 ∷ []) [] (chain 0 1 2) 7 42 true two_requests
