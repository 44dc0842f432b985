-- ===== src/Virtio.antt =====
-- The driver of kernel/virtio_disk.c: its descriptors and requests, from each acquire of `vdisk_lock`
-- to the next sleep or release. A buffer is a number; the device's side of the rings is an argument.
pub mod Descriptors
pub mod Requests
pub mod Runs
mod Tests
use xv7_riscv.Prelude.{
  ℕ, zero, suc, ◌+◌, ◌*◌, ◌%◌, ◌^◌, ◌==◌, leb, Bool, true, false, not, ◌||◌, if◌then◌else◌, Option,
  none, some, update,
}

-- NUM of kernel/virtio.h
abbrev pub num : ℕ
num = 8

-- What a descriptor points to: the header or the status byte of entry i, or the data of a buffer.
pub data Addr : Type 0 where
  null : Addr
  header status : (i : ℕ) → Addr
  data_of : (b : ℕ) → Addr

-- Of the flags, VRING_DESC_F_NEXT is 1 and VRING_DESC_F_WRITE is 2.
pub record Desc : Type 0 where
  pub addr : Addr
  pub len : ℕ
  pub flags : ℕ
  pub next : ℕ

-- The type VIRTIO_BLK_T_IN is 0, and VIRTIO_BLK_T_OUT 1.
pub record BlkReq : Type 0 where
  pub type : ℕ
  pub sector : ℕ

pub record Queue : Type 0 where
  pub free : ℕ → Bool
  pub desc : ℕ → Desc
  pub ops : ℕ → BlkReq
  pub info_b : ℕ → Option ℕ
  pub info_status : ℕ → ℕ
  pub ring : ℕ → ℕ
  pub idx : ℕ
  pub used_idx : ℕ
  -- `disk` of each buffer
  pub disk : ℕ → Bool

-- The descriptors of a request.
pub record Chain : Type 0 where
  pub first : ℕ
  pub second : ℕ
  pub third : ℕ

-- The search of `alloc_desc` from descriptor i on.
unfoldable pub find_desc : ℕ → ℕ → (ℕ → Bool) → Option ℕ
find_desc zero i free = none
find_desc (suc k) i free = let rest = find_desc k (i + 1) free in if free i then some i else rest

unfoldable pub alloc_desc : Queue → Option (ℕ × Queue)
alloc_desc q = elim (find_desc num 0 q.free) [
  | none ↦ none
  | some i ↦ some (i, record q { free = update q.free i false })
]

abbrev pub cleared : Desc
cleared = record { addr = null; len = 0; flags = 0; next = 0 }

-- `none` is a panic.
unfoldable pub free_desc : ℕ → Queue → Option Queue
free_desc i q =
    if leb num i || q.free i
    then none
    else some (record q { desc = update q.desc i cleared; free = update q.free i true })

-- The loop of `free_chain`.
unfoldable pub free_chain : ℕ → ℕ → Queue → Option Queue
free_chain zero i q = none
free_chain (suc k) i q =
    let d = q.desc i in
    elim (free_desc i q) [
      | none ↦ none
      | some q1 ↦ elim (d.flags % 2 == 1) [ true ↦ free_chain k d.next q1 | false ↦ some q1 ]
    ]

-- `alloc3_desc` with no descriptor left for the last one, or the last two.
unfoldable pub undo_one : ℕ → Queue → Option (Option Chain × Queue)
undo_one a q = elim (free_desc a q) [ none ↦ none | some q1 ↦ some (none, q1) ]

unfoldable pub undo_two : ℕ → ℕ → Queue → Option (Option Chain × Queue)
undo_two a b q = elim (free_desc a q) [ none ↦ none | some q1 ↦ undo_one b q1 ]

unfoldable pub alloc3_desc : Queue → Option (Option Chain × Queue)
alloc3_desc q = elim (alloc_desc q) [
  | none ↦ some (none, q)
  | some (a, q1) ↦ elim (alloc_desc q1) [
    | none ↦ undo_one a q1
    | some (b, q2) ↦ elim (alloc_desc q2) [
      | none ↦ undo_two a b q2
      | some (c, q3) ↦ some (some (record { first = a; second = b; third = c }), q3)
    ]
  ]
]

-- The three descriptors of a request.
unfoldable pub format : Chain → ℕ → ℕ → Bool → Queue → Queue
format c b blockno write q =
    let d0 : Desc = record { addr = header c.first; len = 16; flags = 1; next = c.second } in
    let d1 : Desc = record {
      addr = data_of b;
      len = 1024;
      flags = if write then 1 else 3;
      next = c.third;
    } in
    let d2 : Desc = record { addr = status c.first; len = 1; flags = 2; next = 0 } in
    let op : BlkReq = record { type = if write then 1 else 0; sector = (blockno * 2) % 2 ^ 32 } in
    record q {
      ops = update q.ops c.first op;
      desc = update (update (update q.desc c.first d0) c.second d1) c.third d2;
      info_status = update q.info_status c.first 0xff;
    }

-- The buffer is the device's, and the ring of available chains has one more.
unfoldable pub submit : Chain → ℕ → Queue → Queue
submit c b q = record q {
  disk = update q.disk b true;
  info_b = update q.info_b c.first (some b);
  ring = update q.ring (q.idx % num) c.first;
  idx = (q.idx + 1) % 2 ^ 16;
}

-- `virtio_disk_rw` up to the sleep: the request, or none when it waits for descriptors.
unfoldable pub rw_start : ℕ → ℕ → Bool → Queue → Option (Option Chain × Queue)
rw_start b blockno write q = elim (alloc3_desc q) [
  | none ↦ none
  | some (none, q1) ↦ some (none, q1)
  | some (some c, q1) ↦ some (some c, submit c b (format c b blockno write q1))
]

-- `virtio_disk_rw` once the device is done with the buffer.
unfoldable pub rw_finish : Chain → Queue → Option Queue
rw_finish c q = free_chain num c.first (record q { info_b = update q.info_b c.first none })

-- A round of the loop of `virtio_disk_intr`, for the entry `id` of the used ring. A null buffer is a
-- fault.
unfoldable pub complete : ℕ → Queue → Option Queue
complete id q = if not (q.info_status id == 0) then none else elim (q.info_b id) [
  | none ↦ none
  | some b ↦ some (record q { disk = update q.disk b false; used_idx = (q.used_idx + 1) % 2 ^ 16 })
]

-- The loop: the device's index and ring.
unfoldable pub intr : ℕ → ℕ → (ℕ → ℕ) → Queue → Option Queue
intr zero device_idx used q = some q
intr (suc k) device_idx used q = elim (q.used_idx == device_idx) [
  | true ↦ some q
  | false ↦ elim (complete (used (q.used_idx % num)) q) [
    | none ↦ none
    | some q1 ↦ intr k device_idx used q1
  ]
]

-- `virtio_disk_init`: all descriptors are free; their memory is zeroed by `kalloc`.
unfoldable pub init : Queue → Queue
init q = record q { free = λ i. if leb num i then q.free i else true }
