-- ===== src/Log/Head.antt =====
-- The header block: what `write_head` writes is what `read_head` reads.
use xv7_riscv.Prelude.{
  rounds, ℕ, zero, suc, ◌+◌, ◌-◌, ◌≤◌, ◌<◌, ◌≡◌, ◌≢◌, ◌∙◌, refl, arith, update, dec_lt, update_ne,
  update_self,
}
use xv7_riscv.BlockStore.{Block, Store}
use xv7_riscv.Log.{Log, read_blocks, write_blocks, read_head, write_head}

write_blocks-other :
    (k i : ℕ) (block : ℕ → ℕ) (h : Block) (c : ℕ) → c ≤ i → write_blocks k i block h c ≡ h c
unfolding write_blocks
write_blocks-other zero i block h c q = refl
write_blocks-other (suc k) i block h c q =
    write_blocks-other k (i + 1) block (update h (i + 1) (block i)) c (omega arith)
    ∙ update_ne h (i + 1) c (block i) (omega arith)

write_blocks-block :
    (k i : ℕ) (block : ℕ → ℕ) (h : Block) (j : ℕ)
    → i ≤ j
    → j < i + k
    → write_blocks k i block h (j + 1) ≡ block j
unfolding write_blocks
write_blocks-block zero i block h j lo hi = absurd (omega arith)
write_blocks-block (suc k) i block h j lo hi = elim (dec_lt i j) [
  | yes q ↦
      write_blocks-block k (i + 1) block (update h (i + 1) (block i)) j (omega arith) (omega arith)
  | no q ↦
      let e : j ≡ i = omega arith in
      rw e (
        write_blocks-other k (i + 1) block (update h (i + 1) (block i)) (i + 1) (omega arith)
        ∙ update_self h (i + 1) (block i))
]

read_blocks-other :
    (k i : ℕ) (h : Block) (block : ℕ → ℕ) (j : ℕ) → j < i → read_blocks k i h block j ≡ block j
unfolding read_blocks
read_blocks-other zero i h block j q = refl
read_blocks-other (suc k) i h block j q =
    read_blocks-other k (i + 1) h (update block i (h (i + 1))) j (omega arith)
    ∙ update_ne block i j (h (i + 1)) (omega arith)

read_blocks-block :
    (k i : ℕ) (h : Block) (block : ℕ → ℕ) (j : ℕ)
    → i ≤ j
    → j < i + k
    → read_blocks k i h block j ≡ h (j + 1)
unfolding read_blocks
read_blocks-block zero i h block j lo hi = absurd (omega arith)
read_blocks-block (suc k) i h block j lo hi = elim (dec_lt i j) [
  | yes q ↦ read_blocks-block k (i + 1) h (update block i (h (i + 1))) j (omega arith) (omega arith)
  | no q ↦
      let e : j ≡ i = omega arith in
      rw e (
        read_blocks-other k (i + 1) h (update block i (h (i + 1))) i (omega arith)
        ∙ update_self block i (h (i + 1)))
]

module _ (log : Log) (s : Store) where
  pub write_head-power : (write_head log s).power ≡ s.power - 1
  unfolding write_head
  write_head-power = ground arith

  pub write_head-view_other : (c : ℕ) → log.start ≢ c → (write_head log s).view c ≡ s.view c
  unfolding write_head
  write_head-view_other c h = ground arith

  pub write_head-disk_other : (c : ℕ) → log.start ≢ c → (write_head log s).disk c ≡ s.disk c
  unfolding write_head
  write_head-disk_other c h = ground arith

  pub write_head-no_power : s.power ≡ 0 → (c : ℕ) → (write_head log s).disk c ≡ s.disk c
  unfolding write_head
  write_head-no_power h c = ground arith

  write_head-disk :
      0 < s.power
      → (write_head log s).disk log.start
        ≡ write_blocks (rounds log.lh.n) 0 log.lh.block (update (s.view log.start) 0 log.lh.n)
  unfolding write_head
  write_head-disk h = ground arith

  pub write_head-n : 0 < s.power → (write_head log s).disk log.start 0 ≡ log.lh.n
  write_head-n h = rw (write_head-disk h) (
      write_blocks-other (rounds log.lh.n) 0 log.lh.block (update (s.view log.start) 0 log.lh.n) 0
        (omega arith))

  pub write_head-block :
      (j : ℕ)
      → 0 < s.power
      → j < rounds log.lh.n
      → (write_head log s).disk log.start (j + 1) ≡ log.lh.block j
  write_head-block j h lt = rw (write_head-disk h) (
      write_blocks-block (rounds log.lh.n) 0 log.lh.block (update (s.view log.start) 0 log.lh.n) j
        (omega arith) (omega arith))

  pub read_head-n : (read_head log s).0.lh.n ≡ s.view log.start 0
  unfolding read_head
  read_head-n = refl

  pub read_head-block :
      (j : ℕ)
      → j < rounds (s.view log.start 0)
      → (read_head log s).0.lh.block j ≡ s.view log.start (j + 1)
  unfolding read_head
  read_head-block j lt =
      read_blocks-block (rounds (s.view log.start 0)) 0 (s.view log.start) log.lh.block j
        (omega arith) (omega arith)

  pub read_head-disk : (read_head log s).1.disk ≡ s.disk
  unfolding read_head
  read_head-disk = refl

  pub read_head-power : (read_head log s).1.power ≡ s.power
  unfolding read_head
  read_head-power = refl

  pub read_head-start : (read_head log s).0.start ≡ log.start
  unfolding read_head
  read_head-start = refl

  pub read_head-view : (c : ℕ) → s.view c ≡ s.disk c → (read_head log s).1.view c ≡ s.disk c
  unfolding read_head
  read_head-view c h = ground arith
