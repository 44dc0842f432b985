-- ===== src/Cache.antt =====
-- The buffer cache of kernel/buffer-io.c. A buffer is its index in `bcache.buf`, and `bcache.head` is
-- the index after them. `bcache.lock` makes the part of a function under it one step.
pub mod Ring
pub mod Boot
pub mod Recency
pub mod Frames
pub mod Unique
mod Tests
use xv7_riscv.Sleeplock.{Sleeplock, initsleeplock, acquiresleep, releasesleep, holdingsleep}
use xv7_riscv.Prelude.{
  ℕ, zero, suc, ◌+◌, ◌-◌, ◌%◌, ◌^◌, ◌==◌, Bool, true, false, not, if◌then◌else◌, update, Option,
  none, some,
}

-- NBUF of kernel/param.h
abbrev pub nbuf : ℕ
nbuf = 30

abbrev pub head : ℕ
head = nbuf

abbrev pub Block : Type 0
Block = ℕ → ℕ

-- The fields `next` and `prev` of the buffers and of the head.
pub record Links : Type 0 where
  pub next : ℕ → ℕ
  pub prev : ℕ → ℕ

pub record Cache : Type 0 where
  pub links : Links
  pub blockno : ℕ → ℕ
  pub refcnt : ℕ → ℕ
  pub valid : ℕ → Bool
  pub lock : ℕ → Sleeplock
  pub content : ℕ → Block
  pub disk : ℕ → Block

-- The four assignments that put b after the head, and the two that take b out.
unfoldable pub push_front : ℕ → Links → Links
push_front b k =
    let next1 = update k.next b (k.next head) in
    let prev1 = update k.prev b head in
    record { next = update next1 head b; prev = update prev1 (next1 head) b }

unfoldable pub unlink : ℕ → Links → Links
unlink b k =
    let prev1 = update k.prev (k.next b) (k.prev b) in
    record { next = update k.next (prev1 b) (k.next b); prev = prev1 }

-- The loop of `bufcache_init`, from buffer b on.
unfoldable pub init_from : ℕ → ℕ → Cache → Cache
unfolding push_front
init_from zero b c = c
init_from (suc k) b c =
    init_from k (b + 1)
      (record c { links = push_front b c.links; lock = update c.lock b initsleeplock })

unfoldable pub bufcache_init : Cache → Cache
unfolding init_from
bufcache_init c =
    let empty : Links = record {
      next = update c.links.next head head;
      prev = update c.links.prev head head;
    } in
    init_from nbuf 0 (record c { links = empty })

-- The first scan of `bufcache_get`, from buffer b on, for block n.
unfoldable pub find_cached : ℕ → ℕ → ℕ → Cache → Option ℕ
find_cached zero n b c = none
find_cached (suc k) n b c =
    let rest = find_cached k n (c.links.next b) c in
    if b == head then none else if c.blockno b == n then some b else rest

-- The second scan, for a buffer that is not in use.
unfoldable pub find_unused : ℕ → ℕ → Cache → Option ℕ
find_unused zero b c = none
find_unused (suc k) b c =
    let rest = find_unused k (c.links.prev b) c in
    if b == head then none else if c.refcnt b == 0 then some b else rest

abbrev pub hold : ℕ → Cache → Cache
hold b c = record c { refcnt = update c.refcnt b ((c.refcnt b + 1) % 2 ^ 32) }

abbrev pub recycle : ℕ → ℕ → Cache → Cache
recycle n b c = record c {
  blockno = update c.blockno b n;
  valid = update c.valid b false;
  refcnt = update c.refcnt b 1;
}

-- What the scans lead to, the first before the second; `none` is the panic.
abbrev pub got : ℕ → Cache → Option ℕ → Option ℕ → Option (ℕ × Cache)
got n c (some b) unused = some (b, hold b c)
got n c none (some b) = some (b, recycle n b c)
got n c none none = none

-- `bufcache_get` up to `acquiresleep`. A scan passes each buffer and the head.
unfoldable pub bufcache_get : ℕ → Cache → Option (ℕ × Cache)
bufcache_get n c =
    got n c (find_cached (nbuf + 1) n (c.links.next head) c)
      (find_unused (nbuf + 1) (c.links.prev head) c)

-- The end of `bufcache_get` by process `me`; `none` means that it sleeps.
unfoldable pub lock_buffer : ℕ → ℕ → Cache → Option Cache
lock_buffer me b c = elim (acquiresleep me (c.lock b)) [
  | none ↦ none
  | some lk ↦ some (record c { lock = update c.lock b lk })
]

-- The rest of `bufcache_read`
unfoldable pub fill : ℕ → Cache → Cache
fill b c = if c.valid b then c else record c {
  content = update c.content b (c.disk (c.blockno b));
  valid = update c.valid b true;
}

-- `none` is the panic, here and in `bufcache_release`.
unfoldable pub bufcache_write : ℕ → ℕ → Cache → Option Cache
bufcache_write me b c =
    if not (holdingsleep me (c.lock b))
    then none
    else some (record c { disk = update c.disk (c.blockno b) (c.content b) })

abbrev pub drop_reference : ℕ → Cache → Cache
drop_reference b c = record c { refcnt = update c.refcnt b ((c.refcnt b + (2 ^ 32 - 1)) % 2 ^ 32) }

-- `bufcache_release` from its `acquire` on
unfoldable pub give_back : ℕ → Cache → Cache
give_back b c =
    let c1 = drop_reference b c in
    if c1.refcnt b == 0 then record c1 { links = push_front b (unlink b c1.links) } else c1

unfoldable pub bufcache_release : ℕ → ℕ → Cache → Option Cache
unfolding give_back
bufcache_release me b c =
    if not (holdingsleep me (c.lock b))
    then none
    else some (give_back b (record c { lock = update c.lock b (releasesleep (c.lock b)) }))

unfoldable pub bufcache_pin : ℕ → Cache → Cache
bufcache_pin b c = hold b c

unfoldable pub bufcache_unpin : ℕ → Cache → Cache
bufcache_unpin b c = drop_reference b c
