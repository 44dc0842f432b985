-- ===== src/Cache/Tests.antt =====
-- Runs of kernel/buffer-io.c.
use xv7_riscv.Cache.{nbuf, Cache, bufcache_init, bufcache_get, bufcache_release, recycle}
use xv7_riscv.Cache.Ring.{Ring}
use xv7_riscv.Cache.Recency.{Gets, first_where, onto, get_lem, after_release, release_lem}
use xv7_riscv.Cache.Boot.{down, length-down, init-Ring}
use xv7_riscv.Cache.Unique.{Call, Calls, IsOrdered, AtMostOne, cache_unique}
use xv7_riscv.Prelude.{[], ◌∷◌, ◌≡◌, refl, false, some, arith, ◌==◌}

abbrev zeroed : Cache
zeroed = record {
  links = record { next = λ _. 0; prev = λ _. 0 };
  blockno = λ _. 0;
  refcnt = λ _. 0;
  valid = λ _. false;
  lock = λ _. record { locked = 0; pid = 0 };
  content = λ _ _. 0;
  disk = λ _ _. 0;
}

abbrev at_boot : Cache
at_boot = bufcache_init zeroed

-- A cache whose buffers process 5 holds.
abbrev all_held : Cache
all_held = record at_boot { refcnt = λ _. 1; lock = λ _. record { locked = 1; pid = 5 } }

-- The first call takes the buffer that `bufcache_init` put at the end.
get_run : bufcache_get 7 at_boot ≡ some (0, recycle 7 0 at_boot)
unfolding bufcache_get bufcache_init xv7_riscv.Cache.find_cached xv7_riscv.Cache.find_unused
get_run = refl

get_lem_example :
    Gets 7 at_boot
      (first_where (λ b. at_boot.blockno b == 7) (down nbuf))
      (first_where (λ b. at_boot.refcnt b == 0) (onto (down nbuf) []))
      (bufcache_get 7 at_boot)
get_lem_example = get_lem at_boot (down nbuf) 7 (init-Ring zeroed) (length-down nbuf)

all_held-Ring : Ring all_held.links (29 ∷ down 29)
unfolding down
all_held-Ring = init-Ring zeroed

release_lem_example :
    (d : Cache) × (bufcache_release 5 29 all_held ≡ some d)
    × Ring d.links (after_release all_held [] 29 (down 29))
    × ((d.lock 29).locked ≡ 0)
    × (d.refcnt 29 ≡ 0)
unfolding xv7_riscv.Sleeplock.holdingsleep
release_lem_example =
    release_lem 5 all_held [] 29 (down 29) all_held-Ring refl (omega arith) (omega arith)

cache_unique_example : IsOrdered (recycle 7 0 at_boot).links × AtMostOne (recycle 7 0 at_boot)
cache_unique_example =
    cache_unique zeroed (recycle 7 0 at_boot) (λ i. refl)
      (Calls.later Calls.start (Call.get 7 0 (recycle 7 0 at_boot) get_run))
