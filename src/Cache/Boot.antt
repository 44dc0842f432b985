-- ===== src/Cache/Boot.antt =====
-- The ring that `bufcache_init` builds.
use xv7_riscv.Cache.{nbuf, head, Links, Cache, init_from, bufcache_init, push_front, initsleeplock}
use xv7_riscv.Cache.Ring.{Ring, Away, Ring-push_front}
use xv7_riscv.Prelude.{
  ℕ, zero, suc, ◌+◌, ◌≤◌, ◌<◌, List, [], ◌∷◌, length, ◌≡◌, refl, ap, subst, arith, update_self,
  ℕ_discrete, update, ◌≢◌,
}

-- The buffers below b, the last first.
unfoldable pub down : ℕ → List ℕ
down zero = []
down (suc b) = b ∷ down b

down-Away : (p b : ℕ) → b ≤ p → Away p (down b)
unfolding down
down-Away p zero le = tt
down-Away p (suc b) le = (omega arith, down-Away p b (omega arith))

pub length-down : (b : ℕ) → length (down b) ≡ b
unfolding down
length-down zero = refl
length-down (suc b) = ap suc (length-down b)

-- Each number below b is among them.
pub down-all : (b i : ℕ) → i < b → ¬ Away i (down b)
unfolding down
down-all zero i lt = absurd (omega arith)
down-all (suc b) i lt =
    λ (ib, off). elim (ℕ_discrete i b) [ yes e ↦ ib e | no ne ↦ down-all b i (omega arith) off ]

init_from-Ring :
    (k b : ℕ) (c : Cache)
    → b + k ≤ nbuf
    → Ring c.links (down b)
    → Ring (init_from k b c).links (down (b + k))
unfolding init_from down
init_from-Ring zero b c le ring = subst (λ (n : ℕ). Ring c.links (down n)) (omega arith) ring
init_from-Ring (suc k) b c le ring =
    let step : suc b ≡ b + 1 = omega arith in
    let total : b + 1 + k ≡ b + suc k = omega arith in
    let fits : b + 1 + k ≤ nbuf = omega arith in
    let bh : b ≢ head = omega arith in
    let pushed : Ring (push_front b c.links) (down (suc b)) =
      Ring-push_front c.links b (down b) ring (bh, down-Away b b (omega arith)) in
    let next : Ring (push_front b c.links) (down (b + 1)) =
      subst (λ (n : ℕ). Ring (push_front b c.links) (down n)) step pushed in
    let set_up : Cache = record c {
      links = push_front b c.links;
      lock = update c.lock b initsleeplock;
    } in
    subst (λ (n : ℕ). Ring (init_from k (b + 1) set_up).links (down n)) total
      (init_from-Ring k (b + 1) set_up fits next)

pub init-Ring : (c : Cache) → Ring (bufcache_init c).links (down nbuf)
unfolding bufcache_init down
init-Ring c =
    let empty : Links = record {
      next = update c.links.next head head;
      prev = update c.links.prev head head;
    } in
    init_from-Ring nbuf 0 (record c { links = empty }) (omega arith)
      ((update_self c.links.next head head, update_self c.links.prev head head), (tt, tt))

pub init_from-blockno : (k b : ℕ) (c : Cache) → (init_from k b c).blockno ≡ c.blockno
unfolding init_from
init_from-blockno zero b c = refl
init_from-blockno (suc k) b c =
    init_from-blockno k (b + 1)
      (record c { links = push_front b c.links; lock = update c.lock b initsleeplock })

pub init-blockno : (c : Cache) → (bufcache_init c).blockno ≡ c.blockno
unfolding bufcache_init
init-blockno c =
    let empty : Links = record {
      next = update c.links.next head head;
      prev = update c.links.prev head head;
    } in
    init_from-blockno nbuf 0 (record c { links = empty })
