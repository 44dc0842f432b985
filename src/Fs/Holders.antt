-- ===== src/Fs/Holders.antt =====
-- Who holds references to inodes: `iget`, `iput` and the walk along a path in kernel/fs.c.
use xv7_riscv.Fs.{Disk, Superblock}
use xv7_riscv.Fs.Inode.{
  Inode, Itable, Slot, cached, empty, find_inode, iget_at, iget, idup, iput_ref, positive, ninode,
}
use xv7_riscv.Fs.Content.{iput, iput_free}
use xv7_riscv.Fs.References.{After, After-chain, After-test, iput_free-ref}
use xv7_riscv.Prelude.{
  ℕ, zero, suc, ◌+◌, ◌%◌, ◌^◌, ◌≡◌, refl, false, ◌&&◌, ◌==◌, if◌then◌else◌, Bool-cases, List, [],
  ◌∷◌, Option, none, some, update, ℕ_discrete, inl, inr, arith, ==_iff, ne→==_false, ◌-◌,
}

abbrev pub count : ℕ → List ℕ → ℕ
count j [] = 0
count j (x ∷ l) = (if x == j then 1 else 0) + count j l

-- Each count of the table is that of r and one more for each time that the entry is in the list.
abbrev pub Held : (ℕ → ℕ) → List ℕ → Itable → Type 0
Held r held t = (j : ℕ) → (t j).ref ≡ (r j + count j held) % 2 ^ 32

abbrev pub holding : Option ℕ → List ℕ → List ℕ
holding none held = held
holding (some i) held = i ∷ held

abbrev Unused : Itable → Option ℕ → Type 0
Unused t none = Unit {0}
Unused t (some e) = (t e).ref ≡ 0

abbrev UnusedSlot : Itable → Slot → Type 0
UnusedSlot t (cached i) = Unit {0}
UnusedSlot t (empty free) = Unused t free

-- The entry that the loop of `iget` keeps as empty.
abbrev keep_free : Option ℕ → ℕ → Itable → Option ℕ
keep_free free i t = elim free [ none ↦ if (t i).ref == 0 then some i else none | some e ↦ some e ]

keep_free-Unused :
    (free : Option ℕ) (i : ℕ) (t : Itable) → Unused t free → Unused t (keep_free free i t)
keep_free-Unused (some e) i t h = h
keep_free-Unused none i t h = elim (ℕ_discrete (t i).ref 0) [
  | yes z ↦ rw ((==_iff (t i).ref 0).1 z) z
  | no ne ↦ rw (ne→==_false (t i).ref 0 ne) tt
]

find_inode-Unused :
    (k i : ℕ) (free : Option ℕ) (dev inum : ℕ) (t : Itable)
    → Unused t free
    → UnusedSlot t (find_inode k i free dev inum t)
unfolding find_inode
find_inode-Unused zero i free dev inum t h = h
find_inode-Unused (suc k) i free dev inum t h =
    let rest =
      find_inode-Unused k (i + 1) (keep_free free i t) dev inum t (keep_free-Unused free i t h) in
    elim (Bool-cases (positive (t i).ref && ((t i).dev == dev) && ((t i).inum == inum))) [
      | inl here ↦ rw here tt
      | inr later ↦ rw later rest
    ]

module _ (r : ℕ → ℕ) where
  pub Held-swap :
      (a b : ℕ) (held : List ℕ) (t : Itable) → Held r (a ∷ b ∷ held) t → Held r (b ∷ a ∷ held) t
  Held-swap a b held t h j = ground (arith, h j)

  pub Held-update :
      (held : List ℕ) (t : Itable) (i : ℕ) (ip : Inode)
      → ip.ref ≡ (t i).ref
      → Held r held t
      → Held r held (update t i ip)
  Held-update held t i ip same h j = ground (arith, h j)

  -- A count that goes up by one, or down.
  Held-up :
      (held : List ℕ) (t : Itable) (i : ℕ) (ip : Inode)
      → ip.ref ≡ ((t i).ref + 1) % 2 ^ 32
      → Held r held t
      → Held r (i ∷ held) (update t i ip)
  Held-up held t i ip more h j = ground (arith, h j)

  Held-down :
      (held : List ℕ) (t : Itable) (i : ℕ) (ip : Inode)
      → ip.ref ≡ ((t i).ref + 2 ^ 32 - 1) % 2 ^ 32
      → Held r (i ∷ held) t
      → Held r held (update t i ip)
  Held-down held t i ip less h j = ground (arith, h j)

  pub Held-idup :
      (held : List ℕ) (i : ℕ) (t : Itable) → Held r held t → Held r (i ∷ held) (idup i t)
  unfolding idup
  Held-idup held i t h = Held-up held t i (record (t i) { ref = ((t i).ref + 1) % 2 ^ 32 }) refl h

  Held-iget_at :
      (held : List ℕ) (slot : Slot) (dev inum : ℕ) (t : Itable)
      → UnusedSlot t slot
      → Held r held t
      → After (iget_at slot dev inum t) (λ a. Held r (a.0 ∷ held) a.1)
  unfolding iget_at
  Held-iget_at held (cached i) dev inum t z h =
      Held-up held t i (record (t i) { ref = ((t i).ref + 1) % 2 ^ 32 }) refl h
  Held-iget_at held (empty none) dev inum t z h = tt
  Held-iget_at held (empty (some i)) dev inum t z h =
      Held-up held t i (record (t i) { dev = dev; inum = inum; ref = 1; valid = false })
        (omega arith) h

  -- `iget` gives its caller a reference to the entry that it returns.
  pub Held-iget :
      (held : List ℕ) (dev inum : ℕ) (t : Itable)
      → Held r held t
      → After (iget dev inum t) (λ a. Held r (a.0 ∷ held) a.1)
  unfolding iget
  Held-iget held dev inum t h =
      Held-iget_at held (find_inode ninode 0 none dev inum t) dev inum t
        (find_inode-Unused ninode 0 none dev inum t tt) h

  Held-iput_ref :
      (held : List ℕ) (i : ℕ) (t : Itable) → Held r (i ∷ held) t → Held r held (iput_ref i t)
  unfolding iput_ref
  Held-iput_ref held i t h =
      Held-down held t i (record (t i) { ref = ((t i).ref + 2 ^ 32 - 1) % 2 ^ 32 }) refl h

  -- `iput` takes a reference back, also where it frees the inode.
  pub Held-iput :
      (held : List ℕ) (sb : Superblock) (i : ℕ) (t : Itable) (d : Disk)
      → Held r (i ∷ held) t
      → After (iput sb i t d) (λ a. Held r held a.0)
  unfolding iput
  Held-iput held sb i t d h =
      After-test (λ a. Held r held a.0) (((t i).ref == 1) && (t i).valid && ((t i).nlink == 0)) _ _
        (Held-iput_ref held i t h)
        (After-chain (λ a. Held r held a.0) (λ a. a.0.ref ≡ (t i).ref) (iput_free sb (t i) d) _
          (iput_free-ref (t i).ref sb (t i) d refl)
          (λ a e. Held-iput_ref held i (update t i a.0) (Held-update (i ∷ held) t i a.0 e h)))
