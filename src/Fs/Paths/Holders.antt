-- ===== src/Fs/Paths/Holders.antt =====
-- Who holds references along the walk of `namex` in kernel/fs.c, and after `dirlink`.
use xv7_riscv.Fs.{Disk, Superblock}
use xv7_riscv.Fs.Inode.{Inode, Itable, iget, ilock}
use xv7_riscv.Fs.Content.{iput}
use xv7_riscv.Fs.Directory.{dirlookup, dirlink, link_entry, t_dir}
use xv7_riscv.Fs.Paths.{
  Tree, put_inode, Stage, stop, enter, enter_elem, namex_from, namex, skipelem, put_name, slash,
}
use xv7_riscv.Fs.References.{After, After-chain, After-if, ilock-ref, dirlookup-ref, link_entry-ref}
use xv7_riscv.Fs.Holders.{Held, holding, Held-swap, Held-update, Held-idup, Held-iget, Held-iput}
use xv7_riscv.Prelude.{
  ℕ, zero, suc, ◌+◌, ◌≡◌, refl, sym, ◌∙◌, ap, Bool, true, false, not, ◌&&◌, ◌==◌, List, [], ◌∷◌,
  length, Option, none, some, update, update_self,
}

pub After-found {ℓ κ} :
    {A : Type ℓ} {B C : Type κ} (P : A → Type 0) (o : Option (B × C)) (x : Option A)
    (f : B → C → Option A)
    → After x P
    → ((b : B) (c : C) → After (f b c) P)
    → After (elim o [ none ↦ x | some (b, c) ↦ f b c ]) P
After-found P none x f h k = h
After-found P (some (b, c)) x f h k = k b c

module _ (r : ℕ → ℕ) (sb : Superblock) where
  abbrev pub HeldTree : List ℕ → Tree → Type 0
  HeldTree held w = Held r held w.table

  -- An inode that is returned is held.
  abbrev pub Returned : List ℕ → Option ℕ × Tree → Type 0
  Returned held (o, w) = Held r (holding o held) w.table

  abbrev Staged : List ℕ → Stage → Type 0
  Staged held (stop o w) = Held r (holding o held) w.table
  Staged held (enter j w) = Held r (j ∷ held) w.table

  pub Held-put_inode :
      (held : List ℕ) (i : ℕ) (w : Tree)
      → Held r (i ∷ held) w.table
      → After (put_inode sb i w) (HeldTree held)
  Held-put_inode held i w h =
      After-chain (HeldTree held) (λ a. Held r held a.0) (iput sb i w.table w.disk) _
        (Held-iput r held sb i w.table w.disk h) (λ a k. k)

  Held-leave :
      (held : List ℕ) (i : ℕ) (w : Tree)
      → Held r (i ∷ held) w.table
      → After
          (elim (put_inode sb i w) [ none ↦ none | some w2 ↦ some (stop none w2) ])
          (Staged held)
  Held-leave held i w h =
      After-chain (Staged held) (HeldTree held) (put_inode sb i w) _ (Held-put_inode held i w h)
        (λ a k. k)

  -- The next inode is held, and the one before it given back.
  Held-next :
      (held : List ℕ) (i dev inum : ℕ) (w : Tree)
      → Held r (i ∷ held) w.table
      → After
          (elim (iget dev inum w.table) [
            | none ↦ none
            | some (j, t3) ↦ elim (put_inode sb i (record w { table = t3 })) [
              | none ↦ none
              | some w4 ↦ some (enter j w4)
            ]
          ])
          (Staged held)
  Held-next held i dev inum w h =
      After-chain (Staged held) (λ a. Held r (a.0 ∷ i ∷ held) a.1) (iget dev inum w.table) _
        (Held-iget r (i ∷ held) dev inum w.table h)
        (λ a k.
          let w3 : Tree = record w { table = a.1 } in
          After-chain (Staged held) (HeldTree (a.0 ∷ held)) (put_inode sb i w3) _
            (Held-put_inode (a.0 ∷ held) i w3 (Held-swap r a.0 i held a.1 k)) (λ w4 m. m))

  Held-enter_elem :
      (held : List ℕ) (parent : Bool) (s rest : List ℕ) (i : ℕ) (w : Tree)
      → Held r (i ∷ held) w.table
      → After (enter_elem sb parent s rest i w) (Staged held)
  unfolding enter_elem
  Held-enter_elem held parent s rest i w h =
      After-chain (Staged held) (λ ip. ip.ref ≡ (w.table i).ref) (ilock sb w.disk (w.table i)) _
        (ilock-ref (w.table i).ref sb w.disk (w.table i) refl)
        (λ ip e.
          let w1 : Tree = record w { table = update w.table i ip } in
          let h1 : Held r (i ∷ held) w1.table = Held-update r (i ∷ held) w.table i ip e h in
          After-if (Staged held) (not (ip.type == t_dir)) _ _ (Held-leave held i w1 h1) (
            After-if (Staged held) (parent && elim rest [ [] ↦ true | _ ↦ false ]) _ _ h1 (
              After-chain (Staged held) (λ q. q.dp.ref ≡ ip.ref)
                (dirlookup sb (put_name s (λ _. 0)) ip w1.disk) _
                (dirlookup-ref ip.ref sb (put_name s (λ _. 0)) ip w1.disk refl)
                (λ q f.
                  let w2 : Tree = record { table = update w1.table i q.dp; disk = q.disk } in
                  let same : q.dp.ref ≡ (w1.table i).ref =
                    f ∙ sym (ap (λ (x : Inode). x.ref) (update_self w.table i ip)) in
                  let h2 : Held r (i ∷ held) w2.table =
                    Held-update r (i ∷ held) w1.table i q.dp same h1 in
                  After-found (Staged held) q.found _ _ (Held-leave held i w2 h2)
                    (λ off inum. Held-next held i ip.dev inum w2 h2)))))

  After-Staged :
      (held : List ℕ) (o : Option Stage) (f : ℕ → Tree → Option (Option ℕ × Tree))
      → After o (Staged held)
      → ((j : ℕ) (w : Tree) → Held r (j ∷ held) w.table → After (f j w) (Returned held))
      → After
          (elim o [ none ↦ none | some (stop r w') ↦ some (r, w') | some (enter j w') ↦ f j w' ])
          (Returned held)
  After-Staged held none f h k = tt
  After-Staged held (some (stop o w)) f h k = h
  After-Staged held (some (enter j w)) f h k = k j w h

  Held-namex_from :
      (held : List ℕ) (k : ℕ) (parent : Bool) (path : List ℕ) (i : ℕ) (w : Tree)
      → Held r (i ∷ held) w.table
      → After (namex_from none k sb parent path i w) (Returned held)
  unfolding namex_from
  Held-namex_from held zero parent path i w h = tt
  Held-namex_from held (suc k) parent path i w h =
      After-found (Returned held) (skipelem path) _ _
        (After-if (Returned held) parent _ _
          (After-chain (Returned held) (HeldTree held) (put_inode sb i w) _
            (Held-put_inode held i w h) (λ a m. m))
          h)
        (λ s rest.
          After-Staged held (enter_elem sb parent s rest i w) _
            (Held-enter_elem held parent s rest i w h)
            (λ j w' m. Held-namex_from held k parent rest j w' m))

  -- `namex` gives its caller a reference to the inode that it returns, and keeps none.
  pub Held-namex :
      (held : List ℕ) (parent : Bool) (path : List ℕ) (cwd : ℕ) (w : Tree)
      → Held r held w.table
      → After (namex sb parent path cwd w) (Returned held)
  unfolding namex
  Held-namex held parent path cwd w h =
      After-chain (Returned held) (λ a. Held r (a.0 ∷ held) a.1) _ _
        (After-if (λ a. Held r (a.0 ∷ held) a.1) (elim path [ [] ↦ false | c ∷ _ ↦ c == slash ]) _ _
          (Held-iget r held 1 1 w.table h) (Held-idup r held cwd w.table h))
        (λ a m. Held-namex_from held (length path + 1) parent path a.0 (record w { table = a.1 }) m)

  -- The `iget` and `iput` of a name that is present.
  Held-present :
      (held : List ℕ) (i dev old : ℕ) (t : Itable) (d : Disk)
      → Held r (i ∷ held) t
      → After {A = Bool × Itable × Disk}
          (elim (iget dev old t) [
            | none ↦ none
            | some (j, t2) ↦ elim (iput sb j t2 d) [
              | none ↦ none
              | some (t3, d3) ↦ some (false, t3, d3)
            ]
          ])
          (λ a. Held r (i ∷ held) a.1)
  Held-present held i dev old t d h =
      After-chain (λ a. Held r (i ∷ held) a.1) (λ a. Held r (a.0 ∷ i ∷ held) a.1) (iget dev old t) _
        (Held-iget r (i ∷ held) dev old t h)
        (λ a k.
          After-chain (λ b. Held r (i ∷ held) b.1) (λ b. Held r (i ∷ held) b.0) (iput sb a.0 a.1 d)
            _ (Held-iput r (i ∷ held) sb a.0 a.1 d k) (λ b m. m))

  pub Held-dirlink :
      (held : List ℕ) (name : ℕ → ℕ) (inum i : ℕ) (t : Itable) (d : Disk)
      → Held r (i ∷ held) t
      → After (dirlink sb name inum i t d) (λ a. Held r (i ∷ held) a.1)
  unfolding dirlink
  Held-dirlink held name inum i t d h =
      After-chain (λ a. Held r (i ∷ held) a.1) (λ q. q.dp.ref ≡ (t i).ref)
        (dirlookup sb name (t i) d) _ (dirlookup-ref (t i).ref sb name (t i) d refl)
        (λ q e.
          let t1 : Itable = update t i q.dp in
          let h1 : Held r (i ∷ held) t1 = Held-update r (i ∷ held) t i q.dp e h in
          After-found (λ a. Held r (i ∷ held) a.1) q.found _ _
            (After-chain (λ a. Held r (i ∷ held) a.1) (λ a. a.1.ip.ref ≡ (t1 i).ref)
              (link_entry sb name inum (t1 i) q.disk) _
              (link_entry-ref (t1 i).ref sb name inum (t1 i) q.disk refl)
              (λ a f. Held-update r (i ∷ held) t1 i a.1.ip f h1))
            (λ off old. Held-present held i (t i).dev old t1 q.disk h1))
