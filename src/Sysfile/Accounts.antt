-- ===== src/Sysfile/Accounts.antt =====
-- What a call of kernel/sysfile.c owes on its way: the references to inodes that it holds, and the
-- operations of the log that are open.
use xv7_riscv.Fs.{Superblock, Disk, half}
use xv7_riscv.Fs.Inode.{Inode, Itable, iget}
use xv7_riscv.Fs.Inode as Inodes
use xv7_riscv.Fs.Content.{itrunc, writei}
use xv7_riscv.Fs.Directory.{scan_entries, entries}
use xv7_riscv.Fs.Directory as Directories
use xv7_riscv.Fs.Paths.{Tree, put_inode}
use xv7_riscv.Fs.Paths as Paths
use xv7_riscv.Fs.References.{
  After, After-chain, After-if, ilock-ref, dirlookup-ref, scan_entries-ref, writei-ref, itrunc-ref,
}
use xv7_riscv.Fs.Holders.{Held, Held-swap, holding, Held-update, Held-iget}
use xv7_riscv.Fs.Paths.Holders.{
  After-found, Returned, HeldTree, Held-put_inode, Held-namex, Held-dirlink,
}
use xv7_riscv.Sysfile.{
  World, M, begin_op, end_op, namei, nameiparent, ilock, iput, change, dirlookup, dirlink,
  new_inode, isdirempty, clear_entry, truncate, finish, reject,
}
use xv7_riscv.Prelude.{
  ℕ, suc, ◌≡◌, refl, Bool, true, false, not, ◌==◌, if◌then◌else◌, List, ◌∷◌, Option, none, some,
  update, arith,
}

-- The inode that `dirlookup` finds is held.
abbrev pub found_in : Option (ℕ × ℕ) → List ℕ → List ℕ
found_in none held = held
found_in (some (off, i)) held = i ∷ held

pub After-weaken {ℓ} :
    {A : Type ℓ} (P Q : A → Type 0) (o : Option A) → After o Q → ((a : A) → Q a → P a) → After o P
After-weaken P Q none h k = tt
After-weaken P Q (some a) h k = k a h

-- The two branches of a test, and of a result.
module _ {A : Type 0} (P : A × World → Type 0) where
  pub After-branch :
      (b : Bool) (x y : M A) (w : World)
      → After (x w) P
      → After (y w) P
      → After ((if b then x else y) w) P
  After-branch true x y w h k = h
  After-branch false x y w h k = k

  pub After-choice :
      {B : Type 0} (Q : Option B → Type 0) (o : Option B) (x : M A) (f : B → M A) (w : World)
      → Q o
      → (Q none → After (x w) P)
      → ((b : B) → Q (some b) → After (f b w) P)
      → After ((elim o as (λ _. M A) [ none ↦ x | some b ↦ f b ]) w) P
  After-choice Q none x f w q h k = h q
  After-choice Q (some b) x f w q h k = k b q

module _ (r : ℕ → ℕ) (c : ℕ) where
  -- The references of the list are held besides those that r counts, n operations are open, and the
  -- working directory is c.
  abbrev pub Account : ℕ → List ℕ → World → Type 0
  Account n held w = Held r held w.tree.table × (w.ops ≡ n) × (w.cwd ≡ c)

  -- The account after a step, which may depend on its result.
  abbrev pub Leaves {ℓ} : {A : Type ℓ} → ℕ → (A → List ℕ) → A × World → Type 0
  Leaves n f a = Account n (f a.0) a.1

  pub Account-swap :
      (m a b : ℕ) (held : List ℕ) (w : World)
      → Account m (a ∷ b ∷ held) w
      → Account m (b ∷ a ∷ held) w
  Account-swap m a b held w (h, o, d) = (Held-swap r a b held w.tree.table h, o, d)

  module _ (held : List ℕ) (n : ℕ) (w : World) where
    pub begin_op-Account : Account n held w → After (begin_op w) (Leaves (suc n) (λ _. held))
    unfolding begin_op
    begin_op-Account (h, o, d) = (h, omega arith, d)

    pub end_op-Account : Account (suc n) held w → After (end_op w) (Leaves n (λ _. held))
    unfolding end_op
    end_op-Account (h, o, d) = (h, omega arith, d)

    pub finish-Account :
        (ok : Bool) → Account (suc n) held w → After (finish ok w) (Leaves n (λ _. held))
    finish-Account ok h =
        After-chain (Leaves n (λ _. held)) (Leaves n (λ _. held)) (end_op w) _ (end_op-Account h)
          (λ a k. k)

  module _ (sb : Superblock) (held : List ℕ) (n : ℕ) (w : World) where
    pub namei-Account :
        (path : List ℕ)
        → Account n held w
        → After (namei sb path w) (Leaves n (λ o. holding o held))
    unfolding namei Paths.namei
    namei-Account path (h, o, d) =
        After-chain (Leaves n (λ o. holding o held)) (Returned r sb held)
          (Paths.namei sb path w.cwd w.tree) _ (Held-namex r sb held false path w.cwd w.tree h)
          (λ a k. (k, o, d))

    pub nameiparent-Account :
        (path : List ℕ)
        → Account n held w
        → After (nameiparent sb path w) (Leaves n (λ o. holding o held))
    unfolding nameiparent Paths.nameiparent
    nameiparent-Account path (h, o, d) =
        After-chain (Leaves n (λ o. holding o held)) (Returned r sb held)
          (Paths.nameiparent sb path w.cwd w.tree) _ (Held-namex r sb held true path w.cwd w.tree h)
          (λ a k. (k, o, d))

    pub ilock-Account : (i : ℕ) → Account n held w → After (ilock sb i w) (Leaves n (λ _. held))
    unfolding ilock
    ilock-Account i (h, o, d) =
        After-chain (Leaves n (λ _. held)) (λ ip. ip.ref ≡ (w.tree.table i).ref)
          (Inodes.ilock sb w.tree.disk (w.tree.table i)) _
          (ilock-ref (w.tree.table i).ref sb w.tree.disk (w.tree.table i) refl)
          (λ ip e. (Held-update r held w.tree.table i ip e h, o, d))

    pub iput-Account : (i : ℕ) → Account n (i ∷ held) w → After (iput sb i w) (Leaves n (λ _. held))
    unfolding iput
    iput-Account i (h, o, d) =
        After-chain (Leaves n (λ _. held)) (HeldTree r sb held) (put_inode sb i w.tree) _
          (Held-put_inode r sb held i w.tree h) (λ a k. (k, o, d))

    pub change-Account :
        (i : ℕ) (f : Inode → Inode)
        → (f (w.tree.table i)).ref ≡ (w.tree.table i).ref
        → Account n held w
        → After (change sb i f w) (Leaves n (λ _. held))
    unfolding change
    change-Account i f same (h, o, d) =
        (Held-update r held w.tree.table i (f (w.tree.table i)) same h, o, d)

    pub dirlink-Account :
        (name : ℕ → ℕ) (inum i : ℕ)
        → Account n (i ∷ held) w
        → After (dirlink sb name inum i w) (Leaves n (λ _. i ∷ held))
    unfolding dirlink
    dirlink-Account name inum i (h, o, d) =
        After-chain (Leaves n (λ _. i ∷ held)) (λ a. Held r (i ∷ held) a.1)
          (Directories.dirlink sb name inum i w.tree.table w.tree.disk) _
          (Held-dirlink r sb held name inum i w.tree.table w.tree.disk h) (λ a k. (k, o, d))

    pub isdirempty-Account :
        (i : ℕ) → Account n held w → After (isdirempty sb i w) (Leaves n (λ _. held))
    unfolding isdirempty
    isdirempty-Account i (h, o, d) =
        After-chain (Leaves n (λ _. held)) (λ s. s.dp.ref ≡ (w.tree.table i).ref)
          (scan_entries (λ de. not (half de 0 == 0)) (entries (w.tree.table i)) sb 32
            (w.tree.table i) w.tree.disk)
          _
          (scan_entries-ref (w.tree.table i).ref (λ de. not (half de 0 == 0))
            (entries (w.tree.table i)) sb 32 (w.tree.table i) w.tree.disk refl)
          (λ s e. (Held-update r held w.tree.table i s.dp e h, o, d))

    pub clear_entry-Account :
        (off i : ℕ) → Account n held w → After (clear_entry sb off i w) (Leaves n (λ _. held))
    unfolding clear_entry
    clear_entry-Account off i (h, o, d) =
        After-chain (Leaves n (λ _. held)) (λ a. a.ip.ref ≡ (w.tree.table i).ref)
          (writei sb (λ _ m. m) off 16 (w.tree.table i) w.tree.disk (λ _. 0)) _
          (writei-ref (w.tree.table i).ref sb (λ _ m. m) off 16 (w.tree.table i) w.tree.disk
            (λ _. 0) refl)
          (λ a e.
            After-if (Leaves n (λ _. held)) (not (a.count == 16)) _ _ tt
              (Held-update r held w.tree.table i a.ip e h, o, d))

    pub truncate-Account :
        (i : ℕ) → Account n held w → After (truncate sb i w) (Leaves n (λ _. held))
    unfolding truncate
    truncate-Account i (h, o, d) =
        After-chain (Leaves n (λ _. held)) (λ a. a.0.ref ≡ (w.tree.table i).ref)
          (itrunc sb (w.tree.table i) w.tree.disk) _
          (itrunc-ref (w.tree.table i).ref sb (w.tree.table i) w.tree.disk refl)
          (λ a e. (Held-update r held w.tree.table i a.0 e h, o, d))

    pub dirlookup-Account :
        (name : ℕ → ℕ) (i : ℕ)
        → Account n held w
        → After (dirlookup sb name i w) (Leaves n (λ o. found_in o held))
    unfolding dirlookup
    dirlookup-Account name i (h, o, d) =
        After-chain (Leaves n (λ o. found_in o held)) (λ s. s.dp.ref ≡ (w.tree.table i).ref)
          (Directories.dirlookup sb name (w.tree.table i) w.tree.disk) _
          (dirlookup-ref (w.tree.table i).ref sb name (w.tree.table i) w.tree.disk refl)
          (λ s e.
            let h1 : Held r held (update w.tree.table i s.dp) =
              Held-update r held w.tree.table i s.dp e h in
            After-found (Leaves n (λ o. found_in o held)) s.found _ _ (h1, o, d)
              (λ off inum.
                After-chain (Leaves n (λ o. found_in o held)) (λ a. Held r (a.0 ∷ held) a.1)
                  (iget s.dp.dev inum (update w.tree.table i s.dp)) _
                  (Held-iget r held s.dp.dev inum (update w.tree.table i s.dp) h1)
                  (λ a k. (k, o, d))))

    pub new_inode-Account :
        (dev type : ℕ)
        → Account n held w
        → After (new_inode sb dev type w) (Leaves n (λ o. holding o held))
    unfolding new_inode
    new_inode-Account dev type (h, o, d) =
        got (Inodes.ialloc sb type w.tree.disk).0 (Inodes.ialloc sb type w.tree.disk).1
      where
        got :
            (q : Option ℕ) (disk : Disk)
            → After {A = Option ℕ × World}
                (elim q [
                  | none ↦ some (none, record w { tree = record w.tree { disk = disk } })
                  | some inum ↦ elim (iget dev inum w.tree.table) [
                    | none ↦ none
                    | some (j, t) ↦
                        some (some j, record w { tree = record { table = t; disk = disk } })
                  ]
                ])
                (Leaves n (λ o. holding o held))
        got none disk = (h, o, d)
        got (some inum) disk =
            After-chain (Leaves n (λ o. holding o held)) (λ a. Held r (a.0 ∷ held) a.1)
              (iget dev inum w.tree.table) _ (Held-iget r held dev inum w.tree.table h)
              (λ a k. (k, o, d))

  pub reject-Account :
      (sb : Superblock) (held : List ℕ) (n i : ℕ) (w : World)
      → Account (suc n) (i ∷ held) w
      → After (reject sb i w) (Leaves n (λ _. held))
  reject-Account sb held n i w h =
      After-chain (Leaves n (λ _. held)) (Leaves (suc n) (λ _. held)) (iput sb i w) _
        (iput-Account sb held (suc n) w i h) (λ a k. finish-Account held n a.1 false k)
