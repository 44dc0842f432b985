-- ===== src/Sysfile/Opens.antt =====
-- `sys_open` of kernel/sysfile.c gives back what it takes, but for the inode of the file that it opens.
use xv7_riscv.Sysfile.Balance.{Open}
use xv7_riscv.Sysfile.Creates.{create-Account}
use xv7_riscv.Proc.{nofile}
use xv7_riscv.Fs.{Superblock}
use xv7_riscv.Fs.Directory.{t_dir}
use xv7_riscv.File.{
  Files, File, fdalloc_from, fdalloc, open_fd, open_alloc, open_file, fill_file, file_alloc, nfile,
  find_free,
}
use xv7_riscv.Fs.Holders.{holding}
use xv7_riscv.Fs.References.{After, After-chain, any}
use xv7_riscv.Sysfile.Accounts.{
  Account, After-branch, After-choice, begin_op-Account, end_op-Account, namei-Account,
  ilock-Account, iput-Account, truncate-Account,
}
use xv7_riscv.Sysfile.{
  World, begin_op, end_op, namei, ilock, iput, truncate, ret, ◌>>◌, take_file, set_file, t_file,
  t_device, ndev, itrunc,
}
use xv7_riscv.Sysfile.Entries.{
  create, open_checked, open_existing, open_done, open_reject, open_inode, open_path, sys_open,
}
use xv7_riscv.Prelude.{
  ℕ, suc, ◌+◌, ◌-◌, ◌/◌, ◌%◌, ◌≡◌, ap, ◌∙◌, Bool, not, ◌&&◌, ◌==◌, leb, Bool-cases, inl, inr, List,
  ◌∷◌, Option, none, some, update, arith,
}

pub After-both {ℓ} :
    {A : Type ℓ} (P Q : A → Type 0) (o : Option A)
    → After o P
    → After o Q
    → After o (λ a. P a × Q a)
After-both P Q none h k = tt
After-both P Q (some a) h k = (h, k)

-- The file of a descriptor that is in use.
abbrev pub file_at : ℕ → ℕ → Files → File
file_at me fd s = s.files (s.ofile me fd - 1)

-- The inode of a descriptor is held.
abbrev pub opened_in : ℕ → Option ℕ → Files → List ℕ → List ℕ
opened_in me none s held = held
opened_in me (some fd) s held = (file_at me fd s).ip ∷ held

abbrev Named : ℕ → Option (ℕ × ℕ) → Files → Type 0
Named me none s = Unit {0}
Named me (some (f, fd)) s = s.ofile me fd ≡ suc f

fdalloc-Named :
    (me f : ℕ) (s : Files) → Named me (open_fd f (fdalloc me f s)).0 (open_fd f (fdalloc me f s)).1
unfolding fdalloc open_fd
fdalloc-Named me f s =
    elim (fdalloc_from nofile 0 (s.ofile me))
      as (λ q.
        let a : Option ℕ × Files = elim q [
          | none ↦ (none, s)
          | some fd ↦
              (some fd, record s { ofile = update s.ofile me (update (s.ofile me) fd (f + 1)) })
        ] in
        Named me (open_fd f a).0 (open_fd f a).1) [ none ↦ tt | some fd ↦ ground arith ]

open_file-Named : (me : ℕ) (s : Files) → Named me (open_file me s).0 (open_file me s).1
unfolding open_file open_alloc file_alloc
open_file-Named me s =
    elim (find_free nfile 0 s.files)
      as (λ q.
        let a : Option ℕ × (ℕ → File) = elim q [
          | none ↦ (none, s.files)
          | some f ↦ (some f, update s.files f (record (s.files f) { ref = 1 }))
        ] in
        Named me (open_alloc me s a).0 (open_alloc me s a).1) [
          | none ↦ tt
          | some f ↦
              fdalloc-Named me f
                (record s { files = update s.files f (record (s.files f) { ref = 1 }) })
        ]

fill_file-ip :
    (f : ℕ) (device : Bool) (major i omode : ℕ) (files : ℕ → File)
    → (fill_file f device major i omode files f).ip ≡ i
unfolding fill_file
fill_file-ip f device major i omode files = ground arith

module _ (r : ℕ → ℕ) (c : ℕ) (sb : Superblock) (n : ℕ) (held : List ℕ) where
  -- A descriptor that is returned holds the inode of its file.
  abbrev pub Opened : ℕ → Option ℕ × World → Type 0
  Opened me (o, w) = Account r c n (opened_in me o w.files held) w

  abbrev Found : Option ℕ × World → Type 0
  Found a = Account r c (suc n) (holding a.0 held) a.1

  open_checked-Account :
      (i omode : ℕ) (w : World)
      → Account r c (suc n) (i ∷ held) w
      → After (open_checked sb i omode w) Found
  unfolding open_checked
  open_checked-Account i omode w h =
      After-chain Found (Open r c sb n (i ∷ held)) (ilock sb i w) _
        (ilock-Account r c sb (i ∷ held) (suc n) w i h)
        (λ a k.
          After-branch Found (((a.1.tree.table i).type == t_dir) && not (omode == 0))
            (iput sb i >> ret none) (ret (some i)) a.1
            (After-chain Found (Open r c sb n held) (iput sb i a.1) _
              (iput-Account r c sb held (suc n) a.1 i k) (λ b m. m))
            k)

  open_existing-Account :
      (path : List ℕ) (omode : ℕ) (w : World)
      → Account r c (suc n) held w
      → After (open_existing sb path omode w) Found
  unfolding open_existing
  open_existing-Account path omode w h =
      After-chain Found Found (namei sb path w) _ (namei-Account r c sb held (suc n) w path h)
        (λ a k.
          After-choice Found (λ o. Account r c (suc n) (holding o held) a.1) a.0 (ret none)
            (λ i. open_checked sb i omode) a.1 k (λ k. k)
            (λ i k. open_checked-Account i omode a.1 k))

  open_reject-Account :
      (me i : ℕ) (w : World)
      → Account r c (suc n) (i ∷ held) w
      → After (open_reject sb i w) (Opened me)
  open_reject-Account me i w h =
      After-chain (Opened me) (Open r c sb n held) (iput sb i w) _
        (iput-Account r c sb held (suc n) w i h)
        (λ a k.
          After-chain (Opened me) (λ b. Account r c n held b.1) (end_op a.1) _
            (end_op-Account r c held n a.1 k) (λ b m. m))

  -- The descriptor is that of the file, and the inode of the file is held.
  abbrev Filled : ℕ → ℕ → ℕ → ℕ → World → Type 0
  Filled me f fd i w =
      Account r c (suc n) (i ∷ held) w
      × ((w.files.ofile me fd ≡ suc f) × ((w.files.files f).ip ≡ i))

  set_file-Filled :
      (me f fd i omode : ℕ) (device : Bool) (major : ℕ) (w : World)
      → w.files.ofile me fd ≡ suc f
      → Account r c (suc n) (i ∷ held) w
      → After (set_file f device major i omode w) (λ a. Filled me f fd i a.1)
  unfolding set_file
  set_file-Filled me f fd i omode device major w e h =
      (h, (e, fill_file-ip f device major i omode w.files.files))

  -- `itrunc` leaves the files as they are.
  truncate-Filled :
      (me f fd i : ℕ) (w : World)
      → Filled me f fd i w
      → After (truncate sb i w) (λ a. Filled me f fd i a.1)
  unfolding truncate
  truncate-Filled me f fd i w (h, (e, s)) =
      After-both (Open r c sb n (i ∷ held))
        (λ a. (a.1.files.ofile me fd ≡ suc f) × ((a.1.files.files f).ip ≡ i)) (truncate sb i w)
        (truncate-Account r c sb (i ∷ held) (suc n) w i h)
        (After-chain (λ a. (a.1.files.ofile me fd ≡ suc f) × ((a.1.files.files f).ip ≡ i))
          (λ _. Unit {0}) (itrunc sb (w.tree.table i) w.tree.disk) _ (any _) (λ a _. (e, s)))

  end_op-Filled :
      (me f fd i : ℕ) (w : World)
      → Filled me f fd i w
      → After (end_op w) (λ a. Opened me (some fd, a.1))
  unfolding end_op
  end_op-Filled me f fd i w ((h, o, d), (e, s)) =
      let at : w.files.ofile me fd - 1 ≡ f = omega arith in
      let same : (file_at me fd w.files).ip ≡ i = ap (λ g. (w.files.files g).ip) at ∙ s in
      (rw same h, omega arith, d)

  open_done-Account :
      (me f fd i omode : ℕ) (w : World)
      → w.files.ofile me fd ≡ suc f
      → Account r c (suc n) (i ∷ held) w
      → After (open_done sb f fd i omode w) (Opened me)
  unfolding open_done
  open_done-Account me f fd i omode w e h =
      After-chain (Opened me) (λ a. Filled me f fd i a.1) _ _
        (set_file-Filled me f fd i omode _ _ w e h)
        (λ a k.
          After-chain (Opened me) (λ a. Filled me f fd i a.1) _ _
            (After-branch (λ a. Filled me f fd i a.1)
              ((omode / 0x400 % 2 == 1) && ((w.tree.table i).type == t_file)) (truncate sb i)
              (ret tt) a.1 (truncate-Filled me f fd i a.1 k) k)
            (λ b m.
              After-chain (Opened me) (λ d. Opened me (some fd, d.1)) (end_op b.1) _
                (end_op-Filled me f fd i b.1 m) (λ d q. q)))

  take_file-Named :
      (me i : ℕ) (w : World)
      → Account r c (suc n) (i ∷ held) w
      → After (take_file me w) (λ a. Open r c sb n (i ∷ held) a × Named me a.0 a.1.files)
  unfolding take_file
  take_file-Named me i w h = (h, open_file-Named me w.files)

  open_inode-Account :
      (me i omode : ℕ) (w : World)
      → Account r c (suc n) (i ∷ held) w
      → After (open_inode sb me i omode w) (Opened me)
  unfolding open_inode
  open_inode-Account me i omode w h =
      elim (Bool-cases (((w.tree.table i).type == t_device) && leb ndev (w.tree.table i).major)) [
        | inl e ↦ rw e (open_reject-Account me i w h)
        | inr e ↦ rw e (
            After-chain (Opened me) (λ a. Open r c sb n (i ∷ held) a × Named me a.0 a.1.files)
              (take_file me w) _ (take_file-Named me i w h)
              (λ a k.
                After-choice (Opened me)
                  (λ o. Open r c sb n (i ∷ held) (o, a.1) × Named me o a.1.files) a.0
                  (open_reject sb i) (λ (f, fd). open_done sb f fd i omode) a.1 k
                  (λ k. open_reject-Account me i a.1 k.0)
                  (λ (f, fd) k. open_done-Account me f fd i omode a.1 k.1 k.0)))
      ]

  open_path-Account :
      (me : ℕ) (path : List ℕ) (omode : ℕ) (w : World)
      → Account r c n held w
      → After (open_path sb me path omode w) (Opened me)
  unfolding open_path
  open_path-Account me path omode w h =
      After-chain (Opened me) (Open r c sb n held) (begin_op w) _ (begin_op-Account r c held n w h)
        (λ a k.
          After-chain (Opened me) Found _ _
            (After-branch Found (omode / 0x200 % 2 == 1) (create sb path t_file 0 0)
              (open_existing sb path omode) a.1
              (create-Account r c sb (suc n) held path t_file 0 0 a.1 k)
              (open_existing-Account path omode a.1 k))
            (λ b m.
              After-choice (Opened me) (λ o. Account r c (suc n) (holding o held) b.1) b.0
                (end_op >> ret none) (λ i. open_inode sb me i omode) b.1 m
                (λ m.
                  After-chain (Opened me) (λ d. Account r c n held d.1) (end_op b.1) _
                    (end_op-Account r c held n b.1 m) (λ d q. q))
                (λ i m. open_inode-Account me i omode b.1 m)))

  -- `sys_open` takes a reference to the inode of the file that it opens, and no other.
  pub sys_open-Account :
      (me : ℕ) (path : Option (List ℕ)) (omode : ℕ) (w : World)
      → Account r c n held w
      → After (sys_open sb me path omode w) (Opened me)
  unfolding sys_open
  sys_open-Account me none omode w h = h
  sys_open-Account me (some path) omode w h = open_path-Account me path omode w h
