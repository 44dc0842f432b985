-- ===== src/Sysfile/Calls.antt =====
-- `sys_mkdir`, `sys_mknod`, `sys_chdir` and `sys_open` of kernel/sysfile.c give back what they take,
-- but for the working directory and the inode of an open file.
use xv7_riscv.Sysfile.Balance.{Ends, Open}
use xv7_riscv.Sysfile.Creates.{create-Account, made-Account}
use xv7_riscv.Fs.{Superblock}
use xv7_riscv.Fs.Directory.{t_dir}
use xv7_riscv.Fs.Holders.{Held, Held-swap, holding}
use xv7_riscv.Fs.References.{After, After-chain}
use xv7_riscv.Sysfile.Accounts.{
  Account, After-choice, After-weaken, begin_op-Account, finish-Account, end_op-Account,
  namei-Account, ilock-Account, iput-Account, reject-Account,
}
use xv7_riscv.Sysfile.{
  ◌>>◌, ◌>>=◌, ret, set_cwd, World, begin_op, end_op, namei, ilock, iput, finish, reject, t_device,
  ◌>>◌,
}
use xv7_riscv.Sysfile.Entries.{create, made, sys_mkdir, sys_mknod, change_dir, sys_chdir}
use xv7_riscv.Prelude.{
  not, ◌==◌, ℕ, suc, ◌%◌, ◌^◌, ◌≡◌, Bool, true, false, Bool-cases, inl, inr, List, ◌∷◌, Option,
  none, some,
}

module _ (r : ℕ → ℕ) (c : ℕ) (sb : Superblock) (n : ℕ) where
  module _ (held : List ℕ) where
    made_at :
        (path : List ℕ) (type major minor : ℕ) (w : World)
        → Account r c n held w
        → After ((begin_op >> (create sb path type major minor >>= made sb)) w) (Ends r c sb n held)
    made_at path type major minor w h =
        After-chain (Ends r c sb n held) (Open r c sb n held) (begin_op w) _
          (begin_op-Account r c held n w h)
          (λ a k.
            After-chain (Ends r c sb n held) (λ b. Account r c (suc n) (holding b.0 held) b.1)
              (create sb path type major minor a.1) _
              (create-Account r c sb (suc n) held path type major minor a.1 k)
              (λ b m. made-Account r c sb n held b.0 b.1 m))

    begin_finish :
        (w : World)
        → Account r c n held w
        → After ((begin_op >> finish false) w) (Ends r c sb n held)
    begin_finish w h =
        After-chain (Ends r c sb n held) (Open r c sb n held) (begin_op w) _
          (begin_op-Account r c held n w h) (λ a k. finish-Account r c held n a.1 false k)

    pub sys_mkdir-Account :
        (path : Option (List ℕ)) (w : World)
        → Account r c n held w
        → After (sys_mkdir sb path w) (Ends r c sb n held)
    unfolding sys_mkdir
    sys_mkdir-Account none w h = begin_finish w h
    sys_mkdir-Account (some path) w h = made_at path t_dir 0 0 w h

    pub sys_mknod-Account :
        (path : Option (List ℕ)) (major minor : ℕ) (w : World)
        → Account r c n held w
        → After (sys_mknod sb path major minor w) (Ends r c sb n held)
    unfolding sys_mknod
    sys_mknod-Account none major minor w h = begin_finish w h
    sys_mknod-Account (some path) major minor w h =
        made_at path t_device (major % 2 ^ 16) (minor % 2 ^ 16) w h

  -- The working directory is among the references, and the operations of the log are counted.
  abbrev pub InDirectory : List ℕ → Bool × World → Type 0
  InDirectory held a = Held r (a.1.cwd ∷ held) a.1.tree.table × (a.1.ops ≡ n)

  keep_directory :
      (held : List ℕ) (a : Bool × World) → Account r c n (c ∷ held) a.1 → InDirectory held a
  keep_directory held a (h, o, d) = (rw d h, o)

  enter_directory :
      (held : List ℕ) (i : ℕ) (w : World)
      → Account r c (suc n) (i ∷ c ∷ held) w
      → After ((iput sb w.cwd >> (end_op >> (set_cwd i >> ret true))) w) (InDirectory held)
  unfolding set_cwd
  enter_directory held i w h =
      let old : Account r c (suc n) (w.cwd ∷ i ∷ held) w =
        (rw h.2 (Held-swap r i c held w.tree.table h.0), h.1, h.2) in
      After-chain (InDirectory held) (Open r c sb n (i ∷ held)) (iput sb w.cwd w) _
        (iput-Account r c sb (i ∷ held) (suc n) w w.cwd old)
        (λ a k.
          After-chain (InDirectory held) (λ b. Account r c n (i ∷ held) b.1) (end_op a.1) _
            (end_op-Account r c (i ∷ held) n a.1 k) (λ b m. (m.0, m.1)))

  change_dir-Account :
      (held : List ℕ) (i : ℕ) (w : World)
      → Account r c (suc n) (i ∷ c ∷ held) w
      → After (change_dir sb i w) (InDirectory held)
  unfolding change_dir
  change_dir-Account held i w h =
      let both : List ℕ = i ∷ c ∷ held in
      After-chain (InDirectory held) (Open r c sb n both) (ilock sb i w) _
        (ilock-Account r c sb both (suc n) w i h)
        (λ a k. elim (Bool-cases (not ((a.1.tree.table i).type == t_dir))) [
          | inl e ↦ rw e (
              After-weaken (InDirectory held) (Ends r c sb n (c ∷ held)) (reject sb i a.1)
                (reject-Account r c sb (c ∷ held) n i a.1 k) (keep_directory held))
          | inr e ↦ rw e (enter_directory held i a.1 k)
        ])

  -- `sys_chdir` takes the reference of the new working directory and gives back that of the old.
  pub sys_chdir-Account :
      (held : List ℕ) (path : Option (List ℕ)) (w : World)
      → Account r c n (c ∷ held) w
      → After (sys_chdir sb path w) (InDirectory held)
  unfolding sys_chdir
  sys_chdir-Account held none w h =
      After-weaken (InDirectory held) (Ends r c sb n (c ∷ held)) ((begin_op >> finish false) w)
        (begin_finish (c ∷ held) w h) (keep_directory held)
  sys_chdir-Account held (some path) w h =
      After-chain (InDirectory held) (Open r c sb n (c ∷ held)) (begin_op w) _
        (begin_op-Account r c (c ∷ held) n w h)
        (λ a k.
          After-chain (InDirectory held) (λ b. Account r c (suc n) (holding b.0 (c ∷ held)) b.1)
            (namei sb path a.1) _ (namei-Account r c sb (c ∷ held) (suc n) a.1 path k)
            (λ b m.
              After-choice (InDirectory held) (λ o. Account r c (suc n) (holding o (c ∷ held)) b.1)
                b.0 (finish false) (λ i. change_dir sb i) b.1 m
                (λ m.
                  After-weaken (InDirectory held) (Ends r c sb n (c ∷ held)) (finish false b.1)
                    (finish-Account r c (c ∷ held) n b.1 false m) (keep_directory held))
                (λ i m. change_dir-Account held i b.1 m)))
