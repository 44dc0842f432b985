-- ===== src/Sysfile/Creates.antt =====
-- `create` of kernel/sysfile.c gives back what it takes, but for the inode that it returns.
use xv7_riscv.Sysfile.Balance.{put_finish-Account}
use xv7_riscv.Fs.{Superblock}
use xv7_riscv.Fs.Inode.{Inode}
use xv7_riscv.Fs.Holders.{holding}
use xv7_riscv.Fs.References.{After, After-chain}
use xv7_riscv.Sysfile.Accounts.{
  Account-swap, After-weaken, Account, Leaves, After-branch, After-choice, found_in, finish-Account,
  nameiparent-Account, ilock-Account, iput-Account, change-Account, dirlink-Account,
  dirlookup-Account, new_inode-Account,
}
use xv7_riscv.Sysfile.{
  World, nameiparent, ilock, iput, change, dirlookup, dirlink, new_inode, ◌>>◌, ret, add_link,
  name_of, dot, dot_dot, t_file, t_device,
}
use xv7_riscv.Sysfile.Entries.{
  create_fail, create_link, link_dots, create_fill, create_new, create_found, create_in, create,
  made,
}
use xv7_riscv.Fs.Directory.{t_dir}
use xv7_riscv.Prelude.{
  Bool-cases, inl, inr, ◌==◌, ℕ, suc, refl, Bool, true, false, List, ◌∷◌, Option, none, some,
  if◌then◌else◌, ◌||◌, ◌&&◌,
}

module _ (r : ℕ → ℕ) (c : ℕ) (sb : Superblock) (n : ℕ) where
  abbrev Keeps {ℓ} : {A : Type ℓ} → List ℕ → A × World → Type 0
  Keeps held a = Account r c n held a.1

  dirlink_under :
      (p i : ℕ) (name : ℕ → ℕ) (inum : ℕ) (held : List ℕ) (w : World)
      → Account r c n (i ∷ p ∷ held) w
      → After (dirlink sb name inum p w) (Keeps (i ∷ p ∷ held))
  dirlink_under p i name inum held w h =
      After-weaken (Keeps (i ∷ p ∷ held)) (Keeps (p ∷ i ∷ held)) (dirlink sb name inum p w)
        (dirlink-Account r c sb (i ∷ held) n w name inum p (Account-swap r c n i p held w h))
        (λ a k. Account-swap r c n p i held a.1 k)

  module _ (held : List ℕ) where
    -- An inode that is returned is held.
    abbrev Result : Option ℕ × World → Type 0
    Result a = Account r c n (holding a.0 held) a.1

    create_fail-Account :
        (i p : ℕ) (w : World) → Account r c n (i ∷ p ∷ held) w → After (create_fail sb i p w) Result
    unfolding create_fail
    create_fail-Account i p w h =
        let zero_links : Inode → Inode = λ ip. record ip { nlink = 0 } in
        After-chain Result (Keeps (i ∷ p ∷ held)) (change sb i zero_links w) _
          (change-Account r c sb (i ∷ p ∷ held) n w i zero_links refl h)
          (λ a k.
            After-chain Result (Keeps (p ∷ held)) (iput sb i a.1) _
              (iput-Account r c sb (p ∷ held) n a.1 i k)
              (λ b m.
                After-chain Result (Keeps held) (iput sb p b.1) _
                  (iput-Account r c sb held n b.1 p m) (λ d q. q)))

    keep_new :
        (b : Bool) (i p : ℕ) (w : World)
        → Account r c n (i ∷ p ∷ held) w
        → After ((if b then change sb p add_link else ret tt) w) (Keeps (p ∷ i ∷ held))
    keep_new b i p w h =
        let k = Account-swap r c n i p held w h in
        After-branch (Keeps (p ∷ i ∷ held)) b (change sb p add_link) (ret tt) w
          (change-Account r c sb (p ∷ i ∷ held) n w p add_link refl k) k

    create_link-Account :
        (p i : ℕ) (name : ℕ → ℕ) (type : ℕ) (w : World)
        → Account r c n (i ∷ p ∷ held) w
        → After (create_link sb p i name type w) Result
    unfolding create_link
    create_link-Account p i name type w h =
        After-chain Result (Keeps (i ∷ p ∷ held)) (dirlink sb name (w.tree.table i).inum p w) _
          (dirlink_under p i name (w.tree.table i).inum held w h)
          (λ a k. elim (Bool-cases a.0) [
            | inl e ↦ rw e (
                After-chain Result (Keeps (p ∷ i ∷ held)) _ _ (keep_new (type == t_dir) i p a.1 k)
                  (λ b m.
                    After-chain Result (Keeps (i ∷ held)) (iput sb p b.1) _
                      (iput-Account r c sb (i ∷ held) n b.1 p m) (λ d q. q)))
            | inr e ↦ rw e (create_fail-Account i p a.1 k)
          ])

    link_dots-Account :
        (i p : ℕ) (w : World)
        → Account r c n (i ∷ p ∷ held) w
        → After (link_dots sb i p w) (Keeps (i ∷ p ∷ held))
    unfolding link_dots
    link_dots-Account i p w h =
        let both : List ℕ = i ∷ p ∷ held in
        After-chain (Keeps both) (Keeps both) (dirlink sb dot (w.tree.table i).inum i w) _
          (dirlink-Account r c sb (p ∷ held) n w dot (w.tree.table i).inum i h)
          (λ a k.
            After-branch (Keeps both) a.0 (dirlink sb dot_dot (a.1.tree.table p).inum i) (ret false)
              a.1 (dirlink-Account r c sb (p ∷ held) n a.1 dot_dot (a.1.tree.table p).inum i k) k)

    create_fill-Account :
        (p i : ℕ) (name : ℕ → ℕ) (type major minor : ℕ) (w : World)
        → Account r c n (i ∷ p ∷ held) w
        → After (create_fill sb p i name type major minor w) Result
    unfolding create_fill
    create_fill-Account p i name type major minor w h =
        let both : List ℕ = i ∷ p ∷ held in
        let fill : Inode → Inode = λ ip. record ip { major = major; minor = minor; nlink = 1 } in
        After-chain Result (Keeps both) (ilock sb i w) _ (ilock-Account r c sb both n w i h) (λ a k.
          After-chain Result (Keeps both) (change sb i fill a.1) _
            (change-Account r c sb both n a.1 i fill refl k)
            (λ b m.
              After-chain Result (Keeps both) _ _
                (After-branch (Keeps both) (type == t_dir) (link_dots sb i p) (ret true) b.1
                  (link_dots-Account i p b.1 m) m)
                (λ d q.
                  After-branch Result d.0 (create_link sb p i name type) (create_fail sb i p) d.1
                    (create_link-Account p i name type d.1 q) (create_fail-Account i p d.1 q))))

    create_new-Account :
        (p : ℕ) (name : ℕ → ℕ) (type major minor : ℕ) (w : World)
        → Account r c n (p ∷ held) w
        → After (create_new sb p name type major minor w) Result
    unfolding create_new
    create_new-Account p name type major minor w h =
        After-chain Result (Leaves r c n (λ o. holding o (p ∷ held)))
          (new_inode sb (w.tree.table p).dev type w) _
          (new_inode-Account r c sb (p ∷ held) n w (w.tree.table p).dev type h)
          (λ a k.
            After-choice Result (λ o. Account r c n (holding o (p ∷ held)) a.1) a.0
              (iput sb p >> ret none) (λ i. create_fill sb p i name type major minor) a.1 k
              (λ k.
                After-chain Result (Keeps held) (iput sb p a.1) _
                  (iput-Account r c sb held n a.1 p k) (λ b m. m))
              (λ i k. create_fill-Account p i name type major minor a.1 k))

    create_found-Account :
        (p i type : ℕ) (w : World)
        → Account r c n (i ∷ p ∷ held) w
        → After (create_found sb p i type w) Result
    unfolding create_found
    create_found-Account p i type w h =
        After-chain Result (Keeps (i ∷ held)) (iput sb p w) _
          (iput-Account r c sb (i ∷ held) n w p (Account-swap r c n i p held w h))
          (λ a k.
            After-chain Result (Keeps (i ∷ held)) (ilock sb i a.1) _
              (ilock-Account r c sb (i ∷ held) n a.1 i k)
              (λ b m.
                let ip = b.1.tree.table i in
                After-branch Result
                  ((type == t_file) && ((ip.type == t_file) || (ip.type == t_device)))
                  (ret (some i)) (iput sb i >> ret none) b.1 m
                  (After-chain Result (Keeps held) (iput sb i b.1) _
                    (iput-Account r c sb held n b.1 i m) (λ d q. q))))

    create_in-Account :
        (p : ℕ) (name : ℕ → ℕ) (type major minor : ℕ) (w : World)
        → Account r c n (p ∷ held) w
        → After (create_in sb p name type major minor w) Result
    unfolding create_in
    create_in-Account p name type major minor w h =
        After-chain Result (Keeps (p ∷ held)) (ilock sb p w) _
          (ilock-Account r c sb (p ∷ held) n w p h)
          (λ a k.
            After-chain Result (Leaves r c n (λ o. found_in o (p ∷ held))) (dirlookup sb name p a.1)
              _ (dirlookup-Account r c sb (p ∷ held) n a.1 name p k)
              (λ b m.
                After-choice Result (λ o. Account r c n (found_in o (p ∷ held)) b.1) b.0
                  (create_new sb p name type major minor) (λ (off, i). create_found sb p i type) b.1
                  m (λ m. create_new-Account p name type major minor b.1 m)
                  (λ (off, i) m. create_found-Account p i type b.1 m)))

    -- `create` returns an inode that its caller holds, or nothing; it keeps no other reference.
    pub create-Account :
        (path : List ℕ) (type major minor : ℕ) (w : World)
        → Account r c n held w
        → After (create sb path type major minor w) Result
    unfolding create
    create-Account path type major minor w h =
        After-chain Result Result (nameiparent sb path w) _
          (nameiparent-Account r c sb held n w path h)
          (λ a k.
            After-choice Result (λ o. Account r c n (holding o held) a.1) a.0 (ret none)
              (λ p. create_in sb p (name_of path) type major minor) a.1 k (λ k. k)
              (λ p k. create_in-Account p (name_of path) type major minor a.1 k))

  -- What `create` returns, `sys_mkdir` and `sys_mknod` put back.
  pub made-Account :
      (held : List ℕ) (o : Option ℕ) (w : World)
      → Account r c (suc n) (holding o held) w
      → After (made sb o w) (λ a. Account r c n held a.1)
  unfolding made
  made-Account held none w h = finish-Account r c held n w false h
  made-Account held (some i) w h = put_finish-Account r c sb n held true i w h
