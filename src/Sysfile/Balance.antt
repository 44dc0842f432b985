-- ===== src/Sysfile/Balance.antt =====
-- The calls of kernel/sysfile.c on paths give back what they take: the references to inodes, and the
-- operations of the log.
use xv7_riscv.Fs.{Superblock}
use xv7_riscv.Fs.Inode.{Inode}
use xv7_riscv.Fs.Holders.{holding}
use xv7_riscv.Fs.References.{After, After-chain}
use xv7_riscv.Sysfile.Accounts.{
  Account, Leaves, After-branch, After-choice, begin_op-Account, finish-Account, namei-Account,
  nameiparent-Account, ilock-Account, iput-Account, change-Account, dirlink-Account, reject-Account,
}
use xv7_riscv.Sysfile.{
  World, begin_op, namei, nameiparent, ilock, iput, change, dirlink, finish, ◌>>◌, ret, drop_link,
  add_link, name_of,
}
use xv7_riscv.Sysfile.Links.{unlink_new, link_into, link_inode, link_path, sys_link}
use xv7_riscv.Fs.Directory.{t_dir}
use xv7_riscv.Prelude.{
  Bool-cases, inl, inr, ◌==◌, not, ℕ, suc, ◌≡◌, refl, Bool, true, false, List, ◌∷◌, Option, none,
  some, if◌then◌else◌,
}

module _ (r : ℕ → ℕ) (c : ℕ) (sb : Superblock) (n : ℕ) where
  -- The world when a call has returned, and before it returns.
  abbrev pub Ends : List ℕ → Bool × World → Type 0
  Ends held a = Account r c n held a.1

  abbrev pub Open {ℓ} : {A : Type ℓ} → List ℕ → A × World → Type 0
  Open held a = Account r c (suc n) held a.1

  pub change_if-Account :
      (b : Bool) (i : ℕ) (f : Inode → Inode) (held : List ℕ) (w : World)
      → (f (w.tree.table i)).ref ≡ (w.tree.table i).ref
      → Account r c (suc n) held w
      → After ((if b then change sb i f else ret tt) w) (Open held)
  change_if-Account b i f held w same h =
      After-branch (Open held) b (change sb i f) (ret tt) w
        (change-Account r c sb held (suc n) w i f same h) h

  module _ (held : List ℕ) where
    pub put_finish-Account :
        (ok : Bool) (i : ℕ) (w : World)
        → Account r c (suc n) (i ∷ held) w
        → After ((iput sb i >> finish ok) w) (Ends held)
    put_finish-Account ok i w h =
        After-chain (Ends held) (Open held) (iput sb i w) _ (iput-Account r c sb held (suc n) w i h)
          (λ a k. finish-Account r c held n a.1 ok k)

    unlink_new-Account :
        (i : ℕ) (w : World)
        → Account r c (suc n) (i ∷ held) w
        → After (unlink_new sb i w) (Ends held)
    unfolding unlink_new
    unlink_new-Account i w h =
        After-chain (Ends held) (Open (i ∷ held)) (ilock sb i w) _
          (ilock-Account r c sb (i ∷ held) (suc n) w i h)
          (λ a k.
            After-chain (Ends held) (Open (i ∷ held)) (change sb i drop_link a.1) _
              (change-Account r c sb (i ∷ held) (suc n) a.1 i drop_link refl k)
              (λ b m. reject-Account r c sb held n i b.1 m))

    link_into-Account :
        (i p : ℕ) (name : ℕ → ℕ) (w : World)
        → Account r c (suc n) (p ∷ i ∷ held) w
        → After (link_into sb i p name w) (Ends held)
    unfolding link_into
    link_into-Account i p name w h =
        After-chain (Ends held) (Open (p ∷ i ∷ held)) (ilock sb p w) _
          (ilock-Account r c sb (p ∷ i ∷ held) (suc n) w p h)
          (λ a k. elim (Bool-cases (not ((a.1.tree.table p).dev == (a.1.tree.table i).dev))) [
            | inl e ↦ rw e (
                After-chain (Ends held) (Open (i ∷ held)) (iput sb p a.1) _
                  (iput-Account r c sb (i ∷ held) (suc n) a.1 p k)
                  (λ b m. unlink_new-Account i b.1 m))
            | inr e ↦ rw e (
                After-chain (Ends held) (Open (p ∷ i ∷ held))
                  (dirlink sb name (a.1.tree.table i).inum p a.1) _
                  (dirlink-Account r c sb (i ∷ held) (suc n) a.1 name _ p k)
                  (λ b m.
                    After-chain (Ends held) (Open (i ∷ held)) (iput sb p b.1) _
                      (iput-Account r c sb (i ∷ held) (suc n) b.1 p m)
                      (λ d q.
                        After-branch (Ends held) b.0 (iput sb i >> finish true) (unlink_new sb i)
                          d.1 (put_finish-Account true i d.1 q) (unlink_new-Account i d.1 q))))
          ])

    link_inode-Account :
        (i : ℕ) (new : List ℕ) (w : World)
        → Account r c (suc n) (i ∷ held) w
        → After (link_inode sb i new w) (Ends held)
    unfolding link_inode
    link_inode-Account i new w h =
        After-chain (Ends held) (Open (i ∷ held)) (ilock sb i w) _
          (ilock-Account r c sb (i ∷ held) (suc n) w i h)
          (λ a k. elim (Bool-cases ((a.1.tree.table i).type == t_dir)) [
            | inl e ↦ rw e (reject-Account r c sb held n i a.1 k)
            | inr e ↦ rw e (
                After-chain (Ends held) (Open (i ∷ held)) (change sb i add_link a.1) _
                  (change-Account r c sb (i ∷ held) (suc n) a.1 i add_link refl k)
                  (λ b m.
                    After-chain (Ends held) (Leaves r c (suc n) (λ o. holding o (i ∷ held)))
                      (nameiparent sb new b.1) _
                      (nameiparent-Account r c sb (i ∷ held) (suc n) b.1 new m)
                      (λ d q.
                        After-choice (Ends held)
                          (λ o. Account r c (suc n) (holding o (i ∷ held)) d.1) d.0
                          (unlink_new sb i) (λ p. link_into sb i p (name_of new)) d.1 q
                          (λ q. unlink_new-Account i d.1 q)
                          (λ p q. link_into-Account i p (name_of new) d.1 q))))
          ])

    -- The name of a call is looked up in an operation of the log.
    link_path-Account :
        (old new : List ℕ) (w : World)
        → Account r c n held w
        → After (link_path sb old new w) (Ends held)
    unfolding link_path
    link_path-Account old new w h =
        After-chain (Ends held) (Open held) (begin_op w) _ (begin_op-Account r c held n w h) (λ a k.
          After-chain (Ends held) (Leaves r c (suc n) (λ o. holding o held)) (namei sb old a.1) _
            (namei-Account r c sb held (suc n) a.1 old k)
            (λ e q.
              After-choice (Ends held) (λ o. Account r c (suc n) (holding o held) e.1) e.0 _ _ e.1 q
                (λ q. finish-Account r c held n e.1 false q)
                (λ i q. link_inode-Account i new e.1 q)))

    -- `sys_link` keeps no reference and no operation, whichever way it returns.
    pub sys_link-Account :
        (old new : Option (List ℕ)) (w : World)
        → Account r c n held w
        → After (sys_link sb old new w) (Ends held)
    unfolding sys_link
    sys_link-Account (some old) (some new) w h = link_path-Account old new w h
    sys_link-Account (some old) none w h = h
    sys_link-Account none new w h = h
