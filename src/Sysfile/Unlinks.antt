-- ===== src/Sysfile/Unlinks.antt =====
-- `sys_unlink` of kernel/sysfile.c gives back what it takes.
use xv7_riscv.Sysfile.Balance.{Ends, Open, change_if-Account, put_finish-Account}
use xv7_riscv.Fs.{Superblock}
use xv7_riscv.Fs.Holders.{holding}
use xv7_riscv.Fs.References.{After, After-chain}
use xv7_riscv.Sysfile.Accounts.{
  Account-swap, Account, Leaves, After-branch, After-choice, found_in, begin_op-Account,
  finish-Account, nameiparent-Account, ilock-Account, iput-Account, change-Account, reject-Account,
  isdirempty-Account, clear_entry-Account, dirlookup-Account,
}
use xv7_riscv.Sysfile.{
  World, begin_op, nameiparent, ilock, iput, change, dirlookup, isdirempty, clear_entry, reject,
  ◌>>◌, ret, drop_link, name_of, dot, dot_dot,
}
use xv7_riscv.Sysfile.Links.{unlink_found, unlink_entry, unlink_in, unlink_path, sys_unlink}
use xv7_riscv.Fs.Directory.{t_dir, namecmp}
use xv7_riscv.Prelude.{
  Bool-cases, inl, inr, ◌==◌, ℕ, suc, refl, Bool, true, false, List, ◌∷◌, Option, none, some,
  if◌then◌else◌, ◌||◌, leb, ◌^◌,
}

module _ (r : ℕ → ℕ) (c : ℕ) (sb : Superblock) (n : ℕ) where
  module _ (held : List ℕ) where
    unlink_found-Account :
        (p off i : ℕ) (w : World)
        → Account r c (suc n) (i ∷ p ∷ held) w
        → After (unlink_found sb p off i w) (Ends r c sb n held)
    unfolding unlink_found
    unlink_found-Account p off i w h =
        let both : List ℕ = i ∷ p ∷ held in
        After-chain (Ends r c sb n held) (Open r c sb n both) (clear_entry sb off p w) _
          (clear_entry-Account r c sb both (suc n) w off p h)
          (λ a k.
            After-chain (Ends r c sb n held) (Open r c sb n both) _ _
              (change_if-Account r c sb n ((a.1.tree.table i).type == t_dir) p drop_link both a.1
                refl k)
              (λ b m.
                After-chain (Ends r c sb n held) (Open r c sb n (i ∷ held)) (iput sb p b.1) _
                  (iput-Account r c sb (i ∷ held) (suc n) b.1 p
                    (Account-swap r c (suc n) i p held b.1 m))
                  (λ d q.
                    After-chain (Ends r c sb n held) (Open r c sb n (i ∷ held))
                      (change sb i drop_link d.1) _
                      (change-Account r c sb (i ∷ held) (suc n) d.1 i drop_link refl q)
                      (λ e t. put_finish-Account r c sb n held true i e.1 t))))

    isempty-Account :
        (b : Bool) (i : ℕ) (more : List ℕ) (w : World)
        → Account r c (suc n) more w
        → After ((if b then isdirempty sb i else ret true) w) (Open r c sb n more)
    isempty-Account b i more w h =
        After-branch (Open r c sb n more) b (isdirempty sb i) (ret true) w
          (isdirempty-Account r c sb more (suc n) w i h) h

    unlink_entry-Account :
        (p off i : ℕ) (w : World)
        → Account r c (suc n) (i ∷ p ∷ held) w
        → After (unlink_entry sb p off i w) (Ends r c sb n held)
    unfolding unlink_entry
    unlink_entry-Account p off i w h =
        let both : List ℕ = i ∷ p ∷ held in
        After-chain (Ends r c sb n held) (Open r c sb n both) (ilock sb i w) _
          (ilock-Account r c sb both (suc n) w i h)
          (λ a k.
            let ip = a.1.tree.table i in
            elim (Bool-cases ((ip.nlink == 0) || leb (2 ^ 15) ip.nlink)) [
              | inl e ↦ rw e tt
              | inr e ↦ rw e (
                  After-chain (Ends r c sb n held) (Open r c sb n both) _ _
                    (isempty-Account (ip.type == t_dir) i both a.1 k)
                    (λ b m.
                      After-branch (Ends r c sb n held) b.0 (unlink_found sb p off i)
                        (iput sb i >> reject sb p) b.1 (unlink_found-Account p off i b.1 m)
                        (After-chain (Ends r c sb n held) (Open r c sb n (p ∷ held)) (iput sb i b.1)
                          _ (iput-Account r c sb (p ∷ held) (suc n) b.1 i m)
                          (λ d q. reject-Account r c sb held n p d.1 q))))
            ])

    unlink_in-Account :
        (p : ℕ) (name : ℕ → ℕ) (w : World)
        → Account r c (suc n) (p ∷ held) w
        → After (unlink_in sb p name w) (Ends r c sb n held)
    unfolding unlink_in
    unlink_in-Account p name w h =
        After-chain (Ends r c sb n held) (Open r c sb n (p ∷ held)) (ilock sb p w) _
          (ilock-Account r c sb (p ∷ held) (suc n) w p h)
          (λ a k. elim (Bool-cases ((namecmp name dot == 0) || (namecmp name dot_dot == 0))) [
            | inl e ↦ rw e (reject-Account r c sb held n p a.1 k)
            | inr e ↦ rw e (
                After-chain (Ends r c sb n held) (Leaves r c (suc n) (λ o. found_in o (p ∷ held)))
                  (dirlookup sb name p a.1) _
                  (dirlookup-Account r c sb (p ∷ held) (suc n) a.1 name p k)
                  (λ b m.
                    After-choice (Ends r c sb n held)
                      (λ o. Account r c (suc n) (found_in o (p ∷ held)) b.1) b.0 (reject sb p)
                      (λ (off, i). unlink_entry sb p off i) b.1 m
                      (λ m. reject-Account r c sb held n p b.1 m)
                      (λ (off, i) m. unlink_entry-Account p off i b.1 m)))
          ])

    unlink_path-Account :
        (path : List ℕ) (w : World)
        → Account r c n held w
        → After (unlink_path sb path w) (Ends r c sb n held)
    unfolding unlink_path
    unlink_path-Account path w h =
        After-chain (Ends r c sb n held) (Open r c sb n held) (begin_op w) _
          (begin_op-Account r c held n w h)
          (λ a k.
            After-chain (Ends r c sb n held) (Leaves r c (suc n) (λ o. holding o held))
              (nameiparent sb path a.1) _ (nameiparent-Account r c sb held (suc n) a.1 path k)
              (λ e q.
                After-choice (Ends r c sb n held) (λ o. Account r c (suc n) (holding o held) e.1)
                  e.0 _ _ e.1 q (λ q. finish-Account r c held n e.1 false q)
                  (λ p q. unlink_in-Account p (name_of path) e.1 q)))

    -- `sys_unlink` keeps no reference and no operation, whichever way it returns.
    pub sys_unlink-Account :
        (path : Option (List ℕ)) (w : World)
        → Account r c n held w
        → After (sys_unlink sb path w) (Ends r c sb n held)
    unfolding sys_unlink
    sys_unlink-Account none w h = h
    sys_unlink-Account (some path) w h = unlink_path-Account path w h
