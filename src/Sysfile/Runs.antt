-- ===== src/Sysfile/Runs.antt =====
-- Any number of the calls of kernel/sysfile.c on paths, one after the other.
use xv7_riscv.Fs.{Superblock}
use xv7_riscv.Fs.Holders.{Held, Held-swap}
use xv7_riscv.Fs.References.{After}
use xv7_riscv.Sysfile.{World}
use xv7_riscv.Sysfile.Links.{sys_link, sys_unlink}
use xv7_riscv.Sysfile.Entries.{sys_mkdir, sys_mknod, sys_chdir, sys_open}
use xv7_riscv.Sysfile.Accounts.{Account}
use xv7_riscv.Sysfile.Balance.{sys_link-Account}
use xv7_riscv.Sysfile.Unlinks.{sys_unlink-Account}
use xv7_riscv.Sysfile.Calls.{InDirectory, sys_mkdir-Account, sys_mknod-Account, sys_chdir-Account}
use xv7_riscv.Sysfile.Opens.{file_at, Opened, opened_in, sys_open-Account}
use xv7_riscv.Prelude.{ℕ, ◌≡◌, refl, subst, Bool, List, [], ◌∷◌, Option, none, some}

After-some {ℓ} : {A : Type ℓ} (P : A → Type 0) (o : Option A) (a : A) → After o P → o ≡ some a → P a
After-some P o a h e = subst (λ o. After o P) e h

module _ (sb : Superblock) where
  -- The world after some calls that return, and the inodes of the files that they have opened.
  pub data Runs : World → World → List ℕ → Type 0 where
    start : {w : World} → Runs w w []
    links :
        {w v : World} {held : List ℕ} (u : World) (ok : Bool) (old new : Option (List ℕ))
        → Runs w u held
        → sys_link sb old new u ≡ some (ok, v)
        → Runs w v held
    unlinks :
        {w v : World} {held : List ℕ} (u : World) (ok : Bool) (path : Option (List ℕ))
        → Runs w u held
        → sys_unlink sb path u ≡ some (ok, v)
        → Runs w v held
    mkdirs :
        {w v : World} {held : List ℕ} (u : World) (ok : Bool) (path : Option (List ℕ))
        → Runs w u held
        → sys_mkdir sb path u ≡ some (ok, v)
        → Runs w v held
    mknods :
        {w v : World} {held : List ℕ} (u : World) (ok : Bool) (path : Option (List ℕ))
        (major minor : ℕ)
        → Runs w u held
        → sys_mknod sb path major minor u ≡ some (ok, v)
        → Runs w v held
    chdirs :
        {w v : World} {held : List ℕ} (u : World) (ok : Bool) (path : Option (List ℕ))
        → Runs w u held
        → sys_chdir sb path u ≡ some (ok, v)
        → Runs w v held
    opens :
        {w v : World} {held : List ℕ} (u : World) (o : Option ℕ) (me : ℕ) (path : Option (List ℕ))
        (omode : ℕ)
        → Runs w u held
        → sys_open sb me path omode u ≡ some (o, v)
        → Runs w v (opened_in me o v.files held)

  module _ (r : ℕ → ℕ) where
    -- The references are those that r counts, that of the working directory, and those of the list; n
    -- operations are open.
    abbrev pub Balanced : ℕ → List ℕ → World → Type 0
    Balanced n held w = Held r (w.cwd ∷ held) w.tree.table × (w.ops ≡ n)

    Balanced-call :
        (n : ℕ) (held : List ℕ) (u v : World) {A : Type 0} (o : Option (A × World)) (a : A)
        → ((c : ℕ) → Account r c n (c ∷ held) u → After o (λ b. Account r c n (c ∷ held) b.1))
        → o ≡ some (a, v)
        → Balanced n held u
        → Balanced n held v
    Balanced-call n held u v o a call e (h, k) =
        let q =
          After-some (λ b. Account r u.cwd n (u.cwd ∷ held) b.1) o (a, v) (call u.cwd (h, k, refl))
            e in
        (rw q.2 q.0, q.1)

    Balanced-open :
        (n me : ℕ) (o : Option ℕ) (held : List ℕ) (v : World) (c : ℕ)
        → Account r c n (opened_in me o v.files (c ∷ held)) v
        → Balanced n (opened_in me o v.files held) v
    Balanced-open n me none held v c (h, k, d) = (rw d h, k)
    Balanced-open n me (some fd) held v c (h, k, d) =
        (rw d (Held-swap r (file_at me fd v.files).ip c held v.tree.table h), k)

    -- If the count of each inode is that of r and one for the working directory, then after any number
    -- of calls of `sys_link`, `sys_unlink`, `sys_mkdir`, `sys_mknod`, `sys_chdir` and `sys_open` that
    -- return, with success or with -1, it is that of r, one for the working directory that there is
    -- then, and one for each file that was opened, modulo 2 ^ 32; and as many operations of the log are
    -- open as before.
    pub references_kept :
        {n : ℕ} {w v : World} {held : List ℕ} → Balanced n [] w → Runs w v held → Balanced n held v
    references_kept h start = h
    references_kept {n = n} {v = v} {held = held} h (links u ok old new run e) =
        Balanced-call n held u v (sys_link sb old new u) ok
          (λ c. sys_link-Account r c sb n (c ∷ held) old new u) e (references_kept h run)
    references_kept {n = n} {v = v} {held = held} h (unlinks u ok path run e) =
        Balanced-call n held u v (sys_unlink sb path u) ok
          (λ c. sys_unlink-Account r c sb n (c ∷ held) path u) e (references_kept h run)
    references_kept {n = n} {v = v} {held = held} h (mkdirs u ok path run e) =
        Balanced-call n held u v (sys_mkdir sb path u) ok
          (λ c. sys_mkdir-Account r c sb n (c ∷ held) path u) e (references_kept h run)
    references_kept {n = n} {v = v} {held = held} h (mknods u ok path major minor run e) =
        Balanced-call n held u v (sys_mknod sb path major minor u) ok
          (λ c. sys_mknod-Account r c sb n (c ∷ held) path major minor u) e (references_kept h run)
    references_kept {n = n} {v = v} {held = held} h (chdirs u ok path run e) =
        let (k, m) = references_kept h run in
        After-some (InDirectory r u.cwd sb n held) (sys_chdir sb path u) (ok, v)
          (sys_chdir-Account r u.cwd sb n held path u (k, m, refl)) e
    references_kept {n = n} {v = v} h (opens {held = held} u o me path omode run e) =
        let (k, m) = references_kept h run in
        Balanced-open n me o held v u.cwd (
          After-some (Opened r u.cwd sb n (u.cwd ∷ held) me) (sys_open sb me path omode u) (o, v)
            (sys_open-Account r u.cwd sb n (u.cwd ∷ held) me path omode u (k, m, refl)) e)
