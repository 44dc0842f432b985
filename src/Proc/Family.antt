-- ===== src/Proc/Family.antt =====
-- fork, exit and wait of kernel/proc.c.
use xv7_riscv.Prelude.{
  ℕ, zero, suc, ◌+◌, Bool, false, not, ◌&&◌, ◌||◌, ◌==◌, if◌then◌else◌, update, Option, none, some,
  List, [], ◌∷◌,
}
use xv7_riscv.Proc.{
  nproc, nofile, runnable, zombie, is_zombie, of_proc, Table, set_proc, allocproc, freeproc, wakeup,
  sleep, null,
}

abbrev pub is_proc : Option ℕ → ℕ → Bool
is_proc none p = false
is_proc (some q) p = q == p

-- The loop of `fork` over the descriptors: the child's table, and the files that are duplicated.
unfoldable pub dup_files : ℕ → ℕ → (ℕ → ℕ) → (ℕ → ℕ) → (ℕ → ℕ) × List ℕ
dup_files zero i ofile child = (child, [])
dup_files (suc k) i ofile child =
    let (child', files) =
      dup_files k (i + 1) ofile (if ofile i == 0 then child else update child i (ofile i)) in
    (child', if ofile i == 0 then files else ofile i ∷ files)

-- Word 14 of the trapframe is a0.
abbrev pub a0 : ℕ
a0 = 14

-- `fork` up to the release of `np->lock`. `copied` is the success of `uvm_copy`; the list holds the
-- files passed to `file_dup`.
unfoldable pub fork_copy : ℕ → ℕ → Bool → Table → Table × List ℕ
unfolding freeproc dup_files
fork_copy me np copied t =
    let p = t.proc me in
    let child = t.proc np in
    let (ofile, files) = dup_files nofile 0 p.ofile child.ofile in
    if copied
    then (
      set_proc t np (record child {
        sz = p.sz;
        tickets = p.tickets;
        frame = update p.frame a0 0;
        ofile = ofile;
        cwd = p.cwd;
      }),
      files,
    )
    else (set_proc t np (freeproc child), [])

-- The two later critical sections of `fork`.
unfoldable pub fork_parent : ℕ → ℕ → Table → Table
fork_parent me np t = set_proc t np (record (t.proc np) { parent = some me })

unfoldable pub fork_ready : ℕ → Table → Table
fork_ready np t = set_proc t np (record (t.proc np) { state = runnable })

-- The result is the child's pid, `none` for -1.
unfoldable pub fork : ℕ → ℕ → ℕ → Bool → Table → Option ℕ × Table
unfolding fork_copy fork_parent fork_ready
fork me trapframe pagetable copied t =
    let (found, t1) = allocproc trapframe pagetable t in
    elim found [
      | none ↦ (none, t1)
      | some np ↦
          let t2 = (fork_copy me np copied t1).0 in
          if copied
          then (some (t2.proc np).pid, fork_ready np (fork_parent me np t2))
          else (none, t2)
    ]

-- One round of the loop of `reparent`: a child of p goes to init, which is woken.
unfoldable pub reparent_one : ℕ → ℕ → ℕ → Table → Table
reparent_one i p init t =
    if is_proc (t.proc i).parent p
    then wakeup p (of_proc init) (set_proc t i (record (t.proc i) { parent = some init }))
    else t

unfoldable pub reparent_from : ℕ → ℕ → ℕ → ℕ → Table → Table
unfolding reparent_one
reparent_from zero i p init t = t
reparent_from (suc k) i p init t = reparent_from k (i + 1) p init (reparent_one i p init t)

-- `exit` closes the open files, in this order; the list is what is passed to `file_close`.
unfoldable pub close_files : ℕ → ℕ → (ℕ → ℕ) → (ℕ → ℕ) × List ℕ
close_files zero i ofile = (ofile, [])
close_files (suc k) i ofile =
    let (ofile', files) =
      close_files k (i + 1) (if ofile i == 0 then ofile else update ofile i 0) in
    (ofile', if ofile i == 0 then files else ofile i ∷ files)

unfoldable pub exit_files : ℕ → Table → Table × List ℕ
unfolding close_files
exit_files p t =
    let (ofile, files) = close_files nofile 0 (t.proc p).ofile in
    (set_proc t p (record (t.proc p) { ofile = ofile; cwd = 0 }), files)

abbrev pub wake_parent : ℕ → Option ℕ → Table → Table
wake_parent p none t = wakeup p null t
wake_parent p (some q) t = wakeup p (of_proc q) t

-- `exit` from `acquire(&wait_lock)` to `sched`.
unfoldable pub exit_zombie : ℕ → ℕ → ℕ → Table → Table
unfolding reparent_from
exit_zombie p status init t =
    let t1 = reparent_from nproc 0 p init t in
    let t2 = wake_parent p (t1.proc p).parent t1 in
    set_proc t2 p (record (t2.proc p) { xstate = status; state = zombie })

-- `none` is the panic of the init process.
unfoldable pub exit : ℕ → ℕ → Table → Option Table
unfolding exit_files exit_zombie
exit p status t = elim t.initproc [
  | none ↦ none
  | some init ↦ if p == init then none else some (exit_zombie p status init (exit_files p t).0)
]

-- What the scan of `wait` from entry i on finds: a zombie child, or whether there is a child.
pub data Scan : Type 0 where
  exited : ℕ → Scan
  scanned : Bool → Scan

unfoldable pub scan_from : ℕ → ℕ → ℕ → Bool → Table → Scan
scan_from zero i p havekids t = scanned havekids
scan_from (suc k) i p havekids t =
    let child = is_proc (t.proc i).parent p in
    let rest = scan_from k (i + 1) p (child || havekids) t in
    if child && is_zombie (t.proc i).state then exited i else rest

-- How a round of `wait` ends: with a pid, with -1, or asleep.
pub data Waited : Type 0 where
  reaped : ℕ → Waited
  failed : Waited
  waiting : Waited

-- What `wait` does with what its scan has found; `stored` is false if addr is not 0 and the exit status
-- cannot be copied there.
unfoldable pub wait_end : Scan → ℕ → Bool → Table → Waited × Table
wait_end (exited i) p stored t =
    if stored then (reaped (t.proc i).pid, set_proc t i (freeproc (t.proc i))) else (failed, t)
wait_end (scanned havekids) p stored t =
    if not havekids || (t.proc p).killed then (failed, t) else (waiting, sleep p (of_proc p) t)

-- One round of `wait` under `wait_lock`.
unfoldable pub wait : ℕ → Bool → Table → Waited × Table
unfolding scan_from wait_end
wait p stored t = wait_end (scan_from nproc 0 p false t) p stored t
