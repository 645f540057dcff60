-- ===== src/Syscall/Exit.antt =====
-- When `sys_exit` of src/syscall.rs returns.
use crabv.Base.{
  ℕ, ◌≡◌, ◌≢◌, refl, ◌∙◌, true, false, none, some, List, [], ◌∷◌, arith, inl, inr, Option-cases,
}
use crabv.Proc.{Process, invalid_pid, get, exit_process}
use crabv.Proc.Inv.{IsValid}
use crabv.Proc.Wait.{finished, finished_fields, exit_process-get}
use crabv.Syscall.{
  Kernel, lock, lock_and_unblock, unblock_all, unblock_parent, exit_current, sys_exit,
}

lock_and_unblock_held :
    (pid : ℕ) (k : Kernel) → k.table_locked ≡ true → lock_and_unblock pid k ≡ none
unfolding lock_and_unblock lock
lock_and_unblock_held pid k h = ground arith

-- With the lock held, the pipes can wake nobody.
unblock_all_held :
    (woken : List ℕ) (k : Kernel) {k1 : Kernel}
    → k.table_locked ≡ true
    → unblock_all woken k ≡ some k1
    → k1 ≡ k
unfolding unblock_all
unblock_all_held [] k h e = ground arith
unblock_all_held (pid ∷ pids) k h e = absurd (ground (arith, lock_and_unblock_held pid k h))

exited_parent :
    (k : Kernel) (code : ℕ) {p : Process}
    → IsValid k.table
    → get k.table k.table.current_pid ≡ some p
    → (q : Process) × (get
          (exit_process k.table k.pipes k.table.current_pid code).0
          k.table.current_pid
        ≡ some q)
      × (q.parent_pid ≡ p.parent_pid)
exited_parent k code {p} v there =
    let pid = k.table.current_pid in
    let found = (exit_process-get k.table k.pipes pid code v there).0 pid in
    (finished p k.pipes code p, found ∙ ground arith, (finished_fields p k.pipes code).0)

-- The kernel after the tables were changed by `exit_process`.
abbrev exited_kernel : ℕ → Kernel → Kernel
exited_kernel code k =
    let (table, pipes, woken) = exit_process k.table k.pipes k.table.current_pid code in
    record k { table = table; pipes = pipes }

abbrev woken_by : ℕ → Kernel → List ℕ
woken_by code k = (exit_process k.table k.pipes k.table.current_pid code).2

exit_current_held :
    (code : ℕ) (k : Kernel) {p : Process}
    → k.table_locked ≡ true
    → IsValid k.table
    → k.table.current_pid ≢ invalid_pid
    → get k.table k.table.current_pid ≡ some p
    → p.parent_pid ≢ invalid_pid
    → exit_current code k ≡ none
unfolding exit_current unblock_parent
exit_current_held code k {p} h v here there parent =
    elim (Option-cases (unblock_all (woken_by code k) (exited_kernel code k))) [
      | inl stuck ↦ ground arith
      | inr (k1, e) ↦
          let same = unblock_all_held (woken_by code k) (exited_kernel code k) h e in
          let (q, found, up) = exited_parent k code v there in
          ground (arith, same, found, up, lock_and_unblock_held q.parent_pid k1)
    ]

-- With the mutex free and a valid table: when a process of the table exits whose parent has a
-- number, the system call asks for the lock of the process table that it holds, and does not
-- return.
pub sys_exit_deadlock :
    (code : ℕ) (k : Kernel) {p : Process}
    → k.table_locked ≡ false
    → IsValid k.table
    → k.table.current_pid ≢ invalid_pid
    → get k.table k.table.current_pid ≡ some p
    → p.parent_pid ≢ invalid_pid
    → sys_exit code k ≡ none
unfolding sys_exit lock
sys_exit_deadlock code k {p} free v here there parent = ground (
  arith,
  exit_current_held code (record k { table_locked = true }) {p = p} refl v here there parent,
)

-- With the mutex free and a valid table: when a process of the table exits that has no parent, and
-- whose descriptors wake nobody, the system call returns the code, frees the mutex, and has done to
-- the tables what `exit_process` does.
pub sys_exit_returns :
    (code : ℕ) (k : Kernel) {p : Process}
    → k.table_locked ≡ false
    → IsValid k.table
    → k.table.current_pid ≢ invalid_pid
    → get k.table k.table.current_pid ≡ some p
    → p.parent_pid ≡ invalid_pid
    → (exit_process k.table k.pipes k.table.current_pid code).2 ≡ []
    → sys_exit code k
      ≡ some (
        code,
        record {
          table = (exit_process k.table k.pipes k.table.current_pid code).0;
          pipes = (exit_process k.table k.pipes k.table.current_pid code).1;
          table_locked = false;
        },
      )
unfolding sys_exit exit_current unblock_parent unblock_all lock
sys_exit_returns code k {p} free v here there parent quiet =
    let (q, found, up) = exited_parent k code v there in ground (arith, found, up, quiet)
