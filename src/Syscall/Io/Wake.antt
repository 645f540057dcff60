-- ===== src/Syscall/Io/Wake.antt =====
-- What wakes a process while the process table is locked.
use crabv.Base.{
  ℕ, ◌≡◌, ◌≢◌, refl, true, false, none, some, List, [], ◌∷◌, arith, map_err, ◌==◌, ap, ◌∙◌,
}
use crabv.Proc.{Process, invalid_pid, get, get_mut}
use crabv.Proc.Inv.{get_mut-get}
use crabv.Syscall.{Kernel, lock, lock_and_unblock, unblock_all, unlock}
use crabv.Syscall.Errno.{SysError}
use crabv.Syscall.Io.{FdOp, on_fds, with_current_fd_table_mut, unlocked, after_op, with_table}

pub unblock_all_locked :
    (pid : ℕ) (pids : List ℕ) (k : Kernel)
    → k.table_locked ≡ true
    → unblock_all (pid ∷ pids) k ≡ none
unfolding unblock_all lock_and_unblock lock
unblock_all_locked pid pids k h = ground arith

on_fds_quiet :
    {A : Type 0} (f : FdOp A) (k : Kernel) (pid : ℕ) (p : Process)
    → (f p.fd_table k.pipes).3 ≡ []
    → on_fds f k pid p
      ≡ some (map_err SysError.fd ((f p.fd_table k.pipes).0), unlock (after_op f k pid p))
unfolding on_fds unblock_all
on_fds_quiet f k pid p e =
    ap
      (λ ws.
        unlocked (map_err SysError.fd ((f p.fd_table k.pipes).0))
          (unblock_all ws (after_op f k pid p)))
      e

on_fds_wakes :
    {A : Type 0} (f : FdOp A) (k : Kernel) (pid : ℕ) (p : Process) (w : ℕ) (ws : List ℕ)
    → k.table_locked ≡ true
    → (f p.fd_table k.pipes).3 ≡ w ∷ ws
    → on_fds f k pid p ≡ none
unfolding on_fds
on_fds_wakes f k pid p w ws h e =
    ap (λ o. unlocked (map_err SysError.fd ((f p.fd_table k.pipes).0)) o)
      (ap (λ l. unblock_all l (after_op f k pid p)) e
        ∙ unblock_all_locked w ws (after_op f k pid p) h)

-- The kernel after an operation on the descriptors of a process: the mutex is free, the process has
-- the descriptors that the operation returned, the pipe table is the one that it returned, and every
-- other process and the current number are as before.
pub record Changed {A : Type 0} (f : FdOp A) (p : Process) (k k' : Kernel) : Type 0 where
  pub unlocked : k'.table_locked ≡ false
  pub pipes : k'.pipes ≡ (f p.fd_table k.pipes).2
  pub current : k'.table.current_pid ≡ k.table.current_pid
  pub caller :
      get k'.table k.table.current_pid ≡ some (record p { fd_table = (f p.fd_table k.pipes).1 })
  pub others : (q : ℕ) → k.table.current_pid ≢ q → get k'.table q ≡ get k.table q

after_op-Changed :
    {A : Type 0} (f : FdOp A) (k : Kernel) (p : Process)
    → get k.table k.table.current_pid ≡ some p
    → Changed f p k (unlock (after_op f (record k { table_locked = true }) k.table.current_pid p))
unfolding get_mut
after_op-Changed f k p there =
    let pid = k.table.current_pid in
    let g = with_table ((f p.fd_table k.pipes).1) in
    let found = λ (q : ℕ). get_mut-get k.table pid q g (λ r. refl) in
    record {
      unlocked = refl;
      pipes = refl;
      current = refl;
      caller = ground (arith, found pid, there);
      others = λ q ne. ground (arith, found q);
    }

-- For an operation on the descriptors of the current process, with the mutex free: if it wakes
-- nobody, the call returns its result with the mutex free again, the caller with the descriptors and
-- the kernel with the pipe table that it gives, and every other process as before; if it wakes some
-- process, the call does not return, since the wake-up waits for the mutex that the call holds.
pub with_current_fd_table_mut_returns :
    {A : Type 0} (f : FdOp A) (k : Kernel) {p : Process}
    → k.table_locked ≡ false
    → k.table.current_pid ≢ invalid_pid
    → get k.table k.table.current_pid ≡ some p
    → ((f p.fd_table k.pipes).3 ≡ []
        → (k' : Kernel) × (with_current_fd_table_mut f k
            ≡ some (map_err SysError.fd ((f p.fd_table k.pipes).0), k'))
          × Changed f p k k')
      × ((w : ℕ) (ws : List ℕ)
          → (f p.fd_table k.pipes).3 ≡ w ∷ ws
          → with_current_fd_table_mut f k ≡ none)
unfolding with_current_fd_table_mut lock
with_current_fd_table_mut_returns f k {p} free here there =
    let locked : Kernel = record k { table_locked = true } in
    let valid : (k.table.current_pid == invalid_pid) ≡ false = ground arith in
    (
      λ quiet. (
        unlock (after_op f locked k.table.current_pid p),
        rw (free, valid, there) (on_fds_quiet f locked k.table.current_pid p quiet),
        after_op-Changed f k p there,
      ),
      λ w ws wakes.
          rw (free, valid, there) (on_fds_wakes f locked k.table.current_pid p w ws refl wakes),
    )
