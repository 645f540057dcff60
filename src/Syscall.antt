-- ===== src/Syscall.antt =====
-- `sys_exit` of src/syscall.rs, with the mutex of the process table. A mutex that is locked by the
-- code that asks for it spins for ever: such a call does not return, which is `none`.
pub mod Exit
pub mod Errno
pub mod Io
pub mod Spawn
pub mod Dispatch
mod Examples
use crabv.Base.{
  ℕ, Bool, true, false, Option, none, some, List, [], ◌∷◌, Result, ok, err, ◌==◌, if◌then◌else◌,
}
use crabv.Fd.Error.{FdError}
use crabv.Fd.PipeTable.{PipeTable}
use crabv.Fd.Table
use crabv.Proc.{Process, ProcessTable, invalid_pid, get, get_mut, exit_process}
use crabv.Sched.{unblock}

-- The tables behind the mutexes, and whether that of the process table is locked.
pub record Kernel : Type 0 where
  pub table : ProcessTable
  pub pipes : PipeTable
  pub table_locked : Bool

-- `PROCESS_TABLE.lock()`
unfoldable pub lock : Kernel → Option Kernel
lock k = if k.table_locked then none else some (record k { table_locked = true })

-- The guard is dropped.
abbrev pub unlock : Kernel → Kernel
unlock k = record k { table_locked = false }

-- `Scheduler::unblock` takes the lock for itself.
unfoldable pub lock_and_unblock : ℕ → Kernel → Option Kernel
lock_and_unblock pid k = elim (lock k) [
  | none ↦ none
  | some k1 ↦ some (unlock (record k1 { table = unblock pid k1.table }))
]

-- The processes that the pipes wake, one after another.
unfoldable pub unblock_all : List ℕ → Kernel → Option Kernel
unblock_all [] k = some k
unblock_all (pid ∷ pids) k = elim (lock_and_unblock pid k) [
  | none ↦ none
  | some k1 ↦ unblock_all pids k1
]

-- The parent of a process that has exited is unblocked, if it has one.
unfoldable pub unblock_parent : Option Process → Kernel → Option Kernel
unblock_parent none k = some k
unblock_parent (some p) k =
    let woken = lock_and_unblock p.parent_pid k in
    if p.parent_pid == invalid_pid then some k else woken

-- `exit_process` and the unblocking after it, with the lock held.
unfoldable pub exit_current : ℕ → Kernel → Option Kernel
exit_current code k =
    let pid = k.table.current_pid in
    if pid == invalid_pid
    then some k
    else (let (table, pipes, woken) = exit_process k.table k.pipes pid code in
        elim (unblock_all woken (record k { table = table; pipes = pipes })) [
          | none ↦ none
          | some k1 ↦ unblock_parent (get k1.table pid) k1
        ])

-- What is printed at the end takes the lock once more.
unfoldable pub sys_exit : ℕ → Kernel → Option (ℕ × Kernel)
sys_exit code k = elim (lock k) [
  | none ↦ none
  | some k1 ↦ elim (exit_current code k1) [
    | none ↦ none
    | some k2 ↦ elim (lock (unlock k2)) [ none ↦ none | some k3 ↦ some (code, unlock k3) ]
  ]
]
