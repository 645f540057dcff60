-- ===== src/Syscall/Io/Pipes.antt =====
-- `sys_pipe` when the descriptors of the caller are all in use.
use crabv.Base.{
  ℕ, ◌≤◌, ◌≡◌, ◌≢◌, refl, sym, subst, ℕ_discrete, ap, ◌∙◌, true, false, Bool, none, some, [], arith,
  ok, err, first_none, ◌==◌, map_err,
}
use crabv.Machine.{TrapFrame}
use crabv.Fd.Error.{too_many_open}
use crabv.Fd.PipeTable.{PipeTable, create_pipe}
use crabv.Fd.PipeTable.Slots.{IsValid}
use crabv.Fd.PipeTable.Refs.{refs, create_pipe-Created}
use crabv.Fd.Table.Count.{count}
use crabv.Fd.Table as Table
use crabv.Fd.Table.{FdTable, FileDescriptor}
use crabv.Proc.{Process, invalid_pid, get}
use crabv.Syscall.{Kernel}
use crabv.Syscall.Errno.{SysError}
use crabv.Syscall.Io.{System, pipe_op, with_kernel, make_pipe, return, sys_pipe, end_of}
use crabv.Syscall.Io.Wake.{Changed, with_current_fd_table_mut_returns}

alloc_full :
    (t : FdTable) (entry : FileDescriptor)
    → first_none t.fds 0 ≡ none
    → Table.alloc t entry ≡ (err too_many_open, t)
unfolding Table.alloc
alloc_full t entry full = rw (Table.alloc, full) refl

pipe_op_full :
    (id : ℕ) (t : FdTable) (pt : PipeTable)
    → first_none t.fds 0 ≡ none
    → pipe_op id t pt ≡ (err too_many_open, t, pt, [])
unfolding pipe_op
pipe_op_full id t pt full =
    let none_free = alloc_full t (end_of id true) full in
    rw (pipe_op, none_free) (ap (λ a. (err too_many_open, a.1, pt, [])) none_free)

full-same :
    (id : ℕ) (k k' : Kernel) {p : Process}
    → Changed (pipe_op id) p k k'
    → get k.table k.table.current_pid ≡ some p
    → (pipe_op id p.fd_table k.pipes).1 ≡ p.fd_table
    → (pid : ℕ) → get k'.table pid ≡ get k.table pid
full-same id k k' {p} c there kept pid = elim (ℕ_discrete k.table.current_pid pid) [
  | yes here ↦
      let caller : get k'.table k.table.current_pid ≡ get k.table k.table.current_pid =
        c.caller ∙ (ap (λ t. some (record p { fd_table = t })) kept ∙ sym there) in
      subst (λ q. get k'.table q ≡ get k.table q) here caller
  | no away ↦ c.others pid away
]

module _ {D : Type 0} where
  make_pipe-ok :
      (s : System D) (id : ℕ) {u : PipeTable}
      → create_pipe s.kernel.pipes ≡ (ok id, u)
      → make_pipe s ≡ some (ok id, with_kernel s (record (s.kernel) { pipes = u }))
  unfolding make_pipe
  make_pipe-ok s id e =
      ap
        (λ c.
          return (map_err SysError.fd (c.0)) (with_kernel s (record (s.kernel) { pipes = c.1 })))
        e

  -- When the process that calls has no descriptor free and the pipe table, which is valid, gives a
  -- pipe `id`, `sys_pipe` returns the error of the descriptors and leaves the memory and every
  -- process as they were, but the pipe stays, with a reference to each of its ends, while no process
  -- has a descriptor of it. It is assumed that the mutex is free, that there is a current process,
  -- that the pointer is not null, and that before the call no process has more descriptors of an end
  -- of a pipe than the pipe table counts.
  pub sys_pipe_leaks :
      (f : TrapFrame) (s : System D) (id : ℕ) {p : Process} {u : PipeTable}
      → s.kernel.table_locked ≡ false
      → s.kernel.table.current_pid ≢ invalid_pid
      → get s.kernel.table s.kernel.table.current_pid ≡ some p
      → f.a1 ≢ 0
      → IsValid s.kernel.pipes
      → create_pipe s.kernel.pipes ≡ (ok id, u)
      → first_none p.fd_table.fds 0 ≡ none
      → ((pid : ℕ) (q : Process) (e : Bool)
          → get s.kernel.table pid ≡ some q
          → count id e q.fd_table.fds ≤ refs s.kernel.pipes id e)
      → (s' : System D) × (sys_pipe f s ≡ some (err (SysError.fd too_many_open), s'))
        × (s'.memory ≡ s.memory)
        × ((pid : ℕ) → get s'.kernel.table pid ≡ get s.kernel.table pid)
        × ((e : Bool) → refs s.kernel.pipes id e ≡ 0)
        × ((e : Bool) → refs s'.kernel.pipes id e ≡ 1)
        × ((pid : ℕ) (q : Process) (e : Bool)
            → get s'.kernel.table pid ≡ some q
            → count id e q.fd_table.fds ≡ 0)
  unfolding sys_pipe
  sys_pipe_leaks f s id {p} {u} free here there ptr v made full counted =
      let k : Kernel = record (s.kernel) { pipes = u } in
      let op = pipe_op_full id p.fd_table u full in
      let created = create_pipe-Created s.kernel.pipes id v made in
      let (k', quiet, c) =
        (with_current_fd_table_mut_returns (pipe_op id) k free here there).0 (ap (λ r. r.3) op) in
      let not_null : (f.a1 == 0) ≡ false = ground arith in
      let same = full-same id k k' c there (ap (λ r. r.1) op) in
      (
        with_kernel s k',
        rw (sys_pipe, not_null, make_pipe-ok s id made, quiet, ap (λ r. r.0) op) refl,
        refl,
        same,
        λ e. rw created.was_empty refl,
        λ e. rw c.pipes (ap (λ r. refs (r.2) id e) op ∙ (created.counts id e ∙ ground arith)),
        λ pid q e g.
            let before : refs s.kernel.pipes id e ≡ 0 = rw created.was_empty refl in
            omega (arith, counted pid q e (sym (same pid) ∙ g), before),
      )
