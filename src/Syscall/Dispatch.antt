-- ===== src/Syscall/Dispatch.antt =====
-- The calls of src/syscall.rs on files and children, `dispatch`, and `handle_ecall`.
use crabv.Base.{
  ℕ, ◌+◌, ◌^◌, ◌/◌, ◌%◌, min, Bool, ◌&&◌, not, Option, none, some, List, [], ◌∷◌, Result, ok, err,
  ltb, ◌==◌, if◌then◌else◌, length, take,
}
use crabv.Bytes.{to_le_bytes}
use crabv.Machine.{Machine, load_bytes, store_bytes, TrapFrame}
use crabv.Fs.{BlockDevice, TinyFs}
use crabv.Fs.Error.{FsError}
use crabv.Fs.Ops.{with_fs, create_file, create_directory, remove_file, remove_directory}
use crabv.Fd.Error.{would_block}
use crabv.Fd.Table.{FileMode, file}
use crabv.Fd.Io.{read_file, write_file, file_open}
use crabv.Proc.{invalid_pid, has_children, wait}
use crabv.Syscall.{Kernel, lock, unlock, sys_exit}
use crabv.Syscall.Spawn.{sys_spawn, snapshot_user_window, restore_user_window}
use crabv.Sched.{maybe_switch}
use crabv.Syscall.Errno.{SysError, no_sys, fault, child, return_code}
use crabv.Syscall.Io.{
  System, Outcome, caller_pid, read_path, with_current_fd_table_mut, alloc_op, with_kernel,
  on_kernel, return, sys_close, sys_dup2, sys_pipe, lock_and_block_current, sys_read, sys_write,
}

-- a bit of the flags
abbrev pub flag : ℕ → ℕ → Bool
flag flags bit = not ((flags / bit) % 2 == 0)

abbrev pub mode_of : ℕ → FileMode
mode_of flags = record {
  read = flag flags 1;
  write = flag flags 2;
  create = flag flags 4;
  append = flag flags 8;
}

module _ {D : Type 0} (dev : BlockDevice D) where
  -- the path that two registers give
  abbrev pub with_path : TrapFrame → System D → (List ℕ → Outcome D ℕ) → Outcome D ℕ
  with_path f s go = elim (read_path s.memory f.a1 f.a2) [
    | err e ↦ return (err e) s
    | ok path ↦ go path
  ]

  unfoldable pub sys_open : TrapFrame → System D → Outcome D ℕ
  sys_open f s = with_path f s λ path.
      let (r, disk) = file_open dev s.disk path (mode_of f.a3) in
      let s1 : System D = record s { disk = disk } in
      elim r [
        | err e ↦ return (err (SysError.fd e)) s1
        | ok opened ↦ on_kernel s1 (with_current_fd_table_mut (alloc_op (file opened)) s1.kernel)
      ]

  unfoldable pub sys_file_write : TrapFrame → System D → Outcome D ℕ
  sys_file_write f s = with_path f s λ path.
      if ltb 0 f.a4 && f.a3 == 0
      then return (err fault) s
      else (let (r, disk) = write_file dev s.disk path (load_bytes s.memory f.a3 f.a4) in
          let s1 : System D = record s { disk = disk } in
          elim r [ err e ↦ return (err (SysError.fs e)) s1 | ok _ ↦ return (ok f.a4) s1 ])

  unfoldable pub sys_file_read : TrapFrame → System D → Outcome D ℕ
  sys_file_read f s = with_path f s λ path.
      if ltb 0 f.a4 && f.a3 == 0 then return (err fault) s else elim (read_file dev s.disk path) [
        | err e ↦ return (err (SysError.fs e)) s
        | ok contents ↦
            let to_copy = min (length contents) f.a4 in
            return (ok to_copy)
              (record s { memory = store_bytes s.memory f.a3 (take to_copy contents) })
      ]

  -- The calls that return 0 when the operation on the filesystem succeeded.
  unfoldable pub on_path :
      (TinyFs D → List ℕ → Result FsError (Unit {0}) × TinyFs D)
      → TrapFrame
      → System D
      → Outcome D ℕ
  on_path op f s = with_path f s λ path.
      let (r, disk) = with_fs s.disk (λ t. op t path) in
      let s1 : System D = record s { disk = disk } in
      elim r [ err e ↦ return (err (SysError.fs e)) s1 | ok _ ↦ return (ok 0) s1 ]

  unfoldable pub sys_file_create : TrapFrame → System D → Outcome D ℕ
  sys_file_create = on_path (create_file dev)

  unfoldable pub sys_file_delete : TrapFrame → System D → Outcome D ℕ
  sys_file_delete = on_path (remove_file dev)

  unfoldable pub sys_dir_create : TrapFrame → System D → Outcome D ℕ
  sys_dir_create = on_path (create_directory dev)

  unfoldable pub sys_dir_delete : TrapFrame → System D → Outcome D ℕ
  sys_dir_delete = on_path (remove_directory dev)

-- `ptr::write(status_ptr, exit_code)`, if there is a pointer
abbrev pub store_status : ℕ → ℕ → (ℕ → ℕ) → ℕ → ℕ
store_status ptr code m = if ptr == 0 then m else store_bytes m ptr (to_le_bytes 8 code)

module _ {D : Type 0} where
  -- The end of `sys_wait`, behind its tests, with the lock held.
  unfoldable pub reap : TrapFrame → Kernel → System D → Outcome D ℕ
  reap f k s =
      let (found, t) = wait k.table k.table.current_pid in
      elim found [
        | some gone ↦
            let reaped : Kernel = record k { table = t } in
            return (ok (gone.0))
              (record s { kernel = unlock reaped; memory = store_status f.a1 (gone.1) s.memory })
        | none ↦ elim (lock_and_block_current (unlock k)) [
          | none ↦ none
          | some k1 ↦ return (err (SysError.fd would_block)) (with_kernel s k1)
        ]
      ]

  unfoldable pub sys_wait : TrapFrame → System D → Outcome D ℕ
  sys_wait f s = elim (lock s.kernel) [
    | none ↦ none
    | some k ↦
        if k.table.current_pid == invalid_pid
        then return (err child) (with_kernel s (unlock k))
        else (if has_children k.table.processes k.table.current_pid
            then reap f k s
            else return (err child) (with_kernel s (unlock k)))
  ]

  -- `sys_exit`
  abbrev pub exit_call : TrapFrame → System D → Outcome D ℕ
  exit_call f s = elim (sys_exit f.a1 s.kernel) [
    | none ↦ none
    | some got ↦ return (ok (got.0)) (with_kernel s (got.1))
  ]

-- The handler of a call; a number without one gives ENOSYS.
unfoldable pub handler :
    {D : Type 0}
    → List (ℕ × (TrapFrame → System D → Outcome D ℕ))
    → ℕ
    → TrapFrame
    → System D
    → Outcome D ℕ
handler [] number f s = return (err no_sys) s
handler ((n, call) ∷ calls) number f s =
    let rest = handler calls number f s in if number == n then call f s else rest

module _ {D : Type 0} (dev : BlockDevice D) where
  -- The arms of the `match` of `dispatch`, with the numbers of the calls.
  abbrev pub handlers : List (ℕ × (TrapFrame → System D → Outcome D ℕ))
  handlers =
      (1, sys_write dev)
      ∷ (2, exit_call)
      ∷ (3, sys_file_write dev)
      ∷ (4, sys_file_read dev)
      ∷ (5, sys_file_create dev)
      ∷ (6, sys_file_delete dev)
      ∷ (7, sys_dir_create dev)
      ∷ (8, sys_dir_delete dev)
      ∷ (9, sys_open dev)
      ∷ (10, sys_close)
      ∷ (11, sys_read dev)
      ∷ (12, sys_dup2)
      ∷ (13, sys_pipe)
      ∷ (14, sys_spawn dev)
      ∷ (15, sys_wait)
      ∷ []

  -- `dispatch`: what goes back into `a0`.
  unfoldable pub dispatch : TrapFrame → System D → Option (ℕ × System D)
  dispatch f s = elim (handler handlers f.a0 f s) [
    | none ↦ none
    | some got ↦ some (return_code (got.0), got.1)
  ]

  -- The machine that `maybe_switch` finds: the window is a part of the memory.
  abbrev pub machine_of : (ℕ → ℕ) → ℕ → ℕ → Machine
  machine_of m sepc sscratch = record {
    window = snapshot_user_window m;
    sepc = sepc;
    sscratch = sscratch;
  }

  -- `Scheduler::maybe_switch`, which locks the table for its steps.
  abbrev pub switch_if_needed :
      TrapFrame → ℕ → ℕ → System D → Option (TrapFrame × Machine × System D)
  switch_if_needed f sepc sscratch s = elim (lock s.kernel) [
    | none ↦ none
    | some k ↦
        let (switched, t, m, f1) = maybe_switch k.table (machine_of s.memory sepc sscratch) f in
        some (
          f1,
          m,
          record s {
            kernel = unlock (record k { table = t });
            memory = restore_user_window s.memory m.window;
          },
        )
  ]

  -- `handle_ecall`, with the two registers that a switch changes: the program goes on behind the
  -- call, with the result in `a0`, or another one does.
  unfoldable pub handle_ecall :
      TrapFrame → ℕ → ℕ → System D → Option (TrapFrame × Machine × System D)
  handle_ecall f sepc sscratch s = elim (caller_pid s) [
    | none ↦ none
    | some pid ↦ elim (dispatch f s) [
      | none ↦ none
      | some got ↦ switch_if_needed (record f { a0 = got.0 }) ((sepc + 4) % 2 ^ 64) sscratch (got.1)
    ]
  ]
