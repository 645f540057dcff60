-- ===== src/Syscall/Io.antt =====
-- The system calls of src/syscall.rs on descriptors, files and processes, with the memory of the
-- caller. A call that does not return is `none`: it waits for a mutex that its own code holds, or for
-- a byte on the serial line that does not come.
pub mod Blocking
pub mod Wake
pub mod Pipes
pub mod Files
mod Examples
use crabv.Base.{
  ℕ, zero, suc, ◌+◌, ◌-◌, min, Bool, true, false, ◌&&◌, ◌||◌, not, Option, none, some, List, [],
  ◌∷◌, ◌++◌, Result, ok, err, map_err, ltb, ◌==◌, if◌then◌else◌, length, take,
}
use crabv.Bytes.{to_le_bytes, is_utf8}
use crabv.Uart.{Uart}
use crabv.Machine.{TrapFrame, load_bytes, store_bytes}
use crabv.Fs.{BlockDevice, TinyFs}
use crabv.Fs.Error.{FsError}
use crabv.Fs.Ops.{with_fs, create_file, create_directory, remove_file, remove_directory}
use crabv.Fd.Error.{FdResult, FdError, bad_fd, would_block}
use crabv.Fd.PipeTable as PipeTable
use crabv.Fd.PipeTable.{PipeTable, create_pipe, mark_reader, mark_writer}
use crabv.Fd.Table as Table
use crabv.Fd.Table.{FileMode, FileFd, FileDescriptor, uart, file, pipe, FdTable, put_fd}
use crabv.Fd.Io as Io
use crabv.Fd.Io.{Devices, read_file, write_file, file_open}
use crabv.Proc.{Process, ProcessTable, invalid_pid, get, get_mut, has_children, wait}
use crabv.Sched.{block_current}
use crabv.Syscall.{Kernel, lock, unlock, unblock_all, sys_exit}
use crabv.Syscall.Errno.{SysError, SysResult, no_sys, invalid_utf8, fault, child, no_process}

-- The tables of the kernel, what the descriptors stand on, and the bytes at the addresses.
pub record System (D : Type 0) : Type 0 where
  pub kernel : Kernel
  pub serial : Uart
  pub disk : Option (TinyFs D)
  pub memory : ℕ → ℕ

-- A system call: `none` if it does not return.
abbrev pub Outcome : Type 0 → Type 0 → Type 0
Outcome D A = Option (SysResult A × System D)

unfoldable pub read_path : (ℕ → ℕ) → ℕ → ℕ → SysResult (List ℕ)
read_path m ptr len =
    let bytes = load_bytes m ptr len in
    if len == 0
    then ok []
    else (if ptr == 0 then err fault else (if is_utf8 bytes then ok bytes else err invalid_utf8))

-- An operation on the descriptors of a process: its result, the tables, and who was woken.
abbrev pub FdOp : Type 0 → Type 0
FdOp A = FdTable → PipeTable → FdResult A × FdTable × PipeTable × List ℕ

abbrev pub with_table : FdTable → Process → Process
with_table t p = record p { fd_table = t }

-- The guard is dropped, if the wake-ups before that return.
abbrev pub unlocked : {A : Type 0} → SysResult A → Option Kernel → Option (SysResult A × Kernel)
unlocked r none = none
unlocked r (some k) = some (r, unlock k)

-- The kernel after an operation on the descriptors of a process.
abbrev pub after_op : {A : Type 0} → FdOp A → Kernel → ℕ → Process → Kernel
after_op f k pid p =
    let (r, t, pt, woken) = f p.fd_table k.pipes in
    record k { table = get_mut k.table pid (with_table t); pipes = pt }

-- The operation on the descriptors of `pid`, with the lock held, and the unlocking.
unfoldable pub on_fds : {A : Type 0} → FdOp A → Kernel → ℕ → Process → Option (SysResult A × Kernel)
on_fds f k pid p =
    let (r, t, pt, woken) = f p.fd_table k.pipes in
    unlocked (map_err SysError.fd r) (unblock_all woken (after_op f k pid p))

unfoldable pub with_current_fd_table_mut :
    {A : Type 0} → FdOp A → Kernel → Option (SysResult A × Kernel)
with_current_fd_table_mut f k = elim (lock k) [
  | none ↦ none
  | some k1 ↦
      let pid = k1.table.current_pid in
      if pid == invalid_pid then some (err no_process, unlock k1) else elim (get k1.table pid) [
        | none ↦ some (err no_process, unlock k1)
        | some p ↦ on_fds f k1 pid p
      ]
]

unfoldable pub alloc_op : FileDescriptor → FdOp ℕ
alloc_op entry t pt = let (r, t1) = Table.alloc t entry in (r, t1, pt, [])

abbrev pub end_of : ℕ → Bool → FileDescriptor
end_of id is_read_end = pipe (record { pipe_id = id; is_read_end = is_read_end })

-- The closure of `sys_pipe`: both ends get a number, or neither.
unfoldable pub pipe_op : ℕ → FdOp (ℕ × ℕ)
pipe_op id t pt =
    let (r, t1) = Table.alloc t (end_of id true) in
    elim r [
      | err e ↦ (err e, t1, pt, [])
      | ok read_fd ↦
          let (r2, t2) = Table.alloc t1 (end_of id false) in
          elim r2 [
            | ok write_fd ↦ (ok (read_fd, write_fd), t2, pt, [])
            | err e ↦ let (_, t3, pt3, woken) = Table.close t2 pt read_fd in (err e, t3, pt3, woken)
          ]
    ]

-- The pipe that a descriptor is an end of.
abbrev pub pipe_of : FileDescriptor → Option ℕ
pipe_of (uart u) = none
pipe_of (file f) = none
pipe_of (pipe p) = some (p.pipe_id)

-- `Scheduler::block_current`, which locks the process table.
unfoldable pub lock_and_block_current : Kernel → Option Kernel
lock_and_block_current k = elim (lock k) [
  | none ↦ none
  | some k1 ↦ some (unlock (record k1 { table = block_current k1.table }))
]

abbrev pub mark_if_pipe :
    (PipeTable → ℕ → ℕ → FdResult (Unit {0}) × PipeTable) → Option ℕ → ℕ → Kernel → Kernel
mark_if_pipe mark none pid k = k
mark_if_pipe mark (some id) pid k = record k { pipes = (mark k.pipes id pid).1 }

-- The kernel after a descriptor of a process was read or written.
abbrev pub after_io : Kernel → ℕ → ℕ → FileDescriptor → PipeTable → Kernel
after_io k pid fd entry pt =
    let t = get_mut k.table pid (λ q. record q { fd_table = put_fd fd (some entry) q.fd_table }) in
    record k { table = t; pipes = pt }

module _ {D : Type 0} where
  abbrev pub with_kernel : System D → Kernel → System D
  with_kernel s k = record s { kernel = k }

  -- The result of an operation on the kernel's tables.
  abbrev pub on_kernel : {A : Type 0} → System D → Option (SysResult A × Kernel) → Outcome D A
  on_kernel s none = none
  on_kernel s (some (r, k)) = some (r, with_kernel s k)

  -- `?`, and what follows
  abbrev pub and_then : {A B : Type 0} → Outcome D A → (A → System D → Outcome D B) → Outcome D B
  and_then none f = none
  and_then (some (err e, s)) f = some (err e, s)
  and_then (some (ok a, s)) f = f a s

  abbrev pub return : {A : Type 0} → SysResult A → System D → Outcome D A
  return r s = some (r, s)

  unfoldable pub sys_close : TrapFrame → System D → Outcome D ℕ
  sys_close f s =
      and_then (on_kernel s (with_current_fd_table_mut (λ t pt. Table.close t pt f.a1) s.kernel))
        λ _ s1. return (ok 0) s1

  unfoldable pub sys_dup2 : TrapFrame → System D → Outcome D ℕ
  sys_dup2 f s =
      and_then
        (on_kernel s (with_current_fd_table_mut (λ t pt. Table.dup2 t pt f.a1 f.a2) s.kernel))
        λ _ s1. return (ok f.a2) s1

  -- `PipeTable::create_pipe`, on the global table
  unfoldable pub make_pipe : System D → Outcome D ℕ
  make_pipe s =
      let (r, pt) = create_pipe s.kernel.pipes in
      let k : Kernel = record (s.kernel) { pipes = pt } in
      return (map_err SysError.fd r) (with_kernel s k)

  unfoldable pub sys_pipe : TrapFrame → System D → Outcome D ℕ
  sys_pipe f s =
      if f.a1 == 0
      then return (err fault) s
      else (and_then (make_pipe s) λ id s1.
          and_then (on_kernel s1 (with_current_fd_table_mut (pipe_op id) s1.kernel)) λ fds s2.
            return (ok 0) (record s2 {
              memory =
                  store_bytes (store_bytes s2.memory f.a1 (to_le_bytes 8 (fds.0))) (f.a1 + 8)
                    (to_le_bytes 8 (fds.1));
            }))

  -- `PROCESS_TABLE.lock().get_current_pid()`
  unfoldable pub caller_pid : System D → Option ℕ
  caller_pid s = elim (lock s.kernel) [ none ↦ none | some k ↦ some (k.table.current_pid) ]

  abbrev pub devices : System D → Kernel → Devices D
  devices s k = record { serial = s.serial; disk = s.disk; pipes = k.pipes }

  abbrev pub with_devices : System D → Devices D → System D
  with_devices s d = record s { serial = d.serial; disk = d.disk }

  -- The lock is released, if the wake-ups before that return.
  abbrev pub settled :
      {A : Type 0} → A → Option ℕ → System D → Option Kernel → Option (A × Option ℕ × System D)
  settled a on_pipe s none = none
  settled a on_pipe s (some k) = some (a, on_pipe, with_kernel s (unlock k))

  -- One pass of the loop of `sys_read` or `sys_write` on a descriptor of a process, with the process
  -- table locked: `go` reads or writes, and gives a value, the descriptor, the devices and who was
  -- woken. The result is the value, the pipe and the system with the lock released.
  unfoldable pub attempt :
      {A : Type 0}
      → ℕ
      → ℕ
      → A
      → (FileDescriptor → Devices D → Option (A × FileDescriptor × Devices D × List ℕ))
      → System D
      → Option (A × Option ℕ × System D)
  attempt pid fd failed go s = elim (lock s.kernel) [
    | none ↦ none
    | some k ↦ elim (get k.table pid) [
      | none ↦ some (failed, none, with_kernel s (unlock k))
      | some p ↦ elim (Table.get p.fd_table fd) [
        | err e ↦ some (failed, none, with_kernel s (unlock k))
        | ok entry ↦ elim (go entry (devices s k)) [
          | none ↦ none
          | some got ↦
              let (a, entry', d, woken) = got in
              settled a (pipe_of entry) (with_devices s d)
                (unblock_all woken (after_io k pid fd entry' d.pipes))
        ]
      ]
    ]
  ]

  -- The `match` on the result: a call that would block registers with the pipe and blocks the
  -- caller, and the program tries again.
  unfoldable pub finish_io :
      (PipeTable → ℕ → ℕ → FdResult (Unit {0}) × PipeTable)
      → ℕ
      → FdResult ℕ
      → Option ℕ
      → System D
      → Outcome D ℕ
  finish_io mark pid (ok n) on_pipe s = return (ok n) s
  finish_io mark pid (err would_block) on_pipe s =
      elim (lock_and_block_current (mark_if_pipe mark on_pipe pid s.kernel)) [
        | none ↦ none
        | some k ↦ return (err (SysError.fd would_block)) (with_kernel s k)
      ]
  finish_io mark pid (err e) on_pipe s = return (err (SysError.fd e)) s

module _ {D : Type 0} (dev : BlockDevice D) where
  abbrev pub with_buffer :
      Option (FdResult ℕ × List ℕ × FileDescriptor × Devices D × List ℕ)
      → Option ((FdResult ℕ × List ℕ) × FileDescriptor × Devices D × List ℕ)
  with_buffer none = none
  with_buffer (some (r, buf, entry, d, woken)) = some ((r, buf), entry, d, woken)

  abbrev pub read_through :
      List ℕ
      → FileDescriptor
      → Devices D
      → Option ((FdResult ℕ × List ℕ) × FileDescriptor × Devices D × List ℕ)
  read_through buf entry d = with_buffer (Io.read dev entry d buf)

  -- The bytes that were read stand in the buffer, which is the caller's memory.
  abbrev pub finish_read :
      ℕ → ℕ → Option ((FdResult ℕ × List ℕ) × Option ℕ × System D) → Outcome D ℕ
  finish_read ptr pid none = none
  finish_read ptr pid (some ((r, buf), on_pipe, s)) =
      finish_io mark_reader pid r on_pipe (record s { memory = store_bytes s.memory ptr buf })

  unfoldable pub sys_read : TrapFrame → System D → Outcome D ℕ
  sys_read f s =
      let buf = load_bytes s.memory f.a2 f.a3 in
      if ltb 0 f.a3 && f.a2 == 0 then return (err fault) s else elim (caller_pid s) [
        | none ↦ none
        | some pid ↦ finish_read f.a2 pid (attempt pid f.a1 (err bad_fd, buf) (read_through buf) s)
      ]

  abbrev pub write_through :
      List ℕ
      → FileDescriptor
      → Devices D
      → Option (FdResult ℕ × FileDescriptor × Devices D × List ℕ)
  write_through buf entry d = some (Io.write dev entry d buf)

  unfoldable pub sys_write : TrapFrame → System D → Outcome D ℕ
  sys_write f s =
      let buf = load_bytes s.memory f.a2 f.a3 in
      if f.a3 == 0
      then return (ok 0) s
      else (if f.a2 == 0 then return (err fault) s else elim (caller_pid s) [
        | none ↦ none
        | some pid ↦ elim (attempt pid f.a1 (err bad_fd) (write_through buf) s) [
          | none ↦ none
          | some got ↦ let (r, on_pipe, s1) = got in finish_io mark_writer pid r on_pipe s1
        ]
      ])
