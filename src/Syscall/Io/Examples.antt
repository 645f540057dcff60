-- ===== src/Syscall/Io/Examples.antt =====
-- Witnesses of the properties of the system calls on descriptors.
use crabv.Fd.Table.Count.{count}
use crabv.Base.{
  ◌==◌, ◌≤◌, subst, Bool-cases, inl, inr, ℕ, ◌≡◌, refl, true, false, Bool, none, some, List, [],
  ◌∷◌, arith, err, replicate, first_none, map_err, ◌↔◌,
}
use crabv.Machine.{load_bytes, TrapFrame}
use crabv.Fs.Examples.{Memory, memory}
use crabv.Fd.Error.{would_block, too_many_open}
use crabv.Fd.Pipe
use crabv.Fd.Pipe.{Pipe, mark_writer_waiting, wake_writers}
use crabv.Fd.PipeTable as PipeTable
use crabv.Fd.PipeTable.{PipeTable, create_pipe, mark_reader}
use crabv.Fd.PipeTable.Refs.{refs}
use crabv.Fd.PipeTable.Slots.{new-IsValid}
use crabv.Fd.Table as Table
use crabv.Fd.Table.{FdTable, UartFd, writing, uart, FileDescriptor}
use crabv.Fd.Io as Io
use crabv.Proc.{Image, Process, new_process, find, get, invalid_pid, blocked}
use crabv.Syscall.{Kernel}
use crabv.Syscall.Errno.{SysError, errno, is_errno, eagain, errno-eagain}
use crabv.Syscall.Io.{System, end_of, pipe_of, sys_read, sys_pipe, with_current_fd_table_mut}
use crabv.Syscall.Io.Wake.{Changed, with_current_fd_table_mut_returns}
use crabv.Syscall.Io.Blocking.{sys_read_deadlock, sys_read_blocks}
use crabv.Syscall.Io.Pipes.{sys_pipe_leaks}

abbrev image : FdTable → Image
image fds = record {
  entry = 4096;
  stack_top = 8192;
  path = 47 ∷ [];
  args = [];
  fd_table = fds;
  memory = [];
  argc = 0;
  argv_ptr = 8000;
}

-- The read end of pipe 0, and nothing else.
abbrev one_fd : FdTable
one_fd = record { fds = some (end_of 0 true) ∷ replicate 15 none }

-- A table without a free number.
abbrev no_room : FdTable
no_room = record { fds = replicate 16 (some (uart (record { mode = writing }))) }

abbrev system : FdTable → PipeTable → System Memory
system fds pipes = record {
  kernel = record {
    table = record {
      processes = some (new_process 1 invalid_pid (image fds)) ∷ replicate 7 none;
      current_pid = 1;
      next_pid = 2;
    };
    pipes = pipes;
    table_locked = false;
  };
  serial = record { rx_queue = []; received = []; sent = [] };
  disk = none;
  memory = λ a. 0;
}

-- `read(0, 1000, 2)`
abbrev frame : TrapFrame
frame = record {
  ra = 0;
  t0 = 0;
  t1 = 0;
  t2 = 0;
  t3 = 0;
  t4 = 0;
  t5 = 0;
  t6 = 0;
  a0 = 11;
  a1 = 0;
  a2 = 1000;
  a3 = 2;
  a4 = 0;
  a5 = 0;
  a6 = 0;
  a7 = 0;
}

abbrev pipe_frame : TrapFrame
pipe_frame = record frame { a0 = 13; a1 = 1000 }

-- Pipe 0 is new; or one byte is in it, and process 2 waits to write.
abbrev empty_pipe : PipeTable
empty_pipe = (create_pipe PipeTable.new).1

sys_read_blocks_example :
    (s' : System Memory) × (sys_read memory frame (system one_fd empty_pipe)
      ≡ some (err (SysError.fd would_block), s'))
    × (s'.kernel.table_locked ≡ false)
    × ((q : Process) × (get s'.kernel.table 1 ≡ some q) × (q.state ≡ blocked))
    × ((id : ℕ)
        → pipe_of (end_of 0 true) ≡ some id
        → s'.kernel.pipes ≡ (mark_reader empty_pipe id 1).1)
unfolding get find new_process Table.get Io.read Io.pipe_read PipeTable.read PipeTable.new
    create_pipe Pipe.read Pipe.available Pipe.new
sys_read_blocks_example =
    sys_read_blocks memory frame (system one_fd empty_pipe) refl (λ e. ground arith) refl refl
      (λ e. ground arith) refl

no_room-counts :
    (pid : ℕ) (q : Process) (e : Bool)
    → get (system no_room PipeTable.new).kernel.table pid ≡ some q
    → count 0 e q.fd_table.fds ≤ refs PipeTable.new 0 e
unfolding get find new_process
no_room-counts pid q e g = elim (Bool-cases (1 == pid)) [
  | inl here ↦
      let same : new_process 1 invalid_pid (image no_room) ≡ q = ground (arith, g) in
      subst (λ (r : Process). count 0 e r.fd_table.fds ≤ refs PipeTable.new 0 e) same (omega arith)
  | inr away ↦ absurd (ground (arith, g))
]

sys_pipe_leaks_example :
    (s' : System Memory) × (sys_pipe pipe_frame (system no_room PipeTable.new)
      ≡ some (err (SysError.fd too_many_open), s'))
    × (s'.memory ≡ λ a. 0)
    × ((pid : ℕ) → get s'.kernel.table pid ≡ get (system no_room PipeTable.new).kernel.table pid)
    × ((e : Bool) → refs PipeTable.new 0 e ≡ 0)
    × ((e : Bool) → refs s'.kernel.pipes 0 e ≡ 1)
    × ((pid : ℕ) (q : Process) (e : Bool)
        → get s'.kernel.table pid ≡ some q
        → count 0 e q.fd_table.fds ≡ 0)
unfolding get find new_process first_none create_pipe PipeTable.new
sys_pipe_leaks_example =
    sys_pipe_leaks pipe_frame (system no_room PipeTable.new) 0 refl (λ e. ground arith) refl
      (λ e. ground arith) new-IsValid refl refl no_room-counts

errno-eagain_example :
    (is_errno (errno (SysError.fd would_block)) ≡ true)
    × ((errno (SysError.fd would_block) ≡ eagain)
        ↔ (SysError.fd would_block ≡ SysError.fd would_block))
errno-eagain_example = errno-eagain (SysError.fd would_block)

abbrev awaited_pipe : PipeTable
awaited_pipe = (PipeTable.mark_writer (PipeTable.write empty_pipe 0 (65 ∷ [])).1 0 2).1

sys_read_deadlock_example : sys_read memory frame (system one_fd awaited_pipe) ≡ none
unfolding get find new_process Table.get Io.read Io.pipe_read PipeTable.read PipeTable.write
    PipeTable.mark_writer PipeTable.new create_pipe Pipe.read Pipe.available Pipe.new Pipe.write
    Pipe.space_available mark_writer_waiting Pipe.contains Pipe.wake_readers Pipe.write_loop
    Pipe.read_loop load_bytes wake_writers
sys_read_deadlock_example =
    sys_read_deadlock memory frame (system one_fd awaited_pipe) {w = 2} {ws = []} refl refl refl
      (λ e. ground arith) refl

-- Closing the read end of the pipe wakes the writer.
with_current_fd_table_mut_returns_example :
    let op = λ (t : FdTable) (pt : PipeTable). Table.close t pt 0 in
    let k = (system one_fd awaited_pipe).kernel in
    let p = new_process 1 invalid_pid (image one_fd) in
    ((op p.fd_table k.pipes).3 ≡ []
      → (k' : Kernel) × (with_current_fd_table_mut op k
          ≡ some (map_err SysError.fd ((op p.fd_table k.pipes).0), k'))
        × Changed op p k k')
    × ((w : ℕ) (ws : List ℕ)
        → (op p.fd_table k.pipes).3 ≡ w ∷ ws
        → with_current_fd_table_mut op k ≡ none)
unfolding get find new_process
with_current_fd_table_mut_returns_example =
    with_current_fd_table_mut_returns (λ t pt. Table.close t pt 0)
      ((system one_fd awaited_pipe).kernel) {p = new_process 1 invalid_pid (image one_fd)} refl
      (λ e. ground arith) refl
