-- ===== src/Syscall/Io/Blocking.antt =====
-- `sys_read` and `sys_write` when they would block, and when they wake somebody.
use crabv.Base.{
  ℕ, ◌≡◌, ◌≢◌, refl, ap, sym, ◌∙◌, true, false, ◌&&◌, Option, none, some, List, [], ◌∷◌, arith, ok,
  err, ◌==◌, ltb, subst,
}
use crabv.Machine.{load_bytes, store_bytes, TrapFrame}
use crabv.Fs.{BlockDevice}
use crabv.Fd.Error.{FdResult, would_block, bad_fd}
use crabv.Fd.PipeTable.{PipeTable, mark_reader}
use crabv.Fd.Table as Table
use crabv.Fd.Table.{FileDescriptor, put_fd}
use crabv.Fd.Io as Io
use crabv.Fd.Io.{Devices}
use crabv.Proc.{Process, invalid_pid, get, blocked, ProcessTable, get_mut}
use crabv.Sched.{block_current, with_state}
use crabv.Syscall.{Kernel, lock, unlock, unblock_all}
use crabv.Syscall.Errno.{SysError}
use crabv.Syscall.Io.{
  System, with_kernel, caller_pid, devices, pipe_of, settled, after_io, with_devices, attempt,
  lock_and_block_current, mark_if_pipe, finish_io, read_through, sys_read, with_buffer, finish_read,
}
use crabv.Syscall.Io.Wake.{unblock_all_locked}
use crabv.Proc.Inv.{get_mut-get}

-- The current process is blocked, and the mutex free.
abbrev pub blocked_kernel : Kernel → Kernel
blocked_kernel k = record k { table = block_current k.table; table_locked = false }

pub lock-free :
    (k : Kernel) → k.table_locked ≡ false → lock k ≡ some (record k { table_locked = true })
unfolding lock
lock-free k free = ground arith

module _ {D : Type 0} where
  abbrev pub locked : System D → Kernel
  locked s = record (s.kernel) { table_locked = true }

  attempt-go :
      {A : Type 0} (pid fd : ℕ) (failed : A)
      (go : FileDescriptor → Devices D → Option (A × FileDescriptor × Devices D × List ℕ))
      (s : System D) {p : Process} {entry entry' : FileDescriptor} {a : A} {d : Devices D}
      {woken : List ℕ}
      → s.kernel.table_locked ≡ false
      → get s.kernel.table pid ≡ some p
      → Table.get p.fd_table fd ≡ ok entry
      → go entry (devices s (locked s)) ≡ some (a, entry', d, woken)
      → attempt pid fd failed go s
        ≡ settled a
            (pipe_of entry)
            (with_devices s d)
            (unblock_all woken (after_io (locked s) pid fd entry' d.pipes))
  unfolding attempt
  attempt-go pid fd failed go s free there open_fd e =
      rw (attempt, lock-free s.kernel free, there, open_fd, e) refl

  caller_pid-free :
      (s : System D)
      → s.kernel.table_locked ≡ false
      → caller_pid s ≡ some (s.kernel.table.current_pid)
  unfolding caller_pid lock
  caller_pid-free s free = rw free refl

module _ {D : Type 0} (dev : BlockDevice D) where
  read_through-some :
      (buf : List ℕ) (entry : FileDescriptor) (d : Devices D) {r : FdResult ℕ} {buf' : List ℕ}
      {entry' : FileDescriptor} {d' : Devices D} {woken : List ℕ}
      → Io.read dev entry d buf ≡ some (r, buf', entry', d', woken)
      → read_through dev buf entry d ≡ some ((r, buf'), entry', d', woken)
  read_through-some buf entry d e = ap (with_buffer dev) e

  -- The system after the descriptor of the caller was read, with the lock released.
  abbrev pub system_read : TrapFrame → System D → FileDescriptor → Devices D → List ℕ → System D
  system_read f s entry d buf = record {
    kernel = unlock (after_io (locked s) s.kernel.table.current_pid f.a1 entry d.pipes);
    serial = d.serial;
    disk = d.disk;
    memory = store_bytes s.memory f.a2 buf;
  }

  pub sys_read-go :
      (f : TrapFrame) (s : System D) {p : Process} {entry entry' : FileDescriptor} {r : FdResult ℕ}
      {buf' : List ℕ} {d : Devices D} {woken : List ℕ}
      → s.kernel.table_locked ≡ false
      → get s.kernel.table s.kernel.table.current_pid ≡ some p
      → Table.get p.fd_table f.a1 ≡ ok entry
      → f.a2 ≢ 0
      → Io.read dev entry (devices s (locked s)) (load_bytes s.memory f.a2 f.a3)
        ≡ some (r, buf', entry', d, woken)
      → sys_read dev f s
        ≡ finish_read dev f.a2 s.kernel.table.current_pid (
            settled
              (r, buf')
              (pipe_of entry)
              (with_devices s d)
              (unblock_all woken
                (after_io (locked s) s.kernel.table.current_pid f.a1 entry' d.pipes)))
  unfolding sys_read
  sys_read-go f s free there open_fd ptr e =
      let buf = load_bytes s.memory f.a2 f.a3 in
      let pid = s.kernel.table.current_pid in
      let pass =
        attempt-go pid f.a1 (err bad_fd, buf) (read_through dev buf) s free there open_fd
          (read_through-some buf _ _ e) in
      let fine : (ltb 0 f.a3 && (f.a2 == 0)) ≡ false = ground arith in
      rw (fine, caller_pid-free s free) (ap (finish_read dev f.a2 pid) pass)

  -- A read of an open descriptor of the current process that wakes some process does not return:
  -- this happens when a pipe had a writer waiting, and bytes were taken from it. It is assumed that
  -- the mutex is free and that the buffer is not null.
  pub sys_read_deadlock :
      (f : TrapFrame) (s : System D) {p : Process} {entry entry' : FileDescriptor} {r : FdResult ℕ}
      {buf' : List ℕ} {d : Devices D} {w : ℕ} {ws : List ℕ}
      → s.kernel.table_locked ≡ false
      → get s.kernel.table s.kernel.table.current_pid ≡ some p
      → Table.get p.fd_table f.a1 ≡ ok entry
      → f.a2 ≢ 0
      → Io.read dev entry (devices s (locked s)) (load_bytes s.memory f.a2 f.a3)
        ≡ some (r, buf', entry', d, w ∷ ws)
      → sys_read dev f s ≡ none
  sys_read_deadlock f s {entry = entry} {entry' = entry'} {r = r} {buf' = buf'} {d = d} {w = w}
        {ws = ws} free there open_fd ptr e =
      let pid = s.kernel.table.current_pid in
      let k = after_io (locked s) pid f.a1 entry' d.pipes in
      sys_read-go f s free there open_fd ptr e
      ∙ ap (λ o. finish_read dev f.a2 pid (settled (r, buf') (pipe_of entry) (with_devices s d) o))
          (unblock_all_locked w ws k refl)

  finish_io-would_block :
      (pid : ℕ) (on_pipe : Option ℕ) (s : System D)
      → s.kernel.table_locked ≡ false
      → finish_io mark_reader pid (err would_block) on_pipe s
        ≡ some (
          err (SysError.fd would_block),
          with_kernel s (blocked_kernel (mark_if_pipe mark_reader on_pipe pid s.kernel)),
        )
  unfolding finish_io lock_and_block_current
  finish_io-would_block pid none s free =
      rw (finish_io, lock_and_block_current, lock-free s.kernel free) refl
  finish_io-would_block pid (some id) s free =
      rw
        (
          finish_io,
          lock_and_block_current,
          lock-free (mark_if_pipe mark_reader (some id) pid s.kernel) free,
        )
        refl

module _ (mark : PipeTable → ℕ → ℕ → FdResult (Unit {0}) × PipeTable) where
  table-mark_if_pipe :
      (o : Option ℕ) (pid : ℕ) (k : Kernel) → (mark_if_pipe mark o pid k).table ≡ k.table
  table-mark_if_pipe none pid k = refl
  table-mark_if_pipe (some id) pid k = refl

  pipes-mark_if_pipe :
      (o : Option ℕ) (id pid : ℕ) (k : Kernel)
      → o ≡ some id
      → (mark_if_pipe mark o pid k).pipes ≡ (mark k.pipes id pid).1
  pipes-mark_if_pipe none id pid k e = absurd (cc)
  pipes-mark_if_pipe (some j) id pid k e =
      let same : j ≡ id = cc in ap (λ i. (mark k.pipes i pid).1) same

pub get-get_mut_self :
    (t : ProcessTable) (pid : ℕ) (g : Process → Process) {p : Process}
    → ((q : Process) → (g q).pid ≡ q.pid)
    → get t pid ≡ some p
    → get (get_mut t pid g) pid ≡ some (g p)
get-get_mut_self t pid g keeps there = ground (arith, there, get_mut-get t pid pid g keeps)

get-block_current :
    (t : ProcessTable) {p : Process}
    → t.current_pid ≢ invalid_pid
    → get t t.current_pid ≡ some p
    → get (block_current t) t.current_pid ≡ some (with_state blocked p)
unfolding block_current
get-block_current t {p} here there =
    let valid : (t.current_pid == invalid_pid) ≡ false = ground arith in
    rw valid (get-get_mut_self t t.current_pid (with_state blocked) {p = p} (λ q. refl) there)

module _ {D : Type 0} (dev : BlockDevice D) where
  abbrev marked :
      TrapFrame → System D → FileDescriptor → FileDescriptor → Devices D → List ℕ → System D
  marked f s entry entry' d buf =
      let s1 = system_read dev f s entry' d buf in
      with_kernel s1 (
        blocked_kernel
          (mark_if_pipe mark_reader (pipe_of entry) s.kernel.table.current_pid s1.kernel))

  -- A read of an open descriptor of the current process that would block, and that wakes nobody,
  -- returns EAGAIN to the program with the process blocked, the mutex free, and, if the descriptor is
  -- the end of a pipe, with the process registered there as waiting. It is assumed that the mutex is
  -- free, that the buffer is not null and that there is a current process.
  pub sys_read_blocks :
      (f : TrapFrame) (s : System D) {p : Process} {entry entry' : FileDescriptor} {buf' : List ℕ}
      {d : Devices D}
      → s.kernel.table_locked ≡ false
      → s.kernel.table.current_pid ≢ invalid_pid
      → get s.kernel.table s.kernel.table.current_pid ≡ some p
      → Table.get p.fd_table f.a1 ≡ ok entry
      → f.a2 ≢ 0
      → Io.read dev entry (devices s (locked s)) (load_bytes s.memory f.a2 f.a3)
        ≡ some (err would_block, buf', entry', d, [])
      → (s' : System D) × (sys_read dev f s ≡ some (err (SysError.fd would_block), s'))
        × (s'.kernel.table_locked ≡ false)
        × ((q : Process) × (get s'.kernel.table s.kernel.table.current_pid ≡ some q)
            × (q.state ≡ blocked))
        × ((id : ℕ)
            → pipe_of entry ≡ some id
            → s'.kernel.pipes ≡ (mark_reader d.pipes id s.kernel.table.current_pid).1)
  unfolding unblock_all get_mut
  sys_read_blocks f s {p = p} {entry = entry} {entry' = entry'} {buf' = buf'} {d = d} free here
        there open_fd ptr e =
      let pid = s.kernel.table.current_pid in
      let run = sys_read-go dev f s free there open_fd ptr e in
      let s1 = system_read dev f s entry' d buf' in
      let put = λ (q : Process). record q { fd_table = put_fd f.a1 (some entry') q.fd_table } in
      let put_there = get-get_mut_self s.kernel.table pid put (λ q. refl) there in
      (
        marked f s entry entry' d buf',
        run ∙ finish_io-would_block dev pid (pipe_of entry) s1 refl,
        refl,
        (
          with_state blocked (put p),
          subst (λ t. get (block_current t) pid ≡ some (with_state blocked (put p)))
              (sym (table-mark_if_pipe mark_reader (pipe_of entry) pid s1.kernel))
              (get-block_current s1.kernel.table here put_there),
          refl,
        ),
        λ id e. pipes-mark_if_pipe mark_reader (pipe_of entry) id pid s1.kernel e,
      )
