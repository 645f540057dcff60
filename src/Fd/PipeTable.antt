-- ===== src/Fd/PipeTable.antt =====
-- `struct PipeTable` of src/fd.rs: the eight pipes of the kernel. An operation returns its result,
-- the table afterwards and, where it wakes processes, those that it hands to `Scheduler::unblock`.
pub mod Slots
pub mod Refs
pub mod Transfer
pub mod Wake
use crabv.Base.{
  ℕ, zero, suc, ◌+◌, ◌-◌, ◌^◌, min, Bool, true, false, not, ◌&&◌, Option, none, some, List, [], ◌∷◌,
  Result, ok, err, first_none, ltb, leb, if◌then◌else◌, get_or, set, replicate,
}
use crabv.Fd.Error.{FdResult, FdError, bad_fd, too_many_open}
use crabv.Fd.Pipe
use crabv.Fd.Pipe.{Pipe, mark_reader_waiting, mark_writer_waiting, wake_readers, wake_writers}

abbrev pub max_pipes : ℕ
max_pipes = 8

abbrev pub usize_max : ℕ
usize_max = 2 ^ 64 - 1

abbrev pub saturating_add : ℕ → ℕ → ℕ
saturating_add a b = min (a + b) usize_max

pub record PipeTable : Type 0 where
  pub pipes : List (Option Pipe)

unfoldable pub new : PipeTable
new = record { pipes = replicate max_pipes none }

-- `self.pipes[id]`, read and written. The callers test `id` first.
abbrev pub slot : PipeTable → ℕ → Option Pipe
slot t id = get_or t.pipes id none

abbrev pub put_slot : ℕ → Option Pipe → PipeTable → PipeTable
put_slot id v t = record { pipes = set t.pipes id v }

unfoldable pub create_pipe : PipeTable → FdResult ℕ × PipeTable
unfolding first_none
create_pipe t = elim (first_none t.pipes 0) [
  | none ↦ (err too_many_open, t)
  | some id ↦ (ok id, put_slot id (some Pipe.new) t)
]

-- `self.pipes[pipe_id].as_mut().ok_or(BadFd)?`, behind the test of the index, then `f` on the pipe.
pub with_pipe : {A : Type 0} → PipeTable → ℕ → (Pipe → A) → (FdError → A) → A
with_pipe t id f e =
    if leb max_pipes id then e bad_fd else elim (slot t id) [ none ↦ e bad_fd | some p ↦ f p ]

-- The end of the pipe gains a reference.
pub add_ref : Bool → Pipe → Pipe
add_ref true p = record p { read_refcount = saturating_add p.read_refcount 1; read_end_open = true }
add_ref false p = record p {
  write_refcount = saturating_add p.write_refcount 1;
  write_end_open = true;
}

unfoldable pub incref : PipeTable → ℕ → Bool → FdResult (Unit {0}) × PipeTable
unfolding with_pipe
incref t id is_read_end =
    with_pipe t id (λ p. (ok tt, put_slot id (some (add_ref is_read_end p)) t)) (λ e. (err e, t))

-- `PipeTable::read`: the writers are woken if bytes were taken.
pub after_read :
    PipeTable → ℕ → FdResult ℕ × List ℕ × Pipe → FdResult ℕ × List ℕ × PipeTable × List ℕ
after_read t id (err e, buf, p) = (err e, buf, put_slot id (some p) t, [])
after_read t id (ok n, buf, p) =
    if ltb 0 n
    then (let (woken, q) = wake_writers p in (ok n, buf, put_slot id (some q) t, woken))
    else (ok n, buf, put_slot id (some p) t, [])

unfoldable pub read : PipeTable → ℕ → List ℕ → FdResult ℕ × List ℕ × PipeTable × List ℕ
unfolding with_pipe after_read
read t id buf = with_pipe t id (λ p. after_read t id (Pipe.read p buf)) (λ e. (err e, buf, t, []))

-- `PipeTable::write`: the readers are woken if bytes were put.
pub after_write : PipeTable → ℕ → FdResult ℕ × Pipe → FdResult ℕ × PipeTable × List ℕ
after_write t id (err e, p) = (err e, put_slot id (some p) t, [])
after_write t id (ok n, p) =
    if ltb 0 n
    then (let (woken, q) = wake_readers p in (ok n, put_slot id (some q) t, woken))
    else (ok n, put_slot id (some p) t, [])

unfoldable pub write : PipeTable → ℕ → List ℕ → FdResult ℕ × PipeTable × List ℕ
unfolding with_pipe after_write
write t id buf = with_pipe t id (λ p. after_write t id (Pipe.write p buf)) (λ e. (err e, t, []))

-- `PipeTable::mark_reader_waiting` and `mark_writer_waiting`
unfoldable pub mark_reader : PipeTable → ℕ → ℕ → FdResult (Unit {0}) × PipeTable
unfolding with_pipe
mark_reader t id pid =
    with_pipe t id (λ p. (ok tt, put_slot id (some (mark_reader_waiting p pid)) t))
      (λ e. (err e, t))

unfoldable pub mark_writer : PipeTable → ℕ → ℕ → FdResult (Unit {0}) × PipeTable
unfolding with_pipe
mark_writer t id pid =
    with_pipe t id (λ p. (ok tt, put_slot id (some (mark_writer_waiting p pid)) t))
      (λ e. (err e, t))

abbrev drop_ref : ℕ → ℕ
drop_ref n = if ltb 0 n then n - 1 else n

-- One reference to an end is given up. The last one wakes whoever waits at the other end.
pub close_end : Bool → Pipe → List ℕ × Pipe
close_end true p =
    let n = drop_ref p.read_refcount in
    let q = record p { read_refcount = n; read_end_open = ltb 0 n } in
    if q.read_end_open then ([], q) else wake_writers q
close_end false p =
    let n = drop_ref p.write_refcount in
    let q = record p { write_refcount = n; write_end_open = ltb 0 n } in
    if q.write_end_open then ([], q) else wake_readers q

-- The pipe, or nothing once both of its ends are closed.
pub keep_open : Pipe → Option Pipe
keep_open p = if not p.read_end_open && not p.write_end_open then none else some p

unfoldable pub close_pipe_end : PipeTable → ℕ → Bool → FdResult (Unit {0}) × PipeTable × List ℕ
unfolding close_end keep_open
close_pipe_end t id is_read_end =
    if leb max_pipes id then (err bad_fd, t, []) else elim (slot t id) [
      | none ↦ (ok tt, t, [])
      | some p ↦
          let (woken, q) = close_end is_read_end p in (ok tt, put_slot id (keep_open q) t, woken)
    ]
