-- ===== src/Fd/PipeTable/Wake.antt =====
-- No wake-up is lost: whoever registered at a pipe is handed to the scheduler by the first transfer
-- at the other end, and by the closing of that end.
use crabv.Base.{ℕ, ◌≤◌, ◌<◌, ◌≡◌, true, false, Option, some, List, [], ◌∷◌, ◌++◌, arith, ok, err}
use crabv.Fd.Error.{FdResult}
use crabv.Fd.Pipe.{
  Pipe, contains, mark_reader_waiting, mark_writer_waiting, wake_readers, wake_writers,
}
use crabv.Fd.Pipe
use crabv.Fd.Pipe.Ring
use crabv.Fd.Pipe.Ends.{read-Waiting, write-Waiting}
use crabv.Fd.PipeTable.{
  PipeTable, max_pipes, slot, put_slot, after_read, after_write, read, write, mark_reader,
  mark_writer, close_pipe_end, close_end,
}
use crabv.Fd.PipeTable.Slots.{IsValid, slot-put_slot}
use crabv.Fd.PipeTable.Refs.{refs, slot_at, close_pipe_end-some}

contains-append : (qs : List ℕ) (pid : ℕ) → contains (qs ++ (pid ∷ [])) pid ≡ true
unfolding contains
contains-append [] pid = ground arith
contains-append (q ∷ qs) pid = ground (arith, contains-append qs pid)

mark_reader_contains :
    (p : Pipe) (pid : ℕ) → contains (mark_reader_waiting p pid).waiting_readers pid ≡ true
unfolding mark_reader_waiting
mark_reader_contains p pid = ground (arith, contains-append p.waiting_readers pid)

mark_writer_contains :
    (p : Pipe) (pid : ℕ) → contains (mark_writer_waiting p pid).waiting_writers pid ≡ true
unfolding mark_writer_waiting
mark_writer_contains p pid = ground (arith, contains-append p.waiting_writers pid)

mark_reader-IsValid :
    (p : Pipe) (pid : ℕ) → Ring.IsValid p → Ring.IsValid (mark_reader_waiting p pid)
unfolding mark_reader_waiting
mark_reader-IsValid p pid v = ground arith

mark_writer-IsValid :
    (p : Pipe) (pid : ℕ) → Ring.IsValid p → Ring.IsValid (mark_writer_waiting p pid)
unfolding mark_writer_waiting
mark_writer-IsValid p pid v = ground arith

-- The table with one pipe replaced.
slot-put_slot_self :
    (t : PipeTable) (id : ℕ) (v : Option Pipe)
    → IsValid t
    → id < max_pipes
    → slot (put_slot id v t) id ≡ v
slot-put_slot_self t id v w h = rw (slot-put_slot t id id v w.sized h) (ground arith)

module _ (t : PipeTable) (id pid : ℕ) {p : Pipe} (v : IsValid t) (h : id < max_pipes)
    (s : slot t id ≡ some p) where
  mark_reader-some :
      mark_reader t id pid ≡ (ok tt, put_slot id (some (mark_reader_waiting p pid)) t)
  unfolding mark_reader
  mark_reader-some = ground arith

  mark_writer-some :
      mark_writer t id pid ≡ (ok tt, put_slot id (some (mark_writer_waiting p pid)) t)
  unfolding mark_writer
  mark_writer-some = ground arith

write-some :
    (t : PipeTable) (id : ℕ) (buf : List ℕ) {p : Pipe}
    → id < max_pipes
    → slot t id ≡ some p
    → write t id buf ≡ after_write t id (Pipe.write p buf)
unfolding write
write-some t id buf h s = ground arith

read-some :
    (t : PipeTable) (id : ℕ) (buf : List ℕ) {p : Pipe}
    → id < max_pipes
    → slot t id ≡ some p
    → read t id buf ≡ after_read t id (Pipe.read p buf)
unfolding read
read-some t id buf h s = ground arith

after_write_wakes :
    (t : PipeTable) (id pid n : ℕ) (r : FdResult ℕ) (q : Pipe)
    → contains q.waiting_readers pid ≡ true
    → 0 < n
    → (after_write t id (r, q)).0 ≡ ok n
    → contains (after_write t id (r, q)).2 pid ≡ true
unfolding after_write wake_readers
after_write_wakes t id pid n (err e) q w h o = cc
after_write_wakes t id pid n (ok m) q w h o = ground arith

after_read_wakes :
    (t : PipeTable) (id pid n : ℕ) (r : FdResult ℕ) (buf : List ℕ) (q : Pipe)
    → contains q.waiting_writers pid ≡ true
    → 0 < n
    → (after_read t id (r, buf, q)).0 ≡ ok n
    → contains (after_read t id (r, buf, q)).3 pid ≡ true
unfolding after_read wake_writers
after_read_wakes t id pid n (err e) buf q w h o = cc
after_read_wakes t id pid n (ok m) buf q w h o = ground arith

-- In a valid table, a process that registered as a waiting reader of an existing pipe is among
-- those woken by the next write to that pipe that puts a byte.
pub mark_reader-write_wakes :
    (t : PipeTable) (id pid n : ℕ) (buf : List ℕ) {p : Pipe}
    → IsValid t
    → id < max_pipes
    → slot t id ≡ some p
    → 0 < n
    → (write (mark_reader t id pid).1 id buf).0 ≡ ok n
    → contains (write (mark_reader t id pid).1 id buf).2 pid ≡ true
mark_reader-write_wakes t id pid n buf {p} v h s pos =
    let m = mark_reader_waiting p pid in
    let u = put_slot id (some m) t in
    rw
      (
        mark_reader-some t id pid v h s,
        write-some u id buf h (slot-put_slot_self t id (some m) v h),
      )
      (after_write_wakes u id pid n (Pipe.write m buf).0 (Pipe.write m buf).1
        (rw (write-Waiting m buf (mark_reader-IsValid p pid (slot_at t id v s).1)).0
          (mark_reader_contains p pid))
        pos)

-- In a valid table, a process that registered as a waiting writer of an existing pipe is among
-- those woken by the next read from that pipe that takes a byte.
pub mark_writer-read_wakes :
    (t : PipeTable) (id pid n : ℕ) (buf : List ℕ) {p : Pipe}
    → IsValid t
    → id < max_pipes
    → slot t id ≡ some p
    → 0 < n
    → (read (mark_writer t id pid).1 id buf).0 ≡ ok n
    → contains (read (mark_writer t id pid).1 id buf).3 pid ≡ true
mark_writer-read_wakes t id pid n buf {p} v h s pos =
    let m = mark_writer_waiting p pid in
    let u = put_slot id (some m) t in
    rw
      (mark_writer-some t id pid v h s, read-some u id buf h (slot-put_slot_self t id (some m) v h))
      (after_read_wakes u id pid n (Pipe.read m buf).0 (Pipe.read m buf).1 (Pipe.read m buf).2
        (rw (read-Waiting m buf (mark_writer-IsValid p pid (slot_at t id v s).1)).1
          (mark_writer_contains p pid))
        pos)

mark_reader_refcount :
    (p : Pipe) (pid : ℕ) → (mark_reader_waiting p pid).write_refcount ≡ p.write_refcount
unfolding mark_reader_waiting
mark_reader_refcount p pid = ground arith

close_end_wakes :
    (p : Pipe) (pid : ℕ)
    → contains p.waiting_readers pid ≡ true
    → p.write_refcount ≤ 1
    → contains (close_end false p).0 pid ≡ true
unfolding close_end wake_readers
close_end_wakes p pid w h = ground arith

-- In a valid table, a process that registered as a waiting reader of an existing pipe is among
-- those woken when the last reference to the write end is closed.
pub mark_reader-close_wakes :
    (t : PipeTable) (id pid : ℕ) {p : Pipe}
    → IsValid t
    → id < max_pipes
    → slot t id ≡ some p
    → refs t id false ≤ 1
    → contains (close_pipe_end (mark_reader t id pid).1 id false).2 pid ≡ true
mark_reader-close_wakes t id pid {p} v h s last =
    let m = mark_reader_waiting p pid in
    let u = put_slot id (some m) t in
    rw
      (
        mark_reader-some t id pid v h s,
        close_pipe_end-some u id false h (slot-put_slot_self t id (some m) v h),
      )
      (close_end_wakes m pid (mark_reader_contains p pid)
        (rw (mark_reader_refcount p pid) (rw s at last)))
