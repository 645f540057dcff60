-- ===== src/Fd/Pipe/Ends.antt =====
-- The ends of a pipe under reads and writes.
use crabv.Base.{ℕ, ◌≡◌, min, List, length, arith}
use crabv.Fd.Pipe.{Pipe, available, space_available, read, write}
use crabv.Fd.Pipe.Ring.{IsValid, space_available-add-available}
use crabv.Fd.Pipe.Loops.{read_loop_pipe, write_loop-Stored}

-- The two pipes have the same ends.
pub record SameEnds (p q : Pipe) : Type 0 where
  pub read_end_open : q.read_end_open ≡ p.read_end_open
  pub write_end_open : q.write_end_open ≡ p.write_end_open
  pub read_refcount : q.read_refcount ≡ p.read_refcount
  pub write_refcount : q.write_refcount ≡ p.write_refcount

pub read-SameEnds : (p : Pipe) (buf : List ℕ) → IsValid p → SameEnds p (read p buf).2
unfolding read
read-SameEnds p buf v =
    ground (arith, read_loop_pipe (min (length buf) (available p)) buf p (omega arith) v.read_in)

pub write-SameEnds : (p : Pipe) (buf : List ℕ) → IsValid p → SameEnds p (write p buf).1
unfolding write
write-SameEnds p buf v = ground (
  arith,
  space_available-add-available p v,
  write_loop-Stored (min (length buf) (space_available p)) buf p v,
)

-- Neither transfer forgets a waiting process.
pub read-Waiting :
    (p : Pipe) (buf : List ℕ)
    → IsValid p
    → let q = (read p buf).2 in
      (q.waiting_readers ≡ p.waiting_readers) × (q.waiting_writers ≡ p.waiting_writers)
unfolding read
read-Waiting p buf v =
    ground (arith, read_loop_pipe (min (length buf) (available p)) buf p (omega arith) v.read_in)

pub write-Waiting :
    (p : Pipe) (buf : List ℕ)
    → IsValid p
    → let q = (write p buf).1 in
      (q.waiting_readers ≡ p.waiting_readers) × (q.waiting_writers ≡ p.waiting_writers)
unfolding write
write-Waiting p buf v = ground (
  arith,
  space_available-add-available p v,
  write_loop-Stored (min (length buf) (space_available p)) buf p v,
)
