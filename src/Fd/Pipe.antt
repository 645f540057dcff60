-- ===== src/Fd/Pipe.antt =====
-- `struct Pipe` of src/fd.rs: one pipe, a ring buffer of bytes with two reference-counted ends and
-- the processes that wait at each.
pub mod Ring
pub mod Loops
pub mod Channel
pub mod Refine
pub mod Stream
pub mod Ends
use crabv.Base.{
  ℕ, zero, suc, ◌+◌, ◌-◌, ◌%◌, min, Bool, true, false, List, [], ◌∷◌, ◌++◌, ok, err, leb, ◌==◌,
  if◌then◌else◌, length, get_or, set, replicate,
}
use crabv.Fd.Error.{FdResult, would_block, broken_pipe}

abbrev pub pipe_buf_size : ℕ
pipe_buf_size = 4096

pub record Pipe : Type 0 where
  pub buffer : List ℕ
  pub read_pos : ℕ
  pub write_pos : ℕ
  pub read_end_open : Bool
  pub write_end_open : Bool
  pub read_refcount : ℕ
  pub write_refcount : ℕ
  pub waiting_readers : List ℕ
  pub waiting_writers : List ℕ

unfoldable pub new : Pipe
new = record {
  buffer = replicate pipe_buf_size 0;
  read_pos = 0;
  write_pos = 0;
  read_end_open = true;
  write_end_open = true;
  read_refcount = 1;
  write_refcount = 1;
  waiting_readers = [];
  waiting_writers = [];
}

-- The bytes available to read.
unfoldable pub available : Pipe → ℕ
available p =
    if leb p.read_pos p.write_pos
    then p.write_pos - p.read_pos
    else pipe_buf_size - p.read_pos + p.write_pos

-- The bytes available to write. One cell stays empty.
unfoldable pub space_available : Pipe → ℕ
space_available p = pipe_buf_size - available p - 1

-- The loop of `Pipe::read`: `n` rounds, from the current place in `buf`.
unfoldable pub read_loop : ℕ → List ℕ → Pipe → List ℕ × Pipe
read_loop zero buf p = (buf, p)
read_loop (suc n) [] p = ([], p)
read_loop (suc n) (b ∷ buf) p =
    let byte = get_or p.buffer p.read_pos 0 in
    let (rest, p') = read_loop n buf (record p { read_pos = (p.read_pos + 1) % pipe_buf_size }) in
    (byte ∷ rest, p')

-- `Pipe::read`: the result, the caller's buffer, and the pipe afterwards.
unfoldable pub read : Pipe → List ℕ → FdResult ℕ × List ℕ × Pipe
read p buf =
    if available p == 0
    then (if p.write_end_open then (err would_block, buf, p) else (ok 0, buf, p))
    else (let to_read = min (length buf) (available p) in
        let (buf', p') = read_loop to_read buf p in (ok to_read, buf', p'))

-- The loop of `Pipe::write`: `n` rounds, from the current place in `buf`.
unfoldable pub write_loop : ℕ → List ℕ → Pipe → Pipe
write_loop zero buf p = p
write_loop (suc n) [] p = p
write_loop (suc n) (b ∷ buf) p = write_loop n buf (record p {
  buffer = set p.buffer p.write_pos b;
  write_pos = (p.write_pos + 1) % pipe_buf_size;
})

-- `Pipe::write`
unfoldable pub write : Pipe → List ℕ → FdResult ℕ × Pipe
write p buf =
    if p.read_end_open
    then (if space_available p == 0
        then (err would_block, p)
        else (let to_write = min (length buf) (space_available p) in
            (ok to_write, write_loop to_write buf p)))
    else (err broken_pipe, p)

-- `Vec::contains`
unfoldable pub contains : List ℕ → ℕ → Bool
contains [] pid = false
contains (q ∷ qs) pid = let rest = contains qs pid in if q == pid then true else rest

unfoldable pub mark_reader_waiting : Pipe → ℕ → Pipe
mark_reader_waiting p pid =
    if contains p.waiting_readers pid
    then p
    else record p { waiting_readers = p.waiting_readers ++ (pid ∷ []) }

unfoldable pub mark_writer_waiting : Pipe → ℕ → Pipe
mark_writer_waiting p pid =
    if contains p.waiting_writers pid
    then p
    else record p { waiting_writers = p.waiting_writers ++ (pid ∷ []) }

-- `wake_readers` and `wake_writers` return the processes that they hand to `Scheduler::unblock`, in
-- the order of the calls.
unfoldable pub wake_readers : Pipe → List ℕ × Pipe
wake_readers p = (p.waiting_readers, record p { waiting_readers = [] })

unfoldable pub wake_writers : Pipe → List ℕ × Pipe
wake_writers p = (p.waiting_writers, record p { waiting_writers = [] })
