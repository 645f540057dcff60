-- ===== src/Fd/Pipe/Refine.antt =====
-- A pipe behaves as the bounded queue of its contents.
use crabv.Base.{ℕ, ◌≤◌, min, ◌≡◌, sym, ◌∙◌, ap, ap₂, List, ◌++◌, arith, length, take, drop}
use crabv.Fd.Pipe.{Pipe, available, space_available, read, read_loop, write}
use crabv.Fd.Pipe.Ring.{
  IsValid, contents, segment, length-contents, take-segment, space_available-add-available,
}
use crabv.Fd.Pipe.Loops.{
  advance, read_loop_buf, read_loop_pipe, contents-advance, write_loop-Stored,
}
use crabv.Fd.Pipe.Channel.{Channel, recv, send}

abbrev pub view : Pipe → Channel
view p = record {
  queue = contents p;
  reader_open = p.read_end_open;
  writer_open = p.write_end_open;
}

take-contents :
    (n : ℕ) (p : Pipe) → n ≤ available p → take n (contents p) ≡ segment p.buffer n p.read_pos
unfolding contents
take-contents n p h = take-segment p.buffer n (available p) p.read_pos h

-- What the loop of a read leaves in the caller's buffer and in the pipe.
read_loop-contents :
    (n : ℕ) (buf : List ℕ) (p : Pipe)
    → IsValid p
    → n ≤ length buf
    → n ≤ available p
    → (read_loop n buf p ≡ (take n (contents p) ++ drop n buf, advance n p))
      × (contents (advance n p) ≡ drop n (contents p))
read_loop-contents n buf p v h k = (
  ap₂ (λ b q. (b, q))
      (read_loop_buf n buf p h ∙ ap (λ l. l ++ drop n buf) (sym (take-contents n p k)))
      (read_loop_pipe n buf p h v.read_in),
  contents-advance n p v k,
)

-- On a valid pipe, whatever is asked for, `read` returns and stores what the channel's `recv` does,
-- and leaves a valid pipe that holds what the channel then holds.
pub read_refines :
    (p : Pipe) (buf : List ℕ)
    → IsValid p
    → let (r, buf', q) = read p buf in ((r, buf', view q) ≡ recv (view p) buf) × IsValid q
unfolding read
read_refines p buf v = ground (
  arith,
  length-contents p,
  read_loop-contents (min (length buf) (available p)) buf p v (omega arith) (omega arith),
)

-- On a valid pipe, whatever is offered, `write` returns what the channel's `send` does, and leaves
-- a valid pipe that holds what the channel then holds.
pub write_refines :
    (p : Pipe) (buf : List ℕ)
    → IsValid p
    → let (r, q) = write p buf in ((r, view q) ≡ send (view p) buf) × IsValid q
unfolding write
write_refines p buf v = ground (
  arith,
  length-contents p,
  space_available-add-available p v,
  write_loop-Stored (min (length buf) (space_available p)) buf p v,
)
