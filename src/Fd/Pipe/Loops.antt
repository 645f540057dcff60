-- ===== src/Fd/Pipe/Loops.antt =====
-- What the copying loops of `Pipe::read` and `Pipe::write` do to the ring.
use crabv.Base.{
  ℕ, zero, suc, ◌+◌, ◌-◌, ◌%◌, ◌<◌, ◌≤◌, ◌≡◌, refl, sym, ◌∙◌, ap, List, [], ◌∷◌, ◌++◌, append_assoc,
  append-nil, arith, length, get_or, set, take, drop, length-set,
}
use crabv.Fd.Pipe.{Pipe, pipe_buf_size, available, read_loop, write_loop}
use crabv.Fd.Pipe.Ring.{
  IsValid, segment, contents, segment-set, drop-segment, write_pos_of_available, available-lt,
}

abbrev pub advance : ℕ → Pipe → Pipe
advance n p = record p { read_pos = (p.read_pos + n) % pipe_buf_size }

pub read_loop_buf :
    (n : ℕ) (buf : List ℕ) (p : Pipe)
    → n ≤ length buf
    → (read_loop n buf p).0 ≡ segment p.buffer n p.read_pos ++ drop n buf
unfolding read_loop
read_loop_buf zero buf p h = refl
read_loop_buf (suc n) [] p h = absurd (omega arith)
read_loop_buf (suc n) (b ∷ buf) p h =
    ap (λ l. get_or p.buffer p.read_pos 0 ∷ l) (read_loop_buf n buf (advance 1 p) (omega arith))

pub read_loop_pipe :
    (n : ℕ) (buf : List ℕ) (p : Pipe)
    → n ≤ length buf
    → p.read_pos < pipe_buf_size
    → (read_loop n buf p).1 ≡ advance n p
unfolding read_loop
read_loop_pipe zero buf p h v = ap (λ (k : ℕ). record p { read_pos = k }) (omega arith)
read_loop_pipe (suc n) [] p h v = absurd (omega arith)
read_loop_pipe (suc n) (b ∷ buf) p h v =
    read_loop_pipe n buf (advance 1 p) (omega arith) (omega arith)
    ∙ ap (λ (k : ℕ). record p { read_pos = k }) (omega arith)

pub available-advance :
    (n : ℕ) (p : Pipe) → IsValid p → n ≤ available p → available (advance n p) ≡ available p - n
unfolding available
available-advance n p v h = ground arith

pub contents-advance :
    (n : ℕ) (p : Pipe) → IsValid p → n ≤ available p → contents (advance n p) ≡ drop n (contents p)
unfolding contents
contents-advance n p v h =
    ap (λ k. segment p.buffer k ((p.read_pos + n) % pipe_buf_size)) (available-advance n p v h)
    ∙ sym (drop-segment p.buffer n (available p) p.read_pos h v.read_in)

-- One round of the loop of `Pipe::write`.
abbrev pub put : ℕ → Pipe → Pipe
put b p = record p {
  buffer = set p.buffer p.write_pos b;
  write_pos = (p.write_pos + 1) % pipe_buf_size;
}

pub put-IsValid : (b : ℕ) (p : Pipe) → IsValid p → IsValid (put b p)
put-IsValid b p v = record {
  sized = length-set p.buffer p.write_pos b ∙ v.sized;
  read_in = v.read_in;
  write_in = omega arith;
}

pub available-put :
    (b : ℕ) (p : Pipe)
    → IsValid p
    → available p + 1 < pipe_buf_size
    → available (put b p) ≡ suc (available p)
unfolding available
available-put b p v h = ground arith

pub contents-put :
    (b : ℕ) (p : Pipe)
    → IsValid p
    → available p + 1 < pipe_buf_size
    → contents (put b p) ≡ contents p ++ (b ∷ [])
unfolding contents
contents-put b p v h =
    ap (λ k. segment (set p.buffer p.write_pos b) k p.read_pos) (available-put b p v h)
    ∙ segment-set p.buffer b (available p) p.read_pos p.write_pos v.sized v.read_in
        (available-lt p v) (write_pos_of_available p v)

-- All that a write leaves alone.
pub record Kept (p q : Pipe) : Type 0 where
  pub read_pos : q.read_pos ≡ p.read_pos
  pub read_end_open : q.read_end_open ≡ p.read_end_open
  pub write_end_open : q.write_end_open ≡ p.write_end_open
  pub read_refcount : q.read_refcount ≡ p.read_refcount
  pub write_refcount : q.write_refcount ≡ p.write_refcount
  pub waiting_readers : q.waiting_readers ≡ p.waiting_readers
  pub waiting_writers : q.waiting_writers ≡ p.waiting_writers

-- What `n` rounds of the loop of `Pipe::write` have done.
pub record Stored (n : ℕ) (buf : List ℕ) (p q : Pipe) : Type 0 where
  pub valid : IsValid q
  pub bytes : contents q ≡ contents p ++ take n buf
  pub kept : Kept p q

pub write_loop-Stored :
    (n : ℕ) (buf : List ℕ) (p : Pipe)
    → IsValid p
    → n ≤ length buf
    → n + available p < pipe_buf_size
    → Stored n buf p (write_loop n buf p)
unfolding write_loop
write_loop-Stored zero buf p v h f = record {
  valid = v;
  bytes = sym (append-nil (contents p));
  kept = ground arith;
}
write_loop-Stored (suc n) [] p v h f = absurd (omega arith)
write_loop-Stored (suc n) (b ∷ buf) p v h f =
    let rest =
      write_loop-Stored n buf (put b p) (put-IsValid b p v) (omega arith)
        (omega (arith, available-put b p v (omega arith))) in
    record {
      valid = rest.valid;
      bytes =
          rest.bytes
          ∙ (ap (λ l. l ++ take n buf) (contents-put b p v (omega arith))
              ∙ append_assoc (contents p) (b ∷ []) (take n buf));
      kept = ground (arith, rest);
    }
