-- ===== src/Fd/PipeTable/Transfer.antt =====
-- Reads and writes through the pipe table: they leave the references alone, and they wake whoever
-- waits at the other end.
use crabv.Base.{
  ℕ, zero, suc, ◌<◌, ◌≡◌, refl, subst, inl, inr, Bool, true, false, some, List, [], arith, ltb,
  Option-cases, ok, err, dec_lt,
}
use crabv.Fd.Error.{FdResult, FdError, bad_fd}
use crabv.Fd.Pipe.{
  Pipe, available, space_available, contains, mark_reader_waiting, wake_readers, wake_writers,
  write_loop, read_loop,
}
use crabv.Fd.Pipe
use crabv.Fd.Pipe.Ring
use crabv.Fd.Pipe.Ends.{SameEnds, read-SameEnds, write-SameEnds}
use crabv.Fd.Pipe.Refine.{read_refines, write_refines}
use crabv.Fd.PipeTable.{
  PipeTable, max_pipes, slot, put_slot, after_read, after_write, with_pipe, read, write,
}
use crabv.Fd.PipeTable.Slots.{EndsAgree, IsValid, slot-put_slot, put_slot-IsValid}
use crabv.Fd.PipeTable.Refs.{pipe_refs, refs, slot_at}

SameEnds-refs : (p q : Pipe) (f : Bool) → SameEnds p q → pipe_refs f (some q) ≡ pipe_refs f (some p)
SameEnds-refs p q true s = s.read_refcount
SameEnds-refs p q false s = s.write_refcount

SameEnds-EndsAgree : (p q : Pipe) → SameEnds p q → EndsAgree p → EndsAgree q
SameEnds-EndsAgree p q s e = ground arith

-- The pipe table after a pipe was replaced by one with the same ends.
pub record Kept (t u : PipeTable) : Type 0 where
  pub counts : (j : ℕ) (f : Bool) → refs u j f ≡ refs t j f
  pub valid : IsValid u

put_slot-Kept :
    (t : PipeTable) (id : ℕ) (p q : Pipe)
    → IsValid t
    → id < max_pipes
    → slot t id ≡ some p
    → SameEnds p q
    → Ring.IsValid q
    → Kept t (put_slot id (some q) t)
put_slot-Kept t id p q v h e s r = record {
  counts =
      λ j f. rw (slot-put_slot t id j (some q) v.sized h) (ground (arith, SameEnds-refs p q f s));
  valid = put_slot-IsValid t id (some q) v h (SameEnds-EndsAgree p q s (slot_at t id v e).0, r);
}

ltb-zero-suc : (n : ℕ) → ltb 0 (suc n) ≡ true
ltb-zero-suc n = ground arith

after_read-Kept :
    (t : PipeTable) (id : ℕ) (p : Pipe) (r : FdResult ℕ) (buf : List ℕ) (q : Pipe)
    → IsValid t
    → id < max_pipes
    → slot t id ≡ some p
    → SameEnds p q
    → Ring.IsValid q
    → Kept t (after_read t id (r, buf, q)).2
unfolding after_read wake_writers
after_read-Kept t id p (err e) buf q v h s same w = put_slot-Kept t id p q v h s same w
after_read-Kept t id p (ok zero) buf q v h s same w = put_slot-Kept t id p q v h s same w
after_read-Kept t id p (ok (suc n)) buf q v h s same w =
    rw (ltb-zero-suc n)
      (put_slot-Kept t id p (wake_writers q).1 v h s (ground (arith, same)) (ground (arith, w)))

after_write-Kept :
    (t : PipeTable) (id : ℕ) (p : Pipe) (r : FdResult ℕ) (q : Pipe)
    → IsValid t
    → id < max_pipes
    → slot t id ≡ some p
    → SameEnds p q
    → Ring.IsValid q
    → Kept t (after_write t id (r, q)).1
unfolding after_write wake_readers
after_write-Kept t id p (err e) q v h s same w = put_slot-Kept t id p q v h s same w
after_write-Kept t id p (ok zero) q v h s same w = put_slot-Kept t id p q v h s same w
after_write-Kept t id p (ok (suc n)) q v h s same w =
    rw (ltb-zero-suc n)
      (put_slot-Kept t id p (wake_readers q).1 v h s (ground (arith, same)) (ground (arith, w)))

Kept-refl : (t : PipeTable) → IsValid t → Kept t t
Kept-refl t v = record { counts = λ j f. refl; valid = v }

-- A lemma about the pipe in a slot serves for a call that goes through `with_pipe`.
with_pipe-ind :
    {A : Type 0} (P : A → Type 0) (t : PipeTable) (id : ℕ) (f : Pipe → A) (e : FdError → A)
    → P (e bad_fd)
    → ((p : Pipe) → id < max_pipes → slot t id ≡ some p → P (f p))
    → P (with_pipe t id f e)
unfolding with_pipe
with_pipe-ind P t id f e bad good = elim (dec_lt id max_pipes) [
  | yes h ↦ elim (Option-cases (slot t id)) [
    | inl gone ↦ subst P (ground arith) bad
    | inr (p, there) ↦ subst P (ground arith) (good p h there)
  ]
  | no out ↦ subst P (ground arith) bad
]

-- A read through a valid table changes no reference count of any pipe, and keeps the table valid,
-- whatever it returns.
pub read-Kept : (t : PipeTable) (id : ℕ) (buf : List ℕ) → IsValid t → Kept t (read t id buf).2
unfolding read
read-Kept t id buf v =
    with_pipe-ind (λ (r : FdResult ℕ × List ℕ × PipeTable × List ℕ). Kept t r.2) t id
      (λ p. after_read t id (Pipe.read p buf)) (λ e. (err e, buf, t, [])) (Kept-refl t v)
      λ p h s.
        after_read-Kept t id p (Pipe.read p buf).0 (Pipe.read p buf).1 (Pipe.read p buf).2 v h s
          (read-SameEnds p buf (slot_at t id v s).1) (read_refines p buf (slot_at t id v s).1).1

-- A write through a valid table changes no reference count of any pipe, and keeps the table valid,
-- whatever it returns.
pub write-Kept : (t : PipeTable) (id : ℕ) (buf : List ℕ) → IsValid t → Kept t (write t id buf).1
unfolding write
write-Kept t id buf v =
    with_pipe-ind (λ (r : FdResult ℕ × PipeTable × List ℕ). Kept t r.1) t id
      (λ p. after_write t id (Pipe.write p buf)) (λ e. (err e, t, [])) (Kept-refl t v)
      λ p h s.
        after_write-Kept t id p (Pipe.write p buf).0 (Pipe.write p buf).1 v h s
          (write-SameEnds p buf (slot_at t id v s).1) (write_refines p buf (slot_at t id v s).1).1
