-- ===== src/Fd/PipeTable/Refs.antt =====
-- The references that the pipe table counts for each end of each pipe.
use crabv.Base.{
  ℕ, ◌+◌, ◌-◌, ◌≤◌, ◌<◌, ◌≡◌, refl, subst, inl, inr, Bool, true, false, not, ◌&&◌, Option, none,
  some, [], arith, dec_lt, ◌==◌, Option-cases, if◌then◌else◌, ok, first_none, first_none-some,
  first_none-none, length-replicate,
}
use crabv.Fd.Pipe.{Pipe, pipe_buf_size}
use crabv.Fd.Pipe
use crabv.Fd.PipeTable.{
  PipeTable, max_pipes, usize_max, slot, put_slot, create_pipe, incref, close_pipe_end, add_ref,
  close_end, keep_open,
}
use crabv.Fd.PipeTable.Slots.{EndsAgree, SlotIsValid, IsValid, slot-put_slot, put_slot-IsValid}

abbrev pub pipe_refs : Bool → Option Pipe → ℕ
pipe_refs e none = 0
pipe_refs true (some p) = p.read_refcount
pipe_refs false (some p) = p.write_refcount

-- The references to an end of a pipe. A pipe that does not exist has none.
abbrev pub refs : PipeTable → ℕ → Bool → ℕ
refs t id e = pipe_refs e (slot t id)

abbrev pub same_end : Bool → Bool → Bool
same_end true e = e
same_end false e = not e

close_end-refs :
    (e f : Bool) (p : Pipe)
    → EndsAgree p
    → pipe_refs f (keep_open (close_end e p).1)
      ≡ (if same_end e f then pipe_refs f (some p) - 1 else pipe_refs f (some p))
unfolding close_end keep_open Pipe.wake_readers Pipe.wake_writers
close_end-refs true true p v = ground arith
close_end-refs true false p v = ground arith
close_end-refs false true p v = ground arith
close_end-refs false false p v = ground arith

close_end-SlotIsValid :
    (e : Bool) (p : Pipe) → SlotIsValid (some p) → SlotIsValid (keep_open (close_end e p).1)
unfolding close_end keep_open Pipe.wake_readers Pipe.wake_writers
close_end-SlotIsValid true p v = ground arith
close_end-SlotIsValid false p v = ground arith

-- The invariant of the pipe in a slot.
pub slot_at :
    (t : PipeTable) (id : ℕ) {p : Pipe} → IsValid t → slot t id ≡ some p → SlotIsValid (some p)
slot_at t id v e = subst SlotIsValid e (v.slots id)

-- What `close_pipe_end` does where the pipe exists.
pub close_pipe_end-some :
    (t : PipeTable) (id : ℕ) (e : Bool) {p : Pipe}
    → id < max_pipes
    → slot t id ≡ some p
    → close_pipe_end t id e
      ≡ (ok tt, put_slot id (keep_open (close_end e p).1) t, (close_end e p).0)
unfolding close_pipe_end
close_pipe_end-some t id e h s = ground arith

close_pipe_end-none :
    (t : PipeTable) (id : ℕ) (e : Bool)
    → id < max_pipes
    → slot t id ≡ none
    → close_pipe_end t id e ≡ (ok tt, t, [])
unfolding close_pipe_end
close_pipe_end-none t id e h s = ground arith

pub close_pipe_end-IsValid :
    (t : PipeTable) (id : ℕ) (e : Bool) → IsValid t → IsValid (close_pipe_end t id e).1
unfolding close_pipe_end
close_pipe_end-IsValid t id e v = elim (dec_lt id max_pipes) [
  | no out ↦ ground arith
  | yes h ↦ elim (Option-cases (slot t id)) [
    | inl gone ↦ rw (close_pipe_end-none t id e h gone) v
    | inr (p, there) ↦
        rw (close_pipe_end-some t id e h there)
          (put_slot-IsValid t id _ v h (close_end-SlotIsValid e p (slot_at t id v there)))
  ]
]

pub close_pipe_end-ok :
    (t : PipeTable) (id : ℕ) (e : Bool) → id < max_pipes → (close_pipe_end t id e).0 ≡ ok tt
unfolding close_pipe_end
close_pipe_end-ok t id e h = ground arith

-- In a valid table, closing an end takes one reference from that end, unless it has none, and
-- changes no other count.
pub close_pipe_end-refs :
    (t : PipeTable) (id : ℕ) (e : Bool) (j : ℕ) (f : Bool)
    → IsValid t
    → id < max_pipes
    → refs (close_pipe_end t id e).1 j f
      ≡ (if (id == j) && same_end e f then refs t j f - 1 else refs t j f)
close_pipe_end-refs t id e j f v h = elim (Option-cases (slot t id)) [
  | inl gone ↦ rw (close_pipe_end-none t id e h gone) (ground arith)
  | inr (p, there) ↦ rw (close_pipe_end-some t id e h there) (
      rw (slot-put_slot t id j (keep_open (close_end e p).1) v.sized h)
        (ground (arith, close_end-refs e f p (slot_at t id v there).0)))
]

add_ref-refs :
    (e f : Bool) (p : Pipe)
    → pipe_refs e (some p) < usize_max
    → pipe_refs f (some (add_ref e p))
      ≡ (if same_end e f then pipe_refs f (some p) + 1 else pipe_refs f (some p))
unfolding add_ref
add_ref-refs true true p h = ground arith
add_ref-refs true false p h = ground arith
add_ref-refs false true p h = ground arith
add_ref-refs false false p h = ground arith

add_ref-SlotIsValid :
    (e : Bool) (p : Pipe) → SlotIsValid (some p) → SlotIsValid (some (add_ref e p))
unfolding add_ref
add_ref-SlotIsValid true p v = ground arith
add_ref-SlotIsValid false p v = ground arith

incref-some :
    (t : PipeTable) (id : ℕ) (e : Bool) {p : Pipe}
    → id < max_pipes
    → slot t id ≡ some p
    → incref t id e ≡ (ok tt, put_slot id (some (add_ref e p)) t)
unfolding incref
incref-some t id e h s = ground arith

-- In a valid table, duplicating an end of a pipe that exists adds one reference to that end, below
-- saturation, changes no other count, and keeps the table valid.
pub incref-refs :
    (t : PipeTable) (id : ℕ) (e : Bool) (j : ℕ) (f : Bool) {p : Pipe}
    → IsValid t
    → id < max_pipes
    → slot t id ≡ some p
    → refs t id e < usize_max
    → (refs (incref t id e).1 j f
        ≡ (if (id == j) && same_end e f then refs t j f + 1 else refs t j f))
      × IsValid (incref t id e).1
incref-refs t id e j f {p} v h s b = rw (incref-some t id e h s) (
  rw (slot-put_slot t id j (some (add_ref e p)) v.sized h)
      (ground (arith, add_ref-refs e f p (rw s at b))),
  put_slot-IsValid t id _ v h (add_ref-SlotIsValid e p (slot_at t id v s)),
)

new-refs : (f : Bool) → pipe_refs f (some Pipe.new) ≡ 1
unfolding Pipe.new
new-refs true = refl
new-refs false = refl

new-SlotIsValid : SlotIsValid (some Pipe.new)
unfolding Pipe.new
new-SlotIsValid = (
  record { read_open = refl; write_open = refl; referred = omega arith },
  record {
    sized = length-replicate {A = ℕ} pipe_buf_size 0;
    read_in = omega arith;
    write_in = omega arith;
  },
)

-- What a call of `create_pipe` that returned `id` has done to the table.
pub record Created (t : PipeTable) (id : ℕ) (u : PipeTable) : Type 0 where
  pub in_range : id < max_pipes
  pub was_empty : slot t id ≡ none
  pub counts : (j : ℕ) (f : Bool) → refs u j f ≡ (if id == j then 1 else refs t j f)
  pub valid : IsValid u

-- In a valid table, a pipe that `create_pipe` returns was free, and has one reference to each of
-- its ends. All other counts are as before, and the table stays valid.
pub create_pipe-Created :
    (t : PipeTable) (id : ℕ) {u : PipeTable}
    → IsValid t
    → create_pipe t ≡ (ok id, u)
    → Created t id u
unfolding create_pipe
create_pipe-Created t id {u} v e = elim (Option-cases (first_none t.pipes 0)) [
  | inl full ↦ absurd (ground arith)
  | inr (k, found) ↦
      let f = first_none-some t.pipes k found in
      let same : k ≡ id = ground arith in
      let h : id < max_pipes = omega (arith, f.inside, v.sized) in
      let new : u ≡ put_slot id (some Pipe.new) t = ground arith in
      record {
        in_range = h;
        was_empty = rw (← same) f.empty;
        counts = λ j b.
            rw (new, slot-put_slot t id j (some Pipe.new) v.sized h) (ground (arith, new-refs b));
        valid = rw new (put_slot-IsValid t id _ v h new-SlotIsValid);
      }
]

-- In a valid table with a free slot `create_pipe` succeeds, with an index no larger than that of
-- the slot.
pub create_pipe-ok :
    (t : PipeTable) (id : ℕ)
    → IsValid t
    → id < max_pipes
    → slot t id ≡ none
    → (k : ℕ) × (u : PipeTable) × (create_pipe t ≡ (ok k, u)) × (k ≤ id)
unfolding create_pipe
create_pipe-ok t id v h e = elim (Option-cases (first_none t.pipes 0)) [
  | inl full ↦ absurd (first_none-none t.pipes 0 id full (omega (arith, v.sized)) e)
  | inr (k, found) ↦
      let f = first_none-some t.pipes k found in
      (
        k,
        put_slot k (some Pipe.new) t,
        ground arith,
        elim (dec_lt id k) [ yes less ↦ absurd (f.occupied id less e) | no ge ↦ omega arith ],
      )
]
