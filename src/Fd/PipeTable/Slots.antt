-- ===== src/Fd/PipeTable/Slots.antt =====
-- The slots of the pipe table under an update, and the invariant of the table.
use crabv.Base.{
  ℕ, ◌+◌, ◌<◌, ◌≡◌, refl, sym, subst, get_or-set, true, false, Option, none, some, arith, ltb, ◌==◌,
  if◌then◌else◌, length, length-set, get_or-replicate,
}
use crabv.Fd.Pipe.{Pipe}
use crabv.Fd.Pipe.Ring
use crabv.Fd.PipeTable.{PipeTable, max_pipes, slot, put_slot, new}

-- An end is open exactly while it has references, and a pipe has a reference.
pub record EndsAgree (p : Pipe) : Type 0 where
  pub read_open : p.read_end_open ≡ ltb 0 p.read_refcount
  pub write_open : p.write_end_open ≡ ltb 0 p.write_refcount
  pub referred : 0 < p.read_refcount + p.write_refcount

abbrev pub SlotIsValid : Option Pipe → Type 0
SlotIsValid none = Unit
SlotIsValid (some p) = EndsAgree p × Ring.IsValid p

pub record IsValid (t : PipeTable) : Type 0 where
  pub sized : length t.pipes ≡ max_pipes
  pub slots : (id : ℕ) → SlotIsValid (slot t id)

pub slot-put_slot :
    (t : PipeTable) (id j : ℕ) (v : Option Pipe)
    → length t.pipes ≡ max_pipes
    → id < max_pipes
    → slot (put_slot id v t) j ≡ (if id == j then v else slot t j)
slot-put_slot t id j v s h = get_or-set t.pipes id j v none (omega arith)

pub put_slot-IsValid :
    (t : PipeTable) (id : ℕ) (v : Option Pipe)
    → IsValid t
    → id < max_pipes
    → SlotIsValid v
    → IsValid (put_slot id v t)
put_slot-IsValid t id v w h g = record {
  sized = ground (arith, length-set t.pipes id v, w.sized);
  slots = λ j.
      rw (slot-put_slot t id j v w.sized h)
        (elim (id == j) as (λ b. SlotIsValid (if b then v else slot t j)) [
          | true ↦ g
          | false ↦ w.slots j
        ]);
}

pub new-IsValid : IsValid new
unfolding new
new-IsValid = record {
  sized = refl;
  slots = λ id. subst SlotIsValid (sym (get_or-replicate max_pipes id none)) tt;
}
