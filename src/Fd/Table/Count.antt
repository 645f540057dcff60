-- ===== src/Fd/Table/Count.antt =====
-- The pipe ends that a descriptor table holds, and what releasing or copying one does to the counts
-- of the pipe table.
use crabv.Base.{
  ℕ, zero, suc, ◌+◌, ◌≤◌, ◌<◌, ◌≡◌, refl, inl, inr, Bool, true, ◌&&◌, Option, none, some, List, [],
  ◌∷◌, arith, ◌==◌, Bool-cases, Option-cases, if◌then◌else◌, length, get_or, get_or_le, set, ok,
  dec_lt,
}
use crabv.Fd.Pipe.{Pipe}
use crabv.Fd.PipeTable.{PipeTable, max_pipes, usize_max, slot}
use crabv.Fd.PipeTable.Slots
use crabv.Fd.PipeTable.Refs.{
  refs, same_end, close_pipe_end-refs, close_pipe_end-IsValid, close_pipe_end-ok, incref-refs,
}
use crabv.Fd.Table.{FileDescriptor, uart, file, pipe, PipeFd, release, clone}

-- Whether the entry is end `e` of pipe `id`, as a number.
abbrev pub weight : ℕ → Bool → Option FileDescriptor → ℕ
weight id e none = 0
weight id e (some (uart u)) = 0
weight id e (some (file f)) = 0
weight id e (some (pipe p)) = if (p.pipe_id == id) && same_end p.is_read_end e then 1 else 0

-- How many entries are end `e` of pipe `id`.
abbrev pub count : ℕ → Bool → List (Option FileDescriptor) → ℕ
count id e [] = 0
count id e (x ∷ xs) = weight id e x + count id e xs

pub count-set :
    (id : ℕ) (e : Bool) (xs : List (Option FileDescriptor)) (i : ℕ) (v : Option FileDescriptor)
    → i < length xs
    → count id e (set xs i v) + weight id e (get_or xs i none) ≡ count id e xs + weight id e v
count-set id e [] i v h = absurd (omega arith)
count-set id e (x ∷ xs) zero v h = omega arith
count-set id e (x ∷ xs) (suc i) v h = omega (arith, count-set id e xs i v (omega arith))

pub weight-le-count :
    (id : ℕ) (e : Bool) (xs : List (Option FileDescriptor)) (i : ℕ)
    → weight id e (get_or xs i none) ≤ count id e xs
weight-le-count id e [] i = omega arith
weight-le-count id e (x ∷ xs) zero = omega arith
weight-le-count id e (x ∷ xs) (suc i) = omega (arith, weight-le-count id e xs i)

-- Only a pipe that exists has references.
pub exists_of_refs :
    (pt : PipeTable) (id : ℕ) (e : Bool)
    → Slots.IsValid pt
    → 1 ≤ refs pt id e
    → (id < max_pipes) × ((p : Pipe) × (slot pt id ≡ some p))
exists_of_refs pt id e v h = elim (Option-cases (slot pt id)) [
  | inl gone ↦ absurd (ground arith)
  | inr (p, there) ↦ elim (dec_lt id max_pipes) [
    | yes inside ↦ (inside, (p, there))
    | no out ↦ absurd (ground (arith, get_or_le pt.pipes id none (omega (arith, v.sized))))
  ]
]

weight_self : (p : PipeFd) → weight p.pipe_id p.is_read_end (some (pipe p)) ≡ 1
weight_self p = elim (Bool-cases p.is_read_end) [ inl e ↦ ground arith | inr e ↦ ground arith ]

-- The pipe table after the entry `fd` was released.
pub record Released (fd : FileDescriptor) (pt pt' : PipeTable) : Type 0 where
  pub counts : (id : ℕ) (e : Bool) → refs pt' id e + weight id e (some fd) ≡ refs pt id e
  pub valid : Slots.IsValid pt'

pub release-Released :
    (fd : FileDescriptor) (pt : PipeTable)
    → Slots.IsValid pt
    → ((id : ℕ) (e : Bool) → weight id e (some fd) ≤ refs pt id e)
    → ((release fd pt).0 ≡ ok tt) × Released fd pt (release fd pt).1
unfolding release
release-Released (uart u) pt v h = (refl, record { counts = λ id e. omega arith; valid = v })
release-Released (file f) pt v h = (refl, record { counts = λ id e. omega arith; valid = v })
release-Released (pipe p) pt v h =
    let held = h p.pipe_id p.is_read_end in
    let (inside, there) =
      exists_of_refs pt p.pipe_id p.is_read_end v (omega (arith, weight_self p, held)) in
    (
      close_pipe_end-ok pt p.pipe_id p.is_read_end inside,
      record {
        counts = λ id e.
            ground (arith, close_pipe_end-refs pt p.pipe_id p.is_read_end id e v inside, h id e);
        valid = close_pipe_end-IsValid pt p.pipe_id p.is_read_end v;
      },
    )

-- The pipe table after the entry `fd` was copied.
pub record Copied (fd : FileDescriptor) (pt pt' : PipeTable) : Type 0 where
  pub counts : (id : ℕ) (e : Bool) → refs pt' id e ≡ refs pt id e + weight id e (some fd)
  pub valid : Slots.IsValid pt'

pub clone-Copied :
    (fd : FileDescriptor) (pt : PipeTable)
    → Slots.IsValid pt
    → ((id : ℕ) (e : Bool) → weight id e (some fd) ≤ refs pt id e)
    → ((id : ℕ) (e : Bool) → refs pt id e < usize_max)
    → ((clone fd pt).0 ≡ fd) × Copied fd pt (clone fd pt).1
unfolding clone
clone-Copied (uart u) pt v h b = (refl, record { counts = λ id e. omega arith; valid = v })
clone-Copied (file f) pt v h b = (refl, record { counts = λ id e. omega arith; valid = v })
clone-Copied (pipe p) pt v h b =
    let held = h p.pipe_id p.is_read_end in
    let (inside, (q, there)) =
      exists_of_refs pt p.pipe_id p.is_read_end v (omega (arith, weight_self p, held)) in
    let room = b p.pipe_id p.is_read_end in
    let after =
      λ (id : ℕ) (e : Bool). incref-refs pt p.pipe_id p.is_read_end id e v inside there room in
    (refl, record { counts = λ id e. ground (arith, (after id e).0); valid = (after 0 true).1 })
