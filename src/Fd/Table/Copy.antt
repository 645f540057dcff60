-- ===== src/Fd/Table/Copy.antt =====
-- The balance of references under `clone` and `dup2`, and what `alloc` and `dup2` do to the
-- numbers.
use crabv.Base.{
  ℕ, ◌+◌, ◌≤◌, ◌<◌, ◌≡◌, refl, ap, ap₂, ◌∙◌, inl, inr, Bool, Option, none, some, List, [], ◌∷◌,
  arith, ◌==◌, Option-cases, if◌then◌else◌, length, length-set, get_or, get_or-set, ok,
}
use crabv.Fd.PipeTable.{PipeTable, usize_max}
use crabv.Fd.PipeTable.Slots
use crabv.Fd.PipeTable.Refs.{refs}
use crabv.Fd.Table.{
  FileDescriptor, uart, file, pipe, FdTable, max_fds, put_fd, clone, clone_all, clone_table, vacate,
  dup2,
}
use crabv.Fd.Table.Count.{weight, count, count-set, clone-Copied}
use crabv.Fd.Table.Balance.{
  IsBalanced, held, index_of_open, release-IsBalanced, vacate-none, vacate-some,
}

-- The counts after a whole list of entries was copied.
record AllCopied (fds : List (Option FileDescriptor)) (pt pt' : PipeTable) : Type 0 where
  counts : (id : ℕ) (e : Bool) → refs pt' id e ≡ refs pt id e + count id e fds
  valid : Slots.IsValid pt'

pub weight-le-one : (id : ℕ) (e : Bool) (fd : FileDescriptor) → weight id e (some fd) ≤ 1
weight-le-one id e (uart u) = omega arith
weight-le-one id e (file f) = omega arith
weight-le-one id e (pipe p) = ground arith

clone_all-AllCopied :
    (fds : List (Option FileDescriptor)) (pt : PipeTable)
    → Slots.IsValid pt
    → ((id : ℕ) (e : Bool) → count id e fds ≤ refs pt id e)
    → ((id : ℕ) (e : Bool) → refs pt id e + length fds ≤ usize_max)
    → ((clone_all fds pt).0 ≡ fds) × AllCopied fds pt (clone_all fds pt).1
unfolding clone_all
clone_all-AllCopied [] pt v h b = (refl, record { counts = λ id e. omega arith; valid = v })
clone_all-AllCopied (none ∷ fds) pt v h b =
    let (same, c) =
      clone_all-AllCopied fds pt v (λ id e. omega (arith, h id e))
        (λ id e. omega (arith, b id e)) in
    (
      ap (λ l. none ∷ l) same,
      record { counts = λ id e. omega (arith, c.counts id e); valid = c.valid },
    )
clone_all-AllCopied (some fd ∷ fds) pt v h b =
    let copied =
      clone-Copied fd pt v (λ id e. omega (arith, h id e)) (λ id e. omega (arith, b id e)) in
    let one = copied.1 in
    let (same, c) =
      clone_all-AllCopied fds (clone fd pt).1 one.valid
        (λ id e. omega (arith, h id e, one.counts id e))
        (λ id e. omega (arith, b id e, one.counts id e, weight-le-one id e fd)) in
    (
      ap₂ (λ x l. some x ∷ l) copied.0 same,
      record { counts = λ id e. omega (arith, c.counts id e, one.counts id e); valid = c.valid },
    )

-- What `vacate` has done: the number is free, the others are as they were.
record Vacated (others : ℕ → Bool → ℕ) (t : FdTable) (n : ℕ) (t' : FdTable) (pt' : PipeTable)
    : Type 0 where
  balanced : IsBalanced others t' pt'
  entries : (j : ℕ) → get_or t'.fds j none ≡ (if n == j then none else get_or t.fds j none)

module _ {others : ℕ → Bool → ℕ} where
  -- Copying the table of a balanced system gives an equal table, with the references of both
  -- counted: the system stays balanced for the original beside the copy. No count may come near
  -- saturation.
  pub clone_table-IsBalanced :
      (t : FdTable) (pt : PipeTable)
      → IsBalanced others t pt
      → ((id : ℕ) (e : Bool) → refs pt id e + max_fds ≤ usize_max)
      → let (copy, pt') = clone_table t pt in
        (copy ≡ t) × IsBalanced (λ id e. count id e copy.fds + others id e) t pt'
  unfolding clone_table
  clone_table-IsBalanced t pt b room =
      let (same, c) =
        clone_all-AllCopied t.fds pt b.valid (λ id e. omega (arith, b.counts id e))
          (λ id e. omega (arith, room id e, b.sized)) in
      (
        ap (λ l. record { fds = l }) same,
        record {
          sized = b.sized;
          valid = c.valid;
          counts = λ id e. rw same (omega (arith, b.counts id e, c.counts id e));
        },
      )

  vacate-Vacated :
      (t : FdTable) (pt : PipeTable) (n : ℕ)
      → IsBalanced others t pt
      → ((vacate t pt n).0 ≡ ok tt) × Vacated others t n (vacate t pt n).1 (vacate t pt n).2
  vacate-Vacated t pt n b = elim (Option-cases (get_or t.fds n none)) [
    | inl free ↦
        rw (vacate-none t pt n free) (refl, record { balanced = b; entries = λ j. ground arith })
    | inr (fd, open_fd) ↦
        let h : n < max_fds = index_of_open t n b.sized open_fd in
        let rel = release-IsBalanced t pt n b h open_fd in
        rw (vacate-some t pt n open_fd) (
          rel.0,
          record {
            balanced = rel.1;
            entries = λ j. get_or-set t.fds n j none none (omega (arith, b.sized));
          },
        )
  ]

dup2-eq :
    (t : FdTable) (pt : PipeTable) (o n : ℕ) {fd : FileDescriptor}
    → o < max_fds
    → n < max_fds
    → get_or t.fds o none ≡ some fd
    → (clone fd pt).0 ≡ fd
    → (vacate t (clone fd pt).1 n).0 ≡ ok tt
    → let (_, t2, pt2, woken) = vacate t (clone fd pt).1 n in
      dup2 t pt o n ≡ (ok tt, put_fd n (some fd) t2, pt2, woken)
unfolding dup2
dup2-eq t pt o n ho hn s copy done = ground arith

-- Filling a number that is free with an entry whose references were counted beforehand.
fill-IsBalanced :
    (others : ℕ → Bool → ℕ) (t : FdTable) (pt : PipeTable) (n : ℕ) (fd : FileDescriptor)
    → IsBalanced (λ id e. weight id e (some fd) + others id e) t pt
    → n < max_fds
    → get_or t.fds n none ≡ none
    → IsBalanced others (put_fd n (some fd) t) pt
fill-IsBalanced others t pt n fd b h free = record {
  sized = length-set t.fds n (some fd) ∙ b.sized;
  valid = b.valid;
  counts = λ id e. omega (
    arith,
    b.counts id e,
    rw free at (count-set id e t.fds n (some fd) (omega (arith, b.sized))),
  );
}

module _ {others : ℕ → Bool → ℕ} where
  -- A `dup2` from an open number to one in range, in a balanced system with no count at saturation,
  -- succeeds: the system stays balanced, the target holds a copy of
  -- the source, and the other numbers are as they were.
  pub dup2-IsBalanced :
      (t : FdTable) (pt : PipeTable) (o n : ℕ) {fd : FileDescriptor}
      → IsBalanced others t pt
      → ((id : ℕ) (e : Bool) → refs pt id e < usize_max)
      → n < max_fds
      → get_or t.fds o none ≡ some fd
      → let (r, t', pt', woken) = dup2 t pt o n in
        (r ≡ ok tt)
        × IsBalanced others t' pt'
        × ((j : ℕ) → get_or t'.fds j none ≡ (if n == j then some fd else get_or t.fds j none))
  dup2-IsBalanced t pt o n {fd} b room hn s =
      let copied = clone-Copied fd pt b.valid (held o b s) room in
      let taken = λ (id : ℕ) (e : Bool). weight id e (some fd) + others id e in
      let b1 : IsBalanced taken t (clone fd pt).1 = record {
        sized = b.sized;
        valid = copied.1.valid;
        counts = λ id e. omega (arith, b.counts id e, copied.1.counts id e);
      } in
      let emptied = vacate-Vacated {others = taken} t (clone fd pt).1 n b1 in
      let v = vacate t (clone fd pt).1 n in
      let kept = emptied.1 in
      rw (dup2-eq t pt o n (index_of_open t o b.sized s) hn s copied.0 emptied.0) (
        refl,
        fill-IsBalanced others v.1 v.2 n fd kept.balanced hn (kept.entries n ∙ ground arith),
        λ j.
            get_or-set v.1.fds n j (some fd) none (omega (arith, kept.balanced.sized))
            ∙ ground (arith, kept.entries j),
      )
