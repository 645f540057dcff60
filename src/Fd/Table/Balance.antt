-- ===== src/Fd/Table/Balance.antt =====
-- The references that the pipe table counts are those that descriptor tables hold: the balance that
-- `close`, `dup2`, `clone` and `close_all` keep. The other tables of the system stand as a count.
use crabv.Base.{
  ℕ, zero, suc, ◌+◌, ◌≤◌, ◌<◌, ◌≡◌, refl, ◌∙◌, subst, inl, inr, Bool, Option, none, some, List, [],
  ◌∷◌, arith, Option-cases, length, length-set, get_or, get_or_le, get_or-set, get_or-set_self,
  ℕ_discrete, ok, err, dec_lt,
}
use crabv.Fd.Error.{FdResult, bad_fd}
use crabv.Fd.PipeTable.{PipeTable}
use crabv.Fd.PipeTable.Slots
use crabv.Fd.PipeTable.Refs.{refs}
use crabv.Fd.Table.{
  FileDescriptor, FdTable, max_fds, put_fd, release, close, vacate, close_from, close_all,
}
use crabv.Fd.Table.Count.{weight, count, count-set, weight-le-count, release-Released}

-- `others id e` references to end `e` of pipe `id` are held elsewhere.
pub record IsBalanced (others : ℕ → Bool → ℕ) (t : FdTable) (pt : PipeTable) : Type 0 where
  pub sized : length t.fds ≡ max_fds
  pub valid : Slots.IsValid pt
  pub counts : (id : ℕ) (e : Bool) → count id e t.fds + others id e ≡ refs pt id e

-- What `close` returns for an entry.
abbrev pub closed : Option FileDescriptor → FdResult (Unit {0})
closed none = err bad_fd
closed (some fd) = ok tt

pub close-none :
    (t : FdTable) (pt : PipeTable) (i : ℕ)
    → get_or t.fds i none ≡ none
    → close t pt i ≡ (err bad_fd, t, pt, [])
unfolding close
close-none t pt i s = ground arith

pub close-some :
    (t : FdTable) (pt : PipeTable) (i : ℕ) {fd : FileDescriptor}
    → i < max_fds
    → get_or t.fds i none ≡ some fd
    → close t pt i ≡ ((release fd pt).0, put_fd i none t, (release fd pt).1, (release fd pt).2)
unfolding close
close-some t pt i h s = ground arith

pub vacate-none :
    (t : FdTable) (pt : PipeTable) (i : ℕ)
    → get_or t.fds i none ≡ none
    → vacate t pt i ≡ (ok tt, t, pt, [])
unfolding vacate
vacate-none t pt i s = ground arith

pub vacate-some :
    (t : FdTable) (pt : PipeTable) (i : ℕ) {fd : FileDescriptor}
    → get_or t.fds i none ≡ some fd
    → vacate t pt i ≡ ((release fd pt).0, put_fd i none t, (release fd pt).1, (release fd pt).2)
unfolding vacate
vacate-some t pt i s = ground arith

pub index_of_open :
    (t : FdTable) (i : ℕ) {fd : FileDescriptor}
    → length t.fds ≡ max_fds
    → get_or t.fds i none ≡ some fd
    → i < max_fds
index_of_open t i n s = elim (dec_lt i max_fds) [
  | yes h ↦ h
  | no out ↦ absurd (ground (arith, get_or_le t.fds i none (omega arith)))
]

all_free :
    (fds : List (Option FileDescriptor))
    → length fds ≡ max_fds
    → ((j : ℕ) → j < max_fds → get_or fds j none ≡ none)
    → (i : ℕ) → get_or fds i none ≡ none
all_free fds n h i = elim (dec_lt i max_fds) [
  | yes inside ↦ h i inside
  | no out ↦ get_or_le fds i none (omega arith)
]

count_free :
    (id : ℕ) (e : Bool) (fds : List (Option FileDescriptor))
    → ((i : ℕ) → get_or fds i none ≡ none)
    → count id e fds ≡ 0
count_free id e [] h = refl
count_free id e (x ∷ xs) h =
    let first : x ≡ none = h 0 in rw first (omega (arith, count_free id e xs (λ i. h (suc i))))

module _ {others : ℕ → Bool → ℕ} where
  pub held :
      {t : FdTable} {pt : PipeTable} (i : ℕ) {fd : FileDescriptor}
      → IsBalanced others t pt
      → get_or t.fds i none ≡ some fd
      → (id : ℕ) (e : Bool) → weight id e (some fd) ≤ refs pt id e
  held {t} {pt} i {fd} b s id e =
      omega (arith, b.counts id e, rw s at (weight-le-count id e t.fds i))

  -- Replacing an entry, when the pipe table changed by the difference.
  pub put_fd-IsBalanced :
      (t : FdTable) (pt pt' : PipeTable) (i : ℕ) (v : Option FileDescriptor)
      → IsBalanced others t pt
      → i < max_fds
      → Slots.IsValid pt'
      → ((id : ℕ) (e : Bool)
          → refs pt' id e + weight id e (get_or t.fds i none) ≡ refs pt id e + weight id e v)
      → IsBalanced others (put_fd i v t) pt'
  put_fd-IsBalanced t pt pt' i v b h w d = record {
    sized = length-set t.fds i v ∙ b.sized;
    valid = w;
    counts = λ id e.
        omega (arith, b.counts id e, d id e, count-set id e t.fds i v (omega (arith, b.sized)));
  }

  pub release-IsBalanced :
      (t : FdTable) (pt : PipeTable) (i : ℕ) {fd : FileDescriptor}
      → IsBalanced others t pt
      → i < max_fds
      → get_or t.fds i none ≡ some fd
      → ((release fd pt).0 ≡ ok tt) × IsBalanced others (put_fd i none t) (release fd pt).1
  release-IsBalanced t pt i {fd} b h s =
      let (r, rel) = release-Released fd pt b.valid (held i b s) in
      (
        r,
        put_fd-IsBalanced t pt (release fd pt).1 i none b h rel.valid
            (λ id e. rw s (omega (arith, rel.counts id e))),
      )

  -- Closing a descriptor of a balanced system keeps it balanced, whatever the number. It returns
  -- `BadFd` for a number that is not open and succeeds for one that is, and the number is free
  -- afterwards.
  pub close-IsBalanced :
      (t : FdTable) (pt : PipeTable) (i : ℕ)
      → IsBalanced others t pt
      → let (r, t', pt', woken) = close t pt i in
        IsBalanced others t' pt'
        × (get_or t'.fds i none ≡ none)
        × (r ≡ closed (get_or t.fds i none))
  close-IsBalanced t pt i b = elim (Option-cases (get_or t.fds i none)) [
    | inl free ↦ rw (close-none t pt i free, free) (b, refl, refl)
    | inr (fd, open_fd) ↦
        let h : i < max_fds = index_of_open t i b.sized open_fd in
        let (r, b') = release-IsBalanced t pt i b h open_fd in
        rw (close-some t pt i h open_fd, open_fd)
          (b', get_or-set_self t.fds i none none (omega (arith, b.sized)), r)
  ]

  -- A number that was free stays free when another is closed.
  close-free :
      (t : FdTable) (pt : PipeTable) (i j : ℕ)
      → IsBalanced others t pt
      → get_or t.fds j none ≡ none
      → get_or (close t pt i).1.fds j none ≡ none
  close-free t pt i j b free = elim (Option-cases (get_or t.fds i none)) [
    | inl gone ↦ rw (close-none t pt i gone) free
    | inr (fd, open_fd) ↦
        let h : i < max_fds = index_of_open t i b.sized open_fd in
        rw (close-some t pt i h open_fd, get_or-set t.fds i j none none (omega (arith, b.sized)))
          (ground arith)
  ]

  close_from-IsBalanced :
      (n i : ℕ) (t : FdTable) (pt : PipeTable)
      → IsBalanced others t pt
      → ((j : ℕ) → j < i → get_or t.fds j none ≡ none)
      → let (t', pt', woken) = close_from n i t pt in
        IsBalanced others t' pt' × ((j : ℕ) → j < i + n → get_or t'.fds j none ≡ none)
  unfolding close_from
  close_from-IsBalanced zero i t pt b free = (b, λ j h. free j (omega arith))
  close_from-IsBalanced (suc n) i t pt b free =
      let (b', here, _) = close-IsBalanced t pt i b in
      let (b'', gone) = close_from-IsBalanced n (i + 1) (close t pt i).1 (close t pt i).2 b' (λ j h.
        elim (ℕ_discrete i j) [
          | yes same ↦ subst (λ k. get_or (close t pt i).1.fds k none ≡ none) same here
          | no other ↦ close-free t pt i j b (free j (omega arith))
        ]) in
      (b'', λ j h. gone j (omega arith))

  -- In a balanced system `close_all` leaves no descriptor open, and gives back exactly the
  -- references that the table held: what remains is what is held elsewhere.
  pub close_all-refs :
      (t : FdTable) (pt : PipeTable)
      → IsBalanced others t pt
      → let (t', pt', woken) = close_all t pt in
        ((i : ℕ) → get_or t'.fds i none ≡ none)
        × ((id : ℕ) (e : Bool) → refs pt' id e ≡ others id e)
        × Slots.IsValid pt'
  unfolding close_all
  close_all-refs t pt b =
      let (b', gone) = close_from-IsBalanced max_fds 0 t pt b (λ j h. absurd (omega arith)) in
      let empty = λ (i : ℕ). all_free (close_from max_fds 0 t pt).0.fds b'.sized gone i in
      (
        empty,
        λ id e.
            omega (arith, b'.counts id e, count_free id e (close_from max_fds 0 t pt).0.fds empty),
        b'.valid,
      )
