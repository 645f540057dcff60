-- ===== src/Proc/Inv.antt =====
-- The invariant of the process table, and what `spawn`, `exit_process` and `wait` do to it.
use crabv.Base.{
  ℕ, ◌+◌, ◌%◌, ◌^◌, ◌<◌, ◌≤◌, ◌≡◌, refl, ◌∙◌, inl, inr, none, some, arith, ◌==◌, Option-cases,
  if◌then◌else◌, length, length-set, get_or, set, ok, first_none, first_none-some, first_none-none,
}
use crabv.Fd.PipeTable.{usize_max}
use crabv.Proc.{Process, Image, new_process, ProcessTable, max_processes, new, get, get_mut, spawn}
use crabv.Proc.Lookup.{
  Distinct, Below, map_found, find_above, find-modify, modify-Distinct, modify-Below, length-modify,
  find-set, set-Distinct, set-Below,
}

-- The numbers are distinct, positive and below the next one, which has not wrapped.
pub record IsValid (t : ProcessTable) : Type 0 where
  pub sized : length t.processes ≡ max_processes
  pub distinct : Distinct t.processes
  pub below : Below t.next_pid t.processes
  pub positive : 0 < t.next_pid
  pub no_wrap : t.next_pid ≤ usize_max

pub new-IsValid : IsValid new
unfolding new
new-IsValid = record {
  sized = refl;
  distinct = tt;
  below = tt;
  positive = omega arith;
  no_wrap = omega arith;
}

pub get_mut-get :
    (t : ProcessTable) (pid q : ℕ) (f : Process → Process)
    → ((p : Process) → (f p).pid ≡ p.pid)
    → get (get_mut t pid f) q ≡ (if pid == q then map_found f (get t q) else get t q)
unfolding get get_mut
get_mut-get t pid q f keeps = find-modify f pid keeps t.processes q

pub get_mut-IsValid :
    (t : ProcessTable) (pid : ℕ) (f : Process → Process)
    → ((p : Process) → (f p).pid ≡ p.pid)
    → IsValid t
    → IsValid (get_mut t pid f)
unfolding get_mut
get_mut-IsValid t pid f keeps v = record {
  sized = length-modify t.processes pid f ∙ v.sized;
  distinct = modify-Distinct f pid keeps t.processes v.distinct;
  below = modify-Below f pid keeps t.next_pid t.processes v.below;
  positive = v.positive;
  no_wrap = v.no_wrap;
}

-- What a `spawn` that returned `pid` has done.
pub record Spawned (t : ProcessTable) (i : Image) (pid : ℕ) (u : ProcessTable) : Type 0 where
  pub number : pid ≡ t.next_pid
  pub fresh : get t pid ≡ none
  pub entries :
      (q : ℕ) → get u q ≡ (if pid == q then some (new_process pid t.current_pid i) else get t q)
  pub current_kept : u.current_pid ≡ t.current_pid
  pub valid : IsValid u

-- In a valid table, a spawn that succeeds gives the next number, which no process had. The new
-- process is ready, has the current one as its parent and starts at the entry point; every other
-- process is as before, and the table stays valid. The numbers must not be used up.
pub spawn-Spawned :
    (t : ProcessTable) (i : Image) (pid : ℕ) {u : ProcessTable}
    → IsValid t
    → t.next_pid < usize_max
    → spawn t i ≡ (ok pid, u)
    → Spawned t i pid u
unfolding spawn get
spawn-Spawned t i pid {u} v room e = elim (Option-cases (first_none t.processes 0)) [
  | inl full ↦ absurd (ground arith)
  | inr (slot, found) ↦
      let f = first_none-some t.processes slot found in
      let p = new_process t.next_pid t.current_pid i in
      let number : pid ≡ t.next_pid = ground arith in
      let next : (t.next_pid + 1) % 2 ^ 64 ≡ t.next_pid + 1 = omega arith in
      let same : u
          ≡ record t { processes = set t.processes slot (some p); next_pid = t.next_pid + 1 } =
        ground (arith, next) in
      let free = find_above t.processes t.next_pid t.next_pid v.below (omega arith) in
      record {
        number = number;
        fresh = rw number free;
        entries = λ q. rw (same, number) (find-set p t.processes slot q f.empty f.inside free);
        current_kept = rw same refl;
        valid = rw same (record {
          sized = length-set t.processes slot (some p) ∙ v.sized;
          distinct = set-Distinct p t.processes slot f.empty f.inside free v.distinct;
          below =
              set-Below p t.processes slot t.next_pid (t.next_pid + 1) v.positive (omega arith)
                (omega arith) v.below;
          positive = omega arith;
          no_wrap = omega arith;
        });
      }
]

-- In a valid table with a free slot `spawn` succeeds, and returns the next number.
pub spawn-free :
    (t : ProcessTable) (i : Image) (slot : ℕ)
    → IsValid t
    → slot < max_processes
    → get_or t.processes slot none ≡ none
    → (spawn t i).0 ≡ ok t.next_pid
unfolding spawn
spawn-free t i slot v h e = elim (Option-cases (first_none t.processes 0)) [
  | inl full ↦ absurd (first_none-none t.processes 0 slot full (omega (arith, v.sized)) e)
  | inr (k, found) ↦ ground arith
]
