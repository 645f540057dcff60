-- ===== src/Proc/Wait.antt =====
-- The end of a process: `exit_process` and the parent's `wait`.
use crabv.Base.{
  ℕ, ◌≡◌, refl, sym, ◌∙◌, subst, ◌≢◌, inl, inr, Option, none, some, arith, ◌==◌, ==_iff, Bool-cases,
  Option-cases, if◌then◌else◌,
}
use crabv.Fd.PipeTable.{PipeTable}
use crabv.Fd.Table.{close_all}
use crabv.Proc.{
  Process, exited, ProcessTable, find, remove, find_exited, get, get_mut, exit, exit_process, wait,
}
use crabv.Proc.Lookup.{
  map_found, find-remove, remove-Distinct, remove-Below, length-remove, find_exited-some,
  find_exited-none,
}
use crabv.Proc.Inv.{IsValid, get_mut-get, get_mut-IsValid}

-- The process as `exit_process` leaves it: marked, with the code, and without open descriptors.
abbrev pub finished : Process → PipeTable → ℕ → Process → Process
finished p pt code q = exit code (record q { fd_table = (close_all p.fd_table pt).0 })

finished-pid :
    (p : Process) (pt : PipeTable) (code : ℕ) (q : Process) → (finished p pt code q).pid ≡ q.pid
unfolding exit
finished-pid p pt code q = refl

pub finished_fields :
    (p : Process) (pt : PipeTable) (code : ℕ)
    → let q = finished p pt code p in
      (q.parent_pid ≡ p.parent_pid) × (q.state ≡ exited) × (q.exit_code ≡ code)
unfolding exit
finished_fields p pt code = (refl, refl, refl)

exit_process-some :
    (t : ProcessTable) (pt : PipeTable) (pid code : ℕ) {p : Process}
    → get t pid ≡ some p
    → (exit_process t pt pid code).0 ≡ get_mut t pid (finished p pt code)
unfolding exit_process
exit_process-some t pt pid code s = ground arith

-- In a valid table, `exit_process` turns a process of the table into its finished state, leaves
-- every other one alone, and keeps the table valid.
pub exit_process-get :
    (t : ProcessTable) (pt : PipeTable) (pid code : ℕ) {p : Process}
    → IsValid t
    → get t pid ≡ some p
    → let u = (exit_process t pt pid code).0 in
      ((q : ℕ) → get u q ≡ (if pid == q then some (finished p pt code p) else get t q)) × IsValid u
exit_process-get t pt pid code {p} v s = rw (exit_process-some t pt pid code s) (
  λ q. get_mut-get t pid q (finished p pt code) (finished-pid p pt code) ∙ at q,
  get_mut-IsValid t pid (finished p pt code) (finished-pid p pt code) v,
)
  where
    at :
        (q : ℕ)
        → (if pid == q then map_found (finished p pt code) (get t q) else get t q)
          ≡ (if pid == q then some (finished p pt code p) else get t q)
    at q = elim (Bool-cases (pid == q)) [
      | inl same ↦ rw (same, ← (==_iff pid q).0 same, s) refl
      | inr other ↦ rw other refl
    ]

-- What a `wait` that returned a child has done.
pub record Reaped (t : ProcessTable) (parent child code : ℕ) (u : ProcessTable) : Type 0 where
  pub process : Process
  pub found : get t child ≡ some process
  pub of_parent : process.parent_pid ≡ parent
  pub had_exited : process.state ≡ exited
  pub code_of : process.exit_code ≡ code
  pub entries : (q : ℕ) → get u q ≡ (if child == q then none else get t q)
  pub valid : IsValid u

-- In a valid table, a child that `wait` returns is a process of the table, a child of the caller,
-- and has exited with the code that is returned. It is removed; every other process is as before,
-- and the table stays valid.
pub wait-Reaped :
    (t : ProcessTable) (parent child code : ℕ) {u : ProcessTable}
    → IsValid t
    → wait t parent ≡ (some (child, code), u)
    → Reaped t parent child code u
unfolding wait get
wait-Reaped t parent child code {u} v e = elim (Option-cases (find_exited t.processes parent)) [
  | inl nobody ↦ absurd (ground arith)
  | inr (p, found) ↦
      let (there, of_parent, gone) = find_exited-some t.processes parent v.distinct found in
      let number : p.pid ≡ child = ground arith in
      let same : u ≡ record t { processes = remove t.processes child } = ground arith in
      record {
        process = p;
        found = subst (λ k. find t.processes k ≡ some p) number there;
        of_parent = of_parent;
        had_exited = gone;
        code_of = ground arith;
        entries = λ q. rw same (find-remove t.processes child q v.distinct);
        valid = rw same (record {
          sized = length-remove t.processes child ∙ v.sized;
          distinct = remove-Distinct t.processes child v.distinct;
          below = remove-Below t.next_pid t.processes child v.below;
          positive = v.positive;
          no_wrap = v.no_wrap;
        });
      }
]

-- A `wait` that returns nothing changes nothing, and a child of the caller that is in the table has
-- not exited.
pub wait_nothing :
    (t : ProcessTable) (parent pid : ℕ) {p : Process}
    → (wait t parent).0 ≡ none
    → get t pid ≡ some p
    → p.parent_pid ≡ parent
    → ((wait t parent).1 ≡ t) × (p.state ≢ exited)
unfolding wait get
wait_nothing t parent pid {p} e s h = elim (Option-cases (find_exited t.processes parent)) [
  | inl nobody ↦ (ground arith, find_exited-none t.processes parent pid nobody s h)
  | inr (q, found) ↦ absurd (ground arith)
]

-- In a valid table, a process that exits is what its parent's `wait` returns, with its exit code,
-- if no other child of that parent has exited already.
pub wait-exit_process :
    (t : ProcessTable) (pt : PipeTable) (pid code : ℕ) {p : Process}
    → IsValid t
    → get t pid ≡ some p
    → ((q : ℕ) (r : Process) → get t q ≡ some r → r.parent_pid ≡ p.parent_pid → r.state ≢ exited)
    → (wait (exit_process t pt pid code).0 p.parent_pid).0 ≡ some (pid, code)
wait-exit_process t pt pid code {p} v s alone = elim (Option-cases (wait u p.parent_pid).0) [
  | inl nothing ↦ absurd (
      (wait_nothing u p.parent_pid pid nothing here (finished_fields p pt code).0).1
        (finished_fields p pt code).1)
  | inr ((child, c), found) ↦
      found
      ∙ reaped_is child c (
          wait-Reaped u p.parent_pid child c (exit_process-get t pt pid code v s).1
            (λ i. (found i, (wait u p.parent_pid).1)))
]
  where
    u : ProcessTable
    u = (exit_process t pt pid code).0

    after : (q : ℕ) → get u q ≡ (if pid == q then some (finished p pt code p) else get t q)
    after = (exit_process-get t pt pid code v s).0

    here : get u pid ≡ some (finished p pt code p)
    here = after pid ∙ ground arith

    reaped_is :
        (child c : ℕ) {w : ProcessTable}
        → Reaped u p.parent_pid child c w
        → ◌≡◌ {A = Option (ℕ × ℕ)} (some (child, c)) (some (pid, code))
    reaped_is child c r = elim (Bool-cases (pid == child)) [
      | inl same ↦ ground (arith, after child, r, (finished_fields p pt code).2)
      | inr other ↦ absurd (
          alone child r.process (sym (after child ∙ rw other refl) ∙ r.found) r.of_parent
            r.had_exited)
    ]
