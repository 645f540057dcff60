-- ===== src/Sched/Choose.antt =====
-- The choice of the scheduler: it is a process that can run, and the turns go round.
use crabv.Base.{
  ℕ, zero, suc, ◌+◌, ◌%◌, ◌<◌, ◌≡◌, refl, ap, ◌∙◌, subst, ◌≢◌, ◌⊎◌, inl, inr, true, false, Option,
  none, some, List, [], ◌∷◌, arith, ◌==◌, Bool-cases, Option-cases, if◌then◌else◌, length, get_or,
}
use crabv.Proc.{Process, ProcessTable, invalid_pid, find, get, all_processes}
use crabv.Proc.Lookup.{Distinct}
use crabv.Proc.Inv.{IsValid}
use crabv.Sched.{is_runnable, runnable, position, choose, schedule}

-- `pid` stands at index `j`.
pub record Stands (qs : List ℕ) (pid j : ℕ) : Type 0 where
  pub inside : j < length qs
  pub at : get_or qs j 0 ≡ pid

pub position-some :
    (qs : List ℕ) (pid i k : ℕ)
    → position qs pid i ≡ some k
    → (j : ℕ) × (k ≡ i + j) × Stands qs pid j
unfolding position
position-some [] pid i k e = absurd (cc)
position-some (q ∷ qs) pid i k e = elim (Bool-cases (q == pid)) [
  | inl here ↦ (0, ground arith, record { inside = omega arith; at = ground arith })
  | inr on ↦
      let (j, eq, s) = position-some qs pid (i + 1) k (ground arith) in
      (suc j, omega (arith, eq), record { inside = omega (arith, s.inside); at = s.at })
]

pub position-none :
    (qs : List ℕ) (pid i j : ℕ) → position qs pid i ≡ none → j < length qs → get_or qs j 0 ≢ pid
unfolding position
position-none [] pid i j e h = absurd (omega arith)
position-none (q ∷ qs) pid i zero e h = ground arith
position-none (q ∷ qs) pid i (suc j) e h =
    position-none qs pid (i + 1) j (ground arith) (omega arith)

-- What is chosen stands in the list.
pub choose-Stands :
    (qs : List ℕ) (current pid : ℕ) → choose qs current ≡ some pid → (j : ℕ) × Stands qs pid j
unfolding choose
choose-Stands [] current pid e = absurd (cc)
choose-Stands (q ∷ qs) current pid e = elim (Option-cases (position (q ∷ qs) current 0)) [
  | inl new ↦ (0, record { inside = omega arith; at = ground arith })
  | inr (i, found) ↦ elim (Bool-cases (current == invalid_pid)) [
    | inl nobody ↦ (0, record { inside = omega arith; at = ground arith })
    | inr somebody ↦ ((i + 1) % length (q ∷ qs), record { inside = grind arith; at = ground arith })
  ]
]

pub choose-none : (qs : List ℕ) (current : ℕ) → choose qs current ≡ none → qs ≡ []
unfolding choose
choose-none [] current e = refl
choose-none (q ∷ qs) current e = absurd (ground arith)

Stands-cons :
    (q : ℕ) (qs : List ℕ) (pid j : ℕ)
    → Stands (q ∷ qs) pid j
    → (q ≡ pid) ⊎ ((k : ℕ) × Stands qs pid k)
Stands-cons q qs pid zero s = inl s.at
Stands-cons q qs pid (suc j) s = inr (j, record { inside = omega (arith, s.inside); at = s.at })

pub runnable-cons :
    (p : Process) (ps : List Process)
    → runnable (p ∷ ps) ≡ (if is_runnable p.state then p.pid ∷ runnable ps else runnable ps)
unfolding runnable
runnable-cons p ps = refl

-- The list of the runnable processes holds only processes of the table that can run.
pub runnable_sound :
    (ps : List (Option Process)) (pid j : ℕ)
    → Distinct ps
    → Stands (runnable (all_processes ps)) pid j
    → (p : Process) × (find ps pid ≡ some p) × (is_runnable p.state ≡ true)
unfolding all_processes find
runnable_sound [] pid j d s = absurd (unfold runnable in omega (arith, s.inside))
runnable_sound (none ∷ ps) pid j d s = runnable_sound ps pid j d s
runnable_sound (some p ∷ ps) pid j d s = elim (Bool-cases (is_runnable p.state)) [
  | inl can ↦
      elim (Stands-cons p.pid (runnable (all_processes ps)) pid j
        (subst (λ l. Stands l pid j) (runnable-cons p (all_processes ps) ∙ rw can refl) s)) [
          | inl here ↦ (p, ground arith, can)
          | inr (k, later) ↦ shift (runnable_sound ps pid k d.1 later)
        ]
  | inr cannot ↦ shift (
      runnable_sound ps pid j d.1
        (subst (λ l. Stands l pid j) (runnable-cons p (all_processes ps) ∙ rw cannot refl) s))
]
  where
    shift :
        (r : Process) × (find ps pid ≡ some r) × (is_runnable r.state ≡ true)
        → (r : Process) × (find (some p ∷ ps) pid ≡ some r) × (is_runnable r.state ≡ true)
    shift (r, found, can) = (r, ground (arith, d.0), can)

-- The list of the runnable processes holds every process of the table that can run.
pub runnable_complete :
    (ps : List (Option Process)) (pid : ℕ) {p : Process}
    → find ps pid ≡ some p
    → is_runnable p.state ≡ true
    → (j : ℕ) × Stands (runnable (all_processes ps)) pid j
unfolding all_processes find
runnable_complete [] pid e r = absurd (cc)
runnable_complete (none ∷ ps) pid e r = runnable_complete ps pid e r
runnable_complete (some q ∷ ps) pid {p} e r = elim (Bool-cases (q.pid == pid)) [
  | inl here ↦
      let same : q ≡ p = ground arith in
      let can : is_runnable q.state ≡ true = rw same r in
      rw (runnable-cons q (all_processes ps), can)
        (0, record { inside = omega arith; at = ground arith })
  | inr on ↦
      let (j, s) = runnable_complete ps pid {p = p} (ground arith) r in
      rw (runnable-cons q (all_processes ps))
        (elim (is_runnable q.state)
          as (λ b.
            (k : ℕ) × Stands
              (if b then q.pid ∷ runnable (all_processes ps) else runnable (all_processes ps)) pid
              k) [
                | true ↦ (suc j, record { inside = omega (arith, s.inside); at = s.at })
                | false ↦ (j, s)
              ])
]

-- In a valid table the scheduler chooses a process of the table that can run.
pub schedule_sound :
    (t : ProcessTable) (pid : ℕ)
    → IsValid t
    → schedule t ≡ some pid
    → (p : Process) × (get t pid ≡ some p) × (is_runnable p.state ≡ true)
unfolding schedule get
schedule_sound t pid v e =
    let (j, s) = choose-Stands (runnable (all_processes t.processes)) t.current_pid pid e in
    runnable_sound t.processes pid j v.distinct s

-- The scheduler finds a process to run whenever some process of the table can run.
pub schedule_complete :
    (t : ProcessTable) (pid : ℕ) {p : Process}
    → get t pid ≡ some p
    → is_runnable p.state ≡ true
    → schedule t ≢ none
unfolding schedule get
schedule_complete t pid found can e =
    let (j, s) = runnable_complete t.processes pid found can in
    let empty = choose-none (runnable (all_processes t.processes)) t.current_pid e in
    omega (arith, s.inside, ap (length {A = ℕ}) empty)
