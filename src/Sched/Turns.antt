-- ===== src/Sched/Turns.antt =====
-- One yield of src/scheduler.rs hands the turn to the next process that can run.
use crabv.Base.{
  ℕ, zero, suc, ◌+◌, ◌%◌, ◌<◌, ◌≡◌, refl, ap, ap₂, ◌∙◌, ◌≢◌, inl, inr, true, false, Option, none,
  some, List, [], ◌∷◌, arith, ◌==◌, Bool-cases, Option-cases, if◌then◌else◌, length, get_or,
}
use crabv.Proc.{
  Process, ProcessTable, invalid_pid, running, find, modify, get_mut, set_current, all_processes,
}
use crabv.Proc.Lookup.{Distinct, find_bounds}
use crabv.Proc.Inv.{IsValid, get_mut-IsValid}
use crabv.Sched.{
  is_runnable, runnable, position, choose, schedule, make_ready, with_state, yield_cpu,
}
use crabv.Sched.Choose.{Stands, position-some, position-none, runnable_sound, runnable-cons}

-- No number stands twice in the list.
abbrev NoRepeat : List ℕ → Type 0
NoRepeat qs = (j k : ℕ) (pid : ℕ) → Stands qs pid j → Stands qs pid k → j ≡ k

Stands-head : (q : ℕ) (qs : List ℕ) (pid : ℕ) → Stands (q ∷ qs) pid 0 → q ≡ pid
Stands-head q qs pid s = s.at

Stands-tail : (q : ℕ) (qs : List ℕ) (pid j : ℕ) → Stands (q ∷ qs) pid (suc j) → Stands qs pid j
Stands-tail q qs pid j s = record { inside = omega (arith, s.inside); at = s.at }

NoRepeat-cons :
    (q : ℕ) (qs : List ℕ) → ((j : ℕ) → ¬ Stands qs q j) → NoRepeat qs → NoRepeat (q ∷ qs)
NoRepeat-cons q qs new rest zero zero pid s t = refl
NoRepeat-cons q qs new rest zero (suc k) pid s t =
    absurd (new k (rw s.at (Stands-tail q qs pid k t)))
NoRepeat-cons q qs new rest (suc j) zero pid s t =
    absurd (new j (rw t.at (Stands-tail q qs pid j s)))
NoRepeat-cons q qs new rest (suc j) (suc k) pid s t =
    ap suc (rest j k pid (Stands-tail q qs pid j s) (Stands-tail q qs pid k t))

runnable-NoRepeat :
    (ps : List (Option Process)) → Distinct ps → NoRepeat (runnable (all_processes ps))
unfolding all_processes
runnable-NoRepeat [] d = λ j k pid s t. absurd (unfold runnable in omega (arith, s.inside))
runnable-NoRepeat (none ∷ ps) d = runnable-NoRepeat ps d
runnable-NoRepeat (some p ∷ ps) d =
    rw (runnable-cons p (all_processes ps))
      (elim (is_runnable p.state)
        as (λ b.
          NoRepeat
            (if b then p.pid ∷ runnable (all_processes ps) else runnable (all_processes ps))) [
              | true ↦
                  NoRepeat-cons p.pid (runnable (all_processes ps)) new (runnable-NoRepeat ps d.1)
              | false ↦ runnable-NoRepeat ps d.1
            ])
  where
    new : (j : ℕ) → ¬ Stands (runnable (all_processes ps)) p.pid j
    new j s = let (r, found, _) = runnable_sound ps p.pid j d.1 s in cc (d.0)

-- The next turn is that of the next in the list.
choose-next :
    (qs : List ℕ) (c i : ℕ)
    → NoRepeat qs
    → Stands qs c i
    → c ≢ invalid_pid
    → choose qs c ≡ some (get_or qs ((i + 1) % length qs) 0)
unfolding choose
choose-next [] c i n s v = absurd (omega (arith, s.inside))
choose-next (q ∷ qs) c i n s v = elim (Option-cases (position (q ∷ qs) c 0)) [
  | inl gone ↦ absurd (position-none (q ∷ qs) c 0 i gone s.inside s.at)
  | inr (k, found) ↦
      let (j, eq, t) = position-some (q ∷ qs) c 0 k found in
      let same : k ≡ i = omega (arith, eq, n j i c t s) in
      ground (arith, ap (λ (m : ℕ). get_or (q ∷ qs) ((m + 1) % length (q ∷ qs)) 0) same)
]

-- A change that leaves the numbers and whether the process can run leaves the list.
runnable-modify :
    (f : Process → Process) (ps : List (Option Process)) (pid : ℕ)
    → ((p : Process) → (f p).pid ≡ p.pid)
    → ((p : Process) → find ps pid ≡ some p → is_runnable (f p).state ≡ is_runnable p.state)
    → runnable (all_processes (modify ps pid f)) ≡ runnable (all_processes ps)
unfolding runnable all_processes modify find
runnable-modify f [] pid keeps same = refl
runnable-modify f (none ∷ ps) pid keeps same = runnable-modify f ps pid keeps same
runnable-modify f (some p ∷ ps) pid keeps same = elim (Bool-cases (p.pid == pid)) [
  | inl here ↦ ground (arith, same p (rw here refl), keeps p)
  | inr on ↦ ground (arith, runnable-modify f ps pid keeps (λ r found. same r (rw on found)))
]

-- The list of the processes that can run, which the scheduler goes through.
abbrev pub turns : ProcessTable → List ℕ
turns t = runnable (all_processes t.processes)

make_ready-pid : (p : Process) → (make_ready p).pid ≡ p.pid
make_ready-pid p = ground arith

make_ready_runnable : (p : Process) → is_runnable (make_ready p).state ≡ is_runnable p.state
make_ready_runnable p = ground arith

set_current-IsValid : (t : ProcessTable) (pid : ℕ) → IsValid t → IsValid (set_current t pid)
unfolding set_current
set_current-IsValid t pid v = record {
  sized = v.sized;
  distinct = v.distinct;
  below = v.below;
  positive = v.positive;
  no_wrap = v.no_wrap;
}

-- A process in the table has a number that is no mark.
Stands-valid :
    (t : ProcessTable) (pid i : ℕ) → IsValid t → Stands (turns t) pid i → pid ≢ invalid_pid
Stands-valid t pid i v s =
    let (p, found, _) = runnable_sound t.processes pid i v.distinct s in
    omega (arith, find_bounds t.processes t.next_pid pid v.below found, v.no_wrap)

ready_turns : (t : ProcessTable) → turns (get_mut t t.current_pid make_ready) ≡ turns t
unfolding get_mut
ready_turns t =
    runnable-modify make_ready t.processes t.current_pid make_ready-pid
      (λ p _. make_ready_runnable p)

enter_turns :
    (t : ProcessTable) (d i : ℕ)
    → IsValid t
    → Stands (turns t) d i
    → turns (get_mut (set_current t d) d (with_state running)) ≡ turns t
unfolding get_mut set_current
enter_turns t d i v s =
    let (p, found, can) = runnable_sound t.processes d i v.distinct s in
    runnable-modify (with_state running) t.processes d (λ q. refl) (λ q other. ground arith)

-- A yield of a process that can run hands the turn to the next in the list, and the list is the
-- same afterwards.
pub record Yielded (t : ProcessTable) (i : ℕ) (u : ProcessTable) : Type 0 where
  pub valid : IsValid u
  pub same_turns : turns u ≡ turns t
  pub turn : u.current_pid ≡ get_or (turns t) ((i + 1) % length (turns t)) 0

schedule-turns : (t : ProcessTable) → schedule t ≡ choose (turns t) t.current_pid
unfolding schedule
schedule-turns t = refl

get_mut_current :
    (t : ProcessTable) (pid : ℕ) (f : Process → Process)
    → (get_mut t pid f).current_pid ≡ t.current_pid
unfolding get_mut
get_mut_current t pid f = refl

set_current_lem : (t : ProcessTable) (pid : ℕ) → (set_current t pid).current_pid ≡ pid
unfolding set_current
set_current_lem t pid = refl

yield_cpu-eq :
    (t : ProcessTable) (d : ℕ)
    → t.current_pid ≢ invalid_pid
    → schedule (get_mut t t.current_pid make_ready) ≡ some d
    → yield_cpu t
      ≡ get_mut (set_current (get_mut t t.current_pid make_ready) d) d (with_state running)
unfolding yield_cpu
yield_cpu-eq t d n e = ground arith

pub next_inside : (i n : ℕ) → i < n → (i + 1) % n < n
next_inside i n h = omega arith

pub yield_cpu-Yielded :
    (t : ProcessTable) (i : ℕ)
    → IsValid t
    → Stands (turns t) t.current_pid i
    → Yielded t i (yield_cpu t)
yield_cpu-Yielded t i v s =
    let c = t.current_pid in
    let n : c ≢ invalid_pid = Stands-valid t c i v s in
    let t1 = get_mut t c make_ready in
    let v1 = get_mut-IsValid t c make_ready make_ready-pid v in
    let d = get_or (turns t) ((i + 1) % length (turns t)) 0 in
    let picks : schedule t1 ≡ some d =
      schedule-turns t1
      ∙ (ap₂ choose (ready_turns t) (get_mut_current t c make_ready)
          ∙ choose-next (turns t) c i (runnable-NoRepeat t.processes v.distinct) s n) in
    let there : Stands (turns t1) d ((i + 1) % length (turns t)) =
      rw (ready_turns t)
        (record { inside = next_inside i (length (turns t)) s.inside; at = refl }) in
    rw (yield_cpu-eq t d n picks) (record {
      valid =
          get_mut-IsValid (set_current t1 d) d (with_state running) (λ q. refl)
            (set_current-IsValid t1 d v1);
      same_turns = enter_turns t1 d ((i + 1) % length (turns t)) v1 there ∙ ready_turns t;
      turn = get_mut_current (set_current t1 d) d (with_state running) ∙ set_current_lem t1 d;
    })
