-- ===== src/Sched/Fair.antt =====
-- Repeated yields of src/scheduler.rs go round the processes that can run.
use crabv.Base.{
  ℕ, zero, suc, ◌+◌, ◌-◌, ◌%◌, ◌<◌, ◌≤◌, ◌≡◌, sym, ap, ◌∙◌, true, Option, none, some, List, [], ◌∷◌,
  arith, length, get_or, dec_lt,
}
use native.Mathlib.Nat.{mod-add-mod, mod-eq_of_lt}
use crabv.Proc.{Process, ProcessTable, max_processes, get, all_processes}
use crabv.Proc.Inv.{IsValid}
use crabv.Sched.{is_runnable, runnable, yield_cpu}
use crabv.Sched.Choose.{Stands, runnable_complete}
use crabv.Sched.Turns.{turns, next_inside, yield_cpu-Yielded}

-- `k` yields in a row.
unfoldable pub yields : ℕ → ProcessTable → ProcessTable
yields zero t = t
yields (suc k) t = yields k (yield_cpu t)

wrap_suc : (i k n : ℕ) → ((i + 1) % n + k) % n ≡ (i + suc k) % n
wrap_suc i k n = rw mod-add-mod (ap (λ (m : ℕ). m % n) (omega arith))

wrap_zero : (i n : ℕ) → i < n → (i + 0) % n ≡ i
wrap_zero i n h = grind arith

yields_turn :
    (k : ℕ) (t : ProcessTable) (i : ℕ)
    → IsValid t
    → Stands (turns t) t.current_pid i
    → (yields k t).current_pid ≡ get_or (turns t) ((i + k) % length (turns t)) 0
unfolding yields
yields_turn zero t i v s =
    sym s.at ∙ ap (λ (m : ℕ). get_or (turns t) m 0) (sym (wrap_zero i (length (turns t)) s.inside))
yields_turn (suc k) t i v s =
    let y = yield_cpu-Yielded t i v s in
    let next : Stands (turns (yield_cpu t)) (yield_cpu t).current_pid ((i + 1) % length (turns t)) =
      rw y.same_turns
        (record { inside = next_inside i (length (turns t)) s.inside; at = sym y.turn }) in
    yields_turn k (yield_cpu t) ((i + 1) % length (turns t)) y.valid next
    ∙ (ap (λ l. get_or l (((i + 1) % length (turns t) + k) % length l) 0) y.same_turns
        ∙ ap (λ (m : ℕ). get_or (turns t) m 0) (wrap_suc i k (length (turns t))))

steps_to : (i j n : ℕ) → i < n → j < n → (k : ℕ) × (0 < k) × (k ≤ n) × ((i + k) % n ≡ j)
steps_to i j n hi hj = elim (dec_lt i j) [
  | yes h ↦ (j - i, omega arith, omega arith, at (j - i) (omega arith))
  | no h ↦ (n - i + j, omega arith, omega arith, round (n - i + j) (omega arith))
]
  where
    at : (k : ℕ) → i + k ≡ j → (i + k) % n ≡ j
    at k e = rw e (mod-eq_of_lt hj)

    round : (k : ℕ) → i + k ≡ j + n → (i + k) % n ≡ j
    round k e = rw e (grind arith)

length-turns : (ps : List (Option Process)) → length (runnable (all_processes ps)) ≤ length ps
unfolding runnable all_processes
length-turns [] = omega arith
length-turns (none ∷ ps) = omega (arith, length-turns ps)
length-turns (some p ∷ ps) = ground (arith, length-turns ps)

-- No starvation: in a valid table whose current process can run, every process that can run becomes
-- the current one after at least one yield and at most as many as there are slots.
pub yields_reach :
    (t : ProcessTable) (pid : ℕ) {c p : Process}
    → IsValid t
    → get t t.current_pid ≡ some c
    → is_runnable c.state ≡ true
    → get t pid ≡ some p
    → is_runnable p.state ≡ true
    → (k : ℕ) × (0 < k) × (k ≤ max_processes) × ((yields k t).current_pid ≡ pid)
unfolding get
yields_reach t pid {c} {p} v there can found able =
    let (i, s) = runnable_complete t.processes t.current_pid there can in
    let (j, r) = runnable_complete t.processes pid found able in
    let (k, some_turns, short, lands) = steps_to i j (length (turns t)) s.inside r.inside in
    (
      k,
      some_turns,
      omega (arith, short, length-turns t.processes, v.sized),
      yields_turn k t i v s ∙ (ap (λ (m : ℕ). get_or (turns t) m 0) lands ∙ r.at),
    )
