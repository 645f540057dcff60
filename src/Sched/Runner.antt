-- ===== src/Sched/Runner.antt =====
-- How `Scheduler::maybe_switch` of src/scheduler.rs ends, and that one process runs afterwards.
use crabv.Base.{
  ℕ, ◌≡◌, refl, sym, ◌∙◌, subst, ◌≢◌, ◌⊎◌, inl, inr, Bool, true, false, none, some, arith, ◌==◌,
  ==_iff, Bool-cases, Option-cases, ℕ_discrete,
}
use crabv.Machine.{Machine, TrapFrame}
use crabv.Proc.{Process, ProcessTable, running, invalid_pid, get}
use crabv.Proc.Lookup.{find_bounds}
use crabv.Proc.Inv.{IsValid}
use crabv.Sched.{is_runnable, schedule, decide_switch, save_current, enter, maybe_switch}
use crabv.Sched.Choose.{schedule_sound}
use crabv.Sched.Switch.{
  OneRunner, saved, save_current-get, save_current-none, save_current-IsValid, Entered,
  enter-Entered,
}

-- If the current process is left and not made ready, it could not run.
decide_switch-left :
    (t : ProcessTable) {p : Process}
    → (decide_switch t).0 ≡ true
    → t.current_pid ≢ invalid_pid
    → get t t.current_pid ≡ some p
    → ((decide_switch t).1 ≡ true) ⊎ (is_runnable p.state ≡ false)
unfolding decide_switch
decide_switch-left t yes_switch n s = ground arith

pub get_bounds :
    (t : ProcessTable) (pid : ℕ) {p : Process} → IsValid t → get t pid ≡ some p → pid ≢ invalid_pid
unfolding get
get_bounds t pid v s = omega (arith, find_bounds t.processes t.next_pid pid v.below s, v.no_wrap)

saved_not_running :
    (r : Bool) (m : Machine) (p : Process)
    → (r ≡ true) ⊎ (is_runnable p.state ≡ false)
    → (saved r m p).state ≢ running
saved_not_running r m p h = ground arith

-- Once the current process is saved for a switch, no process runs.
none_running :
    (t : ProcessTable) (m : Machine) (q : ℕ) (p : Process)
    → IsValid t
    → OneRunner t
    → (decide_switch t).0 ≡ true
    → get (save_current (decide_switch t).1 t m) q ≡ some p
    → p.state ≢ running
none_running t m q p v one switch s = elim (ℕ_discrete t.current_pid invalid_pid) [
  | yes nobody ↦
      let there : get t q ≡ some p = rw (save_current-none (decide_switch t).1 t m nobody) at s in
      λ run. get_bounds t q v there (one q p there run ∙ nobody)
  | no n ↦
      let entry = sym (save_current-get (decide_switch t).1 t m q n) ∙ s in
      elim (Option-cases (get t q)) [
        | inl nothing ↦ absurd (ground arith)
        | inr (p0, there) ↦ elim (Bool-cases (t.current_pid == q)) [
          | inl here ↦
              let same : q ≡ t.current_pid = sym ((==_iff t.current_pid q).0 here) in
              let was = subst (λ k. get t k ≡ some p0) same there in
              let kept : saved (decide_switch t).1 m p0 ≡ p = ground arith in
              rw (← kept)
                (saved_not_running (decide_switch t).1 m p0 (decide_switch-left t switch n was))
          | inr other ↦
              let kept : get t q ≡ some p = ground arith in λ run. ground (arith, one q p kept run)
        ]
      ]
]

-- How a call of `maybe_switch` ended.
pub data Ends (t : ProcessTable) (m : Machine) (f : TrapFrame)
    (out : Bool × ProcessTable × Machine × TrapFrame) : Type 0 where
  stays : out ≡ (false, t, m, f) → (decide_switch t).0 ≡ false → Ends t m f out
  idles :
      out ≡ (false, save_current (decide_switch t).1 t m, m, f)
      → (decide_switch t).0 ≡ true
      → Ends t m f out
  enters :
      (next : ℕ) (p : Process)
      → (decide_switch t).0 ≡ true
      → out.0 ≡ true
      → get (save_current (decide_switch t).1 t m) next ≡ some p
      → is_runnable p.state ≡ true
      → Entered (save_current (decide_switch t).1 t m) next m f p out.1 out.2 out.3
      → Ends t m f out

maybe_switch-stays :
    (t : ProcessTable) (m : Machine) (f : TrapFrame)
    → (decide_switch t).0 ≡ false
    → maybe_switch t m f ≡ (false, t, m, f)
unfolding maybe_switch
maybe_switch-stays t m f e = ground arith

maybe_switch-idles :
    (t : ProcessTable) (m : Machine) (f : TrapFrame)
    → (decide_switch t).0 ≡ true
    → schedule (save_current (decide_switch t).1 t m) ≡ none
    → maybe_switch t m f ≡ (false, save_current (decide_switch t).1 t m, m, f)
unfolding maybe_switch
maybe_switch-idles t m f e s = ground arith

maybe_switch-enters :
    (t : ProcessTable) (m : Machine) (f : TrapFrame) (next : ℕ)
    → (decide_switch t).0 ≡ true
    → schedule (save_current (decide_switch t).1 t m) ≡ some next
    → let (u, m', f') = enter next (save_current (decide_switch t).1 t m) m f in
      maybe_switch t m f ≡ (true, u, m', f')
unfolding maybe_switch
maybe_switch-enters t m f next e s = ground arith

pub maybe_switch-Ends :
    (t : ProcessTable) (m : Machine) (f : TrapFrame) → IsValid t → Ends t m f (maybe_switch t m f)
maybe_switch-Ends t m f v = elim (Bool-cases (decide_switch t).0) [
  | inr stay ↦ stays (maybe_switch-stays t m f stay) stay
  | inl switch ↦
      let t1 = save_current (decide_switch t).1 t m in
      elim (Option-cases (schedule t1)) [
        | inl nobody ↦ idles (maybe_switch-idles t m f switch nobody) switch
        | inr (next, chosen) ↦
            let (p, found, can) =
              schedule_sound t1 next (save_current-IsValid (decide_switch t).1 t m v) chosen in
            rw (maybe_switch-enters t m f next switch chosen)
              (enters next p switch refl found can (enter-Entered next t1 m f found))
      ]
]

-- In a valid table, `maybe_switch` keeps the invariant that only the current process is running,
-- whether it switches, stays, or finds no process to run.
pub maybe_switch-OneRunner :
    (t : ProcessTable) (m : Machine) (f : TrapFrame)
    → IsValid t
    → OneRunner t
    → OneRunner (maybe_switch t m f).1
maybe_switch-OneRunner t m f v one = after (maybe_switch t m f) (maybe_switch-Ends t m f v)
  where
    after : (out : Bool × ProcessTable × Machine × TrapFrame) → Ends t m f out → OneRunner out.1
    after out (stays e d) = rw e one
    after out (idles e d) = rw e (λ q p s run. absurd (none_running t m q p v one d s run))
    after out (enters next p d o found can e) = λ q r s run. elim (ℕ_discrete next q) [
      | yes here ↦ sym here ∙ sym e.current
      | no other ↦ absurd (none_running t m q r v one d (ground (arith, e.entries q)) run)
    ]
