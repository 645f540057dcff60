-- ===== src/Sched/Context.antt =====
-- What `Scheduler::maybe_switch` of src/scheduler.rs saves and restores of the processes it
-- switches.
use crabv.Base.{ℕ, ◌≡◌, refl, sym, ◌∙◌, subst, ◌≢◌, Bool, true, some, [], ◌∷◌, arith, ℕ_discrete}
use crabv.Machine.{Machine, TrapFrame}
use crabv.Proc.{Process, ProcessTable, invalid_pid, get}
use crabv.Proc.Inv.{IsValid}
use crabv.Sched.{decide_switch, save_current, maybe_switch}
use crabv.Sched.Switch.{saved, restored, frame_of, save_current-get, save_current-none}
use crabv.Sched.Switch.{saved, restored, frame_of, save_current-get, save_current-none}
use crabv.Sched.Runner.{get_bounds, Ends, stays, idles, enters, maybe_switch-Ends}

-- A switch away from a process leaves it in the table with its context saved.
maybe_switch-leaves :
    (t : ProcessTable) (m : Machine) (f : TrapFrame) {p : Process}
    → IsValid t
    → get t t.current_pid ≡ some p
    → let out = maybe_switch t m f in
      out.0 ≡ true
      → out.1.current_pid ≢ t.current_pid
      → get out.1 t.current_pid ≡ some (saved (decide_switch t).1 m p)
maybe_switch-leaves t m f {p} v s o other =
    after (maybe_switch t m f) (maybe_switch-Ends t m f v) o other
  where
    n : t.current_pid ≢ invalid_pid
    n = get_bounds t t.current_pid v s

    after :
        (out : Bool × ProcessTable × Machine × TrapFrame)
        → Ends t m f out
        → out.0 ≡ true
        → out.1.current_pid ≢ t.current_pid
        → get out.1 t.current_pid ≡ some (saved (decide_switch t).1 m p)
    after out (stays e d) = λ yes_out _. absurd (cc)
    after out (idles e d) = λ yes_out _. absurd (cc)
    after out (enters next q d o' found can e) = λ _ away.
        e.entries t.current_pid
        ∙ ground
            (arith, e.current, away, s, save_current-get (decide_switch t).1 t m t.current_pid n)

-- A switch to a process other than the current one restores what the table holds of it.
maybe_switch-restores :
    (t : ProcessTable) (m : Machine) (f : TrapFrame) (c : ℕ) {p : Process}
    → IsValid t
    → get t c ≡ some p
    → t.current_pid ≢ c
    → let out = maybe_switch t m f in
      out.0 ≡ true → out.1.current_pid ≡ c → (out.2 ≡ restored m p) × (out.3 ≡ frame_of f p)
maybe_switch-restores t m f c {p} v s ne o to =
    after (maybe_switch t m f) (maybe_switch-Ends t m f v) o to
  where
    held : get (save_current (decide_switch t).1 t m) c ≡ some p
    held = elim (ℕ_discrete t.current_pid invalid_pid) [
      | yes nobody ↦ rw (save_current-none (decide_switch t).1 t m nobody) s
      | no n ↦ save_current-get (decide_switch t).1 t m c n ∙ ground arith
    ]

    after :
        (out : Bool × ProcessTable × Machine × TrapFrame)
        → Ends t m f out
        → out.0 ≡ true
        → out.1.current_pid ≡ c
        → (out.2 ≡ restored m p) × (out.3 ≡ frame_of f p)
    after out (stays e d) = λ yes_out _. absurd (cc)
    after out (idles e d) = λ yes_out _. absurd (cc)
    after out (enters next q d o' found can e) = λ _ here.
        let same : next ≡ c = sym e.current ∙ here in
        let there = subst (λ k. get (save_current (decide_switch t).1 t m) k ≡ some q) same found in
        let is : q ≡ p = ground (arith, held, there) in
        subst (λ x. (out.2 ≡ restored m x) × (out.3 ≡ frame_of f x)) is (e.machine, e.frame)

saved_context :
    (r : Bool) (m m' : Machine) (f' : TrapFrame) (p : Process)
    → m.window ≢ []
    → (restored m' (saved r m p) ≡ m) × (p.started ≡ true → frame_of f' (saved r m p) ≡ f')
saved_context r m m' f' p w = (
  elim m.window
        as (λ l.
          l ≢ [] → restored m' (saved r (record m { window = l }) p) ≡ record m { window = l }) [
            | [] ↦ λ h. absurd (h refl)
            | b ∷ bs ↦ λ h. ground arith
          ]
      w,
  ground arith,
)

-- In valid tables, a process `c` that had started and that a switch leaves is resumed where it was:
-- if a later switch, from another process and with any machine state, returns to `c` and the entry
-- of `c` in the table is what the first left, the user memory, the program counter and the stack
-- pointer are those at the first switch. The trap frame is not among what is restored: the process
-- gets the frame that the process before it leaves behind.
pub maybe_switch_resumes :
    (t u : ProcessTable) (m m' : Machine) (f f' : TrapFrame) {p : Process}
    → IsValid t
    → IsValid u
    → get t t.current_pid ≡ some p
    → m.window ≢ []
    → p.started ≡ true
    → (maybe_switch t m f).0 ≡ true
    → (maybe_switch t m f).1.current_pid ≢ t.current_pid
    → get u t.current_pid ≡ get (maybe_switch t m f).1 t.current_pid
    → u.current_pid ≢ t.current_pid
    → (maybe_switch u m' f').0 ≡ true
    → (maybe_switch u m' f').1.current_pid ≡ t.current_pid
    → ((maybe_switch u m' f').2 ≡ m) × ((maybe_switch u m' f').3 ≡ f')
maybe_switch_resumes t u m m' f f' {p} v w s window started o1 away same ne o2 back =
    let left = same ∙ maybe_switch-leaves t m f v s o1 away in
    let (machine, frame) = maybe_switch-restores u m' f' t.current_pid w left ne o2 back in
    let (context, old_frame) = saved_context (decide_switch t).1 m m' f' p window in
    (machine ∙ context, frame ∙ old_frame started)
