-- ===== src/Sched.antt =====
-- The round-robin scheduler of src/scheduler.rs. Each function locks the process table, which is an
-- argument here, and returns it.
pub mod Choose
pub mod Turns
pub mod Fair
pub mod Switch
pub mod Runner
pub mod Context
mod Examples
use crabv.Base.{
  ℕ, zero, suc, ◌+◌, ◌%◌, Bool, true, false, ◌&&◌, not, Option, none, some, List, [], ◌∷◌, map,
  ◌==◌, if◌then◌else◌, get_or, length,
}
use crabv.Machine.{Machine, TrapFrame}
use crabv.Proc.{
  Process, ProcessState, running, ready, blocked, exited, ProcessTable, invalid_pid, is_running,
  get, get_mut, set_current, all_processes,
}
use crabv.Proc.Context.{
  save_current_memory, save_current_registers, restore_process_memory, restore_process_registers,
}

-- `p.state == Ready || p.state == Running`
abbrev pub is_runnable : ProcessState → Bool
is_runnable running = true
is_runnable ready = true
is_runnable blocked = false
is_runnable exited = false

-- The numbers of the processes that can run, in the order of their slots.
unfoldable pub runnable : List Process → List ℕ
runnable [] = []
runnable (p ∷ ps) = let rest = runnable ps in if is_runnable p.state then p.pid ∷ rest else rest

-- `iter().position(|&pid| pid == current_pid)`, from index `i` on.
unfoldable pub position : List ℕ → ℕ → ℕ → Option ℕ
position [] pid i = none
position (q ∷ qs) pid i = let rest = position qs pid (i + 1) in if q == pid then some i else rest

-- The choice among the runnable processes.
unfoldable pub choose : List ℕ → ℕ → Option ℕ
unfolding position
choose [] current_pid = none
choose (q ∷ qs) current_pid =
    let first : Option ℕ = some q in
    if current_pid == invalid_pid then first else elim (position (q ∷ qs) current_pid 0) [
      | none ↦ first
      | some idx ↦ some (get_or (q ∷ qs) ((idx + 1) % length (q ∷ qs)) 0)
    ]

unfoldable pub schedule : ProcessTable → Option ℕ
schedule t = choose (runnable (all_processes t.processes)) t.current_pid

abbrev pub with_state : ProcessState → Process → Process
with_state s p = record p { state = s }

-- A process that runs is ready from now on.
abbrev pub make_ready : Process → Process
make_ready p = if is_running p.state then with_state ready p else p

abbrev wake : Process → Process
wake p = elim p.state [ blocked ↦ with_state ready p | _ ↦ p ]

unfoldable pub yield_cpu : ProcessTable → ProcessTable
yield_cpu t =
    let t1 = if t.current_pid == invalid_pid then t else get_mut t t.current_pid make_ready in
    elim (schedule t1) [
      | none ↦ t1
      | some next ↦ get_mut (set_current t1 next) next (with_state running)
    ]

unfoldable pub block_current : ProcessTable → ProcessTable
block_current t =
    if t.current_pid == invalid_pid then t else get_mut t t.current_pid (with_state blocked)

unfoldable pub unblock : ℕ → ProcessTable → ProcessTable
unblock pid t = get_mut t pid wake

-- Whether a process other than the current one can run.
unfoldable pub has_other_ready : List Process → ℕ → Bool
has_other_ready [] pid = false
has_other_ready (p ∷ ps) pid =
    let rest = has_other_ready ps pid in
    if not (p.pid == pid) && is_runnable p.state then true else rest

-- Whether to switch, and whether the current process is to be made ready.
unfoldable pub decide_switch : ProcessTable → Bool × Bool
decide_switch t =
    if t.current_pid == invalid_pid then (true, false) else elim (get t t.current_pid) [
      | none ↦ (true, false)
      | some p ↦
          if is_runnable p.state
          then (if has_other_ready (all_processes t.processes) t.current_pid
              then (true, true)
              else (false, false))
          else (true, false)
    ]

-- The state of the process that is left is saved.
unfoldable pub save_current : Bool → ProcessTable → Machine → ProcessTable
save_current make_current_ready t m =
    if t.current_pid == invalid_pid
    then t
    else (let t1 = save_current_memory (save_current_registers t m) m in
        if make_current_ready then get_mut t1 t.current_pid make_ready else t1)

-- The state of the process that is entered is restored.
unfoldable pub enter : ℕ → ProcessTable → Machine → TrapFrame → ProcessTable × Machine × TrapFrame
enter next t m f =
    let t1 = set_current t next in
    let (t2, m2, f2) = restore_process_registers t1 next (restore_process_memory t1 next m) f in
    (get_mut t2 next (with_state running), m2, f2)

unfoldable pub maybe_switch :
    ProcessTable → Machine → TrapFrame → Bool × ProcessTable × Machine × TrapFrame
maybe_switch t m f =
    let (should_switch, make_current_ready) = decide_switch t in
    if should_switch
    then (let t1 = save_current make_current_ready t m in
        elim (schedule t1) [
          | none ↦ (false, t1, m, f)
          | some next ↦ let (t2, m2, f2) = enter next t1 m f in (true, t2, m2, f2)
        ])
    else (false, t, m, f)
