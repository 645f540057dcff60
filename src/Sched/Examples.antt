-- ===== src/Sched/Examples.antt =====
-- The theorems about processes and the scheduler at concrete inputs.
use crabv.Base.{ℕ, ◌≤◌, ◌<◌, ◌≡◌, refl, ◌≢◌, true, none, some, [], ◌∷◌, arith}
use crabv.Machine.{Machine, TrapFrame}
use crabv.Fd.PipeTable
use crabv.Fd.Table
use crabv.Proc.{
  Process, ProcessState, running, ready, blocked, exited, Image, new_process, ProcessTable,
  max_processes, find, get, spawn, exit_process, wait,
}
use crabv.Proc
use crabv.Proc.Context.{
  save_current_memory, save_current_registers, restore_process_memory, restore_process_registers,
}
use crabv.Proc.Inv.{IsValid}
use crabv.Proc.Wait.{wait-exit_process}
use crabv.Sched
use crabv.Sched.{schedule, is_runnable, maybe_switch, yield_cpu}
use crabv.Sched.Fair.{yields, yields_reach}
use crabv.Sched.Switch.{OneRunner}
use crabv.Sched.Runner.{maybe_switch-OneRunner}
use crabv.Sched.Context.{maybe_switch_resumes}

abbrev image : Image
image = record {
  entry = 4096;
  stack_top = 8192;
  path = 47 ∷ [];
  args = [];
  fd_table = Table.new;
  memory = 1 ∷ 2 ∷ [];
  argc = 0;
  argv_ptr = 8000;
}

-- A process that has run before.
abbrev process : ℕ → ℕ → ProcessState → Process
process pid parent state = record {
  pid = pid;
  parent_pid = parent;
  state = state;
  exit_code = 0;
  entry = 4096;
  stack_top = 8192;
  pc = 4100;
  sp = 8000;
  regs = [];
  path = 47 ∷ [];
  args = [];
  fd_table = Table.new;
  memory = pid ∷ 0 ∷ [];
  argc = 0;
  started = true;
  argv_ptr = 8000;
}

-- Process 1 runs, and its child 2 is in state `s`.
abbrev pair : ProcessState → ProcessTable
pair s = record {
  processes =
      some (process 1 0 running)
      ∷ some (process 2 1 s)
      ∷ none
      ∷ none
      ∷ none
      ∷ none
      ∷ none
      ∷ none
      ∷ [];
  current_pid = 1;
  next_pid = 3;
}

pair-IsValid : (s : ProcessState) → IsValid (pair s)
unfolding find
pair-IsValid s = record {
  sized = refl;
  distinct = (refl, (refl, tt));
  below = omega arith;
  positive = omega arith;
  no_wrap = omega arith;
}

pair_alone :
    (q : ℕ) (r : Process) → get (pair ready) q ≡ some r → r.parent_pid ≡ 1 → r.state ≢ exited
unfolding get
pair_alone q r e h = ground arith

wait-exit_process_example : (wait (exit_process (pair ready) PipeTable.new 2 7).0 1).0 ≡ some (2, 7)
unfolding get
wait-exit_process_example =
    wait-exit_process (pair ready) PipeTable.new 2 7 {p = process 2 1 ready} (pair-IsValid ready)
      refl pair_alone

yields_reach_example :
    (k : ℕ) × (0 < k) × (k ≤ max_processes) × ((yields k (pair ready)).current_pid ≡ 2)
unfolding get
yields_reach_example =
    yields_reach (pair ready) 2 {c = process 1 0 running} {p = process 2 1 ready}
      (pair-IsValid ready) refl refl refl refl

abbrev machine : Machine
machine = record { window = 1 ∷ 9 ∷ []; sepc = 4444; sscratch = 7777 }

abbrev frame : TrapFrame
frame = record {
  ra = 1;
  t0 = 0;
  t1 = 0;
  t2 = 0;
  t3 = 0;
  t4 = 0;
  t5 = 0;
  t6 = 0;
  a0 = 5;
  a1 = 0;
  a2 = 0;
  a3 = 0;
  a4 = 0;
  a5 = 0;
  a6 = 0;
  a7 = 0;
}

-- What process 2 leaves behind.
abbrev later : Machine
later = record { window = 2 ∷ 3 ∷ []; sepc = 5555; sscratch = 6666 }

abbrev later_frame : TrapFrame
later_frame = record frame { a0 = 42 }

pair-OneRunner : OneRunner (pair ready)
unfolding get
pair-OneRunner q p s run = ground arith

maybe_switch-OneRunner_example : OneRunner (maybe_switch (pair ready) machine frame).1
maybe_switch-OneRunner_example =
    maybe_switch-OneRunner (pair ready) machine frame (pair-IsValid ready) pair-OneRunner

-- The table once process 2 was entered.
abbrev switched : ProcessTable
switched = (maybe_switch (pair ready) machine frame).1

switched-IsValid : IsValid switched
unfolding maybe_switch Sched.decide_switch Sched.save_current Sched.has_other_ready Sched.enter
    Sched.schedule Sched.runnable Sched.choose Sched.position Proc.all_processes Proc.get Proc.find
    Proc.get_mut Proc.modify Proc.set_current save_current_memory save_current_registers
    restore_process_memory restore_process_registers
switched-IsValid = record {
  sized = refl;
  distinct = (refl, (refl, tt));
  below = omega arith;
  positive = omega arith;
  no_wrap = omega arith;
}

maybe_switch_resumes_example :
    ((maybe_switch switched later later_frame).2 ≡ machine)
    × ((maybe_switch switched later later_frame).3 ≡ later_frame)
unfolding maybe_switch Sched.decide_switch Sched.save_current Sched.has_other_ready Sched.enter
    Sched.schedule Sched.runnable Sched.choose Sched.position Proc.all_processes Proc.get Proc.find
    Proc.get_mut Proc.modify Proc.set_current save_current_memory save_current_registers
    restore_process_memory restore_process_registers
maybe_switch_resumes_example =
    maybe_switch_resumes (pair ready) switched machine later frame later_frame
      {p = process 1 0 running} (pair-IsValid ready) switched-IsValid refl (λ e. cc) refl refl
      (omega arith) refl (omega arith) refl refl
