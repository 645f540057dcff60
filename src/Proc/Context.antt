-- ===== src/Proc/Context.antt =====
-- The parts of src/proc.rs that a context switch uses: what is saved of the process that is left,
-- and what is restored of the one that is entered.
use crabv.Base.{ℕ, true, none, some, [], ◌∷◌, ◌==◌, if◌then◌else◌}
use crabv.Machine.{Machine, TrapFrame}
use crabv.Proc.{invalid_pid, Process, ProcessTable, get, get_mut}

-- `save_current_memory`: the whole user window, which has USER_WINDOW_SIZE bytes.
unfoldable pub save_current_memory : ProcessTable → Machine → ProcessTable
unfolding get_mut
save_current_memory t m =
    if t.current_pid == invalid_pid
    then t
    else get_mut t t.current_pid (λ p. record p { memory = m.window })

unfoldable pub restore_process_memory : ProcessTable → ℕ → Machine → Machine
unfolding get
restore_process_memory t pid m = elim (get t pid) [
  | none ↦ m
  | some p ↦ elim p.memory [ [] ↦ m | b ∷ bs ↦ record m { window = b ∷ bs } ]
]

unfoldable pub save_current_registers : ProcessTable → Machine → ProcessTable
unfolding get_mut
save_current_registers t m =
    if t.current_pid == invalid_pid
    then t
    else get_mut t t.current_pid (λ p. record p { pc = m.sepc; sp = m.sscratch })

-- The trap frame in which a process starts.
unfoldable pub start_frame : Process → TrapFrame
start_frame p = record {
  ra = 0;
  t0 = 0;
  t1 = 0;
  t2 = 0;
  t3 = 0;
  t4 = 0;
  t5 = 0;
  t6 = 0;
  a0 = p.argc;
  a1 = p.argv_ptr;
  a2 = 0;
  a3 = 0;
  a4 = 0;
  a5 = 0;
  a6 = 0;
  a7 = 0;
}

unfoldable pub restore_process_registers :
    ProcessTable → ℕ → Machine → TrapFrame → ProcessTable × Machine × TrapFrame
unfolding get get_mut start_frame
restore_process_registers t pid m f = elim (get t pid) [
  | none ↦ (t, m, f)
  | some p ↦
      let m' = record m { sepc = p.pc; sscratch = p.sp } in
      if p.started
      then (t, m', f)
      else (get_mut t pid (λ q. record q { started = true }), m', start_frame p)
]
