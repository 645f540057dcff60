-- ===== src/Proc.antt =====
-- `struct Process` and `struct ProcessTable` of src/proc.rs: the eight processes of the kernel. A
-- signed number such as an exit code is its 64-bit pattern.
pub mod Context
pub mod Lookup
pub mod Inv
pub mod Wait
use crabv.Base.{
  ℕ, zero, suc, ◌+◌, ◌-◌, ◌%◌, ◌^◌, Bool, true, false, ◌&&◌, Option, none, some, List, [], ◌∷◌,
  ◌++◌, Result, ok, err, ◌==◌, if◌then◌else◌, get_or, set, replicate, first_none,
}
use crabv.Fd.PipeTable.{PipeTable, usize_max}
use crabv.Fd.Table.{FdTable, close_all}
use crabv.Machine.{Machine, TrapFrame}

abbrev pub max_processes : ℕ
max_processes = 8

abbrev pub invalid_pid : ℕ
invalid_pid = usize_max

pub data ProcessState : Type 0 where
  running ready blocked exited : ProcessState

pub record Process : Type 0 where
  pub pid : ℕ
  pub parent_pid : ℕ
  pub state : ProcessState
  pub exit_code : ℕ
  pub entry : ℕ
  pub stack_top : ℕ
  pub pc : ℕ
  pub sp : ℕ
  pub regs : List ℕ
  pub path : List ℕ
  pub args : List (List ℕ)
  pub fd_table : FdTable
  pub memory : List ℕ
  pub argc : ℕ
  pub started : Bool
  pub argv_ptr : ℕ

-- The arguments that `spawn` passes on to `Process::new`.
pub record Image : Type 0 where
  pub entry : ℕ
  pub stack_top : ℕ
  pub path : List ℕ
  pub args : List (List ℕ)
  pub fd_table : FdTable
  pub memory : List ℕ
  pub argc : ℕ
  pub argv_ptr : ℕ

unfoldable pub new_process : ℕ → ℕ → Image → Process
new_process pid parent_pid i = record {
  pid = pid;
  parent_pid = parent_pid;
  state = ready;
  exit_code = 0;
  entry = i.entry;
  stack_top = i.stack_top;
  pc = i.entry;
  sp = i.stack_top;
  regs = replicate 31 0;
  path = i.path;
  args = i.args;
  fd_table = i.fd_table;
  memory = i.memory;
  argc = i.argc;
  started = false;
  argv_ptr = i.argv_ptr;
}

abbrev pub is_exited : ProcessState → Bool
is_exited exited = true
is_exited _ = false

abbrev pub is_running : ProcessState → Bool
is_running running = true
is_running _ = false

abbrev pub has_exited : Process → Bool
has_exited p = is_exited p.state

pub record ProcessTable : Type 0 where
  pub processes : List (Option Process)
  pub current_pid : ℕ
  pub next_pid : ℕ

unfoldable pub new : ProcessTable
new = record { processes = replicate max_processes none; current_pid = invalid_pid; next_pid = 1 }

-- `alloc_pid`. A release build wraps; a debug build panics where this wraps.
unfoldable pub alloc_pid : ProcessTable → ℕ × ProcessTable
alloc_pid t = (t.next_pid, record t { next_pid = (t.next_pid + 1) % 2 ^ 64 })

pub data SpawnError : Type 0 where
  too_many_processes program_not_found load_failed out_of_memory : SpawnError

unfoldable pub find_free_slot : ProcessTable → Option ℕ
unfolding first_none
find_free_slot t = first_none t.processes 0

unfoldable pub spawn : ProcessTable → Image → Result SpawnError ℕ × ProcessTable
unfolding find_free_slot alloc_pid new_process
spawn t i = elim (find_free_slot t) [
  | none ↦ (err too_many_processes, t)
  | some slot ↦
      let (pid, t1) = alloc_pid t in
      (
        ok pid,
        record t1 { processes = set t1.processes slot (some (new_process pid t.current_pid i)) },
      )
]

-- `iter().find_map(…)`: the first process with this number.
unfoldable pub find : List (Option Process) → ℕ → Option Process
find [] pid = none
find (none ∷ ps) pid = find ps pid
find (some p ∷ ps) pid = let rest = find ps pid in if p.pid == pid then some p else rest

unfoldable pub get : ProcessTable → ℕ → Option Process
unfolding find
get t pid = find t.processes pid

-- A change through the reference that `get_mut` returns: `f` on the first process with this number.
unfoldable pub modify : List (Option Process) → ℕ → (Process → Process) → List (Option Process)
modify [] pid f = []
modify (none ∷ ps) pid f = none ∷ modify ps pid f
modify (some p ∷ ps) pid f =
    let rest = modify ps pid f in if p.pid == pid then some (f p) ∷ ps else some p ∷ rest

unfoldable pub get_mut : ProcessTable → ℕ → (Process → Process) → ProcessTable
unfolding modify
get_mut t pid f = record t { processes = modify t.processes pid f }

unfoldable pub current : ProcessTable → Option Process
unfolding get
current t = if t.current_pid == invalid_pid then none else get t t.current_pid

unfoldable pub set_current : ProcessTable → ℕ → ProcessTable
set_current t pid = record t { current_pid = pid }

-- `Process::exit`
unfoldable pub exit : ℕ → Process → Process
exit code p = record p { state = exited; exit_code = code }

-- `exit_process` closes the descriptors of the process, then marks it. The pipe table is locked for
-- the closing; the processes to be unblocked are returned.
unfoldable pub exit_process : ProcessTable → PipeTable → ℕ → ℕ → ProcessTable × PipeTable × List ℕ
unfolding get get_mut exit
exit_process t pt pid code = elim (get t pid) [
  | none ↦ (t, pt, [])
  | some p ↦
      let (fds, pt', woken) = close_all p.fd_table pt in
      (get_mut t pid (λ q. exit code (record q { fd_table = fds })), pt', woken)
]

-- The loop of `wait`: the first process of this parent that has exited.
unfoldable pub find_exited : List (Option Process) → ℕ → Option Process
find_exited [] parent = none
find_exited (none ∷ ps) parent = find_exited ps parent
find_exited (some p ∷ ps) parent =
    let rest = find_exited ps parent in
    if (p.parent_pid == parent) && has_exited p then some p else rest

-- The search for the slot of the child, and the write to it: the first process with this number
-- goes.
unfoldable pub remove : List (Option Process) → ℕ → List (Option Process)
remove [] pid = []
remove (none ∷ ps) pid = none ∷ remove ps pid
remove (some p ∷ ps) pid =
    let rest = remove ps pid in if p.pid == pid then none ∷ ps else some p ∷ rest

unfoldable pub wait : ProcessTable → ℕ → Option (ℕ × ℕ) × ProcessTable
unfolding find_exited remove
wait t parent = elim (find_exited t.processes parent) [
  | none ↦ (none, t)
  | some p ↦ (some (p.pid, p.exit_code), record t { processes = remove t.processes p.pid })
]

-- `get_children`, and `get_all_processes` in the order of the slots.
unfoldable pub children : List (Option Process) → ℕ → List ℕ
children [] parent = []
children (none ∷ ps) parent = children ps parent
children (some p ∷ ps) parent =
    let rest = children ps parent in if p.parent_pid == parent then p.pid ∷ rest else rest

unfoldable pub has_children : List (Option Process) → ℕ → Bool
has_children [] parent = false
has_children (none ∷ ps) parent = has_children ps parent
has_children (some p ∷ ps) parent =
    let rest = has_children ps parent in if p.parent_pid == parent then true else rest

unfoldable pub all_processes : List (Option Process) → List Process
all_processes [] = []
all_processes (none ∷ ps) = all_processes ps
all_processes (some p ∷ ps) = p ∷ all_processes ps

unfoldable pub clear : ProcessTable → ProcessTable
clear t = record t { processes = replicate max_processes none; current_pid = invalid_pid }
