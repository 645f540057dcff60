-- ===== src/Syscall/Examples.antt =====
-- The end of two processes, one of which is the parent of the other.
use crabv.Base.{ℕ, ◌≡◌, refl, false, none, some, [], ◌∷◌, arith}
use crabv.Fd.PipeTable
use crabv.Fd.PipeTable.{PipeTable}
use crabv.Proc.{Image, new_process, ProcessTable, find, get, invalid_pid}
use crabv.Proc.Inv.{IsValid}
use crabv.Syscall.{Kernel, sys_exit}
use crabv.Syscall.Exit.{sys_exit_deadlock}

-- A process with no descriptor open.
abbrev image : Image
image = record {
  entry = 4096;
  stack_top = 8192;
  path = 47 ∷ [];
  args = [];
  fd_table = record { fds = [] };
  memory = [];
  argc = 0;
  argv_ptr = 8000;
}

abbrev family : ℕ → ProcessTable
family current_pid = record {
  processes =
      some (new_process 1 invalid_pid image)
      ∷ some (new_process 2 1 image)
      ∷ none
      ∷ none
      ∷ none
      ∷ none
      ∷ none
      ∷ none
      ∷ [];
  current_pid = current_pid;
  next_pid = 3;
}

family-IsValid : (current_pid : ℕ) → IsValid (family current_pid)
unfolding find new_process
family-IsValid current_pid = record {
  sized = refl;
  distinct = (refl, (refl, tt));
  below = omega arith;
  positive = omega arith;
  no_wrap = omega arith;
}

abbrev kernel : ℕ → Kernel
kernel current_pid = record {
  table = family current_pid;
  pipes = PipeTable.new;
  table_locked = false;
}

sys_exit_deadlock_example : sys_exit 7 (kernel 2) ≡ none
unfolding get find new_process
sys_exit_deadlock_example =
    sys_exit_deadlock 7 (kernel 2) {p = new_process 2 1 image} refl (family-IsValid 2) (λ e. cc)
      refl (λ e. cc)
