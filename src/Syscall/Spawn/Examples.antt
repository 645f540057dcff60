-- ===== src/Syscall/Spawn/Examples.antt =====
-- A process that starts a program without segments.
use crabv.Bytes.{to_le_bytes}
use crabv.Base.{
  if◌then◌else◌, ◌==◌, ℕ, ◌≡◌, refl, ap, ◌∙◌, false, none, some, List, [], ◌∷◌, ok, arith,
}
use crabv.Machine.{store_bytes}
use crabv.Fd.PipeTable
use crabv.Fd.PipeTable.{PipeTable, usize_max}
use crabv.Fd.Table as Table
use crabv.Loader.{LoadedProgram, load_into_user_window}
use crabv.Loader.Stack.{build_user_stack, push_args, push_argv, align, push_pointers, push_usize}
use crabv.Proc.{Image, new_process, ProcessTable, find, get, invalid_pid, spawn}
use crabv.Proc.Inv.{IsValid}
use crabv.Syscall.Io.{System}
use crabv.Syscall.Spawn.{
  snapshot_user_window, restore_user_window, with_memory, spawn_built, spawn_copied, spawn_loaded,
  image_of, inherit, nul_length,
}
use crabv.Syscall.Spawn.Window.{
  Child, created, create_child-created, spawn_loaded-copied, spawn_loaded-Child,
}

test_nul_length : nul_length (λ a. if a == 3 then 0 else 65) 1 4097 ≡ ok 2
unfolding nul_length
test_nul_length = refl

-- The caller, which has no descriptor.
abbrev image : Image
image = record {
  entry = 4096;
  stack_top = 8192;
  path = 47 ∷ [];
  args = [];
  fd_table = record { fds = [] };
  memory = [];
  argc = 0;
  argv_ptr = 8000;
}

abbrev table : ProcessTable
table = record {
  processes =
      some (new_process 1 invalid_pid image) ∷ none ∷ none ∷ none ∷ none ∷ none ∷ none ∷ none ∷ [];
  current_pid = 1;
  next_pid = 2;
}

table-IsValid : IsValid table
unfolding find new_process
table-IsValid = record {
  sized = refl;
  distinct = (refl, tt);
  below = omega arith;
  positive = omega arith;
  no_wrap = omega arith;
}

abbrev caller : System ℕ
caller = record {
  kernel = record { table = table; pipes = PipeTable.new; table_locked = false };
  serial = record { rx_queue = []; received = []; sent = [] };
  disk = none;
  memory = λ a. 0;
}

abbrev program : LoadedProgram
program = record { entry = 2151677952; stack_top = 2151809024; segments = [] }

abbrev saved : List ℕ
saved = snapshot_user_window (λ a. 0)

-- The memory after the stack was built: three words.
abbrev with_stack : ℕ → ℕ
with_stack =
    store_bytes (store_bytes (restore_user_window (λ a. 0) saved) 2151809016 (to_le_bytes 8 0))
      2151809008 (to_le_bytes 8 0)

stack_built :
    build_user_stack [] (restore_user_window (λ a. 0) saved)
    ≡ some (ok (2151809008, 0, 2151809016), with_stack)
unfolding build_user_stack push_args push_argv align push_pointers push_usize
stack_built = refl

abbrev child_image : Image
child_image =
    image_of (47 ∷ 98 ∷ []) [] program (record { fds = [] }) 2151809008 0 2151809016
      (snapshot_user_window with_stack)

abbrev after_spawn : System ℕ
after_spawn = created child_image (with_memory caller (restore_user_window with_stack saved))

abbrev image_at : ℕ → ℕ → ℕ → List ℕ → Image
image_at = image_of (47 ∷ 98 ∷ []) [] program (record { fds = [] })

spawned : spawn_loaded (47 ∷ 98 ∷ []) [] program caller ≡ some (ok 2, after_spawn)
unfolding spawn_copied spawn_built load_into_user_window inherit Table.clone_table Table.clone_all
    spawn get find new_process
spawned =
    spawn_loaded-copied (47 ∷ 98 ∷ []) [] program caller refl
    ∙ (ap (λ b. spawn_built image_at saved b caller) stack_built
        ∙ create_child-created child_image
            (with_memory caller (restore_user_window with_stack saved)) refl)

spawn_loaded-Child_example : Child (47 ∷ 98 ∷ []) saved table 2 after_spawn
spawn_loaded-Child_example =
    spawn_loaded-Child (47 ∷ 98 ∷ []) [] program caller 2 refl table-IsValid (omega arith) spawned
