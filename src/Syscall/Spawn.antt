-- ===== src/Syscall/Spawn.antt =====
-- `sys_spawn` of src/syscall.rs. A panic of the kernel is `none`, and so is a mutex that is never free.
pub mod Window
mod Examples
use crabv.Base.{
  ℕ, zero, suc, ◌+◌, ◌*◌, Bool, ◌&&◌, not, Option, none, some, List, [], ◌∷◌, Result, ok, err,
  map_err, ltb, ◌==◌, if◌then◌else◌, length,
}
use crabv.Bytes.{is_utf8}
use crabv.Machine.{TrapFrame, load_bytes, store_bytes, read_usize}
use crabv.Fs.{BlockDevice, TinyFs}
use crabv.Fd.PipeTable.{PipeTable}
use crabv.Fd.Table.{FdTable, clone_table, with_standard}
use crabv.Fd.Io.{read_file}
use crabv.Loader.{
  LoadError, LoadedProgram, SegmentImage, load, load_into_user_window, user_image_base,
  user_window_size,
}
use crabv.Loader.Stack.{build_user_stack}
use crabv.Proc.{
  Process, ProcessTable, Image, invalid_pid, get, spawn, program_not_found, load_failed,
}
use crabv.Syscall.{Kernel, lock, unlock}
use crabv.Syscall.Errno.{SysError, SysResult, fault, invalid_utf8}
use crabv.Syscall.Io.{System, Outcome, read_path, with_kernel, return}

-- The search for the zero that ends a string, which gives up after 4096 bytes.
unfoldable pub nul_length : (ℕ → ℕ) → ℕ → ℕ → SysResult ℕ
nul_length m p zero = err fault
nul_length m p (suc n) =
    let rest = nul_length m (p + 1) n in
    if m p == 0 then ok 0 else (elim rest [ err e ↦ err e | ok len ↦ ok (suc len) ])

unfoldable pub arg_length : (ℕ → ℕ) → ℕ → ℕ → ℕ → SysResult ℕ
arg_length m lens i ptr =
    if lens == 0 then nul_length m ptr 4097 else ok (read_usize m (lens + 8 * i))

-- One argument.
unfoldable pub read_arg : (ℕ → ℕ) → ℕ → ℕ → ℕ → SysResult (List ℕ)
read_arg m lens i ptr = elim (arg_length m lens i ptr) [
  | err e ↦ err e
  | ok len ↦
      let bytes = load_bytes m ptr len in if is_utf8 bytes then ok bytes else err invalid_utf8
]

abbrev pub cons_arg : SysResult (List ℕ) → SysResult (List (List ℕ)) → SysResult (List (List ℕ))
cons_arg (err e) rest = err e
cons_arg (ok arg) (err e) = err e
cons_arg (ok arg) (ok args) = ok (arg ∷ args)

-- The loop, over what is left of `argc`, which a null pointer ends.
unfoldable pub args_from : (ℕ → ℕ) → ℕ → ℕ → ℕ → ℕ → SysResult (List (List ℕ))
args_from m argv lens i zero = ok []
args_from m argv lens i (suc n) =
    let ptr = read_usize m (argv + 8 * i) in
    let rest = args_from m argv lens (i + 1) n in
    if ptr == 0 then ok [] else cons_arg (read_arg m lens i ptr) rest

unfoldable pub read_args : (ℕ → ℕ) → ℕ → ℕ → ℕ → SysResult (List (List ℕ))
read_args m argv argc lens = if argv == 0 then ok [] else args_from m argv lens 0 argc

-- The descriptors of the new process: those of the caller, or the standard ones.
abbrev pub clone_or_standard : Option Process → PipeTable → FdTable × PipeTable
clone_or_standard none pt = (with_standard, pt)
clone_or_standard (some p) pt = clone_table p.fd_table pt

unfoldable pub inherit : ProcessTable → PipeTable → FdTable × PipeTable
inherit t pt =
    if t.current_pid == invalid_pid
    then (with_standard, pt)
    else clone_or_standard (get t t.current_pid) pt

-- `snapshot_user_window` and `restore_user_window`
unfoldable pub snapshot_user_window : (ℕ → ℕ) → List ℕ
snapshot_user_window m = load_bytes m user_image_base user_window_size

unfoldable pub restore_user_window : (ℕ → ℕ) → List ℕ → ℕ → ℕ
restore_user_window m window = store_bytes m user_image_base window

abbrev pub image_of : List ℕ → List (List ℕ) → LoadedProgram → FdTable → ℕ → ℕ → ℕ → List ℕ → Image
image_of path args program fds sp argc argv memory = record {
  entry = program.entry;
  stack_top = sp;
  path = path;
  args = args;
  fd_table = fds;
  memory = memory;
  argc = argc;
  argv_ptr = argv;
}

module _ {D : Type 0} where
  abbrev pub with_memory : System D → (ℕ → ℕ) → System D
  with_memory s m = record s { memory = m }

  -- The entry in the process table.
  unfoldable pub create_child : Image → System D → Outcome D ℕ
  create_child i s = elim (lock s.kernel) [
    | none ↦ none
    | some k ↦
        let (r, t) = spawn k.table i in
        return (map_err SysError.proc r) (with_kernel s (unlock (record k { table = t })))
  ]

  -- What follows the building of the stack. When that failed, the window stays as it is.
  unfoldable pub spawn_built :
      (ℕ → ℕ → ℕ → List ℕ → Image)
      → List ℕ
      → Option (Result LoadError (ℕ × ℕ × ℕ) × (ℕ → ℕ))
      → System D
      → Outcome D ℕ
  spawn_built image saved none s = none
  spawn_built image saved (some (err e, m)) s =
      return (err (SysError.proc load_failed)) (with_memory s m)
  spawn_built image saved (some (ok (sp, argc, argv), m)) s =
      create_child (image sp argc argv (snapshot_user_window m))
        (with_memory s (restore_user_window m saved))

  -- What follows the copy of the program to the window.
  unfoldable pub spawn_copied :
      List (List ℕ)
      → (ℕ → ℕ → ℕ → List ℕ → Image)
      → List ℕ
      → Result LoadError (Unit {0}) × List ℕ
      → System D
      → Outcome D ℕ
  spawn_copied args image saved (err e, window) s =
      return (err (SysError.proc load_failed)) (with_memory s (restore_user_window s.memory window))
  spawn_copied args image saved (ok _, window) s =
      spawn_built image saved (build_user_stack args (restore_user_window s.memory window)) s

  -- What follows the loading of the program from its file.
  unfoldable pub spawn_loaded : List ℕ → List (List ℕ) → LoadedProgram → System D → Outcome D ℕ
  spawn_loaded path args program s = elim (lock s.kernel) [
    | none ↦ none
    | some k ↦
        let (fds, pt) = inherit k.table k.pipes in
        let saved = snapshot_user_window s.memory in
        spawn_copied args (image_of path args program fds) saved
          (load_into_user_window program.segments saved)
          (with_kernel s (unlock (record k { pipes = pt })))
  ]

  abbrev pub on_program :
      List ℕ → List (List ℕ) → Option (Result LoadError LoadedProgram) → System D → Outcome D ℕ
  on_program path args none s = none
  on_program path args (some (err e)) s = return (err (SysError.proc program_not_found)) s
  on_program path args (some (ok program)) s = spawn_loaded path args program s

module _ {D : Type 0} (dev : BlockDevice D) where
  abbrev pub on_args : List ℕ → SysResult (List (List ℕ)) → System D → Outcome D ℕ
  on_args path (err e) s = return (err e) s
  on_args path (ok args) s = on_program path args (load (read_file dev s.disk path)) s

  unfoldable pub sys_spawn : TrapFrame → System D → Outcome D ℕ
  sys_spawn f s = elim (read_path s.memory f.a1 f.a2) [
    | err e ↦ return (err e) s
    | ok path ↦ on_args path (read_args s.memory f.a3 f.a4 f.a5) s
  ]
