-- ===== src/Syscall/Spawn/Window.antt =====
-- What `sys_spawn` of src/syscall.rs leaves to the process that calls it, and what the child is.
use crabv.Base.{
  ℕ, ◌<◌, ◌≡◌, refl, sym, ap, ◌∙◌, false, Option, none, some, List, Result, ok, err, map_err, subst,
}
use crabv.Machine.{TrapFrame, load_bytes}
use crabv.Machine.Memory.{length-load_bytes, load_bytes-store_bytes}
use crabv.Fs.{BlockDevice}
use crabv.Fd.PipeTable.{usize_max}
use crabv.Fd.Io.{read_file}
use crabv.Loader.{
  LoadError, LoadedProgram, load, load_into_user_window, user_image_base, user_window_size,
}
use crabv.Loader.Stack.{build_user_stack}
use crabv.Proc.{ProcessTable, Image, spawn}
use crabv.Proc.Inv.{IsValid, Spawned, spawn-Spawned}
use crabv.Syscall.{unlock}
use crabv.Syscall.Errno.{SysError, SysResult}
use crabv.Syscall.Io.{System, read_path, with_kernel}
use crabv.Syscall.Io.Blocking.{locked, lock-free}
use crabv.Syscall.Spawn.{
  snapshot_user_window, restore_user_window, with_memory, create_child, spawn_built, spawn_copied,
  spawn_loaded, image_of, on_program, on_args, sys_spawn, inherit, read_args,
}

-- A window that was saved and put back is as it was, whatever was written between.
restore_user_window-snapshot_user_window :
    (m m' : ℕ → ℕ)
    → snapshot_user_window (restore_user_window m' (snapshot_user_window m))
      ≡ snapshot_user_window m
unfolding snapshot_user_window restore_user_window
restore_user_window-snapshot_user_window m m' =
    let saved = snapshot_user_window m in
    ap (λ (n : ℕ). load_bytes (restore_user_window m' saved) user_image_base n)
      (sym (length-load_bytes m user_image_base user_window_size))
    ∙ load_bytes-store_bytes saved m' user_image_base

map_err-ok : {A E F : Type 0} (f : E → F) (r : Result E A) {a : A} → map_err f r ≡ ok a → r ≡ ok a
map_err-ok f (ok b) {a} h = let e : b ≡ a = cc in ap ok e
map_err-ok f (err e) h = absurd (cc)

some_pair :
    {A B : Type 0} {a a' : A} {b b' : B}
    → ◌≡◌ {A = Option (A × B)} (some (a, b)) (some (a', b'))
    → (a ≡ a') × (b ≡ b')
some_pair h = (cc, cc)

module _ {D : Type 0} where
  -- A spawn that succeeded: the caller's window is as it was, and the process is new.
  pub record Child (path : List ℕ) (window : List ℕ) (t : ProcessTable) (pid : ℕ) (s' : System D)
      : Type 0 where
    pub kept : snapshot_user_window s'.memory ≡ window
    pub unlocked : s'.kernel.table_locked ≡ false
    pub image : Image
    pub same_path : image.path ≡ path
    pub spawned : Spawned t image pid s'.kernel.table

  pub created : Image → System D → System D
  created i s = with_kernel s (unlock (record (locked s) { table = (spawn s.kernel.table i).1 }))

  pub create_child-created :
      (i : Image) (s : System D)
      → s.kernel.table_locked ≡ false
      → create_child i s ≡ some (map_err SysError.proc ((spawn s.kernel.table i).0), created i s)
  unfolding create_child created
  create_child-created i s free = rw (create_child, lock-free s.kernel free) refl

  create_child-Child :
      (i : Image) (s : System D) (pid : ℕ) {s' : System D}
      → s.kernel.table_locked ≡ false
      → IsValid s.kernel.table
      → s.kernel.table.next_pid < usize_max
      → create_child i s ≡ some (ok pid, s')
      → Child i.path (snapshot_user_window s.memory) s.kernel.table pid s'
  unfolding created
  create_child-Child i s pid {s'} free v room e =
      let (r, same) = some_pair (sym (create_child-created i s free) ∙ e) in
      subst (λ x. Child i.path (snapshot_user_window s.memory) s.kernel.table pid x) same
        (record {
          kept = refl;
          unlocked = refl;
          image = i;
          same_path = refl;
          spawned = spawn-Spawned s.kernel.table i pid v room (
              ap (λ q. (q, (spawn s.kernel.table i).1))
                (map_err-ok SysError.proc ((spawn s.kernel.table i).0) r));
        })

  spawn_built-Child :
      (image : ℕ → ℕ → ℕ → List ℕ → Image) (path : List ℕ)
      (built : Option (Result LoadError (ℕ × ℕ × ℕ) × (ℕ → ℕ))) (m : ℕ → ℕ) (s : System D) (pid : ℕ)
      {s' : System D}
      → ((sp argc argv : ℕ) (memory : List ℕ) → (image sp argc argv memory).path ≡ path)
      → s.kernel.table_locked ≡ false
      → IsValid s.kernel.table
      → s.kernel.table.next_pid < usize_max
      → spawn_built image (snapshot_user_window m) built s ≡ some (ok pid, s')
      → Child path (snapshot_user_window m) s.kernel.table pid s'
  unfolding spawn_built
  spawn_built-Child image path none m s pid named free v room e = absurd (cc)
  spawn_built-Child image path (some (err x, m1)) m s pid named free v room e = absurd (cc)
  spawn_built-Child image path (some (ok (sp, argc, argv), m1)) m s pid {s'} named free v room e =
      let i = image sp argc argv (snapshot_user_window m1) in
      let back = with_memory s (restore_user_window m1 (snapshot_user_window m)) in
      let c = create_child-Child i back pid free v room e in
      record {
        kept = c.kept ∙ restore_user_window-snapshot_user_window m m1;
        unlocked = c.unlocked;
        image = c.image;
        same_path = c.same_path ∙ named sp argc argv (snapshot_user_window m1);
        spawned = c.spawned;
      }

  spawn_copied-Child :
      (args : List (List ℕ)) (image : ℕ → ℕ → ℕ → List ℕ → Image) (path : List ℕ)
      (copied : Result LoadError (Unit {0}) × List ℕ) (m : ℕ → ℕ) (s : System D) (pid : ℕ)
      {s' : System D}
      → ((sp argc argv : ℕ) (memory : List ℕ) → (image sp argc argv memory).path ≡ path)
      → s.kernel.table_locked ≡ false
      → IsValid s.kernel.table
      → s.kernel.table.next_pid < usize_max
      → spawn_copied args image (snapshot_user_window m) copied s ≡ some (ok pid, s')
      → Child path (snapshot_user_window m) s.kernel.table pid s'
  unfolding spawn_copied
  spawn_copied-Child args image path (err x, w) m s pid named free v room e = absurd (cc)
  spawn_copied-Child args image path (ok u, w) m s pid named free v room e =
      spawn_built-Child image path (build_user_stack args (restore_user_window s.memory w)) m s pid
        named free v room e

  pub spawn_loaded-copied :
      (path : List ℕ) (args : List (List ℕ)) (program : LoadedProgram) (s : System D)
      → s.kernel.table_locked ≡ false
      → spawn_loaded path args program s ≡ (
          let (fds, pt) = inherit s.kernel.table s.kernel.pipes in
          let saved = snapshot_user_window s.memory in
          spawn_copied args
            (image_of path args program fds)
            saved
            (load_into_user_window program.segments saved)
            (with_kernel s (unlock (record (locked s) { pipes = pt }))))
  unfolding spawn_loaded
  spawn_loaded-copied path args program s free = rw (spawn_loaded, lock-free s.kernel free) refl

  -- When a program was loaded and the rest of `sys_spawn` returns a process, in a valid table with
  -- numbers left and with the mutex free: the user window of the caller is as it was, the mutex is
  -- free, the process is new with the next number, and every other process is as before.
  pub spawn_loaded-Child :
      (path : List ℕ) (args : List (List ℕ)) (program : LoadedProgram) (s : System D) (pid : ℕ)
      {s' : System D}
      → s.kernel.table_locked ≡ false
      → IsValid s.kernel.table
      → s.kernel.table.next_pid < usize_max
      → spawn_loaded path args program s ≡ some (ok pid, s')
      → Child path (snapshot_user_window s.memory) s.kernel.table pid s'
  spawn_loaded-Child path args program s pid {s'} free v room e =
      let (fds, pt) = inherit s.kernel.table s.kernel.pipes in
      let saved = snapshot_user_window s.memory in
      let s1 = with_kernel s (unlock (record (locked s) { pipes = pt })) in
      spawn_copied-Child args (image_of path args program fds) path
        (load_into_user_window program.segments saved) s.memory s1 pid (λ sp argc argv memory. refl)
        refl v room (sym (spawn_loaded-copied path args program s free) ∙ e)

  on_program-Child :
      (path : List ℕ) (args : List (List ℕ)) (loaded : Option (Result LoadError LoadedProgram))
      (s : System D) (pid : ℕ) {s' : System D}
      → s.kernel.table_locked ≡ false
      → IsValid s.kernel.table
      → s.kernel.table.next_pid < usize_max
      → on_program path args loaded s ≡ some (ok pid, s')
      → Child path (snapshot_user_window s.memory) s.kernel.table pid s'
  on_program-Child path args none s pid free v room e = absurd (cc)
  on_program-Child path args (some (err x)) s pid free v room e = absurd (cc)
  on_program-Child path args (some (ok program)) s pid free v room e =
      spawn_loaded-Child path args program s pid free v room e

module _ {D : Type 0} (dev : BlockDevice D) where
  on_args-Child :
      (path : List ℕ) (args : SysResult (List (List ℕ))) (s : System D) (pid : ℕ) {s' : System D}
      → s.kernel.table_locked ≡ false
      → IsValid s.kernel.table
      → s.kernel.table.next_pid < usize_max
      → on_args dev path args s ≡ some (ok pid, s')
      → Child path (snapshot_user_window s.memory) s.kernel.table pid s'
  on_args-Child path (err x) s pid free v room e = absurd (cc)
  on_args-Child path (ok args) s pid free v room e =
      on_program-Child path args (load (read_file dev s.disk path)) s pid free v room e

  sys_spawn-args :
      (f : TrapFrame) (s : System D) (path : List ℕ)
      → read_path s.memory f.a1 f.a2 ≡ ok path
      → sys_spawn dev f s ≡ on_args dev path (read_args s.memory f.a3 f.a4 f.a5) s
  unfolding sys_spawn
  sys_spawn-args f s path named = rw (sys_spawn, named) refl

  -- When `sys_spawn` returns a process, in a valid table with numbers left and with the mutex free:
  -- the user window of the caller is as it was, the mutex is free, the process is new, and every
  -- other process is as before.
  pub sys_spawn-Child :
      (f : TrapFrame) (s : System D) (path : List ℕ) (pid : ℕ) {s' : System D}
      → s.kernel.table_locked ≡ false
      → IsValid s.kernel.table
      → s.kernel.table.next_pid < usize_max
      → read_path s.memory f.a1 f.a2 ≡ ok path
      → sys_spawn dev f s ≡ some (ok pid, s')
      → Child path (snapshot_user_window s.memory) s.kernel.table pid s'
  sys_spawn-Child f s path pid free v room named e =
      on_args-Child path (read_args s.memory f.a3 f.a4 f.a5) s pid free v room
        (sym (sys_spawn-args f s path named) ∙ e)
