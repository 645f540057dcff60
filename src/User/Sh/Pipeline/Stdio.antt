-- ===== src/User/Sh/Pipeline/Stdio.antt =====
-- What `spawn_command` does to the descriptors of the shell, and those that the child gets.
use crabv.Base.{
  ℕ, zero, suc, ◌+◌, ◌<◌, ◌≡◌, refl, sym, ap, ◌∙◌, ◌≢◌, false, ◌||◌, Option, none, some, List, [],
  ◌∷◌, arith, Result, ok, err, map_err, ◌==◌, if◌then◌else◌, length, take, codes, subst,
}
use crabv.User.{CallResult, Calls}
use crabv.User.Sh.{Command}
use crabv.User.Sh.Line.{resolve_prog}
use crabv.User.Sh.Pipeline.{
  RunError, spawn_failed, fd_or_none, log, log_all, redirect, restore_fd, restore_stdio, arg_lines,
  log_args, program_lines, log_program, first_arg, redirect_stdio, spawn_command, spawn_result,
  spawn_redirected,
}

abbrev pub put : {F : Type 0} → (ℕ → Option F) → ℕ → Option F → ℕ → Option F
put fds i v k = if k == i then v else fds k

-- The descriptors of the calling process, in states that are `Valid`, with room for a number of
-- spawns, and what the calls do to them. Module Table proves it of the kernel's descriptor tables.
pub record Descriptors {S : Type 0} (F : Type 0) (os : Calls S) : Type 1 where
  pub Valid : ℕ → S → Type 0
  pub fds : S → ℕ → Option F
  pub dup2_some :
      (n : ℕ) (s : S) (old_fd new_fd : ℕ) (f : F)
      → Valid n s
      → fds s old_fd ≡ some f
      → new_fd < 16
      → ((os.dup2 old_fd new_fd s).0 ≡ ok new_fd)
        × (fds ((os.dup2 old_fd new_fd s).1) ≡ put (fds s) new_fd (some f))
        × Valid n ((os.dup2 old_fd new_fd s).1)
  pub close_one :
      (n : ℕ) (s : S) (fd : ℕ)
      → Valid n s
      → (fds (os.close fd s) ≡ put (fds s) fd none) × Valid n (os.close fd s)
  pub write_none :
      (n : ℕ) (s : S) (fd : ℕ) (bytes : List ℕ)
      → Valid n s
      → (fds ((os.write fd bytes s).1) ≡ fds s) × Valid n ((os.write fd bytes s).1)
  pub spawn_none :
      (n : ℕ) (s : S) (path : List ℕ) (argv : List (List ℕ))
      → Valid (suc n) s
      → (fds ((os.spawn path argv s).1) ≡ fds s) × Valid n ((os.spawn path argv s).1)

-- A descriptor to redirect to is open, and is neither a standard one nor one of those saved.
unfoldable pub IsOpen : {F : Type 0} → (ℕ → Option F) → Option ℕ → Type 0
IsOpen t none = Unit
IsOpen {F = F} t (some fd) = (f : F) × (t fd ≡ some f) × (1 < fd) × (fd < 14)

-- What a child gets as a standard descriptor: the one to redirect to, or the shell's.
abbrev pub source : {F : Type 0} → (ℕ → Option F) → Option ℕ → ℕ → Option F
source t none target = t target
source t (some fd) target = t fd

module _ {S F : Type 0} (os : Calls S) (D : Descriptors F os) where
  -- The states that are valid and have these descriptors.
  HasFds : ℕ → S → (ℕ → Option F) → Type 0
  HasFds n s t = D.Valid n s × (D.fds s ≡ t)

  log-HasFds :
      (n : ℕ) (text : List ℕ) (s : S) (t : ℕ → Option F) → HasFds n s t → HasFds n (log os text s) t
  unfolding HasFds
  log-HasFds n text s t (v, e) = let (e', v') = D.write_none _ s 2 text v in (v', e' ∙ e)

  log_all-HasFds :
      (n : ℕ) (texts : List (List ℕ)) (s : S) (t : ℕ → Option F)
      → HasFds n s t
      → HasFds n (log_all os texts s) t
  log_all-HasFds n [] s t h = h
  log_all-HasFds n (text ∷ texts) s t h = log_all-HasFds n texts _ t (log-HasFds n text s t h)

  log_args-HasFds :
      (n : ℕ) (args : List (List ℕ)) (i : ℕ) (s : S) (t : ℕ → Option F)
      → HasFds n s t
      → HasFds n (log_args os i args s) t
  unfolding log_args
  log_args-HasFds n [] i s t h = h
  log_args-HasFds n (a ∷ args) i s t h =
      log_args-HasFds n args (i + 1) _ t (log_all-HasFds n (arg_lines i a) s t h)

  dup2-HasFds :
      (n : ℕ) (old_fd new_fd : ℕ) (f : F) (s : S) (t : ℕ → Option F)
      → HasFds n s t
      → t old_fd ≡ some f
      → new_fd < 16
      → ((os.dup2 old_fd new_fd s).0 ≡ ok new_fd)
        × HasFds n ((os.dup2 old_fd new_fd s).1) (put t new_fd (some f))
  unfolding HasFds
  dup2-HasFds n old_fd new_fd f s t (v, e) h l =
      let (r, e', v') = D.dup2_some _ s old_fd new_fd f v (ap (λ g. g old_fd) e ∙ h) l in
      (r, (v', e' ∙ ap (λ g. put g new_fd (some f)) e))

  close-HasFds :
      (n : ℕ) (fd : ℕ) (s : S) (t : ℕ → Option F)
      → HasFds n s t
      → HasFds n (os.close fd s) (put t fd none)
  unfolding HasFds
  close-HasFds n fd s t (v, e) =
      let (e', v') = D.close_one _ s fd v in (v', e' ∙ ap (λ g. put g fd none) e)

  spawn-HasFds :
      (n : ℕ) (path : List ℕ) (argv : List (List ℕ)) (s : S) (t : ℕ → Option F)
      → HasFds (suc n) s t
      → HasFds n ((os.spawn path argv s).1) t
  unfolding HasFds
  spawn-HasFds n path argv s t (v, e) = let (e', v') = D.spawn_none _ s path argv v in (v', e' ∙ e)

  restore_fd-HasFds :
      (n : ℕ) (saved target : ℕ) (f : F) (s : S) (t : ℕ → Option F)
      → HasFds n s t
      → t saved ≡ some f
      → target < 16
      → HasFds n (restore_fd os (some saved) target s) (put (put t target (some f)) saved none)
  unfolding restore_fd
  restore_fd-HasFds n saved target f s t h e l =
      close-HasFds n saved _ _ ((dup2-HasFds n saved target f s t h e l).1)

  -- What a redirection puts into a standard descriptor.
  redirected : (ℕ → Option F) → Option ℕ → ℕ → ℕ → Option F
  redirected t none target = t
  redirected t (some fd) target = put t target (t fd)

  redirect-HasFds :
      (n : ℕ) (fd : Option ℕ) (target : ℕ) (s : S) (t : ℕ → Option F)
      → HasFds n s t
      → IsOpen t fd
      → target < 2
      → HasFds n (redirect os fd target s) (redirected t fd target)
  unfolding redirect redirected IsOpen
  redirect-HasFds n none target s t h o l = h
  redirect-HasFds n (some fd) target s t h (f, e, _, _) l =
      subst (λ v. HasFds n (redirect os (some fd) target s) (put t target v)) (sym e)
        ((dup2-HasFds n fd target f s t h e (omega arith)).1)

  -- The descriptors while the child is made.
  during : F → F → (ℕ → Option F) → Option ℕ → Option ℕ → ℕ → Option F
  during i o t stdin_fd stdout_fd =
      redirected (redirected (put (put t 14 (some i)) 15 (some o)) stdin_fd 0) stdout_fd 1

  IsOpen-put :
      (t : ℕ → Option F) (fd : Option ℕ) (a : ℕ) (v : Option F) (b : ℕ) (w : Option F)
      → 13 < a
      → 13 < b
      → IsOpen t fd
      → IsOpen (put (put t a v) b w) fd
  unfolding IsOpen
  IsOpen-put t none a v b w ha hb h = tt
  IsOpen-put t (some fd) a v b w ha hb (f, e, l, k) = (f, ground (arith, e), l, k)

  IsOpen-redirected :
      (t : ℕ → Option F) (fd other : Option ℕ) → IsOpen t other → IsOpen (redirected t fd 0) other
  unfolding IsOpen redirected
  IsOpen-redirected t none other h = h
  IsOpen-redirected t (some fd) none h = tt
  IsOpen-redirected t (some fd) (some k) (f, e, l, m) = (f, ground (arith, e), l, m)

  saved-HasFds :
      (n : ℕ) (s : S) (t : ℕ → Option F) (i o : F)
      → HasFds n s t
      → t 0 ≡ some i
      → t 1 ≡ some o
      → let (r_in, s1) = os.dup2 0 14 s in
        let (r_out, s2) = os.dup2 1 15 s1 in
        (fd_or_none r_in ≡ some 14)
        × (fd_or_none r_out ≡ some 15)
        × HasFds n s2 (put (put t 14 (some i)) 15 (some o))
  saved-HasFds n s t i o h ei eo =
      let (r_in, h1) = dup2-HasFds n 0 14 i s t h ei (omega arith) in
      let (r_out, h2) =
        dup2-HasFds n 1 15 o (os.dup2 0 14 s).1 (put t 14 (some i)) h1 eo (omega arith) in
      (ap fd_or_none r_in, ap fd_or_none r_out, h2)

  redirect_stdio-HasFds :
      (n : ℕ) (stdin_fd stdout_fd : Option ℕ) (s : S) (t : ℕ → Option F) (i o : F)
      → HasFds n s t
      → t 0 ≡ some i
      → t 1 ≡ some o
      → IsOpen t stdin_fd
      → IsOpen t stdout_fd
      → let (saved_in, saved_out, s') = redirect_stdio os stdin_fd stdout_fd s in
        (saved_in ≡ some 14) × (saved_out ≡ some 15) × HasFds n s' (during i o t stdin_fd stdout_fd)
  unfolding redirect_stdio during
  redirect_stdio-HasFds n stdin_fd stdout_fd s t i o h ei eo oi oo =
      let start = log os (codes "[spawn_command] start\n") s in
      let (r_in, r_out, h2) = saved-HasFds n start t i o (log-HasFds n _ s t h) ei eo in
      let t2 = put (put t 14 (some i)) 15 (some o) in
      let oi2 = IsOpen-put t stdin_fd 14 (some i) 15 (some o) (omega arith) (omega arith) oi in
      let oo2 =
        IsOpen-redirected t2 stdin_fd stdout_fd
          (IsOpen-put t stdout_fd 14 (some i) 15 (some o) (omega arith) (omega arith) oo) in
      (
        r_in,
        r_out,
        log-HasFds n _ _ _ (
            redirect-HasFds n stdout_fd 1 _ (redirected t2 stdin_fd 0)
              (log-HasFds n _ _ _
                (redirect-HasFds n stdin_fd 0 _ t2 (log-HasFds n _ _ _ h2) oi2 (omega arith)))
              oo2 (omega arith)),
      )

  during_child :
      (i o : F) (t : ℕ → Option F) (stdin_fd stdout_fd : Option ℕ)
      → t 0 ≡ some i
      → t 1 ≡ some o
      → IsOpen t stdin_fd
      → IsOpen t stdout_fd
      → (during i o t stdin_fd stdout_fd 0 ≡ source t stdin_fd 0)
        × (during i o t stdin_fd stdout_fd 1 ≡ source t stdout_fd 1)
        × (during i o t stdin_fd stdout_fd 14 ≡ some i)
        × (during i o t stdin_fd stdout_fd 15 ≡ some o)
        × ((k : ℕ) → 1 < k → k ≢ 14 → k ≢ 15 → during i o t stdin_fd stdout_fd k ≡ t k)
  unfolding during redirected IsOpen
  during_child i o t none none ei eo oi oo = (refl, refl, refl, refl, λ k l m n. ground arith)
  during_child i o t (some a) none ei eo (f, e, l, m) oo =
      (ground (arith, e), refl, refl, refl, λ k l m n. ground arith)
  during_child i o t none (some b) ei eo oi (f, e, l, m) =
      (refl, ground (arith, e), refl, refl, λ k l m n. ground arith)
  during_child i o t (some a) (some b) ei eo (f, e, l, m) (f', e', l', m') =
      (ground (arith, e), ground (arith, e'), refl, refl, λ k l m n. ground arith)

  restored :
      (i o : F) (t m : ℕ → Option F)
      → t 0 ≡ some i
      → t 1 ≡ some o
      → ((k : ℕ) → 1 < k → k ≢ 14 → k ≢ 15 → m k ≡ t k)
      → (k : ℕ)
      → put (put (put (put m 0 (some i)) 14 none) 1 (some o)) 15 none k
        ≡ (if k == 14 || k == 15 then none else t k)
  restored i o t m ei eo same zero = sym ei
  restored i o t m ei eo same (suc zero) = sym eo
  restored i o t m ei eo same (suc (suc k)) = ground (arith, same (suc (suc k)))

  spawn_result-HasFds :
      (n : ℕ) (pid : CallResult ℕ) (s : S) (t : ℕ → Option F)
      → HasFds n s t
      → ((spawn_result os pid s).0 ≡ map_err (λ _. spawn_failed) pid)
        × HasFds n ((spawn_result os pid s).1) t
  spawn_result-HasFds n (err e) s t h = (refl, h)
  spawn_result-HasFds n (ok child) s t h = (refl, log-HasFds n _ s t h)

  restore_stdio-HasFds :
      (n : ℕ) (s : S) (m : ℕ → Option F) (i o : F)
      → HasFds n s m
      → m 14 ≡ some i
      → m 15 ≡ some o
      → HasFds n
          (restore_stdio os (some 14) (some 15) s)
          (put (put (put (put m 0 (some i)) 14 none) 1 (some o)) 15 none)
  unfolding restore_stdio
  restore_stdio-HasFds n s m i o h ei eo =
      restore_fd-HasFds n 15 1 o _ (put (put m 0 (some i)) 14 none)
        (restore_fd-HasFds n 14 0 i s m h ei (omega arith)) eo (omega arith)

  Spawned : ℕ → Command → (ℕ → Option F) → (ℕ → Option F) → Result RunError ℕ × S → Type 0
  Spawned n cmd m m' (r, s') =
      (child : S) × (r
        ≡ map_err (λ _. spawn_failed)
            ((os.spawn (resolve_prog (first_arg cmd.args)) (take 16 cmd.args) child).0))
      × (D.fds child ≡ m)
      × HasFds n s' m'

  spawn_redirected-Spawned :
      (n : ℕ) (cmd : Command) (s : S) (m : ℕ → Option F) (i o : F)
      → HasFds (suc n) s m
      → m 14 ≡ some i
      → m 15 ≡ some o
      → Spawned n cmd m
          (put (put (put (put m 0 (some i)) 14 none) 1 (some o)) 15 none)
          (spawn_redirected os cmd (some 14, some 15, s))
  unfolding spawn_redirected Spawned log_program HasFds
  spawn_redirected-Spawned n cmd s m i o h ei eo =
      let argv = take 16 cmd.args in
      let path = resolve_prog (first_arg cmd.args) in
      let child = log_program os path argv s in
      let hc : HasFds (suc n) child m =
        log_args-HasFds (suc n) argv 0 _ m
          (log_all-HasFds (suc n) (program_lines path argv) s m h) in
      let restored_fds = log-HasFds n (codes "[spawn_command] restored stdio\n") _ _ (
        restore_stdio-HasFds n _ m i o
          (log-HasFds n (codes "[spawn_command] spawn returned\n") _ m
            (spawn-HasFds n path argv child m hc))
          ei eo) in
      let (r, after) = spawn_result-HasFds n (os.spawn path argv child).0 _ _ restored_fds in
      (child, r, hc.1, after)

  -- In a valid state in which the standard descriptors of the shell are open, and with redirections
  -- to none or to other open descriptors below 14, `spawn_command` for a command with arguments calls
  -- `spawn` with the resolved program and at most 16 arguments in a state whose standard descriptors
  -- are those to redirect to, or the shell's; its result is that of `spawn`, and afterwards every
  -- descriptor of the shell is what it was, except that 14 and 15 are closed, also when `spawn`
  -- failed.
  pub spawn_command_restores :
      (n : ℕ) (cmd : Command) (stdin_fd stdout_fd : Option ℕ) (s : S) (i o : F)
      → 0 < length cmd.args
      → D.Valid (suc n) s
      → D.fds s 0 ≡ some i
      → D.fds s 1 ≡ some o
      → IsOpen (D.fds s) stdin_fd
      → IsOpen (D.fds s) stdout_fd
      → let (r, s') = spawn_command os cmd stdin_fd stdout_fd s in
        (child : S) × (r
          ≡ map_err
              (λ _. spawn_failed)
              ((os.spawn (resolve_prog (first_arg cmd.args)) (take 16 cmd.args) child).0))
        × (D.fds child 0 ≡ source (D.fds s) stdin_fd 0)
        × (D.fds child 1 ≡ source (D.fds s) stdout_fd 1)
        × D.Valid n s'
        × ((k : ℕ) → D.fds s' k ≡ (if k == 14 || k == 15 then none else D.fds s k))
  unfolding spawn_command Spawned HasFds
  spawn_command_restores n cmd stdin_fd stdout_fd s i o some_args v ei eo oi oo =
      let t = D.fds s in
      let m = during i o t stdin_fd stdout_fd in
      let (r_in, r_out, h1) =
        redirect_stdio-HasFds (suc n) stdin_fd stdout_fd s t i o (v, refl) ei eo oi oo in
      let (m0, m1, m14, m15, same) = during_child i o t stdin_fd stdout_fd ei eo oi oo in
      let args : (length cmd.args == 0) ≡ false = ground arith in
      let (child, r, e, (v', e')) =
        spawn_redirected-Spawned n cmd (redirect_stdio os stdin_fd stdout_fd s).2 m i o h1 m14
          m15 in
      rw (args, r_in, r_out)
        (
          child,
          r,
          ap (λ g. g 0) e ∙ m0,
          ap (λ g. g 1) e ∙ m1,
          v',
          λ k. ap (λ g. g k) e' ∙ restored i o t m ei eo same k,
        )
