-- ===== src/User/Sh/Pipeline.antt =====
-- `run_pipeline`, `spawn_command` and `restore_stdio` of user_bin/src/bin/sh.rs, on the system calls.
-- The descriptor -1 of the source is `none`.
pub mod Stdio
pub mod Table
use crabv.Base.{
  ℕ, zero, suc, ◌+◌, Bool, true, false, Option, none, some, List, [], ◌∷◌, ◌++◌, Result, ok, err,
  ◌==◌, if◌then◌else◌, length, take, codes,
}
use crabv.User.{CallResult, Calls, stderr, newline}
use crabv.User.Sh.{Redir, Command}
use crabv.User.Sh.Line.{resolve_prog}

pub data RunError : Type 0 where
  empty_pipeline : RunError
  empty_command : RunError
  open_stdin_failed : RunError
  open_stdout_failed : RunError
  pipe_failed : RunError
  spawn_failed : RunError

abbrev pub fd_or_none : CallResult ℕ → Option ℕ
fd_or_none (ok fd) = some fd
fd_or_none (err e) = none

abbrev o_read : ℕ
o_read = 1

-- O_WRITE | O_CREATE, with O_APPEND
abbrev out_flags : Bool → ℕ
out_flags false = 6
out_flags true = 14

abbrev pub saved_stdin : ℕ
saved_stdin = 14

abbrev pub saved_stdout : ℕ
saved_stdout = 15

abbrev pub arg_lines : ℕ → List ℕ → List (List ℕ)
arg_lines i t =
    codes "[spawn_command] argv[" ∷ ((b'0' + i) ∷ []) ∷ codes "]=\"" ∷ t ∷ codes "\"\n" ∷ []

abbrev pub program_lines : List ℕ → List (List ℕ) → List (List ℕ)
program_lines path argv =
    codes "[spawn_command] about to spawn\n"
    ∷ codes "[spawn_command] prog_path="
    ∷ path
    ∷ (newline ∷ [])
    ∷ codes "[spawn_command] argc="
    ∷ ((b'0' + length argv) ∷ [])
    ∷ (newline ∷ [])
    ∷ []

abbrev pub first_arg : List (List ℕ) → List ℕ
first_arg [] = []
first_arg (t ∷ ts) = t

module _ {S : Type 0} (os : Calls S) where
  -- a line on the standard error
  abbrev pub log : List ℕ → S → S
  log text s = (os.write stderr text s).1

  abbrev pub log_all : List (List ℕ) → S → S
  log_all [] s = s
  log_all (t ∷ ts) s = log_all ts (log t s)

  -- `if fd >= 0 { dup2(fd as usize, target); }`
  unfoldable pub redirect : Option ℕ → ℕ → S → S
  redirect none target s = s
  redirect (some fd) target s = (os.dup2 fd target s).1

  -- `if fd >= 0 { close(fd as usize); }`
  unfoldable pub close_if_any : Option ℕ → S → S
  close_if_any none s = s
  close_if_any (some fd) s = os.close fd s

  -- the half of `restore_stdio` for one descriptor
  unfoldable pub restore_fd : Option ℕ → ℕ → S → S
  restore_fd none target s = s
  restore_fd (some saved) target s = os.close saved ((os.dup2 saved target s).1)

  unfoldable pub restore_stdio : Option ℕ → Option ℕ → S → S
  restore_stdio saved_in saved_out s = restore_fd saved_out 1 (restore_fd saved_in 0 s)

  -- The lines about the arguments.
  unfoldable pub log_args : ℕ → List (List ℕ) → S → S
  log_args i [] s = s
  log_args i (t ∷ ts) s = log_args (i + 1) ts (log_all (arg_lines i t) s)

  -- Everything that is written before `spawn`.
  unfoldable pub log_program : List ℕ → List (List ℕ) → S → S
  log_program path argv s = log_args 0 argv (log_all (program_lines path argv) s)

  -- The standard descriptors while the child is made: saved, then redirected.
  unfoldable pub redirect_stdio : Option ℕ → Option ℕ → S → Option ℕ × Option ℕ × S
  redirect_stdio stdin_fd stdout_fd s =
      let (r_in, s1) = os.dup2 0 saved_stdin (log (codes "[spawn_command] start\n") s) in
      let (r_out, s2) = os.dup2 1 saved_stdout s1 in
      let s3 = redirect stdin_fd 0 (log (codes "[spawn_command] saved stdio\n") s2) in
      let s4 = redirect stdout_fd 1 (log (codes "[spawn_command] redirected stdin\n") s3) in
      (fd_or_none r_in, fd_or_none r_out, log (codes "[spawn_command] redirected stdout\n") s4)

  abbrev pub spawn_result : CallResult ℕ → S → Result RunError ℕ × S
  spawn_result (err e) s = (err spawn_failed, s)
  spawn_result (ok child) s = (ok child, log (codes "[spawn_command] done\n") s)

  -- From the resolution of the program on, with the standard descriptors redirected.
  unfoldable pub spawn_redirected : Command → Option ℕ × Option ℕ × S → Result RunError ℕ × S
  spawn_redirected cmd (saved_in, saved_out, s) =
      let argv = take 16 cmd.args in
      let path = resolve_prog (first_arg cmd.args) in
      let (pid, s1) = os.spawn path argv (log_program path argv s) in
      let s2 =
        restore_stdio saved_in saved_out (log (codes "[spawn_command] spawn returned\n") s1) in
      spawn_result pid (log (codes "[spawn_command] restored stdio\n") s2)

  -- The number of the child.
  unfoldable pub spawn_command : Command → Option ℕ → Option ℕ → S → Result RunError ℕ × S
  spawn_command cmd stdin_fd stdout_fd s =
      if length cmd.args == 0
      then (err empty_command, s)
      else spawn_redirected cmd (redirect_stdio stdin_fd stdout_fd s)

  -- The standard input of a command: its file, or the pipe from the command before.
  unfoldable pub open_stdin : Command → Option ℕ → S → Result RunError (Option ℕ) × S
  open_stdin cmd stdin_fd s = elim cmd.stdin [
    | none ↦ (ok stdin_fd, s)
    | some path ↦
        let (r, s1) = os.open_fd path o_read s in
        elim r [ err e ↦ (err open_stdin_failed, s1) | ok fd ↦ (ok (some fd), s1) ]
  ]

  -- The standard output of a command, and the read end of the pipe to the next one.
  unfoldable pub open_stdout :
      Command → Bool → Option ℕ → S → Result RunError (Option ℕ × Option ℕ) × S
  open_stdout cmd true cmd_stdin s = elim cmd.stdout [
    | none ↦ (ok (none, none), s)
    | some redir ↦
        let (r, s1) = os.open_fd redir.path (out_flags redir.append) s in
        elim r [
          | err e ↦ (err open_stdout_failed, close_if_any cmd_stdin s1)
          | ok fd ↦ (ok (some fd, none), s1)
        ]
  ]
  open_stdout cmd false cmd_stdin s =
      let (r, s1) = os.pipe s in
      elim r [
        | err e ↦ (err pipe_failed, close_if_any cmd_stdin s1)
        | ok ends ↦ (ok (some (ends.1), some (ends.0)), s1)
      ]

  -- One round of the loop: the standard input for the next command. A child's number is never
  -- negative here, since `?` has left the loop with the error of `spawn_command`.
  unfoldable pub run_stage : Command → Bool → Option ℕ → S → Result RunError (Option ℕ) × S
  run_stage cmd is_last stdin_fd s =
      let (r_in, s1) = open_stdin cmd stdin_fd (log (codes "[pipeline] processing cmd\n") s) in
      elim r_in [
        | err e ↦ (err e, s1)
        | ok cmd_stdin ↦
            let (r_out, s2) = open_stdout cmd is_last cmd_stdin s1 in
            elim r_out [
              | err e ↦ (err e, s2)
              | ok outs ↦
                  let (pid, s3) =
                    spawn_command cmd cmd_stdin (outs.0)
                      (log (codes "[pipeline] about to spawn cmd\n") s2) in
                  elim pid [
                    | err e ↦ (err e, s3)
                    | ok child ↦
                        let s4 =
                          log_all
                            (codes "[pipeline] spawned cmd\n"
                              ∷ codes "[pipeline] closing parent fds\n"
                              ∷ [])
                            s3 in
                        let s5 = close_if_any (outs.0) (close_if_any cmd_stdin s4) in
                        (ok (outs.1), log (codes "[pipeline] done with cmd\n") s5)
                  ]
            ]
      ]

  abbrev pub is_empty : List Command → Bool
  is_empty [] = true
  is_empty (c ∷ cs) = false

  unfoldable pub run_stages : List Command → Option ℕ → S → Result RunError (Unit {0}) × S
  run_stages [] stdin_fd s = (ok tt, s)
  run_stages (cmd ∷ cmds) stdin_fd s =
      let (r, s1) = run_stage cmd (is_empty cmds) stdin_fd s in
      elim r [ err e ↦ (err e, s1) | ok next ↦ run_stages cmds next s1 ]

  -- One `wait` for each child.
  unfoldable pub wait_all : List Command → S → S
  wait_all [] s = s
  wait_all (cmd ∷ cmds) s = wait_all cmds ((os.wait s).1)

  unfoldable pub run_pipeline : List Command → S → Result RunError (Unit {0}) × S
  run_pipeline [] s = (err empty_pipeline, s)
  run_pipeline (cmd ∷ cmds) s =
      let (r, s1) = run_stages (cmd ∷ cmds) none s in
      elim r [
        | err e ↦ (err e, s1)
        | ok _ ↦ (
          ok tt,
          wait_all (cmd ∷ cmds) (log (codes "[pipeline] all commands spawned, waiting...\n") s1),
        )
      ]
