-- ===== src/User/Sh/Printer.antt =====
-- A printer of pipelines, and that `parse_commands` reads back what it prints.
use crabv.Base.{
  ℕ, ◌+◌, ◌≤◌, ◌≡◌, refl, sym, true, Option, none, some, List, [], ◌∷◌, ◌++◌, arith, append-nil,
  append_assoc, Result, ok, length, length-append, subst,
}
use crabv.User.Sh.{
  max_args, max_stages, Redir, Command, new_command, ParseError, is_space, parse_commands,
}
use crabv.User.Sh.Tokens.{
  are_tokens, is_partial, is_command, are_commands, is_token_if_any, has_path,
}
use crabv.User.Sh.Parser.{IsPipeline}
use crabv.User.Sh.Steps.{
  print_args, print_stdin, print_stdout, print_command, print_commands, at_space, Parses, state,
  with_arg, Parses-word, Parses-stdin, Parses-stdout, Parses-bar, Parses-end,
}

at_space-print_args :
    (ts : List (List ℕ)) (more : List ℕ)
    → at_space more ≡ true
    → at_space (print_args ts more) ≡ true
unfolding at_space print_args is_space
at_space-print_args [] more h = h
at_space-print_args (t ∷ ts) more h = refl

at_space-print_stdin :
    (o : Option (List ℕ)) (more : List ℕ)
    → at_space more ≡ true
    → at_space (print_stdin o more) ≡ true
unfolding at_space print_stdin is_space
at_space-print_stdin none more h = h
at_space-print_stdin (some t) more h = refl

at_space-print_stdout :
    (o : Option Redir) (more : List ℕ)
    → at_space more ≡ true
    → at_space (print_stdout o more) ≡ true
unfolding at_space print_stdout is_space
at_space-print_stdout none more h = h
at_space-print_stdout (some r) more h = refl

abbrev with_args : Command → List (List ℕ) → Command
with_args c ts = record { args = c.args ++ ts; stdin = c.stdin; stdout = c.stdout }

module _ {r : Result ParseError (List Command)} where
  Parses-args :
      (cmds : List Command) (c : Command) (ts : List (List ℕ)) (more : List ℕ)
      → are_tokens ts ≡ true
      → at_space more ≡ true
      → length c.args + length ts ≤ max_args
      → Parses (state cmds (with_args c ts) more) r
      → Parses (state cmds c (print_args ts more)) r
  unfolding print_args are_tokens
  Parses-args cmds c [] more h k room p = rw (← append-nil c.args) p
  Parses-args cmds c (t ∷ ts) more h k room p =
      Parses-word cmds c t (print_args ts more) (ground arith) (at_space-print_args ts more k)
        (omega arith)
        (Parses-args cmds (with_arg c t) ts more (ground arith) k
          (omega (arith, length-append c.args (t ∷ [])))
          (subst
            (λ l.
              Parses (state cmds (record { args = l; stdin = c.stdin; stdout = c.stdout }) more) r)
            (sym (append_assoc c.args (t ∷ []) ts)) p))

  Parses-stdin_part :
      (cmds : List Command) (c : Command) (o : Option (List ℕ)) (more : List ℕ)
      → c.stdin ≡ none
      → is_token_if_any o ≡ true
      → at_space more ≡ true
      → Parses (state cmds (record { args = c.args; stdin = o; stdout = c.stdout }) more) r
      → Parses (state cmds c (print_stdin o more)) r
  unfolding print_stdin
  Parses-stdin_part cmds c none more e h k p =
      subst
        (λ o. Parses (state cmds (record { args = c.args; stdin = o; stdout = c.stdout }) more) r)
        (sym e) p
  Parses-stdin_part cmds c (some t) more e h k p = Parses-stdin cmds c t more h k p

  Parses-stdout_part :
      (cmds : List Command) (c : Command) (o : Option Redir) (more : List ℕ)
      → c.stdout ≡ none
      → has_path o ≡ true
      → at_space more ≡ true
      → Parses (state cmds (record { args = c.args; stdin = c.stdin; stdout = o }) more) r
      → Parses (state cmds c (print_stdout o more)) r
  unfolding print_stdout
  Parses-stdout_part cmds c none more e h k p =
      subst
        (λ o. Parses (state cmds (record { args = c.args; stdin = c.stdin; stdout = o }) more) r)
        (sym e) p
  Parses-stdout_part cmds c (some o) more e h k p = Parses-stdout cmds c o.append o.path more h k p

  Parses-command :
      (cmds : List Command) (c : Command) (more : List ℕ)
      → is_command c ≡ true
      → at_space more ≡ true
      → Parses (state cmds c more) r
      → Parses (state cmds new_command (print_command c more)) r
  unfolding is_command is_partial
  Parses-command cmds c more h k p =
      let k1 = at_space-print_stdout c.stdout more k in
      let k2 = at_space-print_stdin c.stdin (print_stdout c.stdout more) k1 in
      Parses-args cmds new_command c.args _ (ground arith) k2 (ground arith) (
        Parses-stdin_part cmds (record { args = c.args; stdin = none; stdout = none }) c.stdin _
          refl (ground arith) k1
          (Parses-stdout_part cmds (record { args = c.args; stdin = c.stdin; stdout = none })
            c.stdout more refl (ground arith) k p))

Parses-commands :
    (cmds : List Command) (c : Command) (cs : List Command)
    → are_commands (c ∷ cs) ≡ true
    → length cmds + length (c ∷ cs) ≤ max_stages
    → Parses (state cmds new_command (print_commands (c ∷ cs))) (ok (cmds ++ (c ∷ cs)))
unfolding print_commands are_commands is_command at_space is_space
Parses-commands cmds c [] h room =
    Parses-command cmds c [] (ground arith) refl (Parses-end cmds c (ground arith) (omega arith))
Parses-commands cmds c (d ∷ cs) h room =
    let ih =
      Parses-commands (cmds ++ (c ∷ [])) d cs (ground arith)
        (omega (arith, length-append cmds (c ∷ []))) in
    Parses-command cmds c _ (ground arith) refl (
      Parses-bar cmds c _ (ground arith) (omega arith) (
        subst (λ l. Parses (state (cmds ++ (c ∷ [])) new_command (print_commands (d ∷ cs))) (ok l))
          (append_assoc cmds (c ∷ []) (d ∷ cs)) ih))

-- Every pipeline of one to eight commands, each with one to eight arguments, whose arguments and
-- paths are tokens, is what `parse_commands` gives for its print: each argument after a space, then
-- ` < path`, ` > path` or ` >> path` if the command has them, and ` |` between commands.
pub parse_commands-print_commands :
    (cmds : List Command) → IsPipeline cmds → parse_commands (print_commands cmds) ≡ ok cmds
unfolding parse_commands
parse_commands-print_commands [] p = absurd (omega (arith, p.some_stage))
parse_commands-print_commands (c ∷ cs) p =
    (Parses-commands [] c cs p.commands (omega (arith, p.few_stages))).with_fuel _ (omega arith)
