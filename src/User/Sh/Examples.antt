-- ===== src/User/Sh/Examples.antt =====
-- Witnesses of the properties of the shell, and some lines as tests.
use crabv.Base.{
  Bool, Result, ℕ, ◌≤◌, ◌≡◌, refl, true, none, some, List, [], ◌∷◌, ◌++◌, arith, ok, err, length,
  codes,
}
use crabv.User.{Calls}
use crabv.User.Sh.{
  Command, ParseError, max_line, parse_commands, is_space, is_special, parse_rounds, round,
  skip_spaces, dispatch, on_word, parse_token, token_end, on_less, on_bar, on_greater, finish,
}
use crabv.User.Sh.Tokens.{
  all_plain, is_token, are_tokens, is_partial, is_command, are_commands, Yields,
}
use crabv.User.Sh.Parser.{IsPipeline, parse_commands-Yields}
use crabv.User.Sh.Steps.{print_commands}
use crabv.User.Sh.Printer.{parse_commands-print_commands}
use crabv.User.Sh.Line.{
  ReadLine, is_end, is_erase, read_line, is_text, has_end, echo_of, read_line_ends, read_line_typed,
}
use crabv.User.Sh.Pipeline.Table.{Tables}
use crabv.Fd.Table.{FdTable, FileDescriptor, UartMode, uart, pipe}

-- `cat < in | wc -l >> out`
abbrev two_stages : List Command
two_stages =
    record { args = codes "cat" ∷ []; stdin = some (codes "in"); stdout = none }
    ∷ record {
      args = codes "wc" ∷ codes "-l" ∷ [];
      stdin = none;
      stdout = some (record { path = codes "out"; append = true });
    }
    ∷ []

two_stages-IsPipeline : IsPipeline two_stages
unfolding are_commands is_command is_partial are_tokens is_token all_plain is_space is_special
two_stages-IsPipeline = record {
  some_stage = omega arith;
  few_stages = omega arith;
  commands = refl;
}

parse_commands-print_commands_example : parse_commands (print_commands two_stages) ≡ ok two_stages
parse_commands-print_commands_example =
    parse_commands-print_commands two_stages two_stages-IsPipeline

parse_commands-Yields_example : Yields IsPipeline (parse_commands (codes "cat <in|wc -l>> out"))
parse_commands-Yields_example = parse_commands-Yields (codes "cat <in|wc -l>> out")

parse_two_stages : parse_commands (codes "cat <in|wc -l>> out") ≡ ok two_stages
unfolding parse_commands parse_rounds round skip_spaces is_space dispatch on_word parse_token
    token_end is_special on_less on_bar on_greater finish
parse_two_stages = refl

parse_empty_stage : parse_commands (codes "| wc") ≡ err ParseError.empty_before_bar
unfolding parse_commands parse_rounds round skip_spaces is_space dispatch on_bar
parse_empty_stage = refl

read_line_ends_example :
    (r : ReadLine) × (read_line (97 ∷ 127 ∷ 98 ∷ 10 ∷ []) ≡ some r) × (length r.line ≤ max_line)
unfolding has_end is_end
read_line_ends_example = read_line_ends (97 ∷ 127 ∷ 98 ∷ 10 ∷ []) refl

read_line_typed_example :
    read_line (codes "ls" ++ (13 ∷ codes "x"))
    ≡ some (record {
      line = codes "ls";
      echo = echo_of (codes "ls") ++ ((10 ∷ []) ∷ []);
      input = codes "x";
    })
unfolding is_text is_end is_erase
read_line_typed_example = read_line_typed (codes "ls") 13 (codes "x") refl refl (omega arith)

abbrev wc_command : Command
wc_command = record { args = codes "wc" ∷ []; stdin = none; stdout = none }

-- The shell makes no call other than those on its descriptors, and its child is process 2.
abbrev no_calls : Calls Tables
no_calls = record {
  read = λ fd n s. (err 9, s);
  write = λ fd bytes s. (err 9, s);
  open_fd = λ path flags s. (err 2, s);
  close = λ fd s. s;
  pipe = λ s. (err 24, s);
  dup2 = λ a b s. (err 9, s);
  spawn = λ path argv s. (err 2, s);
  wait = λ s. (err 10, s);
}

abbrev start_child : List ℕ → List (List ℕ) → FdTable → Result ℕ ℕ
start_child path argv t = ok 2

abbrev console : UartMode → FileDescriptor
console mode = uart (record { mode = mode })

abbrev end_of_pipe : Bool → FileDescriptor
end_of_pipe is_read_end = pipe (record { pipe_id = 0; is_read_end = is_read_end })
