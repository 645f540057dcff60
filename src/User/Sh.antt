-- ===== src/User/Sh.antt =====
-- user_bin/src/bin/sh.rs: the reader of a line, the parser of a pipeline and the search for a
-- program. A `&str` is the list of its bytes, and an index into a line is what is left of the line.
pub mod Tokens
pub mod Parser
pub mod Steps
pub mod Printer
pub mod Line
pub mod Pipeline
mod Examples
use crabv.Base.{
  ℕ, zero, suc, ◌+◌, ◌-◌, Bool, true, false, not, ◌&&◌, ◌||◌, Option, none, some, List, [], ◌∷◌,
  ◌++◌, Result, ok, err, ◌>>=◌, ltb, leb, ◌==◌, if◌then◌else◌, length,
}

abbrev pub max_line : ℕ
max_line = 256

abbrev pub max_args : ℕ
max_args = 8

-- The number of commands in the array of `_start`.
abbrev pub max_stages : ℕ
max_stages = 8

pub record Redir : Type 0 where
  pub path : List ℕ
  pub append : Bool

-- `args` holds the first `argc` entries of the array.
pub record Command : Type 0 where
  pub args : List (List ℕ)
  pub stdin : Option (List ℕ)
  pub stdout : Option Redir

abbrev pub new_command : Command
new_command = record { args = []; stdin = none; stdout = none }

pub data ParseError : Type 0 where
  empty_before_bar : ParseError
  too_many_stages : ParseError
  too_many_args : ParseError
  empty_command : ParseError
  expected_token : ParseError
  -- the fuel of the model
  out_of_fuel : ParseError

unfoldable pub is_space : ℕ → Bool
is_space b = b == 32 || b == 9

unfoldable pub is_special : ℕ → Bool
is_special b = b == 124 || b == 60 || b == 62

-- `while i < bytes.len() && is_space(bytes[i])`
unfoldable pub skip_spaces : List ℕ → List ℕ
skip_spaces [] = []
skip_spaces (b ∷ bs) = let rest = skip_spaces bs in if is_space b then rest else b ∷ bs

-- The loop of `parse_token`: the token and what follows it.
unfoldable pub token_end : List ℕ → List ℕ × List ℕ
token_end [] = ([], [])
token_end (b ∷ bs) =
    let (token, next) = token_end bs in
    if is_space b || is_special b then ([], b ∷ bs) else (b ∷ token, next)

abbrev pub nonempty_token : List ℕ × List ℕ → Result ParseError (List ℕ × List ℕ)
nonempty_token ([], next) = err expected_token
nonempty_token (b ∷ token, next) = ok (b ∷ token, next)

unfoldable pub parse_token : List ℕ → Result ParseError (List ℕ × List ℕ)
parse_token line = nonempty_token (token_end line)

-- What one round of the loop of `parse_commands` leaves: the commands that are complete, the command
-- under construction and the rest of the line.
pub record ParseState : Type 0 where
  pub cmds : List Command
  pub cur : Command
  pub rest : List ℕ

-- `|`
unfoldable pub on_bar : ParseState → Result ParseError ParseState
on_bar s =
    if length s.cur.args == 0
    then err empty_before_bar
    else (if leb max_stages (length s.cmds)
        then err too_many_stages
        else ok (record { cmds = s.cmds ++ (s.cur ∷ []); cur = new_command; rest = s.rest }))

-- `<`
unfoldable pub on_less : ParseState → Result ParseError ParseState
on_less s = parse_token (skip_spaces s.rest) >>= λ (token, next). ok (record {
  cmds = s.cmds;
  cur = record { args = s.cur.args; stdin = some token; stdout = s.cur.stdout };
  rest = next;
})

abbrev pub append_mode : List ℕ → Bool × List ℕ
append_mode [] = (false, [])
append_mode (b ∷ bs) = if b == 62 then (true, bs) else (false, b ∷ bs)

-- `>` and `>>`
unfoldable pub on_greater : ParseState → Result ParseError ParseState
on_greater s =
    let (append, bytes) = append_mode s.rest in
    parse_token (skip_spaces bytes) >>= λ (token, next). ok (record {
      cmds = s.cmds;
      cur = record {
        args = s.cur.args;
        stdin = s.cur.stdin;
        stdout = some (record { path = token; append = append });
      };
      rest = next;
    })

-- an argument
unfoldable pub on_word : ParseState → Result ParseError ParseState
on_word s = parse_token s.rest >>= λ (token, next).
    if leb max_args (length s.cur.args)
    then err too_many_args
    else ok (record {
      cmds = s.cmds;
      cur = record {
        args = s.cur.args ++ (token ∷ []);
        stdin = s.cur.stdin;
        stdout = s.cur.stdout;
      };
      rest = next;
    })

abbrev pub with_rest : ParseState → List ℕ → ParseState
with_rest s bytes = record { cmds = s.cmds; cur = s.cur; rest = bytes }

-- The `match` on the byte after the spaces.
unfoldable pub dispatch : ParseState → ℕ → List ℕ → Result ParseError ParseState
dispatch s b bs =
    if b == 124
    then on_bar (with_rest s bs)
    else (if b == 60
        then on_less (with_rest s bs)
        else (if b == 62 then on_greater (with_rest s bs) else on_word (with_rest s (b ∷ bs))))

-- The end of `parse_commands`.
unfoldable pub finish : ParseState → Result ParseError (List Command)
finish s =
    if length s.cur.args == 0
    then err empty_command
    else (if leb max_stages (length s.cmds)
        then err too_many_stages
        else ok (s.cmds ++ (s.cur ∷ [])))

-- One round, on what follows the spaces: the end of the line, or a byte.
unfoldable pub round :
    (ParseState → Result ParseError (List Command))
    → ParseState
    → List ℕ
    → Result ParseError (List Command)
round next s [] = finish s
round next s (b ∷ bs) = dispatch s b bs >>= next

-- The loop, on fuel: every round takes a byte at least.
unfoldable pub parse_rounds : ℕ → ParseState → Result ParseError (List Command)
parse_rounds zero s = err out_of_fuel
parse_rounds (suc fuel) s = round (parse_rounds fuel) s (skip_spaces s.rest)

-- `parse_commands`: the commands it puts into the array.
unfoldable pub parse_commands : List ℕ → Result ParseError (List Command)
parse_commands line =
    parse_rounds (suc (length line)) (record { cmds = []; cur = new_command; rest = line })
