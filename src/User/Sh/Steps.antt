-- ===== src/User/Sh/Steps.antt =====
-- The rounds of `parse_commands` on printed pieces of a line.
use crabv.Base.{
  ℕ, zero, suc, ◌<◌, ◌≡◌, refl, ap, Bool, true, false, ◌||◌, Option, none, some, List, [], ◌∷◌,
  ◌++◌, arith, Result, ok, leb, ◌==◌, length, length-append,
}
use crabv.User.Sh.{
  max_args, max_stages, Redir, Command, new_command, ParseError, is_space, is_special, skip_spaces,
  token_end, nonempty_token, parse_token, ParseState, on_bar, on_less, on_greater, on_word,
  dispatch, finish, round, parse_rounds,
}
use crabv.User.Sh.Tokens.{all_plain, is_token}

-- Every argument follows a space; `more` is what stands after what is printed.
unfoldable pub print_args : List (List ℕ) → List ℕ → List ℕ
print_args [] more = more
print_args (t ∷ ts) more = 32 ∷ t ++ print_args ts more

unfoldable pub print_stdin : Option (List ℕ) → List ℕ → List ℕ
print_stdin none more = more
print_stdin (some t) more = 32 ∷ 60 ∷ 32 ∷ t ++ more

abbrev pub greater : Bool → List ℕ → List ℕ
greater true t = 62 ∷ 62 ∷ 32 ∷ t
greater false t = 62 ∷ 32 ∷ t

unfoldable pub print_stdout : Option Redir → List ℕ → List ℕ
print_stdout none more = more
print_stdout (some r) more = 32 ∷ greater r.append r.path ++ more

abbrev pub print_command : Command → List ℕ → List ℕ
print_command c more = print_args c.args (print_stdin c.stdin (print_stdout c.stdout more))

-- ` |` stands between two commands.
unfoldable pub print_commands : List Command → List ℕ
print_commands [] = []
print_commands (c ∷ []) = print_command c []
print_commands (c ∷ d ∷ cs) = print_command c (32 ∷ 124 ∷ print_commands (d ∷ cs))

-- The end of a token: the end of the line, or a space.
unfoldable pub at_space : List ℕ → Bool
at_space [] = true
at_space (b ∷ bs) = is_space b

token_end-append :
    (t more : List ℕ)
    → all_plain t ≡ true
    → at_space more ≡ true
    → token_end (t ++ more) ≡ (t, more)
unfolding token_end all_plain at_space
token_end-append [] [] h k = refl
token_end-append [] (b ∷ bs) h k = ground arith
token_end-append (b ∷ t) more h k =
    let ih = token_end-append t more (ground arith) k in
    let plain : (is_space b || is_special b) ≡ false = ground arith in
    rw plain (ap (λ p. (b ∷ p.0, p.1)) ih)

parse_token-append :
    (t more : List ℕ)
    → is_token t ≡ true
    → at_space more ≡ true
    → parse_token (t ++ more) ≡ ok (t, more)
unfolding parse_token is_token
parse_token-append [] more h k = absurd (cc)
parse_token-append (b ∷ t) more h k = ap nonempty_token (token_end-append (b ∷ t) more h k)

skip_spaces-token : (t more : List ℕ) → is_token t ≡ true → skip_spaces (t ++ more) ≡ t ++ more
unfolding skip_spaces is_token all_plain
skip_spaces-token [] more h = absurd (cc)
skip_spaces-token (b ∷ t) more h = ground arith

-- From `s` the loop gives `r`, however much fuel is left over.
pub record Parses (s : ParseState) (r : Result ParseError (List Command)) : Type 0 where
  pub with_fuel : (fuel : ℕ) → length s.rest < fuel → parse_rounds fuel s ≡ r

Parses-step :
    {r : Result ParseError (List Command)} (s s' : ParseState) (b : ℕ) (bs : List ℕ)
    → skip_spaces s.rest ≡ b ∷ bs
    → dispatch s b bs ≡ ok s'
    → length s'.rest < length s.rest
    → Parses s' r
    → Parses s r
unfolding parse_rounds round
Parses-step s s' b bs e d l p = record {
  with_fuel = elim [
    | zero ↦ λ h. absurd (omega arith)
    | suc fuel ↦ λ h. rw (e, d) (p.with_fuel fuel (omega arith))
  ];
}

abbrev pub state : List Command → Command → List ℕ → ParseState
state cmds c bytes = record { cmds = cmds; cur = c; rest = bytes }

abbrev pub with_arg : Command → List ℕ → Command
with_arg c t = record { args = c.args ++ (t ∷ []); stdin = c.stdin; stdout = c.stdout }

abbrev with_stdin : Command → List ℕ → Command
with_stdin c t = record { args = c.args; stdin = some t; stdout = c.stdout }

abbrev with_stdout : Command → Redir → Command
with_stdout c r = record { args = c.args; stdin = c.stdin; stdout = some r }

dispatch-word :
    (s : ParseState) (b : ℕ) (bs more : List ℕ)
    → is_token (b ∷ bs) ≡ true
    → at_space more ≡ true
    → leb max_args (length s.cur.args) ≡ false
    → dispatch s b (bs ++ more) ≡ ok (state s.cmds (with_arg s.cur (b ∷ bs)) more)
unfolding dispatch on_word is_token all_plain is_special
dispatch-word s b bs more t k room =
    let e = parse_token-append (b ∷ bs) more t k in
    let (not_bar, not_less, not_greater) : ((b == 124) ≡ false)
        × ((b == 60) ≡ false)
        × ((b == 62) ≡ false) =
      ground arith in
    rw (not_bar, not_less, not_greater, e, room) refl

length-print : (t more : List ℕ) → length more < length (32 ∷ t ++ more)
length-print t more = omega (arith, length-append t more)

pub Parses-word :
    {r : Result ParseError (List Command)} (cmds : List Command) (c : Command) (t more : List ℕ)
    → is_token t ≡ true
    → at_space more ≡ true
    → length c.args < max_args
    → Parses (state cmds (with_arg c t) more) r
    → Parses (state cmds c (32 ∷ t ++ more)) r
unfolding skip_spaces is_space is_token
Parses-word cmds c [] more t k room p = absurd (cc)
Parses-word cmds c (b ∷ bs) more t k room p =
    Parses-step _ (state cmds (with_arg c (b ∷ bs)) more) b (bs ++ more)
      (skip_spaces-token (b ∷ bs) more t) (dispatch-word _ b bs more t k (ground arith))
      (length-print (b ∷ bs) more) p

pub Parses-stdin :
    {r : Result ParseError (List Command)} (cmds : List Command) (c : Command) (t more : List ℕ)
    → is_token t ≡ true
    → at_space more ≡ true
    → Parses (state cmds (with_stdin c t) more) r
    → Parses (state cmds c (32 ∷ 60 ∷ 32 ∷ t ++ more)) r
unfolding skip_spaces is_space dispatch on_less
Parses-stdin cmds c t more h k p =
    Parses-step _ (state cmds (with_stdin c t) more) 60 (32 ∷ t ++ more) refl
      (rw (skip_spaces-token t more h, parse_token-append t more h k) refl)
      (omega (arith, length-append t more)) p

pub Parses-stdout :
    {r : Result ParseError (List Command)} (cmds : List Command) (c : Command) (append : Bool)
    (t more : List ℕ)
    → is_token t ≡ true
    → at_space more ≡ true
    → Parses (state cmds (with_stdout c (record { path = t; append = append })) more) r
    → Parses (state cmds c (32 ∷ greater append t ++ more)) r
unfolding skip_spaces is_space dispatch on_greater
Parses-stdout cmds c true t more h k p =
    Parses-step _ (state cmds (with_stdout c (record { path = t; append = true })) more) 62
      (62 ∷ 32 ∷ t ++ more) refl
      (rw (skip_spaces-token t more h, parse_token-append t more h k) refl)
      (omega (arith, length-append t more)) p
Parses-stdout cmds c false t more h k p =
    Parses-step _ (state cmds (with_stdout c (record { path = t; append = false })) more) 62
      (32 ∷ t ++ more) refl (rw (skip_spaces-token t more h, parse_token-append t more h k) refl)
      (omega (arith, length-append t more)) p

pub Parses-bar :
    {r : Result ParseError (List Command)} (cmds : List Command) (c : Command) (more : List ℕ)
    → 0 < length c.args
    → length cmds < max_stages
    → Parses (state (cmds ++ (c ∷ [])) new_command more) r
    → Parses (state cmds c (32 ∷ 124 ∷ more)) r
unfolding skip_spaces is_space dispatch on_bar
Parses-bar cmds c more h k p =
    let (some_args, room) : ((length c.args == 0) ≡ false)
        × (leb max_stages (length cmds) ≡ false) =
      ground arith in
    Parses-step _ (state (cmds ++ (c ∷ [])) new_command more) 124 more refl
      (rw (some_args, room) refl) (omega arith) p

pub Parses-end :
    (cmds : List Command) (c : Command)
    → 0 < length c.args
    → length cmds < max_stages
    → Parses (state cmds c []) (ok (cmds ++ (c ∷ [])))
unfolding parse_rounds round finish skip_spaces
Parses-end cmds c h k = record {
  with_fuel = elim [ zero ↦ λ l. absurd (omega arith) | suc fuel ↦ λ l. ground arith ];
}
