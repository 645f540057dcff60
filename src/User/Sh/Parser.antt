-- ===== src/User/Sh/Parser.antt =====
-- `parse_commands`: that it ends, and what the commands that it accepts look like.
use crabv.Base.{
  ℕ, zero, suc, ◌≤◌, ◌<◌, ◌≡◌, refl, inl, inr, true, false, List, [], ◌∷◌, ◌++◌, arith, Result, leb,
  ◌==◌, length, length-append, Bool-cases,
}
use crabv.User.Sh.{
  max_args, max_stages, Command, ParseError, skip_spaces, parse_token, ParseState, on_bar, on_less,
  append_mode, on_greater, on_word, with_rest, dispatch, finish, parse_rounds, parse_commands,
  round,
}
use crabv.User.Sh.Tokens.{
  is_token, are_tokens, is_partial, is_command, are_commands, length-skip_spaces, Yields,
  Yields-bind, Yields-guard, IsPiece, parse_token-Yields,
}

-- A state with well-formed commands whose rest is shorter than `n`.
record IsGood (n : ℕ) (s : ParseState) : Type 0 where
  pub shorter : length s.rest < n
  pub partial : is_partial s.cur ≡ true
  pub complete : are_commands s.cmds ≡ true
  pub few : length s.cmds ≤ max_stages

are_commands-append_one :
    (cs : List Command) (c : Command)
    → are_commands cs ≡ true
    → is_command c ≡ true
    → are_commands (cs ++ (c ∷ [])) ≡ true
unfolding are_commands
are_commands-append_one [] c h k = ground arith
are_commands-append_one (d ∷ cs) c h k = ground (arith, are_commands-append_one cs c)

are_tokens-append_one :
    (ts : List (List ℕ)) (t : List ℕ)
    → are_tokens ts ≡ true
    → is_token t ≡ true
    → are_tokens (ts ++ (t ∷ [])) ≡ true
unfolding are_tokens
are_tokens-append_one [] t h k = ground arith
are_tokens-append_one (u ∷ ts) t h k = ground (arith, are_tokens-append_one ts t)

command_if_any :
    (c : Command) → is_partial c ≡ true → (length c.args == 0) ≡ false → is_command c ≡ true
unfolding is_command
command_if_any c h k = ground arith

partial_word :
    (c : Command) (token : List ℕ)
    → is_partial c ≡ true
    → is_token token ≡ true
    → leb max_args (length c.args) ≡ false
    → is_partial (record { args = c.args ++ (token ∷ []); stdin = c.stdin; stdout = c.stdout })
      ≡ true
unfolding is_partial
partial_word c token h t room =
    ground (arith, are_tokens-append_one c.args token, length-append c.args (token ∷ []))

on_bar-Yields : (n : ℕ) (s : ParseState) → IsGood n s → Yields (IsGood n) (on_bar s)
unfolding on_bar Yields is_partial are_tokens
on_bar-Yields n s g =
    Yields-guard (IsGood n) (length s.cur.args == 0) _ _ (λ e. cc)
      λ some_args.
        Yields-guard (IsGood n) (leb max_stages (length s.cmds)) _ _ (λ e. cc)
          λ room. record {
            shorter = g.shorter;
            partial = refl;
            complete =
                are_commands-append_one s.cmds s.cur g.complete
                  (command_if_any s.cur g.partial some_args);
            few = ground (arith, g.few, length-append s.cmds (s.cur ∷ []));
          }

on_less-Yields : (n : ℕ) (s : ParseState) → IsGood n s → Yields (IsGood n) (on_less s)
unfolding on_less Yields is_partial IsPiece
on_less-Yields n s g =
    Yields-bind (IsPiece (skip_spaces s.rest)) (IsGood n) (parse_token (skip_spaces s.rest)) _
      (parse_token-Yields (skip_spaces s.rest))
      λ (token, next) (t, l). record {
        shorter = omega (arith, g.shorter, length-skip_spaces s.rest);
        partial = ground (arith, g.partial);
        complete = g.complete;
        few = g.few;
      }

length-append_mode : (bs : List ℕ) → length ((append_mode bs).1) ≤ length bs
length-append_mode [] = omega arith
length-append_mode (b ∷ bs) = ground arith

on_greater-Yields : (n : ℕ) (s : ParseState) → IsGood n s → Yields (IsGood n) (on_greater s)
unfolding on_greater Yields is_partial IsPiece
on_greater-Yields n s g =
    let line = skip_spaces ((append_mode s.rest).1) in
    Yields-bind (IsPiece line) (IsGood n) (parse_token line) _ (parse_token-Yields line)
      λ (token, next) (t, l). record {
        shorter = omega (
          arith,
          g.shorter,
          length-skip_spaces ((append_mode s.rest).1),
          length-append_mode s.rest,
        );
        partial = ground (arith, g.partial);
        complete = g.complete;
        few = g.few;
      }

on_word-Yields : (n : ℕ) (s : ParseState) → IsGood (suc n) s → Yields (IsGood n) (on_word s)
unfolding on_word Yields IsPiece
on_word-Yields n s g =
    Yields-bind (IsPiece s.rest) (IsGood n) (parse_token s.rest) _ (parse_token-Yields s.rest)
      λ (token, next) (t, l).
        Yields-guard (IsGood n) (leb max_args (length s.cur.args)) _ _ (λ e. cc)
          λ room. record {
            shorter = omega (arith, g.shorter);
            partial = partial_word s.cur token g.partial t room;
            complete = g.complete;
            few = g.few;
          }

dispatch-Yields :
    (n : ℕ) (s : ParseState) (b : ℕ) (bs : List ℕ)
    → IsGood (suc n) s
    → length (b ∷ bs) < suc n
    → Yields (IsGood n) (dispatch s b bs)
unfolding dispatch
dispatch-Yields n s b bs g l =
    let taken : IsGood n (with_rest s bs) = record {
      shorter = omega arith;
      partial = g.partial;
      complete = g.complete;
      few = g.few;
    } in
    let whole : IsGood (suc n) (with_rest s (b ∷ bs)) = record {
      shorter = l;
      partial = g.partial;
      complete = g.complete;
      few = g.few;
    } in
    elim (Bool-cases (b == 124)) [
      | inl e ↦ rw e (on_bar-Yields n _ taken)
      | inr e ↦ rw e (elim (Bool-cases (b == 60)) [
        | inl e ↦ rw e (on_less-Yields n _ taken)
        | inr e ↦ rw e (elim (Bool-cases (b == 62)) [
          | inl e ↦ rw e (on_greater-Yields n _ taken)
          | inr e ↦ rw e (on_word-Yields n _ whole)
        ])
      ])
    ]

-- The commands that `parse_commands` may put into the array.
pub record IsPipeline (cmds : List Command) : Type 0 where
  pub some_stage : 0 < length cmds
  pub few_stages : length cmds ≤ max_stages
  pub commands : are_commands cmds ≡ true

finish-Yields : (n : ℕ) (s : ParseState) → IsGood n s → Yields IsPipeline (finish s)
unfolding finish Yields
finish-Yields n s g =
    Yields-guard IsPipeline (length s.cur.args == 0) _ _ (λ e. cc)
      λ some_args.
        Yields-guard IsPipeline (leb max_stages (length s.cmds)) _ _ (λ e. cc)
          λ room. record {
            some_stage = omega (arith, length-append s.cmds (s.cur ∷ []));
            few_stages = ground (arith, length-append s.cmds (s.cur ∷ []));
            commands =
                are_commands-append_one s.cmds s.cur g.complete
                  (command_if_any s.cur g.partial some_args);
          }

round-Yields :
    (n : ℕ) (next : ParseState → Result ParseError (List Command)) (s : ParseState) (bs : List ℕ)
    → ((s' : ParseState) → IsGood n s' → Yields IsPipeline (next s'))
    → IsGood (suc n) s
    → length bs < suc n
    → Yields IsPipeline (round next s bs)
unfolding round
round-Yields n next s [] ih g l = finish-Yields (suc n) s g
round-Yields n next s (b ∷ bs) ih g l =
    Yields-bind (IsGood n) IsPipeline (dispatch s b bs) next (dispatch-Yields n s b bs g l) ih

parse_rounds-Yields :
    (fuel : ℕ) (s : ParseState) → IsGood fuel s → Yields IsPipeline (parse_rounds fuel s)
unfolding parse_rounds
parse_rounds-Yields zero s g = absurd (omega (arith, g.shorter))
parse_rounds-Yields (suc fuel) s g =
    round-Yields fuel (parse_rounds fuel) s (skip_spaces s.rest) (parse_rounds-Yields fuel) g
      (omega (arith, g.shorter, length-skip_spaces s.rest))

-- For every line `parse_commands` ends: it gives one of the source's errors, or a pipeline of one to
-- eight commands, each with one to eight arguments, where every argument and every path is a token:
-- not empty, and without a space, a tab, `|`, `<` or `>`.
pub parse_commands-Yields : (line : List ℕ) → Yields IsPipeline (parse_commands line)
unfolding parse_commands is_partial are_tokens are_commands
parse_commands-Yields line =
    parse_rounds-Yields (suc (length line)) _
      (record { shorter = omega arith; partial = refl; complete = refl; few = omega arith })
