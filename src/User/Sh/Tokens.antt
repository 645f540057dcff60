-- ===== src/User/Sh/Tokens.antt =====
-- The tokens of a line: what a result of the parser says of them, and how much of the line they
-- take.
use crabv.Base.{
  ℕ, ◌+◌, ◌≤◌, ◌<◌, ◌≡◌, refl, ◌≢◌, Bool, true, false, not, ◌&&◌, ◌||◌, Option, none, some, List,
  [], ◌∷◌, arith, Result, ok, err, ◌>>=◌, leb, if◌then◌else◌, length,
}
use crabv.User.Sh.{
  max_args, Redir, Command, ParseError, is_space, is_special, skip_spaces, token_end,
  nonempty_token, parse_token,
}

-- Bytes of a token: no space and no sign of the shell.
unfoldable pub all_plain : List ℕ → Bool
all_plain [] = true
all_plain (b ∷ bs) = not (is_space b || is_special b) && all_plain bs

unfoldable pub is_token : List ℕ → Bool
is_token [] = false
is_token (b ∷ bs) = all_plain (b ∷ bs)

unfoldable pub are_tokens : List (List ℕ) → Bool
are_tokens [] = true
are_tokens (t ∷ ts) = is_token t && are_tokens ts

abbrev pub is_token_if_any : Option (List ℕ) → Bool
is_token_if_any none = true
is_token_if_any (some t) = is_token t

abbrev pub has_path : Option Redir → Bool
has_path none = true
has_path (some r) = is_token r.path

-- The parts of a command that are there are tokens, and there are at most `max_args` arguments.
unfoldable pub is_partial : Command → Bool
is_partial c =
    leb (length c.args) max_args
    && are_tokens c.args
    && is_token_if_any c.stdin
    && has_path c.stdout

unfoldable pub is_command : Command → Bool
is_command c = leb 1 (length c.args) && is_partial c

unfoldable pub are_commands : List Command → Bool
are_commands [] = true
are_commands (c ∷ cs) = is_command c && are_commands cs

pub length-skip_spaces : (bs : List ℕ) → length (skip_spaces bs) ≤ length bs
unfolding skip_spaces
length-skip_spaces [] = omega arith
length-skip_spaces (b ∷ bs) = ground (arith, length-skip_spaces bs)

token_end-plain :
    (bs : List ℕ)
    → (all_plain ((token_end bs).0) ≡ true)
      × (length ((token_end bs).0) + length ((token_end bs).1) ≡ length bs)
unfolding token_end all_plain
token_end-plain [] = (refl, refl)
token_end-plain (b ∷ bs) = ground (arith, token_end-plain bs)

-- A result of the parser with the property `P`, or one of the source's errors.
unfoldable pub Yields : {A : Type 0} → (A → Type 0) → Result ParseError A → Type 0
Yields P (ok a) = P a
Yields P (err e) = e ≢ ParseError.out_of_fuel

pub Yields-bind :
    {A B : Type 0} (P : A → Type 0) (Q : B → Type 0) (r : Result ParseError A)
    (f : A → Result ParseError B)
    → Yields P r
    → ((a : A) → P a → Yields Q (f a))
    → Yields Q (r >>= f)
unfolding Yields
Yields-bind P Q (ok a) f y h = h a y
Yields-bind P Q (err e) f y h = y

pub Yields-guard :
    {A : Type 0} (P : A → Type 0) (c : Bool) (e : ParseError) (r : Result ParseError A)
    → e ≢ ParseError.out_of_fuel
    → (c ≡ false → Yields P r)
    → Yields P (if c then err e else r)
unfolding Yields
Yields-guard P true e r ne h = ne
Yields-guard P false e r ne h = h refl

unfoldable pub IsPiece : List ℕ → List ℕ × List ℕ → Type 0
IsPiece line p = (is_token p.0 ≡ true) × (length p.1 < length line)

nonempty_token-Yields :
    (line : List ℕ) (p : List ℕ × List ℕ)
    → all_plain p.0 ≡ true
    → length p.0 + length p.1 ≡ length line
    → Yields (IsPiece line) (nonempty_token p)
unfolding Yields IsPiece is_token
nonempty_token-Yields line ([], next) h l = λ e. cc
nonempty_token-Yields line (b ∷ token, next) h l = (h, omega arith)

pub parse_token-Yields : (line : List ℕ) → Yields (IsPiece line) (parse_token line)
unfolding parse_token
parse_token-Yields line =
    let (h, l) = token_end-plain line in nonempty_token-Yields line (token_end line) h l
