-- ===== src/User/Args.antt =====
-- `get_arg` of user_bin/src/lib.rs, with what it writes to the standard error.
use crabv.Base.{ℕ, List, [], ◌∷◌, ◌++◌, leb, if◌then◌else◌, length, take, codes}
use crabv.User.{Calls, stderr, write_all}

-- a line that is written when the length of the argument has reached a number
abbrev pub at_length : List ℕ → ℕ → List ℕ → List (List ℕ)
at_length arg n line = if leb n (length arg) then line ∷ [] else []

abbrev pub loop_lines : List ℕ → List (List ℕ)
loop_lines [] = codes "[get_arg] first byte is null!\n" ∷ []
loop_lines (b ∷ bs) =
    codes "[get_arg] first byte not null, entering loop\n"
      ∷ at_length (b ∷ bs) 10 (codes "[get_arg] len=10\n")
    ++ at_length (b ∷ bs) 50 (codes "[get_arg] len=50\n")
    ++ at_length (b ∷ bs) 101 (codes "[get_arg] len > 100!\n")
    ++ (codes "[get_arg] found null!\n" ∷ [])

unfoldable pub get_arg_lines : List ℕ → List (List ℕ)
get_arg_lines arg =
    codes "[get_arg] called\n"
    ∷ codes "[get_arg] got args slice\n"
    ∷ codes "[get_arg] got ptr\n"
    ∷ codes "[get_arg] looking for null\n"
    ∷ codes "[get_arg] read first byte\n"
    ∷ loop_lines arg

-- The argument at an index below `argc`, whose bytes up to the zero are given: at most 101 of them
-- are returned. An index out of range, for which the code returns `None`, does not occur: the
-- programs ask for the indices below `argc` only.
unfoldable pub get_arg : {S : Type 0} → Calls S → List ℕ → S → List ℕ × S
get_arg os arg s = (take 101 arg, write_all os stderr (get_arg_lines arg) s)
