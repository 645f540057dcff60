-- ===== src/Shell.antt =====
-- `normalize_path` of src/main.rs, by which the kernel's shell resolves a path against its working
-- directory.
pub mod Walk
pub mod Normal
mod Examples
use crabv.Base.{ℕ, Bool, true, false, ◌||◌, List, [], ◌∷◌, ◌++◌, ◌==◌, if◌then◌else◌}
use crabv.Fs.Path.{is_empty, same_name, split, not_empty}

abbrev pub dot : List ℕ
dot = 46 ∷ []

abbrev pub dot_dot : List ℕ
dot_dot = 46 ∷ 46 ∷ []

-- `Vec::pop`
unfoldable pub pop : List (List ℕ) → List (List ℕ)
pop [] = []
pop (s ∷ []) = []
pop (s ∷ t ∷ ss) = s ∷ pop (t ∷ ss)

-- The loop over the parts of the input.
unfoldable pub resolve : List (List ℕ) → List (List ℕ) → List (List ℕ)
resolve segments [] = segments
resolve segments (part ∷ parts) =
    if is_empty part || same_name part dot
    then resolve segments parts
    else (if same_name part dot_dot
        then resolve (pop segments) parts
        else resolve (segments ++ (part ∷ [])) parts)

-- `join("/")`
unfoldable pub join : List (List ℕ) → List ℕ
join [] = []
join (s ∷ []) = s
join (s ∷ t ∷ ss) = s ++ (47 ∷ join (t ∷ ss))

abbrev pub starts_with_slash : List ℕ → Bool
starts_with_slash [] = false
starts_with_slash (c ∷ cs) = c == 47

abbrev pub start_segments : List ℕ → List ℕ → List (List ℕ)
start_segments cwd input = if starts_with_slash input then [] else not_empty (split cwd)

abbrev pub render : List (List ℕ) → List ℕ
render segments = if is_empty segments then [] else 47 ∷ join segments

unfoldable pub normalize_path : List ℕ → List ℕ → List ℕ
normalize_path cwd input =
    if is_empty input then cwd else render (resolve (start_segments cwd input) (split input))
