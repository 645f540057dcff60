-- ===== src/Shell/Examples.antt =====
-- Paths that the kernel's shell resolves.
use crabv.Base.{ℕ, ◌≢◌, ◌≡◌, refl, List, [], ◌∷◌}
use crabv.Fs.Path.{same_name, split, not_empty, split_path}
use crabv.Shell.{pop, resolve, join, normalize_path}
use crabv.Shell.Walk.{Walks}
use crabv.Shell.Normal.{no_slash, AreNames, split_path-normalize_path}

-- `/a/b`
abbrev cwd : List ℕ
cwd = 47 ∷ 97 ∷ 47 ∷ 98 ∷ []

-- `.././/c`
abbrev input : List ℕ
input = 46 ∷ 46 ∷ 47 ∷ 46 ∷ 47 ∷ 47 ∷ 99 ∷ []

-- `/a/c`, and `..` at the root.
normalize_path_tests :
    (normalize_path cwd input ≡ 47 ∷ 97 ∷ 47 ∷ 99 ∷ []) × (normalize_path [] (46 ∷ 46 ∷ []) ≡ [])
unfolding normalize_path resolve pop join split not_empty same_name
normalize_path_tests = (refl, refl)

cwd-AreNames : AreNames (split_path cwd)
unfolding split_path split not_empty no_slash same_name
cwd-AreNames = (
  record { some_byte = refl; whole = refl; no_dot = refl; no_dots = refl },
  (record { some_byte = refl; whole = refl; no_dot = refl; no_dots = refl }, tt),
)

split_path-normalize_path_example :
    ((rest : List ℕ)
      → input ≡ 47 ∷ rest
      → Walks [] (split input) (split_path (normalize_path cwd input)))
    × (((rest : List ℕ) → input ≢ 47 ∷ rest)
        → Walks (split_path cwd) (split input) (split_path (normalize_path cwd input)))
    × AreNames (split_path (normalize_path cwd input))
split_path-normalize_path_example = split_path-normalize_path cwd input cwd-AreNames refl
