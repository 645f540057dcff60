-- ===== src/Shell/Normal.antt =====
-- The path that `normalize_path` of src/main.rs returns names the directories that are left when
-- the parts of the input were followed one by one.
use crabv.Base.{
  ℕ, ◌≢◌, ◌≡◌, refl, sym, ap, subst, ◌∙◌, inl, inr, Bool, true, false, ◌||◌, List, [], ◌∷◌, ◌++◌,
  arith, Bool-cases, ◌==◌, if◌then◌else◌,
}
use crabv.Fs.Path.{push_first, is_empty, same_name, split, not_empty, split_path}
use crabv.Shell.Walk.{Walks, resolve-Walks}
use crabv.Shell.{
  starts_with_slash, dot, dot_dot, pop, resolve, join, start_segments, render, normalize_path,
}

-- A part of a path without a slash.
unfoldable pub no_slash : List ℕ → Bool
no_slash [] = true
no_slash (c ∷ cs) = let rest = no_slash cs in if c == 47 then false else rest

-- A name of a directory or file: not empty, without a slash, and neither `.` nor `..`.
pub record IsName (s : List ℕ) : Type 0 where
  pub some_byte : is_empty s ≡ false
  pub whole : no_slash s ≡ true
  pub no_dot : same_name s dot ≡ false
  pub no_dots : same_name s dot_dot ≡ false

abbrev pub AreNames : List (List ℕ) → Type 0
AreNames [] = Unit {0}
AreNames (s ∷ ss) = IsName s × AreNames ss

abbrev NoSlashes : List (List ℕ) → Type 0
NoSlashes [] = Unit {0}
NoSlashes (s ∷ ss) = (no_slash s ≡ true) × NoSlashes ss

push_first-NoSlashes :
    (c : ℕ) (ss : List (List ℕ)) → (c == 47) ≡ false → NoSlashes ss → NoSlashes (push_first c ss)
unfolding no_slash
push_first-NoSlashes c [] h n = (ground arith, tt)
push_first-NoSlashes c (s ∷ ss) h n = let (a, b) = n in (ground (arith, a), b)

split-NoSlashes : (path : List ℕ) → NoSlashes (split path)
unfolding split no_slash
split-NoSlashes [] = (refl, tt)
split-NoSlashes (c ∷ cs) = elim (Bool-cases (c == 47)) [
  | inl slash ↦ rw slash (refl, split-NoSlashes cs)
  | inr other ↦ rw other (push_first-NoSlashes c (split cs) other (split-NoSlashes cs))
]

split-append_slash :
    (s rest : List ℕ) → no_slash s ≡ true → split (s ++ (47 ∷ rest)) ≡ s ∷ split rest
unfolding split no_slash
split-append_slash [] rest h = refl
split-append_slash (c ∷ cs) rest h = ground (arith, split-append_slash cs rest)

split_one : (s : List ℕ) → no_slash s ≡ true → split s ≡ s ∷ []
unfolding split no_slash
split_one [] h = refl
split_one (c ∷ cs) h = ground (arith, split_one cs)

-- Names that were joined are what a split finds.
split-join : (s : List ℕ) (ss : List (List ℕ)) → AreNames (s ∷ ss) → split (join (s ∷ ss)) ≡ s ∷ ss
unfolding join
split-join s [] v = split_one s v.0.whole
split-join s (t ∷ ss) v =
    split-append_slash s (join (t ∷ ss)) v.0.whole ∙ ap (λ l. s ∷ l) (split-join t ss v.1)

not_empty_names : (ss : List (List ℕ)) → AreNames ss → not_empty ss ≡ ss
unfolding not_empty
not_empty_names [] v = refl
not_empty_names ([] ∷ ss) v = absurd (let e : true ≡ false = v.0.some_byte in cc)
not_empty_names ((c ∷ cs) ∷ ss) v = ap (λ l. (c ∷ cs) ∷ l) (not_empty_names ss v.1)

pop-AreNames : (ss : List (List ℕ)) → AreNames ss → AreNames (pop ss)
unfolding pop
pop-AreNames [] v = tt
pop-AreNames (s ∷ []) v = tt
pop-AreNames (s ∷ t ∷ ss) v = (v.0, pop-AreNames (t ∷ ss) v.1)

append-AreNames :
    (ss : List (List ℕ)) (s : List ℕ) → AreNames ss → IsName s → AreNames (ss ++ (s ∷ []))
append-AreNames [] s v n = (n, tt)
append-AreNames (t ∷ ss) s v n = (v.0, append-AreNames ss s v.1 n)

-- Following parts without slashes from names leads to names.
resolve-AreNames :
    (ss parts : List (List ℕ)) → AreNames ss → NoSlashes parts → AreNames (resolve ss parts)
unfolding resolve
resolve-AreNames ss [] v n = v
resolve-AreNames ss (part ∷ parts) v n = elim (Bool-cases (is_empty part || same_name part dot)) [
  | inl skip ↦ rw skip (resolve-AreNames ss parts v n.1)
  | inr on ↦ elim (Bool-cases (same_name part dot_dot)) [
    | inl up ↦ rw on (rw up (resolve-AreNames (pop ss) parts (pop-AreNames ss v) n.1))
    | inr down ↦ rw on (
        rw down (
          resolve-AreNames (ss ++ (part ∷ [])) parts
            (append-AreNames ss part v (record {
              some_byte = ground arith;
              whole = n.0;
              no_dot = ground arith;
              no_dots = down;
            }))
            n.1))
  ]
]

split_path-render : (ss : List (List ℕ)) → AreNames ss → split_path (render ss) ≡ ss
unfolding split_path split not_empty
split_path-render [] v = refl
split_path-render (s ∷ ss) v =
    ap not_empty (ap (λ l. [] ∷ l) (split-join s ss v)) ∙ not_empty_names (s ∷ ss) v

start_segments-AreNames :
    (cwd input : List ℕ) → AreNames (split_path cwd) → AreNames (start_segments cwd input)
unfolding split_path split not_empty
start_segments-AreNames cwd input v = elim (Bool-cases (starts_with_slash input)) [
  | inl root ↦ rw root tt
  | inr below ↦ rw below (from cwd v)
]
  where
    from : (path : List ℕ) → AreNames (split_path path) → AreNames (not_empty (split path))
    from [] v = tt
    from (c ∷ cs) v = v

normalize_path-render :
    (cwd input : List ℕ)
    → is_empty input ≡ false
    → normalize_path cwd input ≡ render (resolve (start_segments cwd input) (split input))
unfolding normalize_path
normalize_path-render cwd input h = rw h refl

start_at_root : (cwd input rest : List ℕ) → input ≡ 47 ∷ rest → start_segments cwd input ≡ []
start_at_root cwd input rest h = rw h refl

start_below :
    (cwd input : List ℕ)
    → ((rest : List ℕ) → input ≢ 47 ∷ rest)
    → start_segments cwd input ≡ split_path cwd
unfolding split_path split not_empty
start_below [] [] h = refl
start_below (c ∷ cs) [] h = refl
start_below cwd (d ∷ input) h = elim (Bool-cases (d == 47)) [
  | inl slash ↦ absurd (h input (ground arith))
  | inr other ↦ rw other (from cwd)
]
  where
    from : (path : List ℕ) → not_empty (split path) ≡ split_path path
    from [] = refl
    from (c ∷ cs) = refl

-- From a working directory whose parts are names, a path that is not empty is resolved to one whose
-- parts, as the filesystem splits it, are where the parts of the input lead: from the root, if the
-- input starts with a slash, and from the working directory otherwise. An empty part and `.` stay,
-- `..` leaves the last directory and stays at the root, and any other part enters a directory. All
-- parts of the result are names, so no `.` and no `..` is among them.
pub split_path-normalize_path :
    (cwd input : List ℕ)
    → AreNames (split_path cwd)
    → is_empty input ≡ false
    → ((rest : List ℕ)
        → input ≡ 47 ∷ rest
        → Walks [] (split input) (split_path (normalize_path cwd input)))
      × (((rest : List ℕ) → input ≢ 47 ∷ rest)
          → Walks (split_path cwd) (split input) (split_path (normalize_path cwd input)))
      × AreNames (split_path (normalize_path cwd input))
split_path-normalize_path cwd input v some_byte =
    let start = start_segments cwd input in
    let found = resolve start (split input) in
    let names =
      resolve-AreNames start (split input) (start_segments-AreNames cwd input v)
        (split-NoSlashes input) in
    let same : split_path (normalize_path cwd input) ≡ found =
      ap split_path (normalize_path-render cwd input some_byte) ∙ split_path-render found names in
    let walks : Walks start (split input) (split_path (normalize_path cwd input)) =
      subst (λ l. Walks start (split input) l) (sym same) (resolve-Walks start (split input)) in
    (
      λ rest slash.
          subst (λ l. Walks l (split input) (split_path (normalize_path cwd input)))
            (start_at_root cwd input rest slash) walks,
      λ below.
          subst (λ l. Walks l (split input) (split_path (normalize_path cwd input)))
            (start_below cwd input below) walks,
      subst AreNames (sym same) names,
    )
