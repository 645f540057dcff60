-- ===== src/Shell/Walk.antt =====
-- Following the parts of a path, as a relation, and the loop of `normalize_path` of src/main.rs.
use crabv.Base.{
  ℕ, ◌≡◌, ◌≢◌, ◌⊎◌, refl, sym, ap, subst, ◌∙◌, inl, inr, true, false, ◌||◌, List, [], ◌∷◌, ◌++◌,
  arith, Bool-cases,
}
use crabv.Fs.Path.{is_empty, same_name}
use crabv.Fs.Path.Find.{same_name_refl, same_name_sound}
use crabv.Shell.{dot, dot_dot, pop, resolve}

-- `Walks here parts there`: from the directory with the names `here`, the parts lead to `there`. An
-- empty part and `.` stay, `..` leaves the last directory and stays at the root, and any other part
-- enters the directory of its name.
pub data Walks : List (List ℕ) → List (List ℕ) → List (List ℕ) → Type 0 where
  arrived : {here : List (List ℕ)} → Walks here [] here
  empty_part :
      {here parts there : List (List ℕ)} → Walks here parts there → Walks here ([] ∷ parts) there
  stays :
      {here parts there : List (List ℕ)}
      → Walks here parts there
      → Walks here ((46 ∷ []) ∷ parts) there
  up :
      {here parts there : List (List ℕ)} (last : List ℕ)
      → Walks here parts there
      → Walks (here ++ (last ∷ [])) ((46 ∷ 46 ∷ []) ∷ parts) there
  up_at_root :
      {parts there : List (List ℕ)} → Walks [] parts there → Walks [] ((46 ∷ 46 ∷ []) ∷ parts) there
  enters :
      {here parts there : List (List ℕ)} {name : List ℕ}
      → name ≢ []
      → name ≢ 46 ∷ []
      → name ≢ 46 ∷ 46 ∷ []
      → Walks (here ++ (name ∷ [])) parts there
      → Walks here (name ∷ parts) there

name_ne : (a b : List ℕ) → same_name a b ≡ false → a ≢ b
name_ne a b h e =
    let yes : same_name a b ≡ true =
      ap (λ (c : List ℕ). same_name a c) (sym e) ∙ same_name_refl a in
    absurd (cc)

-- A list is empty or has a last element, and `pop` removes that.
pop-cases :
    (ss : List (List ℕ))
    → (ss ≡ [])
      ⊎ ((front : List (List ℕ)) × (last : List ℕ) × (ss ≡ front ++ (last ∷ [])) × (pop ss ≡ front))
unfolding pop
pop-cases [] = inl refl
pop-cases (s ∷ []) = inr ([], s, refl, refl)
pop-cases (s ∷ t ∷ ss) = elim (pop-cases (t ∷ ss)) [
  | inl none ↦ absurd (cc)
  | inr (front, last, same, popped) ↦
      inr (s ∷ front, last, ap (λ l. s ∷ l) same, ap (λ l. s ∷ l) popped)
]

skip-Walks :
    (ss : List (List ℕ)) (part : List ℕ) {parts there : List (List ℕ)}
    → (is_empty part || same_name part dot) ≡ true
    → Walks ss parts there
    → Walks ss (part ∷ parts) there
skip-Walks ss [] h w = Walks.empty_part w
skip-Walks ss (c ∷ cs) {parts} {there} h w =
    let same : same_name (c ∷ cs) dot ≡ true = ground arith in
    subst (λ p. Walks ss (p ∷ parts) there) (sym (same_name_sound (c ∷ cs) dot same))
      (Walks.stays w)

up-Walks :
    (ss : List (List ℕ)) (part : List ℕ) {parts there : List (List ℕ)}
    → same_name part dot_dot ≡ true
    → Walks (pop ss) parts there
    → Walks ss (part ∷ parts) there
unfolding pop
up-Walks ss part {parts} {there} h w =
    subst (λ p. Walks ss (p ∷ parts) there) (sym (same_name_sound part dot_dot h))
      (elim (pop-cases ss) [
        | inl root ↦
            subst (λ l. Walks l (dot_dot ∷ parts) there) (sym root)
              (Walks.up_at_root (subst (λ l. Walks (pop l) parts there) root w))
        | inr (front, last, same, popped) ↦
            subst (λ l. Walks l (dot_dot ∷ parts) there) (sym same)
              (Walks.up last (subst (λ l. Walks l parts there) popped w))
      ])

-- The loop follows the parts.
pub resolve-Walks : (ss parts : List (List ℕ)) → Walks ss parts (resolve ss parts)
unfolding resolve
resolve-Walks ss [] = Walks.arrived
resolve-Walks ss (part ∷ parts) = elim (Bool-cases (is_empty part || same_name part dot)) [
  | inl skip ↦ rw skip (skip-Walks ss part skip (resolve-Walks ss parts))
  | inr on ↦ elim (Bool-cases (same_name part dot_dot)) [
    | inl back ↦ rw on (rw back (up-Walks ss part back (resolve-Walks (pop ss) parts)))
    | inr down ↦ rw on (
        rw down (
          Walks.enters (λ e. ground (arith, e)) (name_ne part dot (ground arith))
            (name_ne part dot_dot down) (resolve-Walks (ss ++ (part ∷ [])) parts)))
  ]
]
