-- ===== src/Base/Slots.antt =====
-- Fixed arrays of optional entries, such as the tables of pipes, descriptors and processes: an
-- update, and the search for the first empty slot.
use Prim.Native.Nat.{ℕ, zero, suc, ◌+◌, ◌<◌}
use mathlib.Core.Path.{◌≡◌, refl}
use mathlib.Core.Logic.{◌≢◌, inl, inr}
use mathlib.Core.Option.{Option, none, some}
use mathlib.Core.List.{List, [], ◌∷◌}
use native.Mathlib.Omega.{arith}
use crabv.Base.Tests.{◌==◌, ==_iff, Bool-cases, if◌then◌else◌}
use crabv.Base.Lists.{length, get_or, set, get_or-set_self, get_or-set_ne}

pub get_or-set {ℓ} :
    {A : Type ℓ} (xs : List A) (i j : ℕ) (v d : A)
    → i < length xs
    → get_or (set xs i v) j d ≡ (if i == j then v else get_or xs j d)
get_or-set xs i j v d h = elim (Bool-cases (i == j)) [
  | inl same ↦ rw same (rw (← (==_iff i j).0 same) (get_or-set_self xs i v d h))
  | inr other ↦ rw other (get_or-set_ne xs i j v d (ground arith))
]

-- `iter().position(|p| p.is_none())`, from index `i` on.
unfoldable pub first_none : {A : Type 0} → List (Option A) → ℕ → Option ℕ
first_none [] i = none
first_none (none ∷ ps) i = some i
first_none (some p ∷ ps) i = first_none ps (i + 1)

-- The index that was found, counted from the front: an empty slot behind occupied ones only.
pub record IsFirst {A : Type 0} (ps : List (Option A)) (k : ℕ) : Type 0 where
  pub inside : k < length ps
  pub empty : get_or ps k none ≡ none
  pub occupied : (j : ℕ) → j < k → get_or ps j none ≢ none

IsFirst-cons :
    {A : Type 0} (p : A) (ps : List (Option A)) (k : ℕ)
    → IsFirst ps k
    → IsFirst (some p ∷ ps) (suc k)
IsFirst-cons p ps k f = record {
  inside = omega (arith, f.inside);
  empty = f.empty;
  occupied = elim [ zero ↦ λ h e. cc | suc j ↦ λ h. f.occupied j (omega arith) ];
}

first_none-from :
    {A : Type 0} (ps : List (Option A)) (i id : ℕ)
    → first_none ps i ≡ some id
    → (k : ℕ) × (id ≡ i + k) × IsFirst ps k
unfolding first_none
first_none-from [] i id e = absurd (cc)
first_none-from (none ∷ ps) i id e = (
  0,
  ground arith,
  record { inside = omega arith; empty = refl; occupied = λ j h. absurd (omega arith) },
)
first_none-from (some p ∷ ps) i id e =
    let (k, eq, f) = first_none-from ps (i + 1) id e in
    (suc k, omega (arith, eq), IsFirst-cons p ps k f)

pub first_none-some :
    {A : Type 0} (ps : List (Option A)) (id : ℕ) → first_none ps 0 ≡ some id → IsFirst ps id
first_none-some ps id e =
    let (k, eq, f) = first_none-from ps 0 id e in
    let same : k ≡ id = omega (arith, eq) in rw same at f

pub first_none-none :
    {A : Type 0} (ps : List (Option A)) (i k : ℕ)
    → first_none ps i ≡ none
    → k < length ps
    → get_or ps k none ≢ none
unfolding first_none
first_none-none [] i k e h = absurd (omega arith)
first_none-none (none ∷ ps) i k e h = absurd (cc)
first_none-none (some p ∷ ps) i zero e h = λ q. cc
first_none-none (some p ∷ ps) i (suc k) e h = first_none-none ps (i + 1) k e (omega arith)
