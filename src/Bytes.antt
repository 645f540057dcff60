-- ===== src/Bytes.antt =====
-- Little-endian numbers, padded buffers and the test for UTF-8, which the formats of src/fs.rs and
-- src/elf.rs use.
use crabv.Base.{
  ℕ, zero, suc, ◌+◌, ◌-◌, ◌*◌, ◌/◌, ◌%◌, ◌^◌, ◌≤◌, ◌<◌, ◌≡◌, refl, ap, Bool, true, false, ◌&&◌,
  List, [], ◌∷◌, ◌++◌, arith, leb, ltb, ◌==◌, if◌then◌else◌, length, length-append,
  length-replicate, take, drop, get_or, replicate,
}

-- `to_le_bytes`, of `k` bytes.
unfoldable pub to_le_bytes : ℕ → ℕ → List ℕ
to_le_bytes zero n = []
to_le_bytes (suc k) n = n % 256 ∷ to_le_bytes k (n / 256)

-- `from_le_bytes`
unfoldable pub from_le_bytes : List ℕ → ℕ
from_le_bytes [] = 0
from_le_bytes (b ∷ bs) = b + 256 * from_le_bytes bs

pub from_le_bytes-to_le_bytes : (k n : ℕ) → n < 256 ^ k → from_le_bytes (to_le_bytes k n) ≡ n
unfolding from_le_bytes to_le_bytes
from_le_bytes-to_le_bytes zero n h = omega arith
from_le_bytes-to_le_bytes (suc k) n h =
    omega (arith, from_le_bytes-to_le_bytes k (n / 256) (omega arith))

pub length-to_le_bytes : (k n : ℕ) → length (to_le_bytes k n) ≡ k
unfolding to_le_bytes
length-to_le_bytes zero n = refl
length-to_le_bytes (suc k) n = ap suc (length-to_le_bytes k (n / 256))

-- A zeroed buffer of `n` bytes into which `bytes` was copied.
abbrev pub pad : ℕ → List ℕ → List ℕ
pad n bytes = bytes ++ replicate (n - length bytes) 0

pub length-pad : (n : ℕ) (bytes : List ℕ) → length bytes ≤ n → length (pad n bytes) ≡ n
length-pad n bytes h = omega (
  arith,
  length-append bytes (replicate (n - length bytes) 0),
  length-replicate {A = ℕ} (n - length bytes) 0,
)

module _ {ℓ} {A : Type ℓ} where
  pub take-append_self : (xs ys : List A) (n : ℕ) → n ≡ length xs → take n (xs ++ ys) ≡ xs
  take-append_self [] ys zero h = refl
  take-append_self [] ys (suc n) h = absurd (omega arith)
  take-append_self (x ∷ xs) ys zero h = absurd (omega arith)
  take-append_self (x ∷ xs) ys (suc n) h = ap (λ l. x ∷ l) (take-append_self xs ys n (omega arith))

  pub take_le : (xs : List A) (n : ℕ) → length xs ≤ n → take n xs ≡ xs
  take_le [] zero h = refl
  take_le [] (suc n) h = refl
  take_le (x ∷ xs) zero h = absurd (omega arith)
  take_le (x ∷ xs) (suc n) h = ap (λ l. x ∷ l) (take_le xs n (omega arith))

  pub drop-append_add :
      (xs ys : List A) (m k : ℕ) → m ≡ length xs + k → drop m (xs ++ ys) ≡ drop k ys
  drop-append_add [] ys m k h = let e : m ≡ k = omega arith in ap (λ i. drop i ys) e
  drop-append_add (x ∷ xs) ys zero k h = absurd (omega arith)
  drop-append_add (x ∷ xs) ys (suc m) k h = drop-append_add xs ys m k (omega arith)

  pub get_or-append_add :
      (xs ys : List A) (m k : ℕ) (d : A) → m ≡ length xs + k → get_or (xs ++ ys) m d ≡ get_or ys k d
  get_or-append_add [] ys m k d h = let e : m ≡ k = omega arith in ap (λ i. get_or ys i d) e
  get_or-append_add (x ∷ xs) ys zero k d h = absurd (omega arith)
  get_or-append_add (x ∷ xs) ys (suc m) k d h = get_or-append_add xs ys m k d (omega arith)

-- The bytes before the first zero, all of them if there is none.
unfoldable pub until_nul : List ℕ → List ℕ
until_nul [] = []
until_nul (b ∷ bs) = let rest = until_nul bs in if b == 0 then [] else b ∷ rest

unfoldable pub has_no_nul : List ℕ → Bool
has_no_nul [] = true
has_no_nul (b ∷ bs) = let rest = has_no_nul bs in if b == 0 then false else rest

pub until_nul-pad :
    (bytes : List ℕ) (n : ℕ) → has_no_nul bytes ≡ true → until_nul (bytes ++ replicate n 0) ≡ bytes
unfolding until_nul has_no_nul
until_nul-pad [] zero h = refl
until_nul-pad [] (suc n) h = refl
until_nul-pad (b ∷ bs) n h = ground (arith, until_nul-pad bs n)

abbrev in_range : ℕ → ℕ → ℕ → Bool
in_range lo hi b = leb lo b && leb b hi

abbrev is_continuation : ℕ → Bool
is_continuation b = in_range 128 191 b

-- The second byte that may follow the first of a sequence of three or four.
abbrev is_second : ℕ → ℕ → Bool
is_second a b =
    if a == 224
    then in_range 160 191 b
    else (if a == 237
        then in_range 128 159 b
        else (if a == 240
            then in_range 144 191 b
            else (if a == 244 then in_range 128 143 b else is_continuation b)))

-- `str::from_utf8(…).is_ok()`: well-formed sequences of one to four bytes.
unfoldable pub is_utf8 : List ℕ → Bool
is_utf8 [] = true
is_utf8 (a ∷ []) = ltb a 128
is_utf8 (a ∷ b ∷ []) = if ltb a 128 then ltb b 128 else in_range 194 223 a && is_continuation b
is_utf8 (a ∷ b ∷ c ∷ []) =
    let one = is_utf8 (b ∷ c ∷ []) in
    let two = is_utf8 (c ∷ []) in
    if ltb a 128
    then one
    else (if ltb a 224
        then in_range 194 223 a && is_continuation b && two
        else leb a 239 && is_second a b && is_continuation c)
is_utf8 (a ∷ b ∷ c ∷ d ∷ rest) =
    let one = is_utf8 (b ∷ c ∷ d ∷ rest) in
    let two = is_utf8 (c ∷ d ∷ rest) in
    let three = is_utf8 (d ∷ rest) in
    let four = is_utf8 rest in
    if ltb a 128
    then one
    else (if ltb a 224
        then in_range 194 223 a && is_continuation b && two
        else (if ltb a 240
            then is_second a b && is_continuation c && three
            else leb a 244 && is_second a b && is_continuation c && is_continuation d && four))
