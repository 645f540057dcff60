-- ===== src/User/Wc/Digits.antt =====
-- The digits that `print_number` writes.
use mathlib.Core.Logic.{ite, dite}
use mathlib.Core.WellFounded.{Acc, Acc-prop}
use crabv.Base.{
  ℕ, zero, suc, ◌+◌, ◌-◌, ◌*◌, ◌/◌, ◌%◌, ◌^◌, ◌≤◌, ◌<◌, ◌≡◌, refl, ap, ◌∙◌, Bool, true, false, none,
  some, List, [], ◌∷◌, arith, dec_lt, length, set, replicate, length-set, get_or-set_self,
  get_or-set_ne, ap₂, leb, ◌&&◌,
}
use crabv.User.Wc.{lt_wf, tenth_lt, fill, reverse_writes, print_number}

-- any two proofs of `Acc` are equal
fill_step :
    (n : ℕ) (w : Acc ◌<◌ n) (w' : Acc ◌<◌ (n / 10)) (buf : List ℕ) (i : ℕ)
    → fill n w buf i
      ≡ ite
          (dec_lt 0 n)
          (ite (dec_lt i (length buf)) (fill (n / 10) w' (set buf i (b'0' + n % 10)) (suc i)) none)
          (some (buf, i))
unfolding fill
fill_step n (Acc.intro _ smaller) w' buf i = λ j.
    dite (dec_lt 0 n)
      (λ h.
        dite (dec_lt i (length buf))
          (λ _.
            fill (n / 10) (Acc-prop (smaller (n / 10) (tenth_lt h)) w' j)
              (set buf i (b'0' + n % 10)) (suc i))
          (λ _. none))
      (λ _. some (buf, i))

-- The number that decimal digits spell, the most significant one first.
unfoldable pub spelled : ℕ → List (List ℕ) → ℕ
spelled n [] = n
spelled n ([] ∷ ws) = spelled n ws
spelled n ((d ∷ _) ∷ ws) = spelled (10 * n + (d - b'0')) ws

-- Writes of one byte each, a digit.
unfoldable pub are_digits : List (List ℕ) → Bool
are_digits [] = true
are_digits ([] ∷ ws) = false
are_digits ((d ∷ []) ∷ ws) = leb b'0' d && leb d b'9' && are_digits ws
are_digits ((d ∷ _ ∷ _) ∷ ws) = false

reverse_writes-set :
    (buf : List ℕ) (i v j : ℕ) → j ≤ i → reverse_writes (set buf i v) j ≡ reverse_writes buf j
unfolding reverse_writes
reverse_writes-set buf i v zero h = refl
reverse_writes-set buf i v (suc j) h =
    ap₂ (λ d ws. (d ∷ []) ∷ ws) (get_or-set_ne buf i j v 0 (omega arith))
      (reverse_writes-set buf i v j (omega arith))

-- A digit put at the end of the buffer is the first of the writes.
reverse_writes-step :
    (buf : List ℕ) (i v : ℕ)
    → i < length buf
    → reverse_writes (set buf i v) (suc i) ≡ (v ∷ []) ∷ reverse_writes buf i
unfolding reverse_writes
reverse_writes-step buf i v h =
    ap₂ (λ d ws. (d ∷ []) ∷ ws) (get_or-set_self buf i v 0 h)
      (reverse_writes-set buf i v i (omega arith))

digit_step :
    (n : ℕ) (ws : List (List ℕ))
    → (spelled (n / 10) (((b'0' + n % 10) ∷ []) ∷ ws) ≡ spelled n ws)
      × (are_digits (((b'0' + n % 10) ∷ []) ∷ ws) ≡ are_digits ws)
unfolding spelled are_digits
digit_step n ws = (ap (λ m. spelled m ws) (omega arith), ground arith)

length-reverse_writes : (buf : List ℕ) (i : ℕ) → length (reverse_writes buf i) ≡ i
unfolding reverse_writes
length-reverse_writes buf zero = refl
length-reverse_writes buf (suc i) = ap suc (length-reverse_writes buf i)

-- The loop ends inside the buffer, with a digit more for each round.
fill-fits :
    (k n i : ℕ) (w : Acc ◌<◌ n) (buf : List ℕ)
    → n < 10 ^ k
    → i + k ≤ length buf
    → (buf' : List ℕ) × (i' : ℕ) × (fill n w buf i ≡ some (buf', i'))
      × (i' ≤ i + k)
      × (spelled 0 (reverse_writes buf' i') ≡ spelled n (reverse_writes buf i))
      × (are_digits (reverse_writes buf' i') ≡ are_digits (reverse_writes buf i))
fill-fits k zero i w buf h fits =
    (buf, i, ground (arith, fill_step 0 w (lt_wf.apply 0) buf i), omega arith, refl, refl)
fill-fits zero (suc n) i w buf h fits = absurd (omega arith)
fill-fits (suc k) (suc n) i w buf h fits =
    let d = b'0' + suc n % 10 in
    let next = lt_wf.apply (suc n / 10) in
    let (buf', i', e, le, same, digits) =
      fill-fits k (suc n / 10) (suc i) next (set buf i d) (omega arith)
        (omega (arith, length-set buf i d)) in
    let step = reverse_writes-step buf i d (omega arith) in
    let (spell, digit) = digit_step (suc n) (reverse_writes buf i) in
    (
      buf',
      i',
      ground (arith, e, fill_step (suc n) w next buf i),
      omega arith,
      same ∙ (ap (spelled (suc n / 10)) step ∙ spell),
      digits ∙ (ap are_digits step ∙ digit),
    )

-- For a number below 2 ^ 64, both loops of `print_number` end without a write outside the buffer of
-- 20 bytes, and the digits it writes, at most 20 and each a single decimal digit, spell the number.
pub print_number-spelled :
    (n : ℕ)
    → n < 2 ^ 64
    → (ws : List (List ℕ)) × (print_number n ≡ some ws)
      × (spelled 0 ws ≡ n)
      × (are_digits ws ≡ true)
      × (length ws ≤ 20)
unfolding print_number spelled are_digits reverse_writes
print_number-spelled zero h = ((b'0' ∷ []) ∷ [], refl, refl, refl, omega arith)
print_number-spelled (suc n) h =
    let buf = replicate {A = ℕ} 20 0 in
    let (buf', i', e, le, same, digits) =
      fill-fits 20 (suc n) 0 (lt_wf.apply (suc n)) buf (omega arith) (omega arith) in
    (
      reverse_writes buf' i',
      ground (arith, e),
      same,
      digits,
      omega (arith, length-reverse_writes buf' i'),
    )
