-- ===== src/User/Wc/Words.antt =====
-- What `count_words` counts.
use crabv.Base.{
  ℕ, ◌+◌, ◌%◌, ◌^◌, ◌<◌, ◌≡◌, refl, ◌∙◌, Bool, true, false, List, [], ◌∷◌, ◌++◌, arith, length,
  if◌then◌else◌,
}
use crabv.User.Wc.{add, is_whitespace, words_from, count_words}

unfoldable pub no_whitespace : List ℕ → Bool
no_whitespace [] = true
no_whitespace (b ∷ bs) = let rest = no_whitespace bs in if is_whitespace b then false else rest

-- Not inside a word: the end, or white space.
unfoldable pub at_break : List ℕ → Bool
at_break [] = true
at_break (b ∷ d) = is_whitespace b

-- A text with its words: nonempty runs of bytes that are not white space, each up to the next white
-- space or to the end.
pub data Words : List (List ℕ) → List ℕ → Type 0 where
  nothing : Words [] []
  blank :
      {b : ℕ} {ws : List (List ℕ)} {d : List ℕ}
      → is_whitespace b ≡ true
      → Words ws d
      → Words ws (b ∷ d)
  word :
      {b : ℕ} {bs : List ℕ} {ws : List (List ℕ)} {d : List ℕ}
      → no_whitespace (b ∷ bs) ≡ true
      → at_break d ≡ true
      → Words ws d
      → Words ((b ∷ bs) ∷ ws) (b ∷ bs ++ d)

words_in_word :
    (n : ℕ) (bs d : List ℕ)
    → no_whitespace bs ≡ true
    → words_from n true (bs ++ d) ≡ words_from n true d
unfolding words_from no_whitespace
words_in_word n [] d h = refl
words_in_word n (b ∷ bs) d h = ground (arith, words_in_word n bs d)

words_at_break :
    (n : ℕ) (d : List ℕ) → at_break d ≡ true → words_from n true d ≡ words_from n false d
unfolding words_from at_break
words_at_break n [] h = refl
words_at_break n (b ∷ d) h = ground arith

words_first :
    (n b : ℕ) (bs d : List ℕ)
    → no_whitespace (b ∷ bs) ≡ true
    → (words_from n false (b ∷ d) ≡ words_from (add n 1) true d) × (no_whitespace bs ≡ true)
unfolding words_from no_whitespace
words_first n b bs d h = ground arith

words_from-Words :
    {ws : List (List ℕ)} {d : List ℕ} (n : ℕ)
    → Words ws d
    → n < 2 ^ 64
    → words_from n false d ≡ (n + length ws) % 2 ^ 64
unfolding words_from
words_from-Words n Words.nothing h = omega arith
words_from-Words n (Words.blank {b = b} {d = d} e w) h = ground (arith, words_from-Words n w h)
words_from-Words n (Words.word {b = b} {bs = bs} {ws = ws} {d = d} e stop w) h =
    let (first, rest) = words_first n b bs (bs ++ d) e in
    let ih = words_from-Words (add n 1) w (omega arith) in
    let counted : words_from n false (b ∷ bs ++ d) ≡ (add n 1 + length ws) % 2 ^ 64 =
      first ∙ (words_in_word (add n 1) bs d rest ∙ (words_at_break (add n 1) d stop ∙ ih)) in
    omega (arith, counted)

-- For a text with its words, which are nonempty runs of bytes other than white space, each followed
-- by white space or the end, `count_words` gives the number of words, modulo 2 ^ 64.
pub count_words-Words :
    {ws : List (List ℕ)} {d : List ℕ} → Words ws d → count_words d ≡ length ws % 2 ^ 64
count_words-Words w = omega (arith, words_from-Words 0 w (omega arith))
