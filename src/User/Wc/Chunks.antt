-- ===== src/User/Wc/Chunks.antt =====
-- The counts of `wc_fd` against those of the whole contents.
use crabv.Base.{
  ℕ, zero, suc, ◌+◌, ◌%◌, ◌^◌, ◌<◌, ◌≡◌, refl, sym, ap, ◌∙◌, some, List, [], ◌∷◌, ◌++◌, arith, ok,
  err, length, length-append,
}
use crabv.User.{Calls}
use crabv.User.Wc.{
  Counts, no_counts, count_byte, count_bytes, with_bytes, count_chunk, buffer_size, on_read,
  read_counts, lines_from, words_from, count_lines, count_words,
}

-- The calls of `read` on a descriptor return these pieces, none of them empty, until one returns
-- nothing or an error in the state at the end.
pub data Reads {S : Type 0} (os : Calls S) (fd : ℕ) : S → List (List ℕ) → S → Type 0 where
  at_end : {s s' : S} → os.read fd buffer_size s ≡ (ok [], s') → Reads os fd s [] s'
  failed : {s s' : S} {e : ℕ} → os.read fd buffer_size s ≡ (err e, s') → Reads os fd s [] s'
  piece :
      {s s' s'' : S} {b : ℕ} {bs : List ℕ} {pieces : List (List ℕ)}
      → os.read fd buffer_size s ≡ (ok (b ∷ bs), s')
      → Reads os fd s' pieces s''
      → Reads os fd s ((b ∷ bs) ∷ pieces) s''

unfoldable pub contents : List (List ℕ) → List ℕ
contents [] = []
contents (p ∷ ps) = p ++ contents ps

count_chunks : Counts → List (List ℕ) → Counts
count_chunks c [] = c
count_chunks c (p ∷ ps) = count_chunks (count_chunk c p) ps

read_counts-Reads :
    {S : Type 0} (os : Calls S) (fd : ℕ) (s s' : S) (pieces : List (List ℕ)) (c : Counts) (fuel : ℕ)
    → Reads os fd s pieces s'
    → length pieces < fuel
    → read_counts os fuel fd c s ≡ some (count_chunks c pieces, s')
unfolding read_counts count_chunks
read_counts-Reads os fd s s' pieces c zero r h = absurd (omega arith)
read_counts-Reads os fd s s' _ c (suc fuel) (Reads.at_end e) h =
    ap (on_read (λ t. some (c, t)) λ p t. read_counts os fuel fd (count_chunk c p) t) e
read_counts-Reads os fd s s' _ c (suc fuel) (Reads.failed e) h =
    ap (on_read (λ t. some (c, t)) λ p t. read_counts os fuel fd (count_chunk c p) t) e
read_counts-Reads os fd s s' _ c (suc fuel) (Reads.piece {b = b} {bs = bs} e r) h =
    ap (on_read (λ t. some (c, t)) λ p t. read_counts os fuel fd (count_chunk c p) t) e
    ∙ read_counts-Reads os fd _ s' _ (count_chunk c (b ∷ bs)) fuel r (omega arith)

lines-count_byte_lem :
    (c : Counts) (b : ℕ) (d : List ℕ)
    → lines_from c.lines (b ∷ d) ≡ lines_from ((count_byte c b).lines) d
unfolding lines_from count_byte
lines-count_byte_lem c b d = ground arith

words-count_byte_lem :
    (c : Counts) (b : ℕ) (d : List ℕ)
    → words_from c.words c.in_word (b ∷ d)
      ≡ words_from ((count_byte c b).words) ((count_byte c b).in_word) d
unfolding words_from count_byte
words-count_byte_lem c b d = ground arith

total-count_byte_lem : (c : Counts) (b : ℕ) → (count_byte c b).total_bytes ≡ c.total_bytes
unfolding count_byte
total-count_byte_lem c b = ground arith

counted_total : (c : Counts) (d : List ℕ) → (count_bytes c d).total_bytes ≡ c.total_bytes
unfolding count_bytes count_byte
counted_total c [] = refl
counted_total c (b ∷ d) = counted_total (count_byte c b) d ∙ total-count_byte_lem c b

lines-append :
    (c : Counts) (xs ys : List ℕ)
    → lines_from c.lines (xs ++ ys) ≡ lines_from ((count_bytes c xs).lines) ys
unfolding count_bytes
lines-append c [] ys = refl
lines-append c (x ∷ xs) ys =
    lines-count_byte_lem c x (xs ++ ys) ∙ lines-append (count_byte c x) xs ys

words-append :
    (c : Counts) (xs ys : List ℕ)
    → words_from c.words c.in_word (xs ++ ys)
      ≡ words_from ((count_bytes c xs).words) ((count_bytes c xs).in_word) ys
unfolding count_bytes
words-append c [] ys = refl
words-append c (x ∷ xs) ys =
    words-count_byte_lem c x (xs ++ ys) ∙ words-append (count_byte c x) xs ys

lines-contents :
    (c : Counts) (ps : List (List ℕ)) → (count_chunks c ps).lines ≡ lines_from c.lines (contents ps)
unfolding count_chunks contents lines_from
lines-contents c [] = refl
lines-contents c (p ∷ ps) =
    lines-contents (count_chunk c p) ps ∙ sym (lines-append (with_bytes c p) p (contents ps))

words-contents :
    (c : Counts) (ps : List (List ℕ))
    → (count_chunks c ps).words ≡ words_from c.words c.in_word (contents ps)
unfolding count_chunks contents words_from
words-contents c [] = refl
words-contents c (p ∷ ps) =
    words-contents (count_chunk c p) ps ∙ sym (words-append (with_bytes c p) p (contents ps))

total-contents :
    (c : Counts) (ps : List (List ℕ))
    → c.total_bytes < 2 ^ 64
    → (count_chunks c ps).total_bytes ≡ (c.total_bytes + length (contents ps)) % 2 ^ 64
unfolding count_chunks contents
total-contents c [] h = omega arith
total-contents c (p ∷ ps) h = omega (
  arith,
  total-contents (count_chunk c p) ps (omega (arith, counted_total (with_bytes c p) p)),
  counted_total (with_bytes c p) p,
  length-append p (contents ps),
)

-- When the reads of a descriptor give some pieces and then end, however the contents are cut into
-- pieces, the loop of `wc_fd` ends if its fuel is larger than their number, in the state after the
-- last read, and its counts are those that `count_lines` and `count_words` give for the whole
-- contents, and their length modulo 2 ^ 64.
pub wc_counts_whole :
    {S : Type 0} (os : Calls S) (fd : ℕ) (s s' : S) (pieces : List (List ℕ)) (fuel : ℕ)
    → Reads os fd s pieces s'
    → length pieces < fuel
    → (c : Counts) × (read_counts os fuel fd no_counts s ≡ some (c, s'))
      × (c.lines ≡ count_lines (contents pieces))
      × (c.words ≡ count_words (contents pieces))
      × (c.total_bytes ≡ length (contents pieces) % 2 ^ 64)
wc_counts_whole os fd s s' pieces fuel r h = (
  count_chunks no_counts pieces,
  read_counts-Reads os fd s s' pieces no_counts fuel r h,
  lines-contents no_counts pieces,
  words-contents no_counts pieces,
  omega (arith, total-contents no_counts pieces (omega arith)),
)
