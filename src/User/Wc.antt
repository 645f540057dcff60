-- ===== src/User/Wc.antt =====
-- user_bin/src/bin/wc.rs: the counts of `wc_fd`, the two functions that count a slice, and the
-- decimal print of a number.
pub mod Chunks
pub mod Words
pub mod Digits
pub mod Files
pub mod OnFile
mod Examples
use mathlib.Core.Logic.{dite}
use mathlib.Core.WellFounded.{Acc, WellFounded}
use crabv.Base.{
  ℕ, zero, suc, ◌+◌, ◌-◌, ◌*◌, ◌/◌, ◌%◌, ◌^◌, ◌<◌, Bool, true, false, not, ◌&&◌, ◌||◌, Option, none,
  some, List, [], ◌∷◌, ◌++◌, arith, dec_lt, ok, err, ltb, ◌==◌, if◌then◌else◌, length, get_or, set,
  replicate,
}
use crabv.User.{CallResult, Calls, stdout, newline, space, write_all}

-- an addition of `usize`, which wraps
abbrev pub add : ℕ → ℕ → ℕ
add a b = (a + b) % 2 ^ 64

-- The variables of the loop of `wc_fd`.
pub record Counts : Type 0 where
  pub lines : ℕ
  pub words : ℕ
  pub total_bytes : ℕ
  pub in_word : Bool

abbrev pub no_counts : Counts
no_counts = record { lines = 0; words = 0; total_bytes = 0; in_word = false }

abbrev pub is_whitespace : ℕ → Bool
is_whitespace b = b == 32 || b == 9 || b == 10 || b == 13

unfoldable pub count_byte : Counts → ℕ → Counts
count_byte c b =
    let lines = if b == newline then add c.lines 1 else c.lines in
    if not (is_whitespace b) && not c.in_word
    then record {
      lines = lines;
      words = add c.words 1;
      total_bytes = c.total_bytes;
      in_word = true;
    }
    else (if is_whitespace b
        then record { lines = lines; words = c.words; total_bytes = c.total_bytes; in_word = false }
        else record {
          lines = lines;
          words = c.words;
          total_bytes = c.total_bytes;
          in_word = c.in_word;
        })

unfoldable pub count_bytes : Counts → List ℕ → Counts
count_bytes c [] = c
count_bytes c (b ∷ bytes) = count_bytes (count_byte c b) bytes

-- The body of the loop, on what one `read` put into the buffer.
abbrev pub with_bytes : Counts → List ℕ → Counts
with_bytes c chunk = record {
  lines = c.lines;
  words = c.words;
  total_bytes = add c.total_bytes (length chunk);
  in_word = c.in_word;
}

abbrev pub count_chunk : Counts → List ℕ → Counts
count_chunk c chunk = count_bytes (with_bytes c chunk) chunk

abbrev pub buffer_size : ℕ
buffer_size = 4096

-- `if len <= 0 { break; }`, and otherwise the bytes that were read.
abbrev pub on_read : {S R : Type 0} → (S → R) → (List ℕ → S → R) → CallResult (List ℕ) × S → R
on_read stop go (err e, s) = stop s
on_read stop go (ok [], s) = stop s
on_read stop go (ok (b ∷ bs), s) = go (b ∷ bs) s

-- The loop of `wc_fd`; `none` when the fuel runs out.
unfoldable pub read_counts : {S : Type 0} → Calls S → ℕ → ℕ → Counts → S → Option (Counts × S)
read_counts os zero fd c s = none
read_counts os (suc fuel) fd c s =
    on_read (λ s'. some (c, s')) (λ chunk s'. read_counts os fuel fd (count_chunk c chunk) s')
      (os.read fd buffer_size s)

-- The loops of `count_lines` and of `count_words`.
unfoldable pub lines_from : ℕ → List ℕ → ℕ
lines_from count [] = count
lines_from count (b ∷ bytes) = lines_from (if b == newline then add count 1 else count) bytes

unfoldable pub words_from : ℕ → Bool → List ℕ → ℕ
words_from count in_word [] = count
words_from count in_word (b ∷ bytes) =
    if not (is_whitespace b) && not in_word
    then words_from (add count 1) true bytes
    else (if is_whitespace b then words_from count false bytes else words_from count in_word bytes)

abbrev pub count_lines : List ℕ → ℕ
count_lines bytes = lines_from 0 bytes

abbrev pub count_words : List ℕ → ℕ
count_words bytes = words_from 0 false bytes

acc_below : (k n : ℕ) → n < k → Acc ◌<◌ n
acc_below zero n h = absurd (omega arith)
acc_below (suc k) n h = Acc.intro n λ m lt. acc_below k m (omega arith)

unfoldable pub lt_wf : WellFounded ◌<◌
unfolding acc_below
lt_wf = record { apply = λ n. acc_below (suc n) n (omega arith) }

pub tenth_lt : {n : ℕ} → 0 < n → n / 10 < n
tenth_lt h = omega arith

-- The first loop of `print_number`, from digit `i` on; `none` is the panic of a write outside the
-- buffer.
unfoldable pub fill : (n : ℕ) → Acc ◌<◌ n → List ℕ → ℕ → Option (List ℕ × ℕ)
fill n (Acc.intro _ smaller) buf i =
    dite (dec_lt 0 n)
      (λ h.
        dite (dec_lt i (length buf))
          (λ _. fill (n / 10) (smaller (n / 10) (tenth_lt h)) (set buf i (b'0' + n % 10)) (suc i))
          (λ _. none))
      (λ _. some (buf, i))

-- The second loop: one write for each digit, the last one found first.
unfoldable pub reverse_writes : List ℕ → ℕ → List (List ℕ)
reverse_writes buf zero = []
reverse_writes buf (suc i) = (get_or buf i 0 ∷ []) ∷ reverse_writes buf i

-- What `print_number` writes to the standard output, a call of `write` for each element.
unfoldable pub print_number : ℕ → Option (List (List ℕ))
print_number n =
    if n == 0 then some ((b'0' ∷ []) ∷ []) else elim (fill n (lt_wf.apply n) (replicate 20 0) 0) [
      | some (buf, i) ↦ some (reverse_writes buf i)
      | none ↦ none
    ]
