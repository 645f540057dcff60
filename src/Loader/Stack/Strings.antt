-- ===== src/Loader/Stack/Strings.antt =====
-- Strings in memory and the pointers to them, as a program finds its arguments.
use crabv.Base.{ℕ, suc, ◌+◌, ◌^◌, ◌≤◌, ◌<◌, ◌≡◌, refl, ap, ◌∙◌, List, [], ◌∷◌, ◌++◌, arith, length}
use crabv.Machine.{load_bytes, read_usize}
use crabv.Machine.Memory.{SameFrom, load_bytes-same, read_usize-same}

-- At `p` stand pointers to these strings, each with a zero after it, and a null pointer.
pub data ArgsAt (m : ℕ → ℕ) : ℕ → List (List ℕ) → Type 0 where
  no_arg : {p : ℕ} → read_usize m p ≡ 0 → ArgsAt m p []
  arg_at :
      {p : ℕ} {a : List ℕ} {rest : List (List ℕ)}
      → load_bytes m (read_usize m p) (length a + 1) ≡ a ++ (0 ∷ [])
      → ArgsAt m (p + 8) rest
      → ArgsAt m p (a ∷ rest)

-- The pointers and the strings they point to, from an address on.
pub data StringsAt (m : ℕ → ℕ) (lo : ℕ) : List ℕ → List (List ℕ) → Type 0 where
  no_string : StringsAt m lo [] []
  string_at :
      {p : ℕ} {ps : List ℕ} {a : List ℕ} {rest : List (List ℕ)}
      → lo ≤ p
      → p < 2 ^ 64
      → load_bytes m p (length a + 1) ≡ a ++ (0 ∷ [])
      → StringsAt m lo ps rest
      → StringsAt m lo (p ∷ ps) (a ∷ rest)

pub StringsAt-same :
    (m m' : ℕ → ℕ) (lo lo' : ℕ) {ps : List ℕ} {args : List (List ℕ)}
    → SameFrom lo m m'
    → lo' ≤ lo
    → StringsAt m lo ps args
    → StringsAt m' lo' ps args
StringsAt-same m m' lo lo' h le no_string = no_string
StringsAt-same m m' lo lo' h le (string_at {p = p} {a = a} above small bytes rest) =
    string_at (omega arith) small (load_bytes-same (length a + 1) m m' lo p h above ∙ bytes)
      (StringsAt-same m m' lo lo' h le rest)

-- Words, and a null pointer after them.
pub data WordsAt (m : ℕ → ℕ) : ℕ → List ℕ → Type 0 where
  null_word : {p : ℕ} → read_usize m p ≡ 0 → WordsAt m p []
  word_at :
      {p w : ℕ} {ws : List ℕ} → read_usize m p ≡ w → WordsAt m (p + 8) ws → WordsAt m p (w ∷ ws)

pub WordsAt-same :
    (m m' : ℕ → ℕ) (lo : ℕ) {p : ℕ} {ws : List ℕ}
    → SameFrom lo m m'
    → lo ≤ p
    → WordsAt m p ws
    → WordsAt m' p ws
WordsAt-same m m' lo {p} h le (null_word e) = null_word (read_usize-same m m' lo p h le ∙ e)
WordsAt-same m m' lo {p} h le (word_at e rest) =
    word_at (read_usize-same m m' lo p h le ∙ e) (WordsAt-same m m' lo h (omega arith) rest)

pub WordsAt-args :
    {m : ℕ → ℕ} {lo p : ℕ} {ps : List ℕ} {args : List (List ℕ)}
    → WordsAt m p ps
    → StringsAt m lo ps args
    → ArgsAt m p args
WordsAt-args (null_word e) no_string = no_arg e
WordsAt-args {m = m} (word_at e words) (string_at {a = a} above small bytes rest) =
    arg_at (ap (λ (q : ℕ). load_bytes m q (length a + 1)) e ∙ bytes) (WordsAt-args words rest)

-- `ws` are pointers of 64 bits.
pub data Small : List ℕ → Type 0 where
  no_word : Small []
  small_word : {w : ℕ} {ws : List ℕ} → w < 2 ^ 64 → Small ws → Small (w ∷ ws)

pub StringsAt-Small :
    {m : ℕ → ℕ} {lo : ℕ} {ps : List ℕ} {args : List (List ℕ)} → StringsAt m lo ps args → Small ps
StringsAt-Small no_string = no_word
StringsAt-Small (string_at above small bytes rest) = small_word small (StringsAt-Small rest)

pub StringsAt-length :
    {m : ℕ → ℕ} {lo : ℕ} {ps : List ℕ} {args : List (List ℕ)}
    → StringsAt m lo ps args
    → length ps ≡ length args
StringsAt-length no_string = refl
StringsAt-length (string_at above small bytes rest) = ap suc (StringsAt-length rest)
