-- ===== src/User/Sh/Line.antt =====
-- `read_line` and `resolve_prog`.
use crabv.Base.{
  ℕ, ◌+◌, ◌-◌, ◌≤◌, ◌<◌, ◌≡◌, refl, ap, ◌∙◌, Bool, true, false, not, ◌&&◌, ◌||◌, Option, none, some,
  List, [], ◌∷◌, ◌++◌, arith, append_assoc, append-nil, ltb, leb, ◌==◌, if◌then◌else◌, length,
  length-append, length-take, take, codes, ap₂,
}
use crabv.Bytes.{is_utf8, take-append_self}
use crabv.User.Sh.{max_line}

-- A line that was read, the writes that echoed it, and the input after it.
pub record ReadLine : Type 0 where
  pub line : List ℕ
  pub echo : List (List ℕ)
  pub input : List ℕ

unfoldable pub is_end : ℕ → Bool
is_end b = b == 13 || b == 10

unfoldable pub is_erase : ℕ → Bool
is_erase b = b == 8 || b == 127

-- The text that takes back a character on the terminal.
abbrev pub erased : List ℕ
erased = 8 ∷ 32 ∷ 8 ∷ []

-- The loop of `read_line` over the bytes that come in: `line` is the part of the buffer below `idx`.
-- `none` when the input stops before the end of the line, where the source waits for more.
unfoldable pub read_bytes : List ℕ → List (List ℕ) → List ℕ → Option ReadLine
read_bytes line echo [] = none
read_bytes line echo (b ∷ input) =
    let shorter = read_bytes (take (length line - 1) line) (echo ++ (erased ∷ [])) input in
    let longer = read_bytes (line ++ (b ∷ [])) (echo ++ ((b ∷ []) ∷ [])) input in
    let same = read_bytes line echo input in
    if is_end b
    then some (record { line = line; echo = echo ++ ((10 ∷ []) ∷ []); input = input })
    else (if is_erase b
        then (if ltb 0 (length line) then shorter else same)
        else (if ltb (length line) max_line then longer else same))

unfoldable pub read_line : List ℕ → Option ReadLine
read_line input = read_bytes [] [] input

abbrev pub starts_with_slash : List ℕ → Bool
starts_with_slash [] = false
starts_with_slash (b ∷ bs) = b == 47

abbrev pub prefix : List ℕ
prefix = codes "/bin/"

-- `resolve_prog`
unfoldable pub resolve_prog : List ℕ → List ℕ
resolve_prog cmd =
    if starts_with_slash cmd
    then cmd
    else (if leb max_line (length prefix + length cmd)
        then cmd
        else (if is_utf8 (prefix ++ cmd) then prefix ++ cmd else cmd))

-- Bytes that `read_line` puts into the line.
unfoldable pub is_text : List ℕ → Bool
is_text [] = true
is_text (b ∷ bs) = not (is_end b || is_erase b) && is_text bs

unfoldable pub has_end : List ℕ → Bool
has_end [] = false
has_end (b ∷ bs) = is_end b || has_end bs

Ends : Option ReadLine → Type 0
Ends o = (r : ReadLine) × (o ≡ some r) × (length r.line ≤ max_line)

Ends-if :
    (c : Bool) (x y : Option ReadLine)
    → (c ≡ true → Ends x)
    → (c ≡ false → Ends y)
    → Ends (if c then x else y)
Ends-if true x y h k = h refl
Ends-if false x y h k = k refl

read_bytes-Ends :
    (input line : List ℕ) (echo : List (List ℕ))
    → has_end input ≡ true
    → length line ≤ max_line
    → Ends (read_bytes line echo input)
unfolding has_end read_bytes Ends
read_bytes-Ends [] line echo h l = absurd (cc)
read_bytes-Ends (b ∷ input) line echo h l =
    Ends-if (is_end b) _ _ (λ e. (_, refl, l))
      λ e.
        let later : has_end input ≡ true = ground arith in
        Ends-if (is_erase b) _ _
          (λ e.
            Ends-if (ltb 0 (length line)) _ _
              (λ e.
                read_bytes-Ends input _ _ later (omega (arith, length-take (length line - 1) line)))
              (λ e. read_bytes-Ends input line echo later l))
          (λ e.
            Ends-if (ltb (length line) max_line) _ _
              (λ e. read_bytes-Ends input _ _ later (ground (arith, length-append line (b ∷ []))))
              (λ e. read_bytes-Ends input line echo later l))

-- When the end of a line is among the bytes that come in, `read_line` returns, with a line that fits
-- the buffer of 256 bytes.
pub read_line_ends :
    (input : List ℕ)
    → has_end input ≡ true
    → (r : ReadLine) × (read_line input ≡ some r) × (length r.line ≤ max_line)
unfolding read_line Ends
read_line_ends input h = read_bytes-Ends input [] [] h (omega arith)

-- One write for each byte.
unfoldable pub echo_of : List ℕ → List (List ℕ)
echo_of [] = []
echo_of (b ∷ bs) = (b ∷ []) ∷ echo_of bs

-- A byte that is typed and erased again leaves the line as it was.
pub read_bytes-erased :
    (line : List ℕ) (echo : List (List ℕ)) (b : ℕ) (input : List ℕ)
    → is_text (b ∷ []) ≡ true
    → length line < max_line
    → read_bytes line echo (b ∷ 127 ∷ input)
      ≡ read_bytes line ((echo ++ ((b ∷ []) ∷ [])) ++ (erased ∷ [])) input
unfolding read_bytes is_text is_end is_erase
read_bytes-erased line echo b input h l =
    let (not_end, not_erase, room) : (is_end b ≡ false)
        × (is_erase b ≡ false)
        × (ltb (length line) max_line ≡ true) =
      ground arith in
    let size = length-append line (b ∷ []) in
    let some_left : ltb 0 (length (line ++ (b ∷ []))) ≡ true = ground (arith, size) in
    rw (not_end, not_erase, room, some_left)
      (ap (λ l. read_bytes l ((echo ++ ((b ∷ []) ∷ [])) ++ (erased ∷ [])) input)
        (take-append_self line (b ∷ []) _ (omega (arith, size))))

read_bytes-typed :
    (t line : List ℕ) (echo : List (List ℕ)) (e : ℕ) (more : List ℕ)
    → is_text t ≡ true
    → is_end e ≡ true
    → length line + length t ≤ max_line
    → read_bytes line echo (t ++ (e ∷ more))
      ≡ some (record {
        line = line ++ t;
        echo = (echo ++ echo_of t) ++ ((10 ∷ []) ∷ []);
        input = more;
      })
unfolding read_bytes is_text echo_of
read_bytes-typed [] line echo e more h k l = rw (k, append-nil line, append-nil echo) refl
read_bytes-typed (b ∷ t) line echo e more h k l =
    let (not_end, not_erase, room, text) : (is_end b ≡ false)
        × (is_erase b ≡ false)
        × (ltb (length line) max_line ≡ true)
        × (is_text t ≡ true) =
      ground arith in
    let ih =
      read_bytes-typed t (line ++ (b ∷ [])) (echo ++ ((b ∷ []) ∷ [])) e more text k
        (omega (arith, length-append line (b ∷ []))) in
    rw (not_end, not_erase, room)
      (ih
        ∙ ap₂ (λ l o. some (record { line = l; echo = o ++ ((10 ∷ []) ∷ []); input = more }))
            (append_assoc line (b ∷ []) t) (append_assoc echo ((b ∷ []) ∷ []) (echo_of t)))

-- Of a text of at most 256 bytes, none of them an end of line or an erasure, followed by a carriage
-- return or line feed, `read_line` returns the text, echoes every byte of it and the end of the
-- line, and leaves the rest of the input.
pub read_line_typed :
    (t : List ℕ) (e : ℕ) (more : List ℕ)
    → is_text t ≡ true
    → is_end e ≡ true
    → length t ≤ max_line
    → read_line (t ++ (e ∷ more))
      ≡ some (record { line = t; echo = echo_of t ++ ((10 ∷ []) ∷ []); input = more })
unfolding read_line
read_line_typed t e more h k l = read_bytes-typed t [] [] e more h k (omega arith)
