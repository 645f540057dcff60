-- ===== src/User/Wc/Files.antt =====
-- `wc_fd` with what it prints, and the loop of `_start` over the files.
use crabv.Base.{
  ℕ, ◌%◌, ◌^◌, ◌<◌, ◌≡◌, refl, ◌∙◌, true, Option, none, some, List, [], ◌∷◌, ◌++◌, arith, ok, err,
  ltb, if◌then◌else◌, length, Bool, false, Result,
}
use crabv.User.{Calls, stdout, stderr, newline, space, write_all}
use crabv.User.Args.{get_arg}
use crabv.User.Wc.{
  add, Counts, no_counts, read_counts, count_lines, count_words, lines_from, words_from,
  print_number,
}
use crabv.User.Wc.Chunks.{Reads, contents, wc_counts_whole}
use crabv.User.Wc.Digits.{spelled, are_digits, print_number-spelled}

abbrev pub and_then : {A B : Type 0} → Option A → (A → Option B) → Option B
and_then none f = none
and_then (some a) f = f a

-- The calls of `print_number` and `write` for three counts.
unfoldable pub print_counts : ℕ → ℕ → ℕ → Option (List (List ℕ))
print_counts lines words total_bytes = and_then (print_number lines) λ l.
    and_then (print_number words) λ w.
      and_then (print_number total_bytes) λ b. some (l ++ ((space ∷ []) ∷ w ++ ((space ∷ []) ∷ b)))

-- "wc: cannot open "
abbrev pub cannot_open : List ℕ
cannot_open =
    119 ∷ 99 ∷ 58 ∷ 32 ∷ 99 ∷ 97 ∷ 110 ∷ 110 ∷ 111 ∷ 116 ∷ 32 ∷ 111 ∷ 112 ∷ 101 ∷ 110 ∷ 32 ∷ []

-- " total" and the end of the line
abbrev pub total_part : List ℕ
total_part = 32 ∷ 116 ∷ 111 ∷ 116 ∷ 97 ∷ 108 ∷ 10 ∷ []

-- The writes after the counts.
abbrev pub name_writes : Option (List ℕ) → List (List ℕ)
name_writes none = (newline ∷ []) ∷ []
name_writes (some name) = (space ∷ []) ∷ name ∷ (newline ∷ []) ∷ []

unfoldable pub report :
    {S : Type 0} → Calls S → Option (List ℕ) → Counts × S → Option ((ℕ × ℕ × ℕ) × S)
report os filename (c, s) = and_then (print_counts c.lines c.words c.total_bytes) λ ws.
    some ((c.lines, c.words, c.total_bytes), write_all os stdout (ws ++ name_writes filename) s)

unfoldable pub wc_fd :
    {S : Type 0} → Calls S → ℕ → ℕ → Option (List ℕ) → S → Option ((ℕ × ℕ × ℕ) × S)
wc_fd os fuel fd filename s = and_then (read_counts os fuel fd no_counts s) (report os filename)

print_counts-spelled :
    (l w b : ℕ)
    → l < 2 ^ 64
    → w < 2 ^ 64
    → b < 2 ^ 64
    → (ls : List (List ℕ)) × (ws : List (List ℕ)) × (bs : List (List ℕ)) × (print_counts l w b
        ≡ some (ls ++ ((space ∷ []) ∷ ws ++ ((space ∷ []) ∷ bs))))
      × (spelled 0 ls ≡ l)
      × (spelled 0 ws ≡ w)
      × (spelled 0 bs ≡ b)
      × (are_digits ls ≡ true)
      × (are_digits ws ≡ true)
      × (are_digits bs ≡ true)
unfolding print_counts
print_counts-spelled l w b hl hw hb =
    let (ls, el, sl, dl, _) = print_number-spelled l hl in
    let (ws, ew, sw, dw, _) = print_number-spelled w hw in
    let (bs, eb, sb, db, _) = print_number-spelled b hb in
    (ls, ws, bs, rw (el, ew, eb) refl, sl, sw, sb, dl, dw, db)

lines_from_lt : (d : List ℕ) (n : ℕ) → n < 2 ^ 64 → lines_from n d < 2 ^ 64
unfolding lines_from
lines_from_lt [] n h = h
lines_from_lt (b ∷ d) n h = lines_from_lt d _ (ground arith)

words_from_lt : (d : List ℕ) (n : ℕ) (w : Bool) → n < 2 ^ 64 → words_from n w d < 2 ^ 64
unfolding words_from
words_from_lt [] n w h = h
words_from_lt (b ∷ d) n w h =
    ground (arith, words_from_lt d (add n 1) true, words_from_lt d n false, words_from_lt d n w)

-- For a descriptor whose reads give some pieces and then end, and for fuel larger than their number,
-- `wc_fd` returns the numbers of lines, words and bytes of the contents and writes to the standard
-- output the digits that spell the lines, a space, those of the words, a space, those of the bytes,
-- and then the name, if there is one, and the end of the line.
pub wc_fd_report :
    {S : Type 0} (os : Calls S) (fd : ℕ) (filename : Option (List ℕ)) (s s' : S)
    (pieces : List (List ℕ)) (fuel : ℕ)
    → Reads os fd s pieces s'
    → length pieces < fuel
    → (ls : List (List ℕ)) × (ws : List (List ℕ)) × (bs : List (List ℕ)) × (wc_fd os fuel fd
          filename s
        ≡ some (
          (spelled 0 ls, spelled 0 ws, spelled 0 bs),
          write_all os stdout
              ((ls ++ ((space ∷ []) ∷ ws ++ ((space ∷ []) ∷ bs))) ++ name_writes filename)
              s',
        ))
      × (spelled 0 ls ≡ count_lines (contents pieces))
      × (spelled 0 ws ≡ count_words (contents pieces))
      × (spelled 0 bs ≡ length (contents pieces) % 2 ^ 64)
      × (are_digits ls ≡ true)
      × (are_digits ws ≡ true)
      × (are_digits bs ≡ true)
unfolding wc_fd report
wc_fd_report os fd filename s s' pieces fuel r h =
    let (c, e, l, w, b) = wc_counts_whole os fd s s' pieces fuel r h in
    let (ls, ws, bs, print, sl, sw, sb, dl, dw, db) =
      print_counts-spelled c.lines c.words c.total_bytes
        (rw l (lines_from_lt (contents pieces) 0 (omega arith)))
        (rw w (words_from_lt (contents pieces) 0 false (omega arith))) (omega (arith, b)) in
    (ls, ws, bs, rw (e, print, sl, sw, sb) refl, sl ∙ l, sw ∙ w, sb ∙ b, dl, dw, db)

abbrev pub o_read : ℕ
o_read = 1

-- The loop of `_start` over the arguments: the code that the program exits with and the state in which
-- it does, or the totals at the end of the loop with the number of files.
unfoldable pub each_file :
    {S : Type 0}
    → Calls S
    → ℕ
    → List (List ℕ)
    → (ℕ × ℕ × ℕ) × ℕ
    → S
    → Option (Result ℕ ((ℕ × ℕ × ℕ) × ℕ) × S)
each_file os fuel [] totals s = some (ok totals, s)
each_file os fuel (arg ∷ names) ((l, w, b), files) s =
    let (name, s1) = get_arg os arg s in
    let (r, s') = os.open_fd name o_read s1 in
    elim r [
      | err e ↦ some (err 1, write_all os stderr (cannot_open ∷ name ∷ (newline ∷ []) ∷ []) s')
      | ok fd ↦ and_then (wc_fd os fuel fd (some name) s') λ (counted, s'').
          let (lines, words, total_bytes) = counted in
          each_file os fuel names ((add l lines, add w words, add b total_bytes), add files 1)
            (os.close fd s'')
    ]

abbrev totals_line : {S : Type 0} → Calls S → ℕ × ℕ × ℕ → S → Option (ℕ × S)
totals_line os (l, w, b) s =
    and_then (print_counts l w b) λ ws. some (0, write_all os stdout (ws ++ (total_part ∷ [])) s)

-- `_start`: the code of `exit`, and the state it is called in.
unfoldable pub start : {S : Type 0} → Calls S → ℕ → List (List ℕ) → S → Option (ℕ × S)
start os fuel [] s = and_then (wc_fd os fuel 0 none s) λ (_, s'). some (0, s')
start os fuel (name ∷ names) s =
    and_then (each_file os fuel (name ∷ names) ((0, 0, 0), 0) s) λ (r, s'). elim r [
      | err code ↦ some (code, s')
      | ok ((l, w, b), files) ↦ if ltb 1 files then totals_line os (l, w, b) s' else some (0, s')
    ]
