-- ===== src/User/Wc/Examples.antt =====
-- Witnesses of the properties of wc: a descriptor whose contents come in two pieces.
use crabv.Base.{
  replicate, false, ℕ, ◌%◌, ◌^◌, ◌≤◌, ◌≡◌, refl, true, none, some, List, [], ◌∷◌, ◌++◌, arith, ok,
  err, length, Result, dec_lt,
}
use crabv.User.{Calls, write_all}
use crabv.User.Wc.{
  Counts, no_counts, read_counts, count_lines, count_words, print_number, count_bytes, count_byte,
  fill, reverse_writes, lt_wf,
}
use crabv.User.Wc.Chunks.{Reads, contents, wc_counts_whole}
use crabv.User.Wc.Words.{Words, count_words-Words, no_whitespace, at_break}
use crabv.User.Wc.Digits.{spelled, are_digits, print_number-spelled}
use crabv.User.Wc.Files.{wc_fd, each_file, start, cannot_open, report, print_counts}
use crabv.Fs.Examples.{Memory, memory, disk_b}
use crabv.Fd.Io.Examples.{file_b}
use crabv.Fd.Table as Table
use crabv.Fd.Table.{file}
use crabv.Fd.PipeTable
use crabv.Proc.{Process, new_process, invalid_pid}
use crabv.Syscall.Io.{System}
use crabv.User.Args.{get_arg, get_arg_lines}

-- the pieces still to be read, and what was written
abbrev Feed : Type 0
Feed = List (List ℕ) × List (List ℕ)

abbrev read_piece : Feed → Result ℕ (List ℕ) × Feed
read_piece ([], out) = (ok [], ([], out))
read_piece (p ∷ ps, out) = (ok p, (ps, out))

abbrev feed_calls : Calls Feed
feed_calls = record {
  read = λ fd n s. read_piece s;
  write = λ fd bytes (ps, out). (ok (length bytes), (ps, out ++ (bytes ∷ [])));
  open_fd = λ path flags s. (err 2, s);
  close = λ fd s. s;
  pipe = λ s. (err 22, s);
  dup2 = λ a b s. (err 9, s);
  spawn = λ path argv s. (err 2, s);
  wait = λ s. (err 10, s);
}

-- "ab c" and "d\\n e", a word across the pieces
abbrev two_pieces : List (List ℕ)
two_pieces = (97 ∷ 98 ∷ 32 ∷ 99 ∷ []) ∷ (100 ∷ 10 ∷ 32 ∷ 101 ∷ []) ∷ []

two_pieces-Reads : Reads feed_calls 0 (two_pieces, []) two_pieces ([], [])
two_pieces-Reads = Reads.piece refl (Reads.piece refl (Reads.at_end refl))

wc_counts_whole_example :
    (c : Counts) × (read_counts feed_calls 3 0 no_counts (two_pieces, []) ≡ some (c, ([], [])))
    × (c.lines ≡ count_lines (contents two_pieces))
    × (c.words ≡ count_words (contents two_pieces))
    × (c.total_bytes ≡ length (contents two_pieces) % 2 ^ 64)
wc_counts_whole_example =
    wc_counts_whole feed_calls 0 (two_pieces, []) ([], []) two_pieces 3 two_pieces-Reads
      (omega arith)

count_words-Words_example : count_words (32 ∷ 97 ∷ 98 ∷ 32 ∷ 99 ∷ []) ≡ 2 % 2 ^ 64
unfolding no_whitespace at_break
count_words-Words_example = count_words-Words (
    Words.blank refl (
      Words.word {b = 97} {bs = 98 ∷ []} refl refl
        (Words.blank refl (Words.word {b = 99} {bs = []} refl refl Words.nothing))))

print_number-spelled_example :
    (ws : List (List ℕ)) × (print_number 1203 ≡ some ws)
    × (spelled 0 ws ≡ 1203)
    × (are_digits ws ≡ true)
    × (length ws ≤ 20)
print_number-spelled_example = print_number-spelled 1203 (omega arith)

abbrev byte_writes : List ℕ → List (List ℕ)
byte_writes [] = []
byte_writes (b ∷ bs) = (b ∷ []) ∷ byte_writes bs

-- "1 3 8" and the end of the line, one byte for each write
start_two_pieces :
    start feed_calls 3 [] (two_pieces, [])
    ≡ some (0, ([], byte_writes (49 ∷ 32 ∷ 51 ∷ 32 ∷ 56 ∷ 10 ∷ [])))
unfolding start wc_fd read_counts report print_counts print_number write_all count_bytes count_byte
    fill reverse_writes lt_wf dec_lt
start_two_pieces = refl

start_cannot_open :
    start feed_calls 3 ((97 ∷ []) ∷ []) (two_pieces, [])
    ≡ some (1, (two_pieces, get_arg_lines (97 ∷ []) ++ (cannot_open ∷ (97 ∷ []) ∷ (10 ∷ []) ∷ [])))
unfolding start each_file write_all get_arg get_arg_lines
start_cannot_open = refl

-- A kernel whose process 1 has the file `/b` open as number 3, and a buffer at address 4096.
abbrev caller : Process
caller = new_process 1 invalid_pid (record {
  entry = 4096;
  stack_top = 8192;
  path = 47 ∷ [];
  args = [];
  fd_table = record { fds = none ∷ none ∷ none ∷ some (file file_b) ∷ replicate 12 none };
  memory = [];
  argc = 0;
  argv_ptr = 8000;
})

abbrev kernel_b : System Memory
kernel_b = record {
  kernel = record {
    table = record { processes = some caller ∷ replicate 7 none; current_pid = 1; next_pid = 2 };
    pipes = PipeTable.new;
    table_locked = false;
  };
  serial = record { rx_queue = []; received = []; sent = [] };
  disk = some disk_b;
  memory = λ a. 0;
}

abbrev other_calls : Calls (System Memory)
other_calls = record {
  read = λ fd n s. (err 9, s);
  write = λ fd bytes s. (err 9, s);
  open_fd = λ path flags s. (err 2, s);
  close = λ fd s. s;
  pipe = λ s. (err 24, s);
  dup2 = λ a b s. (err 9, s);
  spawn = λ path argv s. (err 2, s);
  wait = λ s. (err 10, s);
}
