-- ===== src/Fd/Examples.antt =====
-- The theorems about pipes and descriptors at concrete inputs, and runs of the code.
use crabv.Base.{
  ap, ◌≤◌, ℕ, ◌+◌, ◌≡◌, refl, ◌∙◌, Bool, true, false, none, some, List, [], ◌∷◌, ◌++◌, arith, ok,
  err, ◌==◌, if◌then◌else◌, get_or, get_or-replicate, length-replicate,
}
use crabv.Fd.Error.{would_block}
use crabv.Fd.Pipe
use crabv.Fd.Pipe.{Pipe, pipe_buf_size, contains}
use crabv.Fd.Pipe.Ring
use crabv.Fd.Pipe.Ring.{contents}
use crabv.Fd.Pipe.Channel.{recv, send}
use crabv.Fd.Pipe.Refine.{view, read_refines, write_refines}
use crabv.Fd.Pipe.Stream.{Call, reads, writes, run, run_stream}
use crabv.Fd.PipeTable
use crabv.Fd.PipeTable.{
  PipeTable, usize_max, slot, put_slot, create_pipe, incref, close_pipe_end, mark_reader,
  mark_writer,
}
use crabv.Fd.PipeTable.Slots
use crabv.Fd.PipeTable.Refs.{refs, pipe_refs, Created, create_pipe-Created}
use crabv.Fd.Table.{FdTable, pipe, FileDescriptor, put_fd, close, close_all, clone_table, dup2}
use crabv.Fd.Table
use crabv.Fd.Table.Count.{count}
use crabv.Fd.Table.Balance.{IsBalanced, closed, close-IsBalanced, close_all-refs}
use crabv.Fd.Table.Copy.{clone_table-IsBalanced, dup2-IsBalanced}

new_ring : Ring.IsValid Pipe.new
unfolding Pipe.new
new_ring = record {
  sized = length-replicate {A = ℕ} pipe_buf_size 0;
  read_in = omega arith;
  write_in = omega arith;
}

abbrev script : List Call
script =
    writes (7 ∷ 8 ∷ 9 ∷ []) ∷ reads (0 ∷ 0 ∷ []) ∷ writes (5 ∷ []) ∷ reads (0 ∷ 0 ∷ 0 ∷ []) ∷ []

run_stream_example :
    let t = run script Pipe.new in
    (contents Pipe.new ++ t.accepted ≡ t.delivered ++ contents t.final) × Ring.IsValid t.final
run_stream_example = run_stream script Pipe.new new_ring

read_refines_example :
    let (r, buf, q) = Pipe.read Pipe.new (0 ∷ []) in
    ((r, buf, view q) ≡ recv (view Pipe.new) (0 ∷ [])) × Ring.IsValid q
read_refines_example = read_refines Pipe.new (0 ∷ []) new_ring

write_refines_example :
    let (r, q) = Pipe.write Pipe.new (7 ∷ 8 ∷ []) in
    ((r, view q) ≡ send (view Pipe.new) (7 ∷ 8 ∷ [])) × Ring.IsValid q
write_refines_example = write_refines Pipe.new (7 ∷ 8 ∷ []) new_ring

-- A system of one process that holds both ends of pipe 0, as numbers 0 and 1.
abbrev pub one_pipe : PipeTable
one_pipe = put_slot 0 (some Pipe.new) PipeTable.new

abbrev two_ends : FdTable
two_ends =
    put_fd 1 (some (pipe (record { pipe_id = 0; is_read_end = false })))
      (put_fd 0 (some (pipe (record { pipe_id = 0; is_read_end = true }))) Table.new)

abbrev pub no_others : ℕ → Bool → ℕ
no_others id e = 0

one_pipe_created : create_pipe PipeTable.new ≡ (ok 0, one_pipe)
unfolding create_pipe PipeTable.new
one_pipe_created = refl

one_pipe-Created : Created PipeTable.new 0 one_pipe
one_pipe-Created = create_pipe-Created PipeTable.new 0 Slots.new-IsValid one_pipe_created

one_pipe-IsValid : Slots.IsValid one_pipe
one_pipe-IsValid = one_pipe-Created.valid

one_pipe-refs : (id : ℕ) (e : Bool) → refs one_pipe id e ≡ (if 0 == id then 1 else 0)
unfolding PipeTable.new
one_pipe-refs id e =
    one_pipe-Created.counts id e
    ∙ ap (λ (n : ℕ). if 0 == id then 1 else n) (ap (pipe_refs e) (get_or-replicate 8 id none))

one_pipe-slot : slot one_pipe 0 ≡ some Pipe.new
unfolding PipeTable.new
one_pipe-slot = refl

two_ends-counts :
    (id : ℕ) (e : Bool) → count id e two_ends.fds + no_others id e ≡ refs one_pipe id e
unfolding Table.new
two_ends-counts id true = ground (arith, one_pipe-refs id true)
two_ends-counts id false = ground (arith, one_pipe-refs id false)

two_ends-IsBalanced : IsBalanced no_others two_ends one_pipe
unfolding Table.new
two_ends-IsBalanced = record { sized = refl; valid = one_pipe-IsValid; counts = two_ends-counts }

close-IsBalanced_example :
    let (r, t', pt', woken) = close two_ends one_pipe 1 in
    IsBalanced no_others t' pt'
    × (get_or t'.fds 1 none ≡ none)
    × (r ≡ closed (get_or two_ends.fds 1 none))
close-IsBalanced_example = close-IsBalanced two_ends one_pipe 1 two_ends-IsBalanced

close_all-refs_example :
    let (t', pt', woken) = close_all two_ends one_pipe in
    ((i : ℕ) → get_or t'.fds i none ≡ none)
    × ((id : ℕ) (e : Bool) → refs pt' id e ≡ no_others id e)
    × Slots.IsValid pt'
close_all-refs_example = close_all-refs two_ends one_pipe two_ends-IsBalanced

pub one_pipe_room : (id : ℕ) (e : Bool) → refs one_pipe id e + 16 ≤ usize_max
one_pipe_room id e = ground (arith, one_pipe-refs id e)

clone_table-IsBalanced_example :
    let (copy, pt') = clone_table two_ends one_pipe in
    (copy ≡ two_ends) × IsBalanced (λ id e. count id e copy.fds + no_others id e) two_ends pt'
clone_table-IsBalanced_example =
    clone_table-IsBalanced two_ends one_pipe two_ends-IsBalanced one_pipe_room

-- A shell on the console that holds the ends of pipe 0 as numbers 3 and 4.
abbrev pub shell_table : FdTable
shell_table =
    put_fd 4 (some (pipe (record { pipe_id = 0; is_read_end = false })))
      (put_fd 3 (some (pipe (record { pipe_id = 0; is_read_end = true }))) Table.with_standard)

shell_table-counts :
    (id : ℕ) (e : Bool) → count id e shell_table.fds + no_others id e ≡ refs one_pipe id e
unfolding Table.new Table.with_standard
shell_table-counts id true = ground (arith, one_pipe-refs id true)
shell_table-counts id false = ground (arith, one_pipe-refs id false)

pub shell_table-IsBalanced : IsBalanced no_others shell_table one_pipe
unfolding Table.new Table.with_standard
shell_table-IsBalanced = record {
  sized = refl;
  valid = one_pipe-IsValid;
  counts = shell_table-counts;
}

-- The standard trick of a shell: number 5 becomes the read end as well.
dup2-IsBalanced_example :
    let (r, t', pt', woken) = dup2 two_ends one_pipe 0 5 in
    (r ≡ ok tt)
    × IsBalanced no_others t' pt'
    × ((j : ℕ)
        → get_or t'.fds j none ≡ (
            if 5 == j
            then some (pipe (record { pipe_id = 0; is_read_end = true }))
            else get_or two_ends.fds j none))
unfolding Table.new
dup2-IsBalanced_example =
    dup2-IsBalanced two_ends one_pipe 0 5 two_ends-IsBalanced
      (λ id e. omega (arith, one_pipe_room id e)) (omega arith) refl

-- The pipe with one byte in it.
abbrev one_byte : PipeTable
one_byte = (PipeTable.write one_pipe 0 (7 ∷ [])).1

-- The bytes come out in order, and an empty pipe blocks.
run-script : (run script Pipe.new).delivered ≡ 7 ∷ 8 ∷ 9 ∷ 5 ∷ []
unfolding run Pipe.new Pipe.read Pipe.write Pipe.read_loop Pipe.write_loop Pipe.space_available
    Pipe.available
run-script = refl

read_empty : (Pipe.read Pipe.new (0 ∷ [])).0 ≡ err would_block
unfolding Pipe.new Pipe.read Pipe.available
read_empty = refl
