-- ===== src/Fd/Table.antt =====
-- `enum FileDescriptor` and `struct FdTable` of src/fd.rs: the sixteen descriptors of one process.
-- The operations that take or give up a pipe end lock the global pipe table, which is an argument
-- here; they return it, and the processes that were woken.
pub mod Count
pub mod Balance
pub mod Copy
use crabv.Base.{
  ℕ, zero, suc, ◌+◌, Bool, true, false, ◌||◌, Option, none, some, List, [], ◌∷◌, ◌++◌, Result, ok,
  err, leb, if◌then◌else◌, get_or, set, replicate, first_none,
}
use crabv.Fd.Error.{FdResult, FdError, bad_fd, too_many_open}
use crabv.Fd.PipeTable
use crabv.Fd.PipeTable.{PipeTable}

abbrev pub max_fds : ℕ
max_fds = 16

pub data UartMode : Type 0 where
  reading writing : UartMode

pub record UartFd : Type 0 where
  pub mode : UartMode

pub record FileMode : Type 0 where
  pub read : Bool
  pub write : Bool
  pub append : Bool
  pub create : Bool

-- A path is its bytes.
pub record FileFd : Type 0 where
  pub path : List ℕ
  pub pos : ℕ
  pub mode : FileMode

pub record PipeFd : Type 0 where
  pub pipe_id : ℕ
  pub is_read_end : Bool

pub data FileDescriptor : Type 0 where
  uart : UartFd → FileDescriptor
  file : FileFd → FileDescriptor
  pipe : PipeFd → FileDescriptor

pub record FdTable : Type 0 where
  pub fds : List (Option FileDescriptor)

unfoldable pub new : FdTable
new = record { fds = replicate max_fds none }

abbrev pub stdin_fd : ℕ
stdin_fd = 0

abbrev pub stdout_fd : ℕ
stdout_fd = 1

abbrev pub stderr_fd : ℕ
stderr_fd = 2

abbrev pub put_fd : ℕ → Option FileDescriptor → FdTable → FdTable
put_fd i v t = record t { fds = set t.fds i v }

unfoldable pub with_standard : FdTable
unfolding new
with_standard = put_fd stderr_fd (some (uart (record { mode = writing }))) (
    put_fd stdout_fd (some (uart (record { mode = writing })))
      (put_fd stdin_fd (some (uart (record { mode = reading }))) new))

-- `alloc` takes the first free number.
unfoldable pub alloc : FdTable → FileDescriptor → FdResult ℕ × FdTable
unfolding first_none
alloc t fd = elim (first_none t.fds 0) [
  | none ↦ (err too_many_open, t)
  | some i ↦ (ok i, put_fd i (some fd) t)
]

-- `get` and `get_mut`
unfoldable pub get : FdTable → ℕ → FdResult FileDescriptor
get t i =
    if leb max_fds i
    then err bad_fd
    else elim (get_or t.fds i none) [ none ↦ err bad_fd | some fd ↦ ok fd ]

-- What closing a descriptor does to the pipe table: a pipe end gives up its reference.
unfoldable pub release : FileDescriptor → PipeTable → FdResult (Unit {0}) × PipeTable × List ℕ
release (uart u) pt = (ok tt, pt, [])
release (file f) pt = (ok tt, pt, [])
release (pipe p) pt = PipeTable.close_pipe_end pt p.pipe_id p.is_read_end

unfoldable pub close : FdTable → PipeTable → ℕ → FdResult (Unit {0}) × FdTable × PipeTable × List ℕ
unfolding release
close t pt i = if leb max_fds i then (err bad_fd, t, pt, []) else elim (get_or t.fds i none) [
  | none ↦ (err bad_fd, t, pt, [])
  | some fd ↦ let (r, pt', woken) = release fd pt in (r, put_fd i none t, pt', woken)
]

-- `impl Clone for FileDescriptor`: a pipe end gains a reference, and an error of `incref` is
-- dropped. The copy is equal to the original.
unfoldable pub clone : FileDescriptor → PipeTable → FileDescriptor × PipeTable
clone (uart u) pt = (uart u, pt)
clone (file f) pt = (file f, pt)
clone (pipe p) pt = (pipe p, (PipeTable.incref pt p.pipe_id p.is_read_end).1)

-- `#[derive(Clone)]` on the table: every descriptor in turn.
unfoldable pub clone_all :
    List (Option FileDescriptor) → PipeTable → List (Option FileDescriptor) × PipeTable
unfolding clone
clone_all [] pt = ([], pt)
clone_all (none ∷ fds) pt = let (rest, pt') = clone_all fds pt in (none ∷ rest, pt')
clone_all (some fd ∷ fds) pt =
    let (copy, pt1) = clone fd pt in let (rest, pt2) = clone_all fds pt1 in (some copy ∷ rest, pt2)

unfoldable pub clone_table : FdTable → PipeTable → FdTable × PipeTable
unfolding clone_all
clone_table t pt = let (fds, pt') = clone_all t.fds pt in (record { fds = fds }, pt')

-- The middle of `dup2`: the target is emptied, and what it held is released.
unfoldable pub vacate : FdTable → PipeTable → ℕ → FdResult (Unit {0}) × FdTable × PipeTable × List ℕ
unfolding release
vacate t pt i = elim (get_or t.fds i none) [
  | none ↦ (ok tt, t, pt, [])
  | some fd ↦ let (r, pt', woken) = release fd pt in (r, put_fd i none t, pt', woken)
]

unfoldable pub dup2 :
    FdTable → PipeTable → ℕ → ℕ → FdResult (Unit {0}) × FdTable × PipeTable × List ℕ
unfolding clone vacate
dup2 t pt old_fd new_fd =
    if leb max_fds old_fd || leb max_fds new_fd
    then (err bad_fd, t, pt, [])
    else elim (get_or t.fds old_fd none) [
      | none ↦ (err bad_fd, t, pt, [])
      | some fd ↦
          let (copy, pt1) = clone fd pt in
          let (r, t2, pt2, woken) = vacate t pt1 new_fd in
          elim r [
            | ok _ ↦ (ok tt, put_fd new_fd (some copy) t2, pt2, woken)
            | err e ↦ (err e, t2, pt2, woken)
          ]
    ]

-- `close_all`: the loop over the numbers from `i` on, `n` of them. Errors are dropped.
unfoldable pub close_from : ℕ → ℕ → FdTable → PipeTable → FdTable × PipeTable × List ℕ
unfolding close
close_from zero i t pt = (t, pt, [])
close_from (suc n) i t pt =
    let (r, t1, pt1, woken) = close t pt i in
    let (t2, pt2, rest) = close_from n (i + 1) t1 pt1 in (t2, pt2, woken ++ rest)

unfoldable pub close_all : FdTable → PipeTable → FdTable × PipeTable × List ℕ
unfolding close_from
close_all t pt = close_from max_fds 0 t pt
