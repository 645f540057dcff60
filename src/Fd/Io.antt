-- ===== src/Fd/Io.antt =====
-- Reading and writing through a descriptor: `FileDescriptor`, `UartFd`, `FileFd` and `PipeFd` of
-- src/fd.rs, on the serial line, the global filesystem and the pipe table. A read of the serial line
-- that waits for ever is `none`.
pub mod File
pub mod Examples
use crabv.Base.{
  ℕ, ◌+◌, ◌-◌, min, Bool, true, false, ◌&&◌, not, Option, none, some, List, [], ◌∷◌, ◌++◌, Result,
  ok, err, map_err, leb, if◌then◌else◌, length, take, drop,
}
use crabv.Uart.{Uart, read_byte_blocking, write_bytes}
use crabv.Fs.{BlockDevice, TinyFs}
use crabv.Fs.Error.{FsError}
use crabv.Fs.Ops.{with_fs, read_file_contents, write_file_contents, create_file}
use crabv.Fd.Error.{FdResult, FdError, bad_fd, not_found, fs}
use crabv.Fd.PipeTable
use crabv.Fd.PipeTable.{PipeTable}
use crabv.Fd.Table.{
  UartMode, reading, writing, UartFd, FileMode, FileFd, PipeFd, FileDescriptor, uart, file, pipe,
}

-- `FileMode::read_only`, `write_only`, `read_write` and `append`
abbrev pub read_only : FileMode
read_only = record { read = true; write = false; append = false; create = false }

abbrev pub write_only : FileMode
write_only = record { read = false; write = true; append = false; create = true }

abbrev pub read_write : FileMode
read_write = record { read = true; write = true; append = false; create = true }

abbrev pub append_only : FileMode
append_only = record { read = false; write = true; append = true; create = true }

-- What the descriptors stand on: the serial line, `FS` and `PIPE_TABLE`.
pub record Devices (D : Type 0) : Type 0 where
  pub serial : Uart
  pub disk : Option (TinyFs D)
  pub pipes : PipeTable

-- Bytes copied to the front of a buffer.
abbrev pub fill_front : List ℕ → List ℕ → List ℕ
fill_front bytes buf = bytes ++ drop (length bytes) buf

abbrev pub is_ok : {E A : Type 0} → Result E A → Bool
is_ok (ok a) = true
is_ok (err e) = false

abbrev pub front_byte : ℕ → List ℕ → List ℕ
front_byte b [] = []
front_byte b (x ∷ buf) = b ∷ buf

abbrev is_reading : UartMode → Bool
is_reading reading = true
is_reading writing = false

unfoldable pub uart_read : UartFd → Uart → List ℕ → Option (FdResult ℕ × List ℕ × Uart)
uart_read f u buf =
    if is_reading f.mode
    then elim buf [
      | [] ↦ some (ok 0, [], u)
      | x ∷ rest ↦ elim (read_byte_blocking u) [
        | none ↦ none
        | some found ↦ some (ok 1, found.0 ∷ rest, found.1)
      ]
    ]
    else some (err bad_fd, buf, u)

unfoldable pub uart_write : UartFd → Uart → List ℕ → FdResult ℕ × Uart
uart_write f u buf =
    if is_reading f.mode then (err bad_fd, u) else (ok (length buf), write_bytes buf u)

abbrev pub at_pos : FileFd → ℕ → FileFd
at_pos f pos = record f { pos = pos }

-- A read of the contents at the position of the descriptor.
unfoldable pub read_at : FileFd → List ℕ → List ℕ → FdResult ℕ × List ℕ × FileFd
read_at f contents buf =
    if leb (length contents) f.pos
    then (ok 0, buf, f)
    else (let to_read = min (length buf) (length contents - f.pos) in
        (
          ok to_read,
          fill_front (take to_read (drop f.pos contents)) buf,
          at_pos f (f.pos + to_read),
        ))

unfoldable pub pipe_read : PipeFd → PipeTable → List ℕ → FdResult ℕ × List ℕ × PipeTable × List ℕ
pipe_read p t buf =
    if p.is_read_end then PipeTable.read t p.pipe_id buf else (err bad_fd, buf, t, [])

unfoldable pub pipe_write : PipeFd → PipeTable → List ℕ → FdResult ℕ × PipeTable × List ℕ
pipe_write p t buf = if p.is_read_end then (err bad_fd, t, []) else PipeTable.write t p.pipe_id buf

module _ {D : Type 0} (dev : BlockDevice D) where
  -- `fs::read_file`, `fs::write_file` and `fs::create_file`
  unfoldable pub read_file : Option (TinyFs D) → List ℕ → Result FsError (List ℕ)
  read_file disk path = (with_fs disk (λ t. (read_file_contents dev t path, t))).0

  unfoldable pub write_file :
      Option (TinyFs D) → List ℕ → List ℕ → Result FsError (Unit {0}) × Option (TinyFs D)
  write_file disk path bytes = with_fs disk (λ t. write_file_contents dev t path bytes)

  unfoldable pub create_new_file :
      Option (TinyFs D) → List ℕ → Result FsError (Unit {0}) × Option (TinyFs D)
  create_new_file disk path = with_fs disk (λ t. create_file dev t path)

  abbrev length_or_zero : Result FsError (List ℕ) → ℕ
  length_or_zero (ok contents) = length contents
  length_or_zero (err e) = 0

  -- The end of `FileFd::open`.
  abbrev opened : Option (TinyFs D) → List ℕ → FileMode → FdResult FileFd × Option (TinyFs D)
  opened disk path mode =
      let pos = if mode.append then length_or_zero (read_file disk path) else 0 in
      (ok (record { path = path; pos = pos; mode = mode }), disk)

  -- `FileFd::open`
  unfoldable pub file_open :
      Option (TinyFs D) → List ℕ → FileMode → FdResult FileFd × Option (TinyFs D)
  file_open disk path mode =
      if is_ok (read_file disk path)
      then opened disk path mode
      else (if mode.create
          then (let (r, disk') = create_new_file disk path in
              elim r [ ok _ ↦ opened disk' path mode | err e ↦ (err (FdError.fs e), disk') ])
          else (err not_found, disk))

  -- `FileFd::read`
  unfoldable pub file_read : FileFd → Option (TinyFs D) → List ℕ → FdResult ℕ × List ℕ × FileFd
  file_read f disk buf =
      if f.mode.read
      then elim (read_file disk f.path) [
        | err e ↦ (err (FdError.fs e), buf, f)
        | ok contents ↦ read_at f contents buf
      ]
      else (err bad_fd, buf, f)

  abbrev pub or_empty : Result FsError (List ℕ) → List ℕ
  or_empty (ok contents) = contents
  or_empty (err e) = []

  -- What `FileFd::write` writes: the whole file.
  abbrev pub new_contents : FileFd → Option (TinyFs D) → List ℕ → List ℕ
  new_contents f disk buf = if f.mode.append then or_empty (read_file disk f.path) ++ buf else buf

  -- `FileFd::write`
  unfoldable pub file_write :
      FileFd → Option (TinyFs D) → List ℕ → FdResult ℕ × FileFd × Option (TinyFs D)
  file_write f disk buf =
      if f.mode.write
      then (let contents = new_contents f disk buf in
          let (r, disk') = write_file disk f.path contents in
          elim r [
            | err e ↦ (err (FdError.fs e), f, disk')
            | ok _ ↦ (ok (length buf), at_pos f (length contents), disk')
          ])
      else (err bad_fd, f, disk)

  -- `FileDescriptor::read`: the result, the buffer, the descriptor, the devices, and the processes
  -- that were woken.
  unfoldable pub read :
      FileDescriptor
      → Devices D
      → List ℕ
      → Option (FdResult ℕ × List ℕ × FileDescriptor × Devices D × List ℕ)
  read (uart u) d buf = elim (uart_read u d.serial buf) [
    | none ↦ none
    | some got ↦ some (got.0, got.1, uart u, record d { serial = got.2 }, [])
  ]
  read (file f) d buf = let (r, buf', f') = file_read f d.disk buf in some (r, buf', file f', d, [])
  read (pipe p) d buf =
      let (r, buf', pipes, woken) = pipe_read p d.pipes buf in
      some (r, buf', pipe p, record d { pipes = pipes }, woken)

  -- `FileDescriptor::write`
  unfoldable pub write :
      FileDescriptor → Devices D → List ℕ → FdResult ℕ × FileDescriptor × Devices D × List ℕ
  write (uart u) d buf =
      let (r, serial) = uart_write u d.serial buf in (r, uart u, record d { serial = serial }, [])
  write (file f) d buf =
      let (r, f', disk) = file_write f d.disk buf in (r, file f', record d { disk = disk }, [])
  write (pipe p) d buf =
      let (r, pipes, woken) = pipe_write p d.pipes buf in
      (r, pipe p, record d { pipes = pipes }, woken)
