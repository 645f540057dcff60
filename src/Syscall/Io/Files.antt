-- ===== src/Syscall/Io/Files.antt =====
-- `sys_read` of a descriptor that is a regular file.
use crabv.Base.{
  ℕ, ◌+◌, ◌-◌, ◌≤◌, ◌≡◌, ◌≢◌, refl, ap, ◌∙◌, subst, true, false, none, some, List, [], arith, ok,
  min, length, length-append, length-take, length-drop, take, drop, get_or_le, get_or-set_self,
  dec_lt,
}
use crabv.Bytes.{take-append_self}
use crabv.Machine.{TrapFrame, load_bytes, store_bytes}
use crabv.Machine.Memory.{length-load_bytes, load_bytes-store_bytes}
use crabv.Fs.{BlockDevice}
use crabv.Fd.Table as Table
use crabv.Fd.Table.{FdTable, FileFd, FileDescriptor, file, put_fd, max_fds}
use crabv.Fd.Io as Io
use crabv.Fd.Io.{at_pos, fill_front, read_file, file_read}
use crabv.Fd.Io.File.{taken, file_read-taken}
use crabv.Proc.{Process, get, get_mut}
use crabv.Syscall.{unblock_all}
use crabv.Syscall.Io.{System, sys_read, devices, finish_io}
use crabv.Syscall.Io.Blocking.{locked, system_read, sys_read-go, get-get_mut_self}

get-put_fd :
    (t : FdTable) (fd : ℕ) (old new_entry : FileDescriptor)
    → Table.get t fd ≡ ok old
    → Table.get (put_fd fd (some new_entry) t) fd ≡ ok new_entry
unfolding Table.get
get-put_fd t fd old new_entry h = elim (dec_lt fd (length t.fds)) [
  | yes inside ↦ ground (arith, get_or-set_self t.fds fd (some new_entry) none inside)
  | no out ↦ absurd (ground (arith, get_or_le t.fds fd none (omega arith)))
]

module _ {D : Type 0} (dev : BlockDevice D) where
  -- The mutex is free, and the current process has the file `f`, which holds `bytes`, open for
  -- reading as number `fd`.
  pub record FileOpen (fd : ℕ) (f : FileFd) (bytes : List ℕ) (s : System D) : Type 0 where
    pub free : s.kernel.table_locked ≡ false
    pub process : Process
    pub running : get s.kernel.table s.kernel.table.current_pid ≡ some process
    pub entry : Table.get process.fd_table fd ≡ ok (file f)
    pub readable : f.mode.read ≡ true
    pub holds : read_file dev s.disk f.path ≡ ok bytes

  read-file :
      (f : FileFd) (s : System D) (bytes buf : List ℕ)
      → f.mode.read ≡ true
      → read_file dev s.disk f.path ≡ ok bytes
      → let piece = taken f bytes (length buf) in
        Io.read dev (file f) (devices s (locked s)) buf
        ≡ some (
          ok (length piece),
          fill_front piece buf,
          file (at_pos f (f.pos + length piece)),
          devices s (locked s),
          [],
        )
  unfolding Io.read
  read-file f s bytes buf r e =
      ap (λ g. some (g.0, g.1, file (g.2), devices s (locked s), []))
        (file_read-taken dev f s.disk bytes buf r e)

  length-taken-le : (f : FileFd) (bytes : List ℕ) (n : ℕ) → length (taken f bytes n) ≤ n
  length-taken-le f bytes n =
      omega (arith, length-take (min n (length bytes - f.pos)) (drop f.pos bytes))

  -- A read of an open file returns the number of bytes it took, which stand in the caller's buffer
  -- afterwards, and leaves the file open behind them.
  pub sys_read-FileOpen :
      (fr : TrapFrame) (f : FileFd) (bytes : List ℕ) (s : System D)
      → fr.a2 ≢ 0
      → FileOpen fr.a1 f bytes s
      → let piece = taken f bytes fr.a3 in
        (s' : System D) × (sys_read dev fr s ≡ some (ok (length piece), s'))
        × (take (length piece) (load_bytes s'.memory fr.a2 fr.a3) ≡ piece)
        × FileOpen fr.a1 (at_pos f (f.pos + length piece)) bytes s'
  unfolding unblock_all get_mut finish_io
  sys_read-FileOpen fr f bytes s ptr o =
      let buf = load_bytes s.memory fr.a2 fr.a3 in
      let piece = taken f bytes fr.a3 in
      let f1 = at_pos f (f.pos + length piece) in
      let d = devices s (locked s) in
      let size : length buf ≡ fr.a3 = length-load_bytes s.memory fr.a2 fr.a3 in
      let got =
        subst
          (λ (n : ℕ).
            Io.read dev (file f) d buf
            ≡ some (
              ok (length (taken f bytes n)),
              fill_front (taken f bytes n) buf,
              file (at_pos f (f.pos + length (taken f bytes n))),
              d,
              [],
            ))
          size (read-file f s bytes buf o.readable o.holds) in
      let full = fill_front piece buf in
      let full_size : length full ≡ fr.a3 = omega (
        arith,
        size,
        length-append piece (drop (length piece) buf),
        length-drop (length piece) buf,
        length-taken-le f bytes fr.a3,
      ) in
      let stored : load_bytes (store_bytes s.memory fr.a2 full) fr.a2 fr.a3 ≡ full =
        subst (λ (n : ℕ). load_bytes (store_bytes s.memory fr.a2 full) fr.a2 n ≡ full) full_size
          (load_bytes-store_bytes full s.memory fr.a2) in
      let put = λ (q : Process). record q { fd_table = put_fd fr.a1 (some (file f1)) q.fd_table } in
      (
        system_read dev fr s (file f1) d full,
        sys_read-go dev fr s o.free o.running o.entry ptr got,
        ap (take (length piece)) stored
            ∙ take-append_self piece (drop (length piece) buf) (length piece) refl,
        record {
          free = refl;
          process = put o.process;
          running =
              get-get_mut_self s.kernel.table s.kernel.table.current_pid put (λ q. refl) o.running;
          entry = get-put_fd o.process.fd_table fr.a1 (file f) (file f1) o.entry;
          readable = o.readable;
          holds = o.holds;
        },
      )
