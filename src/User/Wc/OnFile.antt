-- ===== src/User/Wc/OnFile.antt =====
-- `wc_fd` on a descriptor of the kernel's that is a regular file, which it reads by `sys_read`.
use crabv.Base.{ℕ, ◌-◌, ◌^◌, ◌≤◌, ◌≡◌, Option, none, some, List, ok, err, length, take, drop}
use crabv.Machine.{TrapFrame, load_bytes, store_bytes}
use crabv.Fs.{BlockDevice}
use crabv.Fd.Table.{FileFd}
use crabv.Syscall.Errno.{errno, eagain}
use crabv.Syscall.Io.{System, Outcome, sys_read, sys_write}
use crabv.User.{CallResult, Calls}
use crabv.User.Wc.Chunks.{Reads, contents}

-- The registers of a call with three arguments.
abbrev pub call : ℕ → ℕ → ℕ → ℕ → TrapFrame
call number a b c = record {
  ra = 0;
  t0 = 0;
  t1 = 0;
  t2 = 0;
  t3 = 0;
  t4 = 0;
  t5 = 0;
  t6 = 0;
  a0 = number;
  a1 = a;
  a2 = b;
  a3 = c;
  a4 = 0;
  a5 = 0;
  a6 = 0;
  a7 = 0;
}

-- What a program sees of a call. One that does not return is shown as EAGAIN in the state before it.
abbrev result_of :
    {D A : Type 0} → (ℕ → System D → A) → System D → Outcome D ℕ → CallResult A × System D
result_of value s none = (err (2 ^ 64 - eagain), s)
result_of value s (some (err e, s')) = (err (2 ^ 64 - errno e), s')
result_of value s (some (ok n, s')) = (ok (value n s'), s')

abbrev returned : {S : Type 0} → ℕ → ℕ → ℕ → S → Option ((ℕ × ℕ × ℕ) × S)
returned l w b s = some ((l, w, b), s)

module _ {D : Type 0} (dev : BlockDevice D) (others : Calls (System D)) (ptr : ℕ) where
  -- A program on this kernel whose buffer is at `ptr`: it reads by `sys_read` and writes by
  -- `sys_write`, and what it writes stands at `ptr` too. `wc_fd` makes no other call.
  abbrev pub kernel_calls : Calls (System D)
  kernel_calls = record others {
    read = λ fd n s.
        result_of (λ k s'. take k (load_bytes s'.memory ptr n)) s
          (sys_read dev (call 11 fd ptr n) s);
    write = λ fd bytes s.
        result_of (λ k s'. k) s
          (sys_write dev (call 1 fd ptr (length bytes))
            (record s { memory = store_bytes s.memory ptr bytes }));
  }

  -- The reads of the rest of the file, in at most `k` pieces.
  FileReads : ℕ → ℕ → FileFd → System D → List ℕ → Type 0
  FileReads k fd f s bytes =
      (pieces : List (List ℕ)) × (s' : System D) × Reads kernel_calls fd s pieces s'
      × (contents pieces ≡ drop f.pos bytes)
      × (length pieces ≤ k)
