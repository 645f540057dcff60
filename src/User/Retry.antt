-- ===== src/User/Retry.antt =====
-- The functions of user_bin/src/lib.rs that make a call again: `write`, `read` and `wait`. One
-- execution of `ecall` is a parameter; it gives the register `a0`, whose upper half is negative.
pub mod Delivered
mod Examples
use crabv.Base.{
  ℕ, zero, suc, ◌+◌, ◌^◌, min, Bool, ◌||◌, Option, none, some, List, [], ◌∷◌, ltb, leb, ◌==◌,
  if◌then◌else◌, length, drop,
}
use crabv.Syscall.Errno.{eagain}

module _ {S : Type 0} where
  -- A call that is made again as long as it would block; `none` when the fuel runs out.
  unfoldable pub retry : (S → ℕ × S) → ℕ → S → Option (ℕ × S)
  retry ecall zero s = none
  retry ecall (suc fuel) s =
      let (ret, s') = ecall s in
      let again = retry ecall fuel s' in if ret == eagain then again else some (ret, s')

  -- `read`, whose buffer is part of the state, and `wait`
  abbrev pub read : (ℕ → S → ℕ × S) → ℕ → ℕ → S → Option (ℕ × S)
  read ecall fuel fd s = retry (ecall fd) fuel s

  abbrev pub wait_child : (ℕ → S → ℕ × S) → ℕ → ℕ → S → Option (ℕ × S)
  wait_child ecall fuel status_ptr s = retry (ecall status_ptr) fuel s

  -- The end of a round of `write`, in which some bytes were written.
  abbrev pub on_wrote : (List ℕ → ℕ → S → Option (ℕ × S)) → List ℕ → ℕ → ℕ → S → Option (ℕ × S)
  on_wrote go rest total wrote s =
      let next = go (drop wrote rest) (total + wrote) s in
      if leb (length rest) wrote || wrote == 0 then some (total + wrote, s) else next

  -- A round of `write`, behind the call: `rest` is what is still to be written.
  unfoldable pub on_return : (List ℕ → ℕ → S → Option (ℕ × S)) → List ℕ → ℕ → ℕ × S → Option (ℕ × S)
  on_return go rest total (ret, s) =
      let again = go rest total s in
      let wrote = on_wrote go rest total (min ret (length rest)) s in
      if ret == eagain
      then again
      else (if leb (2 ^ 63) ret then some (if ltb 0 total then total else ret, s) else wrote)

  -- The loop of `write`; `none` when the fuel runs out.
  unfoldable pub write_rest : (ℕ → List ℕ → S → ℕ × S) → ℕ → ℕ → List ℕ → ℕ → S → Option (ℕ × S)
  write_rest ecall zero fd rest total s = none
  write_rest ecall (suc fuel) fd rest total s =
      on_return (write_rest ecall fuel fd) rest total (ecall fd rest s)

  unfoldable pub write : (ℕ → List ℕ → S → ℕ × S) → ℕ → ℕ → List ℕ → S → Option (ℕ × S)
  write ecall fuel fd [] s = some (0, s)
  write ecall fuel fd (b ∷ bs) s = write_rest ecall fuel fd (b ∷ bs) 0 s
