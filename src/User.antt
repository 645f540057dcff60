-- ===== src/User.antt =====
-- The programs of user_bin: the system calls as a program sees them, and the programs' output.
pub mod Args
pub mod Wc
pub mod Sh
pub mod Retry
use crabv.Base.{ℕ, List, [], ◌∷◌, Option, Result}

-- What a call returned: `ok n` for a result that is not negative, `err e` for `- e`.
abbrev pub CallResult : Type 0 → Type 0
CallResult A = Result ℕ A

-- The calls of user_bin/src/lib.rs, acting on the state `S` of the machine.
pub record Calls (S : Type 0) : Type 0 where
  -- up to the given number of bytes, from a descriptor
  pub read : ℕ → ℕ → S → CallResult (List ℕ) × S
  pub write : ℕ → List ℕ → S → CallResult ℕ × S
  pub open_fd : List ℕ → ℕ → S → CallResult ℕ × S
  pub close : ℕ → S → S
  -- the read end and the write end
  pub pipe : S → CallResult (ℕ × ℕ) × S
  pub dup2 : ℕ → ℕ → S → CallResult ℕ × S
  pub spawn : List ℕ → List (List ℕ) → S → CallResult ℕ × S
  pub wait : S → CallResult ℕ × S

abbrev pub stdout : ℕ
stdout = 1

abbrev pub stderr : ℕ
stderr = 2

abbrev pub newline : ℕ
newline = 10

abbrev pub space : ℕ
space = 32

-- One `write` after the other; what they return is not looked at.
unfoldable pub write_all : {S : Type 0} → Calls S → ℕ → List (List ℕ) → S → S
write_all os fd [] s = s
write_all os fd (chunk ∷ chunks) s = write_all os fd chunks ((os.write fd chunk s).1)
