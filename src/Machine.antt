-- ===== src/Machine.antt =====
-- The memory by its addresses, and the state outside the kernel's tables that a context switch moves: the window of user memory, two
-- control registers, and the registers that the trap handler saved.
pub mod Memory
use crabv.Bytes.{from_le_bytes}
use crabv.Base.{ℕ, zero, suc, ◌+◌, List, [], ◌∷◌, ◌==◌, if◌then◌else◌}

-- `window` is the memory at USER_IMAGE_BASE (src/process.rs), `sepc` and `sscratch` are the
-- registers of these names. `sscratch` holds the stack pointer of the process while the kernel
-- runs.
pub record Machine : Type 0 where
  pub window : List ℕ
  pub sepc : ℕ
  pub sscratch : ℕ

-- The fields of the trap frame, as src/proc.rs names them.
pub record TrapFrame : Type 0 where
  pub ra : ℕ
  pub t0 : ℕ
  pub t1 : ℕ
  pub t2 : ℕ
  pub t3 : ℕ
  pub t4 : ℕ
  pub t5 : ℕ
  pub t6 : ℕ
  pub a0 : ℕ
  pub a1 : ℕ
  pub a2 : ℕ
  pub a3 : ℕ
  pub a4 : ℕ
  pub a5 : ℕ
  pub a6 : ℕ
  pub a7 : ℕ

-- The bytes of a slice in memory.
unfoldable pub load_bytes : (ℕ → ℕ) → ℕ → ℕ → List ℕ
load_bytes m ptr zero = []
load_bytes m ptr (suc len) = m ptr ∷ load_bytes m (ptr + 1) len

unfoldable pub store_bytes : (ℕ → ℕ) → ℕ → List ℕ → ℕ → ℕ
store_bytes m ptr [] = m
store_bytes m ptr (b ∷ bs) = store_bytes (λ a. if a == ptr then b else m a) (ptr + 1) bs

-- A word in memory.
unfoldable pub read_usize : (ℕ → ℕ) → ℕ → ℕ
read_usize m p = from_le_bytes (load_bytes m p 8)
