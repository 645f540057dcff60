-- ===== src/Loader/Stack.antt =====
-- `build_user_stack` of src/process.rs: the arguments of a new process, on its stack. The memory keeps
-- what was written also when the call fails. A panic of the kernel is `none`.
pub mod Strings
pub mod Push
pub mod Words
pub mod Argv
mod Examples
use crabv.Base.{
  ℕ, zero, suc, ◌+◌, ◌-◌, ◌%◌, Bool, Option, none, some, List, [], ◌∷◌, Result, ok, err, ltb, leb,
  ◌==◌, if◌then◌else◌, length,
}
use crabv.Bytes.{to_le_bytes}
use crabv.Machine.{store_bytes}
use crabv.Loader.{LoadError, out_of_memory, user_image_base, user_image_limit}

-- The stack pointer, the entries of `arg_ptrs` that were written, and the memory.
pub record Stack : Type 0 where
  pub sp : ℕ
  pub arg_ptrs : List ℕ
  pub memory : ℕ → ℕ

-- The length of `arg_ptrs`, which is an array.
abbrev pub max_argc : ℕ
max_argc = 16

-- Both writes of one argument, below the stack pointer.
abbrev pub copy_arg : List ℕ → ℕ → (ℕ → ℕ) → ℕ → ℕ
copy_arg bytes sp m = store_bytes (store_bytes m sp bytes) (sp + length bytes) (0 ∷ [])

-- One argument. The subtraction stops at 0; an index outside of `arg_ptrs` is a panic.
unfoldable pub push_arg : ℕ → List ℕ → Stack → Option (Result LoadError (Unit {0}) × Stack)
push_arg index bytes st =
    let sp = st.sp - (length bytes + 1) in
    if ltb sp user_image_base
    then some (err out_of_memory, record st { sp = sp })
    else (if leb max_argc index
        then none
        else some (
          ok tt,
          record { sp = sp; arg_ptrs = sp ∷ st.arg_ptrs; memory = copy_arg bytes sp st.memory },
        ))

abbrev pub and_push :
    Option (Result LoadError (Unit {0}) × Stack)
    → (Stack → Option (Result LoadError (Unit {0}) × Stack))
    → Option (Result LoadError (Unit {0}) × Stack)
and_push none next = none
and_push (some (err e, st)) next = some (err e, st)
and_push (some (ok _, st)) next = next st

-- The loop, from the last argument to the first.
unfoldable pub push_args : ℕ → List (List ℕ) → Stack → Option (Result LoadError (Unit {0}) × Stack)
push_args index [] st = some (ok tt, st)
push_args index (bytes ∷ args) st = and_push (push_args (index + 1) args st) (push_arg index bytes)

-- One word, below the stack pointer.
unfoldable pub push_usize : ℕ → Stack → Stack
push_usize value st =
    let sp = st.sp - 8 in
    record st { sp = sp; memory = store_bytes st.memory sp (to_le_bytes 8 value) }

-- The loop over the pointers, from the last to the first.
unfoldable pub push_pointers : List ℕ → Stack → Stack
push_pointers [] st = st
push_pointers (ptr ∷ ptrs) st = push_usize ptr (push_pointers ptrs st)

-- `sp &= !15`, and a word if what follows is not a multiple of two words.
unfoldable pub align : ℕ → Stack → Stack
align argc st =
    let aligned : Stack = record st { sp = st.sp - st.sp % 16 } in
    if (argc + 2) % 2 == 0 then aligned else push_usize 0 aligned

-- What is written after the arguments: a null pointer, the pointers and their number.
unfoldable pub push_argv : ℕ → Stack → Stack
push_argv argc st = push_pointers st.arg_ptrs (push_usize 0 (align argc st))

abbrev pub push_argc : ℕ → Stack → Result LoadError (ℕ × ℕ × ℕ) × (ℕ → ℕ)
push_argc argc st = let last = push_usize argc st in (ok (last.sp, argc, st.sp), last.memory)

abbrev pub finish_stack :
    ℕ
    → Option (Result LoadError (Unit {0}) × Stack)
    → Option (Result LoadError (ℕ × ℕ × ℕ) × (ℕ → ℕ))
finish_stack argc none = none
finish_stack argc (some (err e, st)) = some (err e, st.memory)
finish_stack argc (some (ok _, st)) = some (push_argc argc (push_argv argc st))

-- The stack pointer, the number of arguments, and the address of the pointers to them.
unfoldable pub build_user_stack :
    List (List ℕ) → (ℕ → ℕ) → Option (Result LoadError (ℕ × ℕ × ℕ) × (ℕ → ℕ))
build_user_stack args m =
    finish_stack (length args)
      (push_args 0 args (record { sp = user_image_limit; arg_ptrs = []; memory = m }))
