-- ===== src/Loader/Stack/Argv.antt =====
-- What a new process finds on its stack after `build_user_stack` of src/process.rs.
use crabv.Base.{ℕ, ◌+◌, ◌-◌, ◌*◌, ◌%◌, ◌≤◌, ◌<◌, ◌≡◌, ap, ◌∙◌, none, some, List, ok, arith, length}
use crabv.Machine.{read_usize}
use crabv.Loader.{user_image_base, user_window_size}
use crabv.Loader.Stack.{push_usize, push_pointers, align, push_argv, build_user_stack, finish_stack}
use crabv.Loader.Stack.Strings.{
  ArgsAt, StringsAt-same, WordsAt-same, WordsAt-args, StringsAt-Small, StringsAt-length,
}
use crabv.Loader.Stack.Push.{args_size, start_stack, push_args-Pushed, push_args_panics}
use crabv.Loader.Stack.Words.{
  read_usize-push_usize, push_usize-SameFrom, sp-push_usize, push_usize-strings, push_null-Words,
  sp-push_pointers, push_pointers-Words, align-Aligned,
}

-- The stack of a new process: the pointer is aligned and in the window, under it stands the number
-- of arguments, then the pointers.
pub record Built (args : List (List ℕ)) (sp argv : ℕ) (m : ℕ → ℕ) : Type 0 where
  pub inside : user_image_base ≤ sp
  pub even : sp % 16 ≡ 0
  pub next : argv ≡ sp + 8
  pub argc : read_usize m sp ≡ length args
  pub strings : ArgsAt m argv args

-- For at most 16 arguments that fit into the user window with their pointers, `build_user_stack`
-- returns a stack pointer in the window, aligned to 16 bytes, at which stand the number of arguments
-- and, at the address it returns, pointers to the arguments, in order, each followed by a zero byte,
-- and then a null pointer.
pub build_user_stack-Built :
    (args : List (List ℕ)) (m : ℕ → ℕ)
    → length args ≤ 16
    → args_size args + 8 * (length args + 2) + 23 ≤ user_window_size
    → (sp : ℕ) × (argv : ℕ) × (m' : ℕ → ℕ) × (build_user_stack args m
        ≡ some (ok (sp, length args, argv), m'))
      × Built args sp argv m'
unfolding build_user_stack push_argv start_stack args_size
build_user_stack-Built args m few fits =
    let argc = length args in
    let (st, e, pushed) = push_args-Pushed 0 args m (omega arith) (omega arith) in
    let al = align-Aligned argc st (omega (arith, pushed.sp_is)) in
    let st1 = align argc st in
    let small = StringsAt-Small pushed.strings in
    let many = StringsAt-length pushed.strings in
    let strings1 =
      StringsAt-same st.memory st1.memory st.sp st.sp al.kept (omega arith) pushed.strings in
    let room : 8 * (argc + 2) ≤ st1.sp = omega (arith, pushed.sp_is, al.near) in
    let w2 = push_null-Words st.sp st1 (omega arith) al.under strings1 in
    let st2 = push_usize 0 st1 in
    let st3 = push_pointers st.arg_ptrs st2 in
    let w3 = push_pointers-Words st.sp st2 small (omega (arith, sp-push_usize 0 st1, many)) w2 in
    let at3 : st3.sp ≡ st1.sp - 8 - 8 * argc =
      omega (arith, sp-push_usize 0 st1, sp-push_pointers st.arg_ptrs st2, many) in
    let st4 = push_usize argc st3 in
    let at4 : st4.sp ≡ st1.sp - 8 * (argc + 2) = omega (arith, at3, sp-push_usize argc st3) in
    (
      st4.sp,
      st3.sp,
      st4.memory,
      ap (finish_stack argc) e,
      record {
        inside = omega (arith, at4, al.near, pushed.sp_is);
        even = ap (λ (x : ℕ). x % 16) at4 ∙ al.even;
        next = omega (arith, sp-push_usize argc st3, at3);
        argc = read_usize-push_usize argc st3 (omega arith);
        strings =
            WordsAt-args
              (WordsAt-same st3.memory st4.memory st3.sp
                (push_usize-SameFrom argc st3 (omega (arith, at3))) (omega arith) w3.words)
              (push_usize-strings argc st.sp st3 (omega (arith, at3)) w3.under w3.strings);
      },
    )

-- More than 16 arguments that fit into the user window are a panic of the kernel: their pointers go
-- to an array of 16.
pub build_user_stack_panics :
    (args : List (List ℕ)) (m : ℕ → ℕ)
    → 16 < length args
    → args_size args ≤ user_window_size
    → build_user_stack args m ≡ none
unfolding build_user_stack start_stack
build_user_stack_panics args m many fits =
    ap (finish_stack (length args)) (push_args_panics 0 args m (omega arith) (omega arith) fits)
