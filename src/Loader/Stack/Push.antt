-- ===== src/Loader/Stack/Push.antt =====
-- The loops of `build_user_stack` of src/process.rs, over the arguments.
use crabv.Base.{
  ℕ, ◌+◌, ◌-◌, ◌≤◌, ◌<◌, ◌≡◌, refl, ap, ap₂, ◌∙◌, true, false, none, some, List, [], ◌∷◌, ◌++◌, ok,
  arith, ltb, leb, length,
}
use crabv.Machine.{load_bytes, store_bytes}
use crabv.Machine.Memory.{
  SameFrom, store_bytes-above, load_bytes-below, load_bytes-store_bytes, load_bytes-append,
}
use crabv.Loader.{user_image_base, user_image_limit, user_window_size}
use crabv.Loader.Stack.{Stack, copy_arg, push_arg, push_args, and_push}
use crabv.Loader.Stack.Strings.{StringsAt, no_string, string_at, StringsAt-same}

-- One argument was pushed.
pub copy_arg-string :
    (bytes : List ℕ) (sp : ℕ) (m : ℕ → ℕ)
    → load_bytes (copy_arg bytes sp m) sp (length bytes + 1) ≡ bytes ++ (0 ∷ [])
copy_arg-string bytes sp m =
    let m1 = store_bytes m sp bytes in
    let end = sp + length bytes in
    load_bytes-append (length bytes) 1 (copy_arg bytes sp m) sp
    ∙ ap₂ (λ l r. l ++ r)
        (load_bytes-below (length bytes) (0 ∷ []) m1 sp end (omega arith)
          ∙ load_bytes-store_bytes bytes m sp)
        (load_bytes-store_bytes (0 ∷ []) m1 end)

pub copy_arg-SameFrom :
    (bytes : List ℕ) (sp : ℕ) (m : ℕ → ℕ)
    → SameFrom (sp + (length bytes + 1)) m (copy_arg bytes sp m)
copy_arg-SameFrom bytes sp m a le =
    store_bytes-above (0 ∷ []) (store_bytes m sp bytes) (sp + length bytes) a (omega arith)
    ∙ store_bytes-above bytes m sp a (omega arith)

-- The bytes that the arguments take, each with its zero.
unfoldable pub args_size : List (List ℕ) → ℕ
args_size [] = 0
args_size (bytes ∷ args) = (length bytes + 1) + args_size args

-- The stack after these arguments were pushed.
pub record Pushed (args : List (List ℕ)) (st st' : Stack) : Type 0 where
  pub sp_is : st'.sp + args_size args ≡ st.sp
  pub strings : StringsAt st'.memory st'.sp st'.arg_ptrs args

unfoldable pub start_stack : (ℕ → ℕ) → Stack
start_stack m = record { sp = user_image_limit; arg_ptrs = []; memory = m }

pub push_args-Pushed :
    (index : ℕ) (args : List (List ℕ)) (m : ℕ → ℕ)
    → index + length args ≤ 16
    → args_size args ≤ user_window_size
    → (st : Stack) × (push_args index args (start_stack m) ≡ some (ok tt, st))
      × Pushed args (start_stack m) st
unfolding push_args push_arg args_size start_stack
push_args-Pushed index [] m h fits =
    (start_stack m, refl, record { sp_is = omega arith; strings = no_string })
push_args-Pushed index (bytes ∷ args) m h fits =
    let (st, e, done) = push_args-Pushed (index + 1) args m (omega arith) (omega arith) in
    let sp = st.sp - (length bytes + 1) in
    let room : ltb sp user_image_base ≡ false = ground (arith, done.sp_is) in
    let index_ok : leb 16 index ≡ false = ground arith in
    let st' : Stack = record {
      sp = sp;
      arg_ptrs = sp ∷ st.arg_ptrs;
      memory = copy_arg bytes sp st.memory;
    } in
    let same : SameFrom st.sp st.memory st'.memory =
      λ a le. copy_arg-SameFrom bytes sp st.memory a (omega (arith, done.sp_is)) in
    (
      st',
      rw (e, push_arg, room, index_ok) refl,
      record {
        sp_is = omega (arith, done.sp_is);
        strings =
            string_at (omega arith) (omega (arith, done.sp_is)) (copy_arg-string bytes sp st.memory)
              (StringsAt-same st.memory st'.memory st.sp sp same (omega arith) done.strings);
      },
    )

-- More than 16 arguments are a panic, if they fit.
pub push_args_panics :
    (index : ℕ) (args : List (List ℕ)) (m : ℕ → ℕ)
    → 0 < length args
    → 16 < index + length args
    → args_size args ≤ user_window_size
    → push_args index args (start_stack m) ≡ none
unfolding push_args push_arg args_size start_stack
push_args_panics index [] m some_args many fits = absurd (omega arith)
push_args_panics index (bytes ∷ []) m some_args many fits =
    let room : ltb (user_image_limit - (length bytes + 1)) user_image_base ≡ false = ground arith in
    let index_bad : leb 16 index ≡ true = ground arith in rw (room, index_bad) refl
push_args_panics index (bytes ∷ next ∷ args) m some_args many fits =
    ap (λ r. and_push r (push_arg index bytes))
      (push_args_panics (index + 1) (next ∷ args) m (omega arith) (omega arith) (omega arith))
