-- ===== src/Loader/Stack/Examples.antt =====
-- Tests and instances for the stack of a new process.
use crabv.Base.{ℕ, ◌≡◌, none, some, List, [], ◌∷◌, ok, arith, length, replicate}
use crabv.Loader.Stack.{build_user_stack}
use crabv.Loader.Stack.Push.{args_size}
use crabv.Loader.Stack.Argv.{Built, build_user_stack-Built, build_user_stack_panics}

-- Memory that holds only zeros, and the arguments `wc` and `b`.
abbrev zeros : ℕ → ℕ
zeros a = 0

abbrev two_args : List (List ℕ)
two_args = (119 ∷ 99 ∷ []) ∷ (98 ∷ []) ∷ []

build_user_stack-Built_example :
    (sp : ℕ) × (argv : ℕ) × (m' : ℕ → ℕ) × (build_user_stack two_args zeros
      ≡ some (ok (sp, length two_args, argv), m'))
    × Built two_args sp argv m'
unfolding args_size
build_user_stack-Built_example = build_user_stack-Built two_args zeros (omega arith) (omega arith)

-- Seventeen empty arguments.
abbrev many_args : List (List ℕ)
many_args = replicate 17 []

build_user_stack_panics_example : build_user_stack many_args zeros ≡ none
unfolding args_size
build_user_stack_panics_example =
    build_user_stack_panics many_args zeros (omega arith) (omega arith)
