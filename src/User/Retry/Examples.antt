-- ===== src/User/Retry/Examples.antt =====
-- A descriptor that would block once and then takes two bytes at a time.
use crabv.Base.{
  ℕ, ◌≡◌, refl, some, List, [], ◌∷◌, ◌++◌, arith, length, take, if◌then◌else◌, Bool, true, false,
}
use crabv.Syscall.Errno.{eagain}
use crabv.User.Retry.{write}
use crabv.User.Retry.Delivered.{Accepts, write-Accepts}

-- The bytes that it was given, and whether the next call would block.
record Slow : Type 0 where
  given : List ℕ
  busy : Bool

abbrev slow_write : ℕ → List ℕ → Slow → ℕ × Slow
slow_write fd bytes s =
    if s.busy
    then (eagain, record { given = s.given; busy = false })
    else (length (take 2 bytes), record { given = s.given ++ take 2 bytes; busy = false })

abbrev text : List ℕ
text = 97 ∷ 98 ∷ 99 ∷ []

abbrev waiting : Slow
waiting = record { given = []; busy = true }

abbrev after_three : Slow
after_three = record { given = 97 ∷ 98 ∷ 99 ∷ []; busy = false }

accepted : Accepts slow_write 1 (λ s. s.given) waiting (97 ∷ 98 ∷ 99 ∷ []) after_three 3
accepted = Accepts.blocked refl refl (
    Accepts.part refl (omega arith) (omega arith) (omega arith) refl
      (Accepts.whole refl (omega arith) (omega arith) (omega arith) refl))

write-Accepts_example :
    (write slow_write 5 1 text waiting ≡ some (length text, after_three))
    × (after_three.given ≡ waiting.given ++ text)
write-Accepts_example =
    write-Accepts slow_write 1 (λ s. s.given) waiting after_three 97 (98 ∷ 99 ∷ []) 3 5 accepted
      (omega arith)
