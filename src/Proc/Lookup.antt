-- ===== src/Proc/Lookup.antt =====
-- The process list as a map from process numbers.
use crabv.Base.{
  ℕ, zero, suc, ◌<◌, ◌≤◌, ◌≡◌, refl, ◌≢◌, Option, none, some, List, [], ◌∷◌, arith, ◌==◌,
  if◌then◌else◌, length, get_or, set,
}
use crabv.Proc.{Process, exited, find, modify, remove, find_exited}

-- No two entries have one number.
abbrev pub Distinct : List (Option Process) → Type 0
Distinct [] = Unit
Distinct (none ∷ ps) = Distinct ps
Distinct (some p ∷ ps) = (find ps p.pid ≡ none) × Distinct ps

-- Every number is positive and below `n`.
abbrev pub Below : ℕ → List (Option Process) → Type 0
Below n [] = Unit
Below n (none ∷ ps) = Below n ps
Below n (some p ∷ ps) = (0 < p.pid) × (p.pid < n) × Below n ps

abbrev pub map_found : (Process → Process) → Option Process → Option Process
map_found f none = none
map_found f (some p) = some (f p)

pub find-pid :
    (ps : List (Option Process)) (pid : ℕ) {p : Process} → find ps pid ≡ some p → p.pid ≡ pid
unfolding find
find-pid [] pid e = absurd (cc)
find-pid (none ∷ ps) pid e = find-pid ps pid e
find-pid (some q ∷ ps) pid {p} e = ground (arith, find-pid ps pid {p = p})

pub find_above :
    (ps : List (Option Process)) (n pid : ℕ) → Below n ps → n ≤ pid → find ps pid ≡ none
unfolding find
find_above [] n pid b h = refl
find_above (none ∷ ps) n pid b h = find_above ps n pid b h
find_above (some q ∷ ps) n pid b h = ground (arith, find_above ps n pid b.2 h)

pub find_bounds :
    (ps : List (Option Process)) (n pid : ℕ) {p : Process}
    → Below n ps
    → find ps pid ≡ some p
    → (0 < pid) × (pid < n)
unfolding find
find_bounds [] n pid b e = absurd (cc)
find_bounds (none ∷ ps) n pid b e = find_bounds ps n pid b e
find_bounds (some q ∷ ps) n pid {p} b e = ground (arith, find_bounds ps n pid {p = p} b.2)

module _ (f : Process → Process) (pid : ℕ) (keeps : (p : Process) → (f p).pid ≡ p.pid) where
  pub find-modify :
      (ps : List (Option Process)) (q : ℕ)
      → find (modify ps pid f) q ≡ (if pid == q then map_found f (find ps q) else find ps q)
  unfolding find modify
  find-modify [] q = ground arith
  find-modify (none ∷ ps) q = find-modify ps q
  find-modify (some p ∷ ps) q = ground (arith, find-modify ps q, keeps p)

  pub modify-Distinct : (ps : List (Option Process)) → Distinct ps → Distinct (modify ps pid f)
  unfolding find modify
  modify-Distinct [] d = tt
  modify-Distinct (none ∷ ps) d = modify-Distinct ps d
  modify-Distinct (some p ∷ ps) d =
      ground (arith, modify-Distinct ps d.1, find-modify ps p.pid, keeps p)

  pub modify-Below : (n : ℕ) (ps : List (Option Process)) → Below n ps → Below n (modify ps pid f)
  unfolding modify
  modify-Below n [] b = tt
  modify-Below n (none ∷ ps) b = modify-Below n ps b
  modify-Below n (some p ∷ ps) b = ground (arith, modify-Below n ps b.2, keeps p)

pub length-modify :
    (ps : List (Option Process)) (pid : ℕ) (f : Process → Process)
    → length (modify ps pid f) ≡ length ps
unfolding modify
length-modify [] pid f = refl
length-modify (none ∷ ps) pid f = omega (arith, length-modify ps pid f)
length-modify (some p ∷ ps) pid f = ground (arith, length-modify ps pid f)

Below-mono : (n m : ℕ) (ps : List (Option Process)) → n ≤ m → Below n ps → Below m ps
Below-mono n m [] l b = tt
Below-mono n m (none ∷ ps) l b = Below-mono n m ps l b
Below-mono n m (some p ∷ ps) l b = (b.0, omega arith, Below-mono n m ps l b.2)

-- A new entry in an empty slot.
module _ (p : Process) where
  pub find-set :
      (ps : List (Option Process)) (i q : ℕ)
      → get_or ps i none ≡ none
      → i < length ps
      → find ps p.pid ≡ none
      → find (set ps i (some p)) q ≡ (if p.pid == q then some p else find ps q)
  unfolding find
  find-set [] i q e h a = absurd (omega arith)
  find-set (none ∷ ps) zero q e h a = ground arith
  find-set (some r ∷ ps) zero q e h a = absurd (cc)
  find-set (none ∷ ps) (suc i) q e h a = find-set ps i q e (omega arith) a
  find-set (some r ∷ ps) (suc i) q e h a = ground (arith, find-set ps i q e (omega arith))

  pub set-Distinct :
      (ps : List (Option Process)) (i : ℕ)
      → get_or ps i none ≡ none
      → i < length ps
      → find ps p.pid ≡ none
      → Distinct ps
      → Distinct (set ps i (some p))
  unfolding find
  set-Distinct [] i e h a d = absurd (omega arith)
  set-Distinct (none ∷ ps) zero e h a d = (a, d)
  set-Distinct (some r ∷ ps) zero e h a d = absurd (cc)
  set-Distinct (none ∷ ps) (suc i) e h a d = set-Distinct ps i e (omega arith) a d
  set-Distinct (some r ∷ ps) (suc i) e h a d =
      ground (arith, set-Distinct ps i e (omega arith), d, find-set ps i r.pid e (omega arith))

  pub set-Below :
      (ps : List (Option Process)) (i n m : ℕ)
      → 0 < p.pid
      → p.pid < m
      → n ≤ m
      → Below n ps
      → Below m (set ps i (some p))
  set-Below [] i n m h k l b = tt
  set-Below (none ∷ ps) zero n m h k l b = (h, k, Below-mono n m ps l b)
  set-Below (some r ∷ ps) zero n m h k l b = (h, k, Below-mono n m ps l b.2)
  set-Below (none ∷ ps) (suc i) n m h k l b = set-Below ps i n m h k l b
  set-Below (some r ∷ ps) (suc i) n m h k l b = (b.0, omega arith, set-Below ps i n m h k l b.2)

-- The removal of an entry.
pub find-remove :
    (ps : List (Option Process)) (pid q : ℕ)
    → Distinct ps
    → find (remove ps pid) q ≡ (if pid == q then none else find ps q)
unfolding find remove
find-remove [] pid q d = ground arith
find-remove (none ∷ ps) pid q d = find-remove ps pid q d
find-remove (some p ∷ ps) pid q d = ground (arith, find-remove ps pid q d.1, d.0)

pub remove-Distinct :
    (ps : List (Option Process)) (pid : ℕ) → Distinct ps → Distinct (remove ps pid)
unfolding find remove
remove-Distinct [] pid d = tt
remove-Distinct (none ∷ ps) pid d = remove-Distinct ps pid d
remove-Distinct (some p ∷ ps) pid d =
    ground (arith, remove-Distinct ps pid d.1, find-remove ps pid p.pid d.1)

pub remove-Below :
    (n : ℕ) (ps : List (Option Process)) (pid : ℕ) → Below n ps → Below n (remove ps pid)
unfolding remove
remove-Below n [] pid b = tt
remove-Below n (none ∷ ps) pid b = remove-Below n ps pid b
remove-Below n (some p ∷ ps) pid b = ground (arith, remove-Below n ps pid b.2)

pub length-remove : (ps : List (Option Process)) (pid : ℕ) → length (remove ps pid) ≡ length ps
unfolding remove
length-remove [] pid = refl
length-remove (none ∷ ps) pid = omega (arith, length-remove ps pid)
length-remove (some p ∷ ps) pid = ground (arith, length-remove ps pid)

-- The child that `wait` finds.
pub find_exited-some :
    (ps : List (Option Process)) (parent : ℕ) {p : Process}
    → Distinct ps
    → find_exited ps parent ≡ some p
    → (find ps p.pid ≡ some p) × (p.parent_pid ≡ parent) × (p.state ≡ exited)
unfolding find find_exited
find_exited-some [] parent d e = absurd (cc)
find_exited-some (none ∷ ps) parent d e = find_exited-some ps parent d e
find_exited-some (some r ∷ ps) parent {p} d e =
    ground (arith, find_exited-some ps parent {p = p} d.1, d.0)

pub find_exited-none :
    (ps : List (Option Process)) (parent pid : ℕ) {p : Process}
    → find_exited ps parent ≡ none
    → find ps pid ≡ some p
    → p.parent_pid ≡ parent
    → p.state ≢ exited
unfolding find find_exited
find_exited-none [] parent pid e s h = absurd (cc)
find_exited-none (none ∷ ps) parent pid e s h = find_exited-none ps parent pid e s h
find_exited-none (some r ∷ ps) parent pid {p} e s h =
    ground (arith, find_exited-none ps parent pid {p = p})
