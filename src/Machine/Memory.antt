-- ===== src/Machine/Memory.antt =====
-- Lemmas on bytes and words in memory.
use crabv.Base.{
  ℕ, zero, suc, ◌+◌, ◌≤◌, ◌<◌, ◌≡◌, refl, ap, ap₂, ◌∙◌, true, false, List, [], ◌∷◌, ◌++◌, arith,
  ◌==◌, if◌then◌else◌, length,
}
use crabv.Bytes.{from_le_bytes}
use crabv.Machine.{load_bytes, store_bytes, read_usize}

-- Memory that is the same from an address on.
abbrev pub SameFrom : ℕ → (ℕ → ℕ) → (ℕ → ℕ) → Type 0
SameFrom lo m m' = (a : ℕ) → lo ≤ a → m' a ≡ m a

pub store_bytes-above :
    (bs : List ℕ) (m : ℕ → ℕ) (p a : ℕ) → p + length bs ≤ a → store_bytes m p bs a ≡ m a
unfolding store_bytes
store_bytes-above [] m p a h = refl
store_bytes-above (b ∷ bs) m p a h =
    let other : (a == p) ≡ false = ground arith in
    store_bytes-above bs (λ x. if x == p then b else m x) (p + 1) a (omega arith) ∙ rw other refl

pub store_bytes-below : (bs : List ℕ) (m : ℕ → ℕ) (p a : ℕ) → a < p → store_bytes m p bs a ≡ m a
unfolding store_bytes
store_bytes-below [] m p a h = refl
store_bytes-below (b ∷ bs) m p a h =
    let other : (a == p) ≡ false = ground arith in
    store_bytes-below bs (λ x. if x == p then b else m x) (p + 1) a (omega arith) ∙ rw other refl

pub load_bytes-same :
    (n : ℕ) (m m' : ℕ → ℕ) (lo p : ℕ)
    → SameFrom lo m m'
    → lo ≤ p
    → load_bytes m' p n ≡ load_bytes m p n
unfolding load_bytes
load_bytes-same zero m m' lo p h le = refl
load_bytes-same (suc n) m m' lo p h le =
    ap₂ (λ x l. x ∷ l) (h p le) (load_bytes-same n m m' lo (p + 1) h (omega arith))

pub load_bytes-below :
    (n : ℕ) (bs : List ℕ) (m : ℕ → ℕ) (p q : ℕ)
    → p + n ≤ q
    → load_bytes (store_bytes m q bs) p n ≡ load_bytes m p n
unfolding load_bytes
load_bytes-below zero bs m p q h = refl
load_bytes-below (suc n) bs m p q h =
    ap₂ (λ x l. x ∷ l) (store_bytes-below bs m q p (omega arith))
      (load_bytes-below n bs m (p + 1) q (omega arith))

pub load_bytes-store_bytes :
    (bs : List ℕ) (m : ℕ → ℕ) (p : ℕ) → load_bytes (store_bytes m p bs) p (length bs) ≡ bs
unfolding load_bytes store_bytes
load_bytes-store_bytes [] m p = refl
load_bytes-store_bytes (b ∷ bs) m p =
    let here : (p == p) ≡ true = ground arith in
    ap₂ (λ x l. x ∷ l)
      (store_bytes-below bs (λ x. if x == p then b else m x) (p + 1) p (omega arith) ∙ rw here refl)
      (load_bytes-store_bytes bs (λ x. if x == p then b else m x) (p + 1))

pub load_bytes-append :
    (n k : ℕ) (m : ℕ → ℕ) (p : ℕ)
    → load_bytes m p (n + k) ≡ load_bytes m p n ++ load_bytes m (p + n) k
unfolding load_bytes
load_bytes-append zero k m p =
    let e : p ≡ p + 0 = omega arith in
    let e0 : 0 + k ≡ k = omega arith in ap₂ (λ (q n : ℕ). load_bytes m q n) e e0
load_bytes-append (suc n) k m p =
    let e : (p + 1) + n ≡ p + suc n = omega arith in
    let e0 : suc n + k ≡ suc (n + k) = omega arith in
    ap (λ (i : ℕ). load_bytes m p i) e0
    ∙ ap (λ l. m p ∷ l)
        (load_bytes-append n k m (p + 1)
          ∙ ap (λ (q : ℕ). load_bytes m (p + 1) n ++ load_bytes m q k) e)

pub read_usize-same :
    (m m' : ℕ → ℕ) (lo p : ℕ) → SameFrom lo m m' → lo ≤ p → read_usize m' p ≡ read_usize m p
unfolding read_usize
read_usize-same m m' lo p h le = ap from_le_bytes (load_bytes-same 8 m m' lo p h le)

pub length-load_bytes : (m : ℕ → ℕ) (p n : ℕ) → length (load_bytes m p n) ≡ n
unfolding load_bytes
length-load_bytes m p zero = refl
length-load_bytes m p (suc n) = ap suc (length-load_bytes m (p + 1) n)
