-- ===== src/Fd/Pipe/Ring.antt =====
-- The ring buffer of a pipe as the list of the bytes that it holds, oldest first.
use crabv.Base.{
  ℕ, zero, suc, ◌+◌, ◌-◌, ◌%◌, ◌<◌, ◌≤◌, ◌≡◌, refl, ap, ap₂, List, [], ◌∷◌, ◌++◌, arith, length,
  get_or, set, take, drop, get_or-set_self, get_or-set_ne,
}
use crabv.Fd.Pipe.{Pipe, pipe_buf_size, available, space_available}

-- The buffer has its full size, and both positions are inside it.
pub record IsValid (p : Pipe) : Type 0 where
  pub sized : length p.buffer ≡ pipe_buf_size
  pub read_in : p.read_pos < pipe_buf_size
  pub write_in : p.write_pos < pipe_buf_size

-- The `n` bytes from index `i` on, going round at the end of the buffer.
abbrev pub segment : List ℕ → ℕ → ℕ → List ℕ
segment buf zero i = []
segment buf (suc n) i = get_or buf i 0 ∷ segment buf n ((i + 1) % pipe_buf_size)

unfoldable pub contents : Pipe → List ℕ
contents p = segment p.buffer (available p) p.read_pos

pub length-segment : (buf : List ℕ) (n i : ℕ) → length (segment buf n i) ≡ n
length-segment buf zero i = refl
length-segment buf (suc n) i = ap suc (length-segment buf n ((i + 1) % pipe_buf_size))

pub length-contents : (p : Pipe) → length (contents p) ≡ available p
unfolding contents
length-contents p = length-segment p.buffer (available p) p.read_pos

pub take-segment : (buf : List ℕ) (n m i : ℕ) → n ≤ m → take n (segment buf m i) ≡ segment buf n i
take-segment buf zero m i h = refl
take-segment buf (suc n) zero i h = absurd (omega arith)
take-segment buf (suc n) (suc m) i h =
    ap (λ l. get_or buf i 0 ∷ l) (take-segment buf n m ((i + 1) % pipe_buf_size) (omega arith))

pub drop-segment :
    (buf : List ℕ) (n m i : ℕ)
    → n ≤ m
    → i < pipe_buf_size
    → drop n (segment buf m i) ≡ segment buf (m - n) ((i + n) % pipe_buf_size)
drop-segment buf zero m i h b = ap₂ (segment buf) (omega arith) (omega arith)
drop-segment buf (suc n) zero i h b = absurd (omega arith)
drop-segment buf (suc n) (suc m) i h b =
    rw (drop-segment buf n m ((i + 1) % pipe_buf_size) (omega arith) (omega arith))
      (ap₂ (segment buf) (omega arith) (omega arith))

-- A write just past a segment, while it does not fill the ring, appends the byte.
pub segment-set :
    (buf : List ℕ) (x n i j : ℕ)
    → length buf ≡ pipe_buf_size
    → i < pipe_buf_size
    → n < pipe_buf_size
    → j ≡ (i + n) % pipe_buf_size
    → segment (set buf j x) (suc n) i ≡ segment buf n i ++ (x ∷ [])
segment-set buf x zero i j s hi hn e =
    let here : j ≡ i = omega arith in rw (here, get_or-set_self buf i x 0 (omega arith))
segment-set buf x (suc n) i j s hi hn e =
    ap₂ ◌∷◌ (get_or-set_ne buf j i x 0 (omega arith))
      (segment-set buf x n ((i + 1) % pipe_buf_size) j s (omega arith) (omega arith) (omega arith))

pub write_pos_of_available :
    (p : Pipe) → IsValid p → p.write_pos ≡ (p.read_pos + available p) % pipe_buf_size
unfolding available
write_pos_of_available p v = ground arith

pub available-lt : (p : Pipe) → IsValid p → available p < pipe_buf_size
unfolding available
available-lt p v = ground arith

-- Occupied and free cells make up the buffer, less the one cell that stays empty.
pub space_available-add-available :
    (p : Pipe) → IsValid p → space_available p + available p + 1 ≡ pipe_buf_size
unfolding space_available
space_available-add-available p v = omega (arith, available-lt p v)
