-- ===== src/User/Retry/Delivered.antt =====
-- What `write` of user_bin/src/lib.rs delivers, however the kernel splits the bytes.
use crabv.Base.{
  ℕ, zero, suc, ◌+◌, ◌^◌, ◌≤◌, ◌<◌, ◌≡◌, refl, ap, ◌∙◌, Option, some, List, ◌∷◌, ◌++◌, append_assoc,
  arith, length, length-drop, take, drop, take-append-drop,
}
use crabv.Syscall.Errno.{eagain}
use crabv.User.Retry.{on_return, write_rest, write}

-- The calls of `ecall` by which a descriptor accepts some bytes, from one state to another: it would
-- block, or takes a part of the bytes, or all of them. `sent` is what it was given so far.
pub data Accepts {S : Type 0} (ecall : ℕ → List ℕ → S → ℕ × S) (fd : ℕ) (sent : S → List ℕ)
    : S → List ℕ → S → ℕ → Type 0 where
  blocked :
      {s s1 s' : S} {rest : List ℕ} {n : ℕ}
      → ecall fd rest s ≡ (eagain, s1)
      → sent s1 ≡ sent s
      → Accepts ecall fd sent s1 rest s' n
      → Accepts ecall fd sent s rest s' (suc n)
  part :
      {s s1 s' : S} {rest : List ℕ} {n k : ℕ}
      → ecall fd rest s ≡ (k, s1)
      → 0 < k
      → k < length rest
      → k < 2 ^ 63
      → sent s1 ≡ sent s ++ take k rest
      → Accepts ecall fd sent s1 (drop k rest) s' n
      → Accepts ecall fd sent s rest s' (suc n)
  whole :
      {s s' : S} {rest : List ℕ} {k : ℕ}
      → ecall fd rest s ≡ (k, s')
      → 0 < length rest
      → length rest ≤ k
      → k < 2 ^ 63
      → sent s' ≡ sent s ++ rest
      → Accepts ecall fd sent s rest s' 1

on_return-blocked :
    {S : Type 0} (go : List ℕ → ℕ → S → Option (ℕ × S)) (rest : List ℕ) (total : ℕ) (s : S)
    → on_return go rest total (eagain, s) ≡ go rest total s
unfolding on_return
on_return-blocked go rest total s = refl

on_return-part :
    {S : Type 0} (go : List ℕ → ℕ → S → Option (ℕ × S)) (rest : List ℕ) (total k : ℕ) (s : S)
    → 0 < k
    → k < length rest
    → k < 2 ^ 63
    → on_return go rest total (k, s) ≡ go (drop k rest) (total + k) s
unfolding on_return
on_return-part go rest total k s some_bytes short small = ground arith

on_return-whole :
    {S : Type 0} (go : List ℕ → ℕ → S → Option (ℕ × S)) (rest : List ℕ) (total k : ℕ) (s : S)
    → length rest ≤ k
    → k < 2 ^ 63
    → on_return go rest total (k, s) ≡ some (total + length rest, s)
unfolding on_return
on_return-whole go rest total k s long small = ground arith

write_rest-Accepts :
    {S : Type 0} (ecall : ℕ → List ℕ → S → ℕ × S) (fd : ℕ) (sent : S → List ℕ) (s s' : S)
    (rest : List ℕ) (total n fuel : ℕ)
    → Accepts ecall fd sent s rest s' n
    → n ≤ fuel
    → (write_rest ecall fuel fd rest total s ≡ some (total + length rest, s'))
      × (sent s' ≡ sent s ++ rest)
unfolding write_rest
write_rest-Accepts ecall fd sent s s' rest total _ zero (Accepts.blocked {n = n} e same a) h =
    absurd (omega arith)
write_rest-Accepts ecall fd sent s s' rest total _ zero
      (Accepts.part {n = n} e pos short small taken a) h =
    absurd (omega arith)
write_rest-Accepts ecall fd sent s s' rest total _ zero (Accepts.whole e pos long small taken) h =
    absurd (omega arith)
write_rest-Accepts ecall fd sent s s' rest total _ (suc fuel)
      (Accepts.blocked {s1 = s1} {n = n} e same a) h =
    let (run, all) = write_rest-Accepts ecall fd sent s1 s' rest total n fuel a (omega arith) in
    (
      ap (on_return (write_rest ecall fuel fd) rest total) e
          ∙ (on_return-blocked (write_rest ecall fuel fd) rest total s1 ∙ run),
      all ∙ ap (λ l. l ++ rest) same,
    )
write_rest-Accepts ecall fd sent s s' rest total _ (suc fuel)
      (Accepts.part {s1 = s1} {n = n} {k = k} e pos short small taken a) h =
    let (run, all) =
      write_rest-Accepts ecall fd sent s1 s' (drop k rest) (total + k) n fuel a (omega arith) in
    let sum : (total + k) + length (drop k rest) ≡ total + length rest =
      omega (arith, length-drop k rest) in
    (
      ap (on_return (write_rest ecall fuel fd) rest total) e
          ∙ (on_return-part (write_rest ecall fuel fd) rest total k s1 pos short small
              ∙ (run ∙ ap (λ (i : ℕ). some (i, s')) sum)),
      all
          ∙ (ap (λ l. l ++ drop k rest) taken
              ∙ (append_assoc (sent s) (take k rest) (drop k rest)
                  ∙ ap (λ l. sent s ++ l) (take-append-drop k rest))),
    )
write_rest-Accepts ecall fd sent s s' rest total _ (suc fuel)
      (Accepts.whole {k = k} e pos long small taken) h =
    (
      ap (on_return (write_rest ecall fuel fd) rest total) e
          ∙ on_return-whole (write_rest ecall fuel fd) rest total k s' long small,
      taken,
    )

-- However often the kernel says that the call would block, and however it splits the bytes, when in
-- `n` calls the descriptor accepts all of a text that is not empty, `write` with fuel for them ends
-- in the state after the last one, returns the length of the text, and the descriptor was given
-- exactly the text, in order.
pub write-Accepts :
    {S : Type 0} (ecall : ℕ → List ℕ → S → ℕ × S) (fd : ℕ) (sent : S → List ℕ) (s s' : S) (b : ℕ)
    (bs : List ℕ) (n fuel : ℕ)
    → Accepts ecall fd sent s (b ∷ bs) s' n
    → n ≤ fuel
    → (write ecall fuel fd (b ∷ bs) s ≡ some (length (b ∷ bs), s')) × (sent s' ≡ sent s ++ (b ∷ bs))
unfolding write
write-Accepts ecall fd sent s s' b bs n fuel a h =
    let (run, all) = write_rest-Accepts ecall fd sent s s' (b ∷ bs) 0 n fuel a h in
    let sum : 0 + length (b ∷ bs) ≡ length (b ∷ bs) = omega arith in
    (run ∙ ap (λ (i : ℕ). some (i, s')) sum, all)
