-- ===== src/Fd/Pipe/Stream.antt =====
-- Any interleaving of reads and writes on one pipe: the byte stream.
use crabv.Base.{
  ℕ, zero, suc, min, ◌≤◌, subst, ◌≡◌, refl, sym, ◌∙◌, ap, List, [], ◌∷◌, ◌++◌, ok, err, arith,
  length, take, drop, append_assoc, append-nil, take-append-drop,
}
use crabv.Fd.Error.{FdResult}
use crabv.Fd.Pipe.{Pipe, read, write}
use crabv.Fd.Pipe.Ring.{IsValid, contents}
use crabv.Fd.Pipe.Channel.{Channel, recv, send}
use crabv.Fd.Pipe.Refine.{view, read_refines, write_refines}

pub data Call : Type 0 where
  reads writes : List ℕ → Call

-- The bytes that a call moved: the first `n` of its buffer if it returned `n`.
abbrev pub moved : FdResult ℕ → List ℕ → List ℕ
moved (ok n) buf = take n buf
moved (err e) buf = []

pub record Trace : Type 0 where
  pub delivered : List ℕ
  pub accepted : List ℕ
  pub final : Pipe

unfoldable pub run : List Call → Pipe → Trace
run [] p = record { delivered = []; accepted = []; final = p }
run (reads buf ∷ cs) p =
    let (r, buf', q) = read p buf in
    let t = run cs q in
    record { delivered = moved r buf' ++ t.delivered; accepted = t.accepted; final = t.final }
run (writes buf ∷ cs) p =
    let (r, q) = write p buf in
    let t = run cs q in
    record { delivered = t.delivered; accepted = moved r buf ++ t.accepted; final = t.final }

take-append_take : (n : ℕ) (xs ys : List ℕ) → n ≤ length xs → take n (take n xs ++ ys) ≡ take n xs
take-append_take zero xs ys h = refl
take-append_take (suc n) [] ys h = absurd (omega arith)
take-append_take (suc n) (x ∷ xs) ys h = ap (λ l. x ∷ l) (take-append_take n xs ys (omega arith))

recv_moves :
    (c : Channel) (buf : List ℕ)
    → let (r, buf', d) = recv c buf in c.queue ≡ moved r buf' ++ d.queue
recv_moves c buf =
    let n : ℕ = min (length buf) (length c.queue) in
    ground
      (arith, take-append-drop n c.queue, take-append_take n c.queue (drop n buf) (omega arith))

send_moves :
    (c : Channel) (buf : List ℕ) → let (r, d) = send c buf in d.queue ≡ c.queue ++ moved r buf
send_moves c buf = ground (arith, append-nil c.queue)

-- A read delivers the front of the contents, and leaves the rest.
read_moves :
    (p : Pipe) (buf : List ℕ)
    → IsValid p
    → let (r, buf', q) = read p buf in contents p ≡ moved r buf' ++ contents q
read_moves p buf v =
    subst (λ t. contents p ≡ moved t.0 t.1 ++ t.2.queue) (sym (read_refines p buf v).0)
      (recv_moves (view p) buf)

-- A write appends what it accepts.
write_moves :
    (p : Pipe) (buf : List ℕ)
    → IsValid p
    → let (r, q) = write p buf in contents q ≡ contents p ++ moved r buf
write_moves p buf v =
    subst (λ t. t.1.queue ≡ contents p ++ moved t.0 buf) (sym (write_refines p buf v).0)
      (send_moves (view p) buf)

-- On a valid pipe, over any sequence of reads and writes, what was held at first followed by the
-- bytes accepted is the bytes delivered followed by what is held at the end: no byte is lost, made
-- up or reordered. The pipe stays valid.
pub run_stream :
    (cs : List Call) (p : Pipe)
    → IsValid p
    → let t = run cs p in
      (contents p ++ t.accepted ≡ t.delivered ++ contents t.final) × IsValid t.final
unfolding run
run_stream [] p v = (append-nil (contents p), v)
run_stream (reads buf ∷ cs) p v =
    let (r, buf', q) = read p buf in
    let (ih, w) = run_stream cs q (read_refines p buf v).1 in
    (
      rw (read_moves p buf v) (
          append_assoc (moved r buf') (contents q) _
          ∙ (ap (λ l. moved r buf' ++ l) ih ∙ sym (append_assoc (moved r buf') _ _))),
      w,
    )
run_stream (writes buf ∷ cs) p v =
    let (r, q) = write p buf in
    let (ih, w) = run_stream cs q (write_refines p buf v).1 in
    (
      sym (append_assoc (contents p) (moved r buf) _)
          ∙ (ap (λ l. l ++ (run cs q).accepted) (sym (write_moves p buf v)) ∙ ih),
      w,
    )
