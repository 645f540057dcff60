-- ===== src/Uart.antt =====
-- src/uart.rs: the bytes of the serial line, between the interrupt handler and the readers.
mod Examples
use crabv.Base.{
  ℕ, ◌≡◌, refl, sym, ap, ◌∙◌, Option, none, some, List, [], ◌∷◌, ◌++◌, append-nil, append_assoc,
  ◌==◌, if◌then◌else◌, true, Bool-cases, inl, inr,
}

-- RX_QUEUE, the bytes that the device has received and not yet given out, and the bytes sent.
pub record Uart : Type 0 where
  pub rx_queue : List ℕ
  pub received : List ℕ
  pub sent : List ℕ

unfoldable pub write_byte : ℕ → Uart → Uart
write_byte b u = record u { sent = u.sent ++ (b ∷ []) }

-- A carriage return goes before every line feed.
unfoldable pub write_bytes : List ℕ → Uart → Uart
write_bytes [] u = u
write_bytes (b ∷ bs) u = write_bytes bs (write_byte b (if b == 10 then write_byte 13 u else u))

unfoldable pub read_byte_nonblocking : Uart → Option ℕ × Uart
read_byte_nonblocking u = elim u.rx_queue [
  | [] ↦ (none, u)
  | b ∷ bs ↦ (some b, record u { rx_queue = bs })
]

-- The queue first, then the device; `none` where the source waits for a byte.
unfoldable pub read_byte_blocking : Uart → Option (ℕ × Uart)
read_byte_blocking u =
    let (r, u') = read_byte_nonblocking u in
    elim r [
      | some b ↦ some (b, u')
      | none ↦ elim u.received [ [] ↦ none | b ∷ bs ↦ some (b, record u { received = bs }) ]
    ]

unfoldable pub drain : List ℕ → List ℕ → List ℕ
drain queue [] = queue
drain queue (b ∷ bs) = drain (queue ++ (b ∷ [])) bs

-- The loop over what the device has.
unfoldable pub handle_interrupt : Uart → Uart
handle_interrupt u = record u { rx_queue = drain u.rx_queue u.received; received = [] }

-- The bytes that are still to be read, in the order in which they came in.
unfoldable pub pending : Uart → List ℕ
pending u = u.rx_queue ++ u.received

drain-append : (queue bs : List ℕ) → drain queue bs ≡ queue ++ bs
unfolding drain
drain-append queue [] = sym (append-nil queue)
drain-append queue (b ∷ bs) = drain-append (queue ++ (b ∷ [])) bs ∙ append_assoc queue (b ∷ []) bs

abbrev pub read_first : List ℕ → Option (ℕ × List ℕ)
read_first [] = none
read_first (b ∷ bs) = some (b, bs)

abbrev pub pending_after : Option (ℕ × Uart) → Option (ℕ × List ℕ)
unfolding pending
pending_after none = none
pending_after (some (b, u)) = some (b, pending u)

read_first_lem :
    (queue received sent : List ℕ)
    → pending_after
        (read_byte_blocking (record { rx_queue = queue; received = received; sent = sent }))
      ≡ read_first (queue ++ received)
unfolding read_byte_blocking read_byte_nonblocking pending
read_first_lem [] [] sent = refl
read_first_lem [] (b ∷ bs) sent = refl
read_first_lem (b ∷ bs) received sent = refl

-- Wherever the interrupt handler runs, no byte is lost or moved: it leaves the bytes to be read as
-- they are, and `read_byte_blocking` gives the first of them and leaves the others, and waits only
-- when there is none.
pub read_byte_blocking-pending :
    (u : Uart)
    → (pending (handle_interrupt u) ≡ pending u)
      × (pending_after (read_byte_blocking u) ≡ read_first (pending u))
unfolding pending handle_interrupt
read_byte_blocking-pending u = (
  append-nil (drain u.rx_queue u.received) ∙ drain-append u.rx_queue u.received,
  read_first_lem u.rx_queue u.received u.sent,
)

-- What the terminal gets for a byte, and for some text.
unfoldable pub sent_for : ℕ → List ℕ
sent_for b = if b == 10 then 13 ∷ b ∷ [] else b ∷ []

unfoldable pub on_line : List ℕ → List ℕ
on_line [] = []
on_line (b ∷ bs) = sent_for b ++ on_line bs

sent-write_one :
    (b : ℕ) (u : Uart)
    → (write_byte b (if b == 10 then write_byte 13 u else u)).sent ≡ u.sent ++ sent_for b
unfolding write_byte sent_for
sent-write_one b u = elim (Bool-cases (b == 10)) [
  | inl feed ↦ rw feed (append_assoc u.sent (13 ∷ []) (b ∷ []))
  | inr other ↦ rw other refl
]

pub sent-write_bytes : (bs : List ℕ) (u : Uart) → (write_bytes bs u).sent ≡ u.sent ++ on_line bs
unfolding write_bytes on_line
sent-write_bytes [] u = sym (append-nil u.sent)
sent-write_bytes (b ∷ bs) u =
    sent-write_bytes bs (write_byte b (if b == 10 then write_byte 13 u else u))
    ∙ (ap (λ l. l ++ on_line bs) (sent-write_one b u)
        ∙ append_assoc u.sent (sent_for b) (on_line bs))
