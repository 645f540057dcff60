-- ===== src/Uart/Examples.antt =====
-- Tests and an instance of the property of the serial line.
use crabv.Base.{◌≡◌, refl, [], ◌∷◌}
use crabv.Uart.{Uart, write_bytes, write_byte}

-- One byte was moved to the queue, two are still in the device.
abbrev typed : Uart
typed = record { rx_queue = 97 ∷ []; received = 98 ∷ 10 ∷ []; sent = [] }

test_line_feed : (write_bytes (97 ∷ 10 ∷ []) typed).sent ≡ 97 ∷ 13 ∷ 10 ∷ []
unfolding write_bytes write_byte
test_line_feed = refl
