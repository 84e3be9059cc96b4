-- ===== src/LongMessage/Process.antt =====
-- `process` of CBUSLongMessage, which is called from the main loop: the timeout of the message that comes in, then
-- the next fragment of the one that goes out.
use cbuspico_lib.Common.{ℕ, Bool, List}
use cbuspico_lib.LongMessage.{LongMessage, Delivery, Sent}
use cbuspico_lib.LongMessage.Send.{process_send}
use cbuspico_lib.LongMessage.Receive.{process_timeout}

-- The clock is read up to three times.
unfoldable pub process :
    LongMessage → ℕ → ℕ → ℕ → Bool → LongMessage × (List Delivery × (List Sent × Bool))
process m timeout_test send_test stamp_time accepted =
    let (m1, calls) = process_timeout m timeout_test in
    let (m2, sent) = process_send m1 send_test stamp_time accepted in (m2, (calls, sent))
