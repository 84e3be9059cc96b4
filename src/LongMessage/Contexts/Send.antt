-- ===== src/LongMessage/Contexts/Send.antt =====
-- The sending half of CBUSLongMessageEx: sendLongMessage and process. A message is copied by strdup, which stops at the
-- first zero byte; what the code reads beyond the copy is read as 0.
use cbuspico_lib.Common.{
  ℕ, ◌+◌, Bool, true, false, ◌&&◌, not, Option, none, some, List, [], ◌∷◌, leb, ◌==◌, if◌then◌else◌,
  length, get_elem?, set, take, u8, u16, u32, sub32, low_byte, high_byte,
}
use cbuspico_lib.Frame.{CanFrame, empty_frame}
use cbuspico_lib.LongMessage.{Delivery, Sent}
use cbuspico_lib.LongMessage.Send.{send_message_fragment, header, fill}
use cbuspico_lib.LongMessage.Contexts.{LongMessageEx, SendContext, find}
use cbuspico_lib.LongMessage.Contexts.Receive.{process_timeouts}
use cbuspico_lib.LongMessage.Contexts.Crc.{crc16}

-- `strdup`
unfoldable pub string_copy : List ℕ → List ℕ
string_copy [] = 0 ∷ []
string_copy (b ∷ bs) = if b == 0 then 0 ∷ [] else b ∷ string_copy bs

abbrev pub sends_stream : ℕ → SendContext → Bool
sends_stream stream_id c = c.in_use && c.send_stream_id == stream_id

abbrev pub is_free : SendContext → Bool
is_free c = not c.in_use

abbrev pub message_crc : Bool → List ℕ → ℕ → ℕ
message_crc use_crc msg msg_len = if use_crc then crc16 (take (u16 msg_len) msg) else 0

-- The header packet, with the checksum.
abbrev pub header_with : ℕ → ℕ → ℕ → CanFrame
header_with stream_id msg_len crc =
    let h = header stream_id msg_len in
    record h { bytes = set (set h.bytes 5 (high_byte crc)) 6 (low_byte crc) }

abbrev pub context_for : SendContext → List ℕ → ℕ → ℕ → ℕ → SendContext
context_for c msg msg_len stream_id priority = record c {
  in_use = true;
  buffer = string_copy msg;
  send_buffer_len = msg_len;
  send_stream_id = stream_id;
  send_priority = priority;
  send_buffer_index = 0;
  send_sequence_num = 1;
}

abbrev pub store : LongMessageEx → ℕ → SendContext → LongMessageEx
store m i c = record m { send_context = set m.send_context i c }

-- With no free context the code goes on with an index behind the array, which has no meaning.
abbrev pub send_in :
    LongMessageEx
    → List ℕ
    → ℕ
    → ℕ
    → ℕ
    → Bool
    → Option (ℕ × SendContext)
    → Option (LongMessageEx × (List Sent × Bool))
send_in m msg msg_len stream_id priority accepted none = none
send_in m msg msg_len stream_id priority accepted (some (i, c)) =
    let frame = header_with stream_id msg_len (message_crc m.use_crc msg msg_len) in
    some (
      store m i (context_for c msg msg_len stream_id priority),
      (send_message_fragment frame priority ∷ [], accepted),
    )

abbrev pub send_unless :
    LongMessageEx
    → List ℕ
    → ℕ
    → ℕ
    → ℕ
    → Bool
    → Option (ℕ × SendContext)
    → Option (LongMessageEx × (List Sent × Bool))
send_unless m msg msg_len stream_id priority accepted none =
    send_in m msg msg_len stream_id priority accepted (find is_free m.send_context)
send_unless m msg msg_len stream_id priority accepted (some sending) = some (m, ([], false))

unfoldable pub send_long_message :
    LongMessageEx → List ℕ → ℕ → ℕ → ℕ → Bool → Option (LongMessageEx × (List Sent × Bool))
send_long_message m msg msg_len stream_id priority accepted =
    send_unless m msg msg_len stream_id priority accepted
      (find (sends_stream stream_id) m.send_context)

-- What is left of a context once its fragment is sent.
abbrev pub after_fragment : SendContext → ℕ → ℕ → SendContext
after_fragment c index now =
    if leb c.send_buffer_len index
    then record c { in_use = false; send_buffer_len = 0; buffer = []; send_buffer_index = index }
    else record c {
      send_buffer_index = index;
      send_sequence_num = u32 (c.send_sequence_num + 1);
      last_fragment_sent = now;
    }

-- The turn of a context in `process`.
unfoldable pub send_fragment : ℕ → SendContext → ℕ → ℕ → SendContext × List Sent
send_fragment delay c test_time stamp_time =
    let start = set (set empty_frame.bytes 1 c.send_stream_id) 2 (u8 c.send_sequence_num) in
    let (filled, index) = fill c.buffer c.send_buffer_len start 0 c.send_buffer_index 5 in
    if c.in_use && leb delay (sub32 test_time c.last_fragment_sent)
    then (
      after_fragment c index stamp_time,
      send_message_fragment (record empty_frame { bytes = filled }) c.send_priority ∷ [],
    )
    else (c, [])

abbrev pub send_turn : LongMessageEx → ℕ → ℕ → Option SendContext → LongMessageEx × List Sent
send_turn m test_time stamp_time none = (m, [])
send_turn m test_time stamp_time (some c) =
    let (c', frames) = send_fragment m.base.msg_delay c test_time stamp_time in
    (store m m.context c', frames)

-- The contexts take turns.
abbrev pub next_context : ℕ → ℕ → ℕ
next_context count context = if leb count (u8 (context + 1)) then 0 else u8 (context + 1)

unfoldable pub process :
    LongMessageEx → ℕ → ℕ → ℕ → Bool → LongMessageEx × (List Delivery × (List Sent × Bool))
process m timeout_test send_test stamp_time accepted =
    let (receives, calls) =
      process_timeouts m.base.receive_timeout timeout_test m.receive_context in
    let timed = record m { receive_context = receives } in
    let (m2, frames) = send_turn timed send_test stamp_time (get_elem? m.send_context m.context) in
    (
      record m2 { context = next_context (length m.send_context) m.context },
      (calls, (frames, elim frames [ [] ↦ true | f ∷ fs ↦ accepted ])),
    )
