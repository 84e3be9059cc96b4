-- ===== src/LongMessage/Receive.antt =====
-- The receiving half of CBUSLongMessage: processReceivedMessageFragment, and the timeout at the start of process.
pub mod Safety
pub mod Taking
pub mod Fragment
pub mod Interrupted
use cbuspico_lib.Common.{
  ℕ, zero, suc, ◌+◌, ◌*◌, ◌^◌, bit_and, Bool, true, false, ◌&&◌, ◌||◌, List, [], ◌∷◌, ◌++◌, ltb,
  leb, ◌==◌, if◌then◌else◌, length, set, take, replicate, u32, sub32,
}
use cbuspico_lib.Frame.{CanFrame}
use cbuspico_lib.LongMessage.{
  LongMessage, Delivery, Status, incomplete, complete, sequence_error, timeout_error, byte,
}

-- The call of the handler with the buffer as it stands.
abbrev pub deliver : LongMessage → Status → Delivery
deliver m status = record {
  fragment = take m.receive_buffer_index m.receive_buffer;
  stream_id = m.receive_stream_id;
  status = status;
}

-- The timeout part of `process`.
unfoldable pub process_timeout : LongMessage → ℕ → LongMessage × List Delivery
process_timeout m now =
    if m.is_receiving && leb m.receive_timeout (sub32 now m.last_fragment_received)
    then (
      record m { is_receiving = false; incoming_message_length = 0; incoming_bytes_received = 0 },
      deliver m timeout_error ∷ [],
    )
    else (m, [])

unfoldable pub subscribed : List ℕ → ℕ → Bool
subscribed [] stream_id = false
subscribed (s ∷ stream_ids) stream_id = s == stream_id || subscribed stream_ids stream_id

-- `memset` of the receive buffer to zero, over the length that is kept of it.
abbrev pub zero_buffer : LongMessage → LongMessage
zero_buffer m = record m {
  receive_buffer = replicate m.receive_buffer_len 0;
  overran = m.overran || ltb (length m.receive_buffer) m.receive_buffer_len;
}

-- A byte written into the receive buffer.
abbrev pub store_byte : LongMessage → ℕ → ℕ → LongMessage
store_byte m i b = record m {
  receive_buffer = set m.receive_buffer i b;
  overran = m.overran || leb (length m.receive_buffer) i;
}

-- The index back at the start, and the buffer zeroed.
abbrev pub rewind : LongMessage → LongMessage
rewind m = record (zero_buffer m) { receive_buffer_index = 0 }

-- A header: a new message, if it is a standard one on a subscribed stream.
unfoldable pub start : LongMessage → CanFrame → LongMessage
start m f =
    if (byte f 2 == 0 && byte f 7 == 0) && subscribed m.stream_ids (byte f 1)
    then record (zero_buffer m) {
      is_receiving = true;
      receive_stream_id = byte f 1;
      incoming_message_length = byte f 3 * 2 ^ 8 + byte f 4;
      incoming_message_crc = byte f 5 * 2 ^ 8 + byte f 6;
      incoming_bytes_received = 0;
      receive_buffer_index = 0;
      expected_next_receive_sequence_num = 0;
      sender_canid = bit_and f.id 0x7F;
    }
    else m

-- One byte taken from the frame.
abbrev pub take_byte : LongMessage → ℕ → LongMessage
take_byte m b = record (store_byte m m.receive_buffer_index b) {
  receive_buffer_index = u32 (m.receive_buffer_index + 1);
  incoming_bytes_received = u32 (m.incoming_bytes_received + 1);
}

-- The loop over the bytes of a frame, from the byte `j` on.
unfoldable pub copy : LongMessage → CanFrame → ℕ → ℕ → LongMessage × List Delivery
copy m f j zero = (m, [])
copy m f j (suc rounds) =
    let taken = take_byte m (byte f (j + 3)) in
    let rest = copy taken f (j + 1) rounds in
    if leb m.receive_buffer_len m.receive_buffer_index
    then (rewind m, deliver m incomplete ∷ [])
    else if leb m.incoming_message_length taken.incoming_bytes_received
    then (rewind taken, deliver taken complete ∷ [])
    else rest

-- A fragment while a message is coming in.
unfoldable pub continue : LongMessage → CanFrame → LongMessage × List Delivery
continue m f =
    if bit_and f.id 0x7F == m.sender_canid && byte f 1 == m.receive_stream_id
    then (if byte f 2 == m.expected_next_receive_sequence_num then copy m f 0 5 else (
      record m { incoming_message_length = 0; incoming_bytes_received = 0; is_receiving = false },
      deliver m sequence_error ∷ [],
    ))
    else (m, [])

-- All bytes are in: the message ends.
unfoldable pub finish : LongMessage → LongMessage × List Delivery
finish m =
    if ltb 0 m.incoming_message_length && leb m.incoming_message_length m.incoming_bytes_received
    then (
      record m {
        incoming_message_length = 0;
        incoming_bytes_received = 0;
        receive_buffer_index = 0;
        is_receiving = false;
      },
      if ltb 0 m.receive_buffer_index then deliver m complete ∷ [] else [],
    )
    else (m, [])

-- What follows after a frame was looked at: the expected sequence number is counted, whatever the frame was, and
-- the message may end.
unfoldable pub conclude : LongMessage × List Delivery → LongMessage × List Delivery
conclude (m1, first) =
    let counted = record m1 {
      expected_next_receive_sequence_num = u32 (m1.expected_next_receive_sequence_num + 1);
    } in
    let (m2, last) = finish counted in (m2, first ++ last)

unfoldable pub process_received_message_fragment :
    LongMessage → CanFrame → ℕ → LongMessage × List Delivery
process_received_message_fragment m f now =
    let stamped = record m { last_fragment_received = now } in
    conclude (if m.is_receiving then continue stamped f else (start stamped f, []))
