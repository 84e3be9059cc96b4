-- ===== src/LongMessage/Contexts/Receive.antt =====
-- The receiving half of CBUSLongMessageEx: processReceivedMessageFragment, and the timeouts of process.
use cbuspico_lib.Common.{
  ℕ, zero, suc, ◌+◌, ◌*◌, ◌^◌, bit_and, Bool, true, false, ◌&&◌, ◌||◌, not, Option, none, some,
  List, [], ◌∷◌, ltb, leb, ◌==◌, if◌then◌else◌, length, set, take, replicate, u16, u32, sub32,
}
use cbuspico_lib.Frame.{CanFrame}
use cbuspico_lib.LongMessage.{
  Delivery, Status, complete, sequence_error, timeout_error, crc_error, truncated, byte,
}
use cbuspico_lib.LongMessage.Receive.{subscribed}
use cbuspico_lib.LongMessage.Contexts.{LongMessageEx, ReceiveContext, find}
use cbuspico_lib.LongMessage.Contexts.Crc.{crc16}

-- The call of the handler with the context's buffer as it stands.
abbrev pub deliver : ReceiveContext → Status → Delivery
deliver c status = record {
  fragment = take c.receive_buffer_index c.buffer;
  stream_id = c.receive_stream_id;
  status = status;
}

abbrev pub release : ReceiveContext → ReceiveContext
release c = record c { in_use = false }

-- A context for a new message, from its header packet.
abbrev pub opened : ReceiveContext → ℕ → CanFrame → ℕ → ReceiveContext
opened c receive_buffer_len f now = record {
  in_use = true;
  receive_stream_id = byte f 1;
  sender_canid = bit_and f.id 0x7F;
  buffer = replicate receive_buffer_len 0;
  receive_buffer_index = 0;
  incoming_bytes_received = 0;
  incoming_message_length = byte f 3 * 2 ^ 8 + byte f 4;
  expected_next_receive_sequence_num = 1;
  incoming_message_crc = byte f 5 * 2 ^ 8 + byte f 6;
  last_fragment_received = now;
  overran = c.overran || ltb (length c.buffer) receive_buffer_len;
}

-- A byte written into the buffer of a context.
abbrev pub store_byte : ReceiveContext → ℕ → ℕ → ReceiveContext
store_byte c i b = record c {
  buffer = set c.buffer i b;
  overran = c.overran || leb (length c.buffer) i;
}

abbrev pub take_byte : ReceiveContext → ℕ → ℕ → ReceiveContext
take_byte c b now = record (store_byte c c.receive_buffer_index b) {
  receive_buffer_index = u32 (c.receive_buffer_index + 1);
  incoming_bytes_received = u32 (c.incoming_bytes_received + 1);
  last_fragment_received = now;
}

-- The checksum that a complete message is compared with: the one of its bytes, or 0.
abbrev pub computed_crc : Bool → ℕ → ℕ → ℕ
computed_crc use_crc incoming crc = if use_crc && not (incoming == 0) then crc else 0

abbrev pub status_of : Bool → ℕ → ℕ → Status
status_of use_crc incoming crc =
    if incoming == computed_crc use_crc incoming crc then complete else crc_error

abbrev pub final_status : Bool → ReceiveContext → Status
final_status use_crc c =
    status_of use_crc c.incoming_message_crc (crc16 (take (u16 c.receive_buffer_index) c.buffer))

-- The loop over the bytes of a fragment, from the byte `j` on.
unfoldable pub copy :
    Bool → ℕ → ReceiveContext → CanFrame → ℕ → ℕ → ℕ → ReceiveContext × List Delivery
copy use_crc len c f now j zero = (c, [])
copy use_crc len c f now j (suc rounds) =
    let taken = take_byte c (byte f (j + 3)) now in
    let rest = copy use_crc len taken f now (j + 1) rounds in
    if leb taken.incoming_message_length taken.incoming_bytes_received
    then (release taken, deliver taken (final_status use_crc taken) ∷ [])
    else (if leb len taken.receive_buffer_index
        then (release taken, deliver taken truncated ∷ [])
        else rest)

abbrev pub count_fragment : ReceiveContext × List Delivery → ReceiveContext × List Delivery
count_fragment (c, calls) = (
  record c { expected_next_receive_sequence_num = u32 (c.expected_next_receive_sequence_num + 1) },
  calls,
)

-- A fragment, for the context that it was found to belong to.
unfoldable pub take_fragment :
    Bool → ℕ → ReceiveContext → CanFrame → ℕ → ReceiveContext × List Delivery
take_fragment use_crc len c f now =
    if byte f 2 == c.expected_next_receive_sequence_num
    then count_fragment (copy use_crc len c f now 0 5)
    else (release c, deliver c sequence_error ∷ [])

abbrev pub is_free : ReceiveContext → Bool
is_free c = not c.in_use

abbrev pub belongs : CanFrame → ReceiveContext → Bool
belongs f c = (c.in_use && c.receive_stream_id == byte f 1) && c.sender_canid == bit_and f.id 0x7F

abbrev pub open_at :
    ℕ → List ReceiveContext → CanFrame → ℕ → Option (ℕ × ReceiveContext) → List ReceiveContext
open_at len cs f now none = cs
open_at len cs f now (some (i, c)) = set cs i (opened c len f now)

abbrev pub continue_at :
    Bool
    → ℕ
    → List ReceiveContext
    → CanFrame
    → ℕ
    → Option (ℕ × ReceiveContext)
    → List ReceiveContext × List Delivery
continue_at use_crc len cs f now none = (cs, [])
continue_at use_crc len cs f now (some (i, c)) =
    let (c', calls) = take_fragment use_crc len c f now in (set cs i c', calls)

-- What a frame does to the contexts: a header packet of a stream that is subscribed to takes a free one, any
-- other frame goes to the context that it belongs to.
unfoldable pub handle :
    Bool → ℕ → List ℕ → List ReceiveContext → CanFrame → ℕ → List ReceiveContext × List Delivery
handle use_crc len stream_ids cs f now =
    if byte f 2 == 0
    then (if byte f 7 == 0 && subscribed stream_ids (byte f 1)
        then (open_at len cs f now (find is_free cs), [])
        else (cs, []))
    else continue_at use_crc len cs f now (find (belongs f) cs)

unfoldable pub process_received_message_fragment :
    LongMessageEx → CanFrame → ℕ → LongMessageEx × List Delivery
process_received_message_fragment m f now =
    let (cs, calls) =
      handle m.use_crc m.base.receive_buffer_len m.base.stream_ids m.receive_context f now in
    (record m { receive_context = cs }, calls)

-- The timeouts of `process`.
unfoldable pub process_timeouts : ℕ → ℕ → List ReceiveContext → List ReceiveContext × List Delivery
process_timeouts timeout now [] = ([], [])
process_timeouts timeout now (c ∷ cs) =
    let (rest, calls) = process_timeouts timeout now cs in
    if c.in_use && leb timeout (sub32 now c.last_fragment_received)
    then (release c ∷ rest, deliver c timeout_error ∷ calls)
    else (c ∷ rest, calls)
