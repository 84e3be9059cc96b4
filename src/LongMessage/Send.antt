-- ===== src/LongMessage/Send.antt =====
-- The sending half of CBUSLongMessage: sendLongMessage, isSending, sendMessageFragment and the end of process.
-- Whether the bus accepts the frame is an argument, and the result of the call.
pub mod Filling
use cbuspico_lib.Common.{
  ℕ, zero, suc, ◌+◌, Bool, true, false, ◌&&◌, List, [], ◌∷◌, ltb, leb, if◌then◌else◌, get_or, set,
  u8, u32, sub32, low_byte, high_byte,
}
use cbuspico_lib.Frame.{CanFrame, empty_frame}
use cbuspico_lib.LongMessage.{LongMessage, Sent}

abbrev pub opc_dtxc : ℕ
opc_dtxc = 0xE9

abbrev pub is_sending : LongMessage → Bool
is_sending m = ltb m.send_buffer_index m.send_buffer_len

abbrev pub send_message_fragment : CanFrame → ℕ → Sent
send_message_fragment frame priority = record {
  frame = record frame { len = 8; bytes = set frame.bytes 0 opc_dtxc };
  priority = priority;
}

-- The header packet, with the sequence number 0.
abbrev pub header : ℕ → ℕ → CanFrame
header stream_id msg_len = record empty_frame {
  bytes =
      set (set (set (set empty_frame.bytes 1 stream_id) 2 0) 3 (high_byte msg_len)) 4
        (low_byte msg_len);
}

-- The variables once the header is sent.
abbrev pub opened : LongMessage → List ℕ → ℕ → ℕ → ℕ → LongMessage
opened m msg msg_len stream_id priority = record m {
  send_buffer = msg;
  send_buffer_len = msg_len;
  send_stream_id = stream_id;
  send_priority = priority;
  send_buffer_index = 0;
  send_sequence_num = 1;
}

unfoldable pub send_long_message :
    LongMessage → List ℕ → ℕ → ℕ → ℕ → Bool → LongMessage × (List Sent × Bool)
send_long_message m msg msg_len stream_id priority accepted =
    if is_sending m then (m, ([], false)) else (
      opened m msg msg_len stream_id priority,
      (send_message_fragment (header stream_id msg_len) priority ∷ [], accepted),
    )

-- The loop over up to five bytes: the position in the frame and in the buffer, and how many rounds are left.
unfoldable pub fill : List ℕ → ℕ → List ℕ → ℕ → ℕ → ℕ → List ℕ × ℕ
fill buffer len frame i index zero = (frame, index)
fill buffer len frame i index (suc rounds) =
    let rest =
      fill buffer len (set frame (i + 3) (get_or buffer index 0)) (i + 1) (u32 (index + 1))
        rounds in
    if ltb index len then rest else (frame, index)

-- The sending part of `process`; the clock is read for the test and, if it is due, for the time stamp.
unfoldable pub process_send : LongMessage → ℕ → ℕ → Bool → LongMessage × (List Sent × Bool)
process_send m test_time stamp_time accepted =
    if ltb m.send_buffer_index m.send_buffer_len
      && leb m.msg_delay (sub32 test_time m.last_fragment_sent)
    then (let header = set (set empty_frame.bytes 1 m.send_stream_id) 2 (u8 m.send_sequence_num) in
        let (filled, index) = fill m.send_buffer m.send_buffer_len header 0 m.send_buffer_index 5 in
        (
          record m {
            last_fragment_sent = stamp_time;
            send_buffer_index = index;
            send_sequence_num = u32 (m.send_sequence_num + 1);
          },
          (
            send_message_fragment (record empty_frame { bytes = filled }) m.send_priority ∷ [],
            accepted,
          ),
        ))
    else (m, ([], true))
