-- ===== src/LongMessage.antt =====
-- The class CBUSLongMessage of CBUSLongMessage.cpp and CBUS.h: messages longer than a frame, sent as a header and
-- fragments of five bytes. Time is in milliseconds; what the user's handler is called with, and the frames that are
-- given to the bus, are results.
pub mod Send
pub mod Receive
pub mod Process
pub mod Transfer
pub mod Contexts
mod Tests
use cbuspico_lib.Common.{ℕ, Bool, false, List, [], length, get_or}
use cbuspico_lib.Frame.{CanFrame}

-- The status codes that the handler gets.
pub data Status : Type 0 where
  incomplete : Status
  complete : Status
  sequence_error : Status
  timeout_error : Status
  crc_error : Status
  truncated : Status

-- One call of the handler: the bytes of the buffer up to the length that is passed.
pub record Delivery : Type 0 where
  pub fragment : List ℕ
  pub stream_id : ℕ
  pub status : Status

-- A frame given to `sendMessage`, with its priority. Its identifier is filled in there.
pub record Sent : Type 0 where
  pub frame : CanFrame
  pub priority : ℕ

-- The object. The send buffer is the caller's, which stays as it is until the message is sent; the receive
-- buffer should have `receive_buffer_len` bytes. `overran` is not a member of the class: it records that a byte was
-- written outside the receive buffer, which in C++ changes other memory.
pub record LongMessage : Type 0 where
  pub is_receiving : Bool
  pub send_buffer : List ℕ
  pub receive_buffer : List ℕ
  pub send_stream_id : ℕ
  pub receive_stream_id : ℕ
  pub stream_ids : List ℕ
  pub send_priority : ℕ
  pub msg_delay : ℕ
  pub sender_canid : ℕ
  pub send_buffer_len : ℕ
  pub incoming_message_length : ℕ
  pub receive_buffer_len : ℕ
  pub receive_buffer_index : ℕ
  pub send_buffer_index : ℕ
  pub incoming_message_crc : ℕ
  pub incoming_bytes_received : ℕ
  pub receive_timeout : ℕ
  pub send_sequence_num : ℕ
  pub expected_next_receive_sequence_num : ℕ
  pub last_fragment_sent : ℕ
  pub last_fragment_received : ℕ
  pub overran : Bool

abbrev pub new_long_message : LongMessage
new_long_message = record {
  is_receiving = false;
  send_buffer = [];
  receive_buffer = [];
  send_stream_id = 0;
  receive_stream_id = 0;
  stream_ids = [];
  send_priority = 0xB;
  msg_delay = 20;
  sender_canid = 0;
  send_buffer_len = 0;
  incoming_message_length = 0;
  receive_buffer_len = 0;
  receive_buffer_index = 0;
  send_buffer_index = 0;
  incoming_message_crc = 0;
  incoming_bytes_received = 0;
  receive_timeout = 5000;
  send_sequence_num = 0;
  expected_next_receive_sequence_num = 0;
  last_fragment_sent = 0;
  last_fragment_received = 0;
  overran = false;
}

-- The buffer is the caller's memory, of the given length.
abbrev pub subscribe : LongMessage → List ℕ → List ℕ → LongMessage
subscribe m stream_ids receive_buffer = record m {
  stream_ids = stream_ids;
  receive_buffer = receive_buffer;
  receive_buffer_len = length receive_buffer;
}

abbrev pub set_delay : LongMessage → ℕ → LongMessage
set_delay m delay_in_millis = record m { msg_delay = delay_in_millis }

abbrev pub set_timeout : LongMessage → ℕ → LongMessage
set_timeout m timeout_in_millis = record m { receive_timeout = timeout_in_millis }

-- A data byte of a frame.
abbrev pub byte : CanFrame → ℕ → ℕ
byte f i = get_or f.bytes i 0
