-- ===== src/GridConnect/Server.antt =====
-- The TCP server of GridConnectPicoW/CBUSGridConnect.cpp. The network stack lwIP is a parameter: its packet buffers
-- are a type `P` with the calls of `Lwip`, and the results of tcp_write and tcp_output are arguments. The calls that the server makes of it
-- are listed in `calls`, the frames given to CBUSACAN2040::sendCANMessage in `to_can`. A control block is a number.
pub mod Send
pub mod Client
pub mod Index
pub mod Scan
pub mod Laws
pub mod Extract
pub mod Frames
pub mod Stream
pub mod Spoken
pub mod Relay
pub mod Ownership
mod Tests
use cbuspico_lib.Common.{
  ℕ, zero, suc, ◌+◌, ◌-◌, ◌^◌, Bool, Option, none, some, List, [], ◌∷◌, ◌++◌, ltb, leb, ◌==◌,
  if◌then◌else◌, length, drop, replicate, u16,
}
use cbuspico_lib.Frame.{CanFrame, empty_frame}
use cbuspico_lib.CircularBuffer.{CircularBuffer, put}
use cbuspico_lib.GridConnect.Codec.{GcMessage, gc_max_msg, decode_gc}

-- `err_t`, as far as the code tells its values apart.
pub data Err : Type 0 where
  err_ok : Err
  err_mem : Err
  err_val : Err
  err_abrt : Err
  err_other : ℕ → Err

pub data ClientState : Type 0 where
  cs_none : ClientState
  cs_accepted : ClientState
  cs_received : ClientState
  cs_closing : ClientState

-- The calls of lwIP that change something there: pbuf_free, tcp_recved, tcp_write with its `more` flag, tcp_output,
-- tcp_sent, the callbacks of a client set by tcp_accept's handler, tcp_close of a client and of the listener with the
-- callbacks cleared, and the opening of the listener.
pub data Call (P : Type 0) : Type 0 where
  frees : P → Call P
  recved : ℕ → ℕ → Call P
  writes : ℕ → List ℕ → Bool → Call P
  outputs : ℕ → Call P
  asks_sent : ℕ → Call P
  installs : ℕ → Call P
  closes : ℕ → Call P
  listens : ℕ → Call P

pub record Lwip (P : Type 0) : Type 0 where
  pub tot_len : P → ℕ
  pub memfind : P → ℕ → ℕ → ℕ
  pub copy_partial : P → ℕ → ℕ → List ℕ
  pub alloc : ℕ → Option P
  pub put_at : P → ℕ → ℕ → P
  pub cat : P → P → P

-- `TCPServer_t`, with the class's static members and what goes out.
pub record Server (P : Type 0) : Type 0 where
  pub server_cb : Option ℕ
  pub client_cb : Option ℕ
  pub client_state : ClientState
  pub buffer_recv : GcMessage
  pub buffer_sent : GcMessage
  pub sent_len : ℕ
  pub can_buffer : Option CircularBuffer
  pub to_can : List CanFrame
  pub calls : List (Call P)

abbrev pub not_found : ℕ
not_found = 0xFFFF

-- `memcpy` of some bytes to the start of an array.
abbrev pub copy_over : List ℕ → List ℕ → List ℕ
copy_over byte xs = xs ++ drop (length xs) byte

-- `bufferRecv = {}`: the characters of the array and the length are zero; what was written beyond the array's end stays.
abbrev pub reset : GcMessage → GcMessage
reset m = record { byte = replicate gc_max_msg 0 ++ drop gc_max_msg m.byte; len = 0 }

-- The clock in microseconds: the reading at the put of the frame that is given to the bus as the n-th one.
abbrev pub Clock : Type 0
Clock = ℕ → ℕ

abbrev pub queued : Option CircularBuffer → ℕ → CanFrame → Option CircularBuffer
queued none now f = none
queued (some b) now f = some (put b now f)

module _ {P : Type 0} where
  abbrev pub log : Server P → Call P → Server P
  log s c = record s { calls = s.calls ++ c ∷ [] }

  -- A frame that was parsed goes to the queue and to the bus.
  abbrev pub parsed : Server P → Clock → Option CanFrame → Server P
  parsed s clock none = s
  parsed s clock (some f) = record s {
    can_buffer = queued s.can_buffer (clock (length s.to_can)) f;
    to_can = s.to_can ++ f ∷ [];
  }

  abbrev pub parse_message : Server P → Clock → GcMessage → Server P
  parse_message s clock m = parsed s clock (decode_gc m empty_frame)

  abbrev pub keep : Server P → GcMessage → Server P
  keep s m = record s { buffer_recv = m }

  -- A text of `len` characters with both delimiters, at `first`.
  unfoldable pub take_message : Lwip P → Clock → Server P → P → ℕ → ℕ → Server P
  take_message w clock s p first len =
      let bytes = w.copy_partial p len first in
      let m : GcMessage = record { byte = copy_over s.buffer_recv.byte bytes; len = len } in
      if leb len gc_max_msg
      then keep (if ltb 0 (length bytes) then parse_message (keep s m) clock m else s) (reset m)
      else s

  -- A text without its end.
  unfoldable pub keep_partial : Lwip P → Server P → P → ℕ → Server P
  keep_partial w s p first =
      let left = u16 (w.tot_len p + 2 ^ 16 - first) in
      let bytes = w.copy_partial p left first in
      if leb left gc_max_msg
      then keep s (record { byte = copy_over s.buffer_recv.byte bytes; len = left })
      else s

  -- extractAndQueueGC, `none` when the rounds run out.
  unfoldable pub extract : Lwip P → Clock → ℕ → Server P → ℕ → P → Option (Server P)
  extract w clock zero s start p = none
  extract w clock (suc rounds) s start p =
      let first = w.memfind p b':' start in
      let last = w.memfind p b';' first in
      let len = u16 (last + 1 + 2 ^ 16 - first) in
      let taken = take_message w clock s p first len in
      let rest = extract w clock rounds taken (u16 (len + first)) p in
      if first == not_found
      then some (log s (frees p))
      else (if last == not_found
          then some (log (keep_partial w s p first) (frees p))
          else (if ltb (len + first) (w.tot_len p) then rest else some (log taken (frees p))))

  abbrev pub finished : Server P → Option (Server P) → Server P
  finished s none = s
  finished s (some s') = s'

  -- As many rounds as the buffer has characters, and one.
  unfoldable pub extract_and_queue_gc : Lwip P → Clock → Server P → P → Server P
  extract_and_queue_gc w clock s p = finished s (extract w clock (w.tot_len p + 1) s 0 p)
