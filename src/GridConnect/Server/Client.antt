-- ===== src/GridConnect/Server/Client.antt =====
-- The life of a connection in GridConnectPicoW/CBUSGridConnect.cpp: startServer, stopServer, serverOpen, serverAccept, serverRecv, serverPoll,
-- serverErr, serverCloseConn and serverShutdown, and the queue's available and get. `p->tot_len` is read after the
-- buffer was freed, as if its memory still held it.
pub mod Step
pub mod Keeps
pub mod Moves
pub mod Bounds
use cbuspico_lib.Common.{
  ℕ, zero, suc, ◌+◌, Bool, true, false, not, Option, none, some, List, [], ltb, ◌==◌, if◌then◌else◌,
  get_or,
}
use cbuspico_lib.Frame.{CanFrame, empty_frame}
use cbuspico_lib.CircularBuffer.{CircularBuffer}
use cbuspico_lib.CircularBuffer as Ring
use cbuspico_lib.GridConnect.Codec.{blank}
use cbuspico_lib.GridConnect.Server.{
  Clock, Server, Lwip, Err, err_ok, err_mem, err_val, err_abrt, err_other, ClientState, cs_none,
  cs_accepted, cs_received, cs_closing, frees, recved, asks_sent, installs, closes, listens, log,
  extract_and_queue_gc,
}
use cbuspico_lib.GridConnect.Server.Send.{Answers, server_send}

abbrev pub is_ok : Err → Bool
is_ok err_ok = true
is_ok err_mem = false
is_ok err_val = false
is_ok err_abrt = false
is_ok (err_other n) = false

-- The frame that a pointer into the queue leads to.
abbrev pub item_at : CircularBuffer → Option ℕ → Option CanFrame
item_at b none = none
item_at b (some i) = some (Ring.deref b i).item

module _ {P : Type 0} where
  -- The constructor, with what `new` returned for the queue.
  unfoldable pub new_server : Option CircularBuffer → Server P
  new_server can_buffer = record {
    server_cb = none;
    client_cb = none;
    client_state = cs_none;
    buffer_recv = blank;
    buffer_sent = blank;
    sent_len = 0;
    can_buffer = can_buffer;
    to_can = [];
    calls = [];
  }

  -- The control block is null when the connection was closed before.
  unfoldable pub server_close_conn : Server P → Option ℕ → Server P
  server_close_conn s none = s
  server_close_conn s (some pcb) = record (log s (closes pcb)) { client_cb = none }

  abbrev pub close_listener : Server P → Option ℕ → Server P
  close_listener s none = s
  close_listener s (some cb) = record (log s (closes cb)) { server_cb = none }

  unfoldable pub server_shutdown : Server P → Server P
  server_shutdown s =
      let closed = record (server_close_conn s s.client_cb) { client_cb = none } in
      close_listener closed closed.server_cb

  -- What tcp_new_ip_type, tcp_bind and tcp_listen_with_backlog answered.
  unfoldable pub server_open : Server P → Option ℕ → Err → ℕ → Server P × Bool
  server_open s none bound listener = (record s { server_cb = none }, false)
  server_open s (some cb) bound listener =
      if is_ok bound
      then (log (record s { server_cb = some listener }) (listens listener), true)
      else (record s { server_cb = some cb }, false)

  abbrev pub started : Server P → Option CircularBuffer → Server P × Bool → Server P × Bool
  started s none opened = (s, false)
  started s (some b) (opened, ok) = if ok then (opened, true) else (server_shutdown opened, false)

  unfoldable pub start_server : Server P → Option ℕ → Err → ℕ → Server P × Bool
  start_server s cb bound listener = started s s.can_buffer (server_open s cb bound listener)

  unfoldable pub stop_server : Server P → Server P × Bool
  stop_server s = (server_shutdown s, true)

  unfoldable pub server_accept : Server P → Option ℕ → Err → Server P × Err
  server_accept s none err = (server_shutdown s, err_val)
  server_accept s (some pcb) err =
      if is_ok err
      then (
        log (record s { client_cb = some pcb; client_state = cs_accepted }) (installs pcb),
        err_ok,
      )
      else (server_shutdown s, err_val)

  -- The loop that copies the stored text into a buffer, with the rounds left and the index.
  unfoldable pub put_text : Lwip P → P → List ℕ → ℕ → ℕ → P
  put_text w p byte zero i = p
  put_text w p byte (suc rounds) i = put_text w (w.put_at p i (get_or byte i 0)) byte rounds (i + 1)

  -- Data on a connection that had data before.
  unfoldable pub recv_more : Lwip P → Clock → Server P → ℕ → P → Server P
  recv_more w clock s pcb p =
      let n = w.tot_len p in
      let joined : Server P = elim (w.alloc s.buffer_recv.len) [
        | none ↦ log (log s (frees p)) (recved pcb n)
        | some fragment ↦
            let filled = put_text w fragment s.buffer_recv.byte s.buffer_recv.len 0 in
            log (extract_and_queue_gc w clock s (w.cat filled p)) (recved pcb n)
      ] in
      if s.buffer_recv.len == 0
      then log (extract_and_queue_gc w clock s p) (recved pcb n)
      else joined

  -- The first data of a connection.
  unfoldable pub recv_first : Lwip P → Clock → Server P → ℕ → P → Server P
  recv_first w clock s pcb p = log (extract_and_queue_gc w clock s p) (recved pcb (w.tot_len p))

  -- The remote host closed the connection.
  unfoldable pub recv_close : Answers → Server P → ℕ → Server P
  recv_close a s pcb =
      let closing = record s { client_state = cs_closing } in
      if s.buffer_sent.len == 0
      then server_close_conn closing (some pcb)
      else (server_send a closing pcb s.buffer_sent false).0

  -- Data, in each state of the client.
  abbrev pub recv_in : ClientState → Lwip P → Clock → Server P → ℕ → P → Server P
  recv_in cs_none w clock s pcb p = log (log s (recved pcb (w.tot_len p))) (frees p)
  recv_in cs_accepted w clock s pcb p =
      let first = record s { client_state = cs_received } in
      if ltb 0 (w.tot_len p) then recv_first w clock first pcb p else first
  recv_in cs_received w clock s pcb p = if ltb 0 (w.tot_len p) then recv_more w clock s pcb p else s
  recv_in cs_closing w clock s pcb p = log (log s (recved pcb (w.tot_len p))) (frees p)

  unfoldable pub recv_data : Lwip P → Clock → Server P → ℕ → P → Server P
  recv_data w clock s pcb p = recv_in s.client_state w clock s pcb p

  unfoldable pub server_recv :
      Lwip P → Answers → Clock → Server P → ℕ → Option P → Err → Server P × Err
  server_recv w a clock s pcb none err = (recv_close a s pcb, err_ok)
  server_recv w a clock s pcb (some p) err =
      if is_ok err
      then (recv_data w clock s pcb p, err_ok)
      else (record s { buffer_sent = record s.buffer_sent { len = 0 } }, err)

  abbrev pub retry : Answers → Server P → Option ℕ → Server P
  retry a s none = s
  retry a s (some cb) = (server_send a (log s (asks_sent cb)) cb s.buffer_sent false).0

  abbrev pub close_if_closing : ClientState → Server P → ℕ → Server P
  close_if_closing cs_none s pcb = s
  close_if_closing cs_accepted s pcb = s
  close_if_closing cs_received s pcb = s
  close_if_closing cs_closing s pcb = server_close_conn s (some pcb)

  -- What serverPoll does with a valid argument. lwIP polls a connection whose control block the server still holds.
  unfoldable pub server_poll : Answers → Server P → ℕ → Server P × Err
  server_poll a s pcb =
      if not (s.buffer_sent.len == 0)
      then (retry a s s.client_cb, err_ok)
      else (close_if_closing s.client_state s pcb, err_ok)

  unfoldable pub server_err : Server P → Err → Server P
  server_err s err_ok = server_shutdown s
  server_err s err_mem = server_shutdown s
  server_err s err_val = server_shutdown s
  server_err s err_abrt = s
  server_err s (err_other n) = server_shutdown s

  unfoldable pub available : Server P → Bool
  available s = elim s.can_buffer [ none ↦ false | some b ↦ Ring.available b ]

  -- An empty queue gives no slot to read: the code would read through a null pointer.
  abbrev pub get_from : Server P → Option CircularBuffer → Server P × Option CanFrame
  get_from s none = (s, some empty_frame)
  get_from s (some b) =
      let (b', slot) = Ring.get b in (record s { can_buffer = some b' }, item_at b slot)

  unfoldable pub get : Server P → Server P × Option CanFrame
  get s = get_from s s.can_buffer
