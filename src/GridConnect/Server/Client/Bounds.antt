-- ===== src/GridConnect/Server/Client/Bounds.antt =====
-- The two message buffers of the server of GridConnectPicoW/CBUSGridConnect.cpp, over any calls.
use cbuspico_lib.Common.{
  ℕ, refl, inl, inr, false, Option, none, some, List, [], ◌∷◌, arith, ltb, ◌==◌, Bool-cases,
}
use cbuspico_lib.CircularBuffer as Ring
use cbuspico_lib.GridConnect.Codec.{}
use cbuspico_lib.GridConnect.Server.{
  Clock, Server, Lwip, Err, ClientState, cs_none, cs_accepted, cs_received, cs_closing, log,
  asks_sent,
}
use cbuspico_lib.GridConnect.Server.Send.{Answers}
use cbuspico_lib.GridConnect.Server.Laws.{LwipLaws}
use cbuspico_lib.GridConnect.Server.Client.{
  is_ok, new_server, stop_server, server_accept, recv_first, recv_close, recv_data, server_recv,
  server_poll, get, recv_in, retry, close_if_closing,
}
use cbuspico_lib.GridConnect.Server.Client.Step.{
  Event, starts, stops, sends, gets, accepts, receives, sent, polls, fails, step, run,
}
use cbuspico_lib.GridConnect.Server.Client.Keeps.{
  IsBounded, extract_and_queue_gc-Keeps, recv_more-Keeps, server_close_conn-Keeps,
  server_shutdown-Keeps, start_server-Keeps, server_send-Keeps, send_can_frame-Keeps,
  server_sent-Keeps, get_from-Keeps, server_err-Keeps,
}

module _ {P : Type 0} where
  accept-IsBounded :
      (s : Server P) (cb : Option ℕ) (err : Err)
      → IsBounded s
      → IsBounded (server_accept s cb err).0
  unfolding server_accept
  accept-IsBounded s none err b = (server_shutdown-Keeps s).0 b
  accept-IsBounded s (some pcb) err b = elim (Bool-cases (is_ok err)) [
    | inl ok ↦ rw ok b
    | inr failed ↦ rw failed ((server_shutdown-Keeps s).0 b)
  ]

  recv_close-IsBounded :
      (a : Answers) (s : Server P) (pcb : ℕ) → IsBounded s → IsBounded (recv_close a s pcb)
  unfolding recv_close
  recv_close-IsBounded a s pcb b =
      let closing = record s { client_state = cs_closing } in
      elim (Bool-cases (s.buffer_sent.len == 0)) [
        | inl nothing ↦ rw nothing ((server_close_conn-Keeps closing (some pcb)).0 b)
        | inr left ↦ rw left ((server_send-Keeps a closing pcb s.buffer_sent false b.1).0 b)
      ]

  retry-IsBounded :
      (a : Answers) (s : Server P) (cb : Option ℕ) → IsBounded s → IsBounded (retry a s cb)
  retry-IsBounded a s none b = b
  retry-IsBounded a s (some cb) b =
      (server_send-Keeps a (log s (asks_sent cb)) cb s.buffer_sent false b.1).0 b

  close_if_closing-IsBounded :
      (c : ClientState) (s : Server P) (pcb : ℕ)
      → IsBounded s
      → IsBounded (close_if_closing c s pcb)
  close_if_closing-IsBounded cs_none s pcb b = b
  close_if_closing-IsBounded cs_accepted s pcb b = b
  close_if_closing-IsBounded cs_received s pcb b = b
  close_if_closing-IsBounded cs_closing s pcb b = (server_close_conn-Keeps s (some pcb)).0 b

  poll-IsBounded :
      (a : Answers) (s : Server P) (pcb : ℕ) → IsBounded s → IsBounded (server_poll a s pcb).0
  unfolding server_poll
  poll-IsBounded a s pcb b = elim (Bool-cases (s.buffer_sent.len == 0)) [
    | inl nothing ↦ rw nothing (close_if_closing-IsBounded s.client_state s pcb b)
    | inr left ↦ rw left (retry-IsBounded a s s.client_cb b)
  ]

module _ {P : Type 0} (w : Lwip P) (laws : LwipLaws w) where
  recv_in-IsBounded :
      (c : ClientState) (clock : Clock) (s : Server P) (pcb : ℕ) (p : P)
      → IsBounded s
      → IsBounded (recv_in c w clock s pcb p)
  unfolding recv_first
  recv_in-IsBounded cs_none clock s pcb p b = b
  recv_in-IsBounded cs_accepted clock s pcb p b =
      let first = record s { client_state = cs_received } in
      elim (Bool-cases (ltb 0 (w.tot_len p))) [
        | inl full ↦ rw full ((extract_and_queue_gc-Keeps w laws clock first p).0 b)
        | inr nothing ↦ rw nothing b
      ]
  recv_in-IsBounded cs_received clock s pcb p b = elim (Bool-cases (ltb 0 (w.tot_len p))) [
    | inl full ↦ rw full ((recv_more-Keeps w laws clock s pcb p).0 b)
    | inr nothing ↦ rw nothing b
  ]
  recv_in-IsBounded cs_closing clock s pcb p b = b

  receive-IsBounded :
      (a : Answers) (clock : Clock) (s : Server P) (pcb : ℕ) (p : Option P) (err : Err)
      → IsBounded s
      → IsBounded (server_recv w a clock s pcb p err).0
  unfolding server_recv recv_data
  receive-IsBounded a clock s pcb none err b = recv_close-IsBounded a s pcb b
  receive-IsBounded a clock s pcb (some p) err b = elim (Bool-cases (is_ok err)) [
    | inl ok ↦ rw ok (recv_in-IsBounded s.client_state clock s pcb p b)
    | inr failed ↦ rw failed (b.0, (b.1.0, omega arith))
  ]

  step-IsBounded : (s : Server P) (e : Event P) → IsBounded s → IsBounded (step w s e)
  unfolding step stop_server get
  step-IsBounded s (starts cb bound listener) b = (start_server-Keeps s cb bound listener).0 b
  step-IsBounded s stops b = (server_shutdown-Keeps s).0 b
  step-IsBounded s (sends a f more) b = (send_can_frame-Keeps a s f more).0 b
  step-IsBounded s gets b = (get_from-Keeps s s.can_buffer).0 b
  step-IsBounded s (accepts cb err) b = accept-IsBounded s cb err b
  step-IsBounded s (receives a clock pcb p err) b = receive-IsBounded a clock s pcb p err b
  step-IsBounded s (sent len) b = (server_sent-Keeps s len).0 b
  step-IsBounded s (polls a pcb) b = poll-IsBounded a s pcb b
  step-IsBounded s (fails err) b = (server_err-Keeps s err).0 b

  run-IsBounded_from : (s : Server P) (es : List (Event P)) → IsBounded s → IsBounded (run w s es)
  unfolding run
  run-IsBounded_from s [] b = b
  run-IsBounded_from s (e ∷ es) b = run-IsBounded_from (step w s e) es (step-IsBounded s e b)

  -- After any calls, from the constructor on, with whatever texts, lengths and errors lwIP reports, nothing was written beyond
  -- the end of the two message buffers: each is still its 28 characters, where a longer text would have left
  -- characters behind them that no later call takes away, and the lengths in use are at most 28.
  pub run-IsBounded :
      (b : Option Ring.CircularBuffer) (es : List (Event P)) → IsBounded (run w (new_server b) es)
  unfolding new_server
  run-IsBounded b es =
      run-IsBounded_from (new_server b) es ((refl, omega arith), (refl, omega arith))
