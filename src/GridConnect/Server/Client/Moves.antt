-- ===== src/GridConnect/Server/Client/Moves.antt =====
-- The states of a client in GridConnectPicoW/CBUSGridConnect.cpp as a graph.
use cbuspico_lib.Common.{
  ℕ, ◌≡◌, refl, sym, subst, inl, inr, false, Option, none, some, ltb, ◌==◌, Bool-cases,
}
use cbuspico_lib.GridConnect.Codec.{}
use cbuspico_lib.GridConnect.Server.{
  Clock, Server, Lwip, Err, err_ok, err_mem, err_val, err_abrt, err_other, ClientState, cs_none,
  cs_accepted, cs_received, cs_closing, log, asks_sent,
}
use cbuspico_lib.GridConnect.Server.Send.{Answers, send_can_frame, server_sent}
use cbuspico_lib.GridConnect.Server.Laws.{LwipLaws}
use cbuspico_lib.GridConnect.Server.Client.{
  server_shutdown, start_server, stop_server, server_accept, recv_more, recv_first, recv_close,
  recv_data, server_recv, server_poll, server_err, get, recv_in, retry, get_from, close_if_closing,
}
use cbuspico_lib.GridConnect.Server.Client.Step.{
  Event, starts, stops, sends, gets, accepts, receives, sent, polls, fails, step,
}
use cbuspico_lib.GridConnect.Server.Client.Keeps.{
  extract_and_queue_gc-Keeps, recv_more-Keeps, server_close_conn-Keeps, server_shutdown-Keeps,
  start_server-Keeps, send_can_frame-Keeps, server_sent-Keeps, get_from-Keeps,
  server_send-client_state, server_err-Keeps,
}

-- What moves the state of the client: a connection that is accepted, its first data, and the end that the remote host
-- signals. Every other call leaves it as it is, and so may these.
pub data Moves {P : Type 0} : Event P → ClientState → ClientState → Type 0 where
  stays : (e : Event P) (c : ClientState) → Moves e c c
  accepted : (pcb : ℕ) (c : ClientState) → Moves (accepts (some pcb) err_ok) c cs_accepted
  received :
      (a : Answers) (clock : Clock) (pcb : ℕ) (p : P)
      → Moves (receives a clock pcb (some p) err_ok) cs_accepted cs_received
  closing :
      (a : Answers) (clock : Clock) (pcb : ℕ) (err : Err) (c : ClientState)
      → Moves (receives a clock pcb none err) c cs_closing

module _ {P : Type 0} where
  kept :
      (e : Event P) (s s' : Server P)
      → s'.client_state ≡ s.client_state
      → Moves e s.client_state s'.client_state
  kept e s s' h = subst (Moves e s.client_state) (sym h) (stays e s.client_state)

  accept-Moves :
      (w : Lwip P) (s : Server P) (cb : Option ℕ) (err : Err)
      → Moves {P = P} (accepts cb err) s.client_state (server_accept s cb err).0.client_state
  unfolding server_accept
  accept-Moves w s none err =
      kept (accepts none err) s (server_shutdown s) (server_shutdown-Keeps s).1
  accept-Moves w s (some pcb) err_ok = accepted pcb s.client_state
  accept-Moves w s (some pcb) err_mem =
      kept (accepts (some pcb) err_mem) s (server_shutdown s) (server_shutdown-Keeps s).1
  accept-Moves w s (some pcb) err_val =
      kept (accepts (some pcb) err_val) s (server_shutdown s) (server_shutdown-Keeps s).1
  accept-Moves w s (some pcb) err_abrt =
      kept (accepts (some pcb) err_abrt) s (server_shutdown s) (server_shutdown-Keeps s).1
  accept-Moves w s (some pcb) (err_other n) =
      kept (accepts (some pcb) (err_other n)) s (server_shutdown s) (server_shutdown-Keeps s).1

  recv_close-Moves :
      (a : Answers) (clock : Clock) (pcb : ℕ) (err : Err) (s : Server P)
      → (recv_close a s pcb).client_state ≡ cs_closing
  unfolding recv_close
  recv_close-Moves a clock pcb err s = elim (Bool-cases (s.buffer_sent.len == 0)) [
    | inl nothing ↦
        rw nothing (server_close_conn-Keeps (record s { client_state = cs_closing }) (some pcb)).1
    | inr left ↦ rw left (
        server_send-client_state a (record s { client_state = cs_closing }) pcb s.buffer_sent false)
  ]

  retry-client_state :
      (a : Answers) (s : Server P) (cb : Option ℕ) → (retry a s cb).client_state ≡ s.client_state
  retry-client_state a s none = refl
  retry-client_state a s (some cb) =
      server_send-client_state a (log s (asks_sent cb)) cb s.buffer_sent false

  close_if_closing-client_state :
      (c : ClientState) (s : Server P) (pcb : ℕ)
      → (close_if_closing c s pcb).client_state ≡ s.client_state
  close_if_closing-client_state cs_none s pcb = refl
  close_if_closing-client_state cs_accepted s pcb = refl
  close_if_closing-client_state cs_received s pcb = refl
  close_if_closing-client_state cs_closing s pcb = (server_close_conn-Keeps s (some pcb)).1

  poll-client_state :
      (a : Answers) (s : Server P) (pcb : ℕ) → (server_poll a s pcb).0.client_state ≡ s.client_state
  unfolding server_poll
  poll-client_state a s pcb = elim (Bool-cases (s.buffer_sent.len == 0)) [
    | inl nothing ↦ rw nothing (close_if_closing-client_state s.client_state s pcb)
    | inr left ↦ rw left (retry-client_state a s s.client_cb)
  ]

module _ {P : Type 0} (w : Lwip P) (laws : LwipLaws w) where
  recv_first-client_state :
      (clock : Clock) (s : Server P) (pcb : ℕ) (p : P)
      → (recv_first w clock s pcb p).client_state ≡ s.client_state
  unfolding recv_first
  recv_first-client_state clock s pcb p = (extract_and_queue_gc-Keeps w laws clock s p).1

  recv_in-Moves :
      (a : Answers) (c : ClientState) (clock : Clock) (s : Server P) (pcb : ℕ) (p : P)
      → s.client_state ≡ c
      → Moves
          (receives a clock pcb (some p) err_ok)
          s.client_state
          (recv_in c w clock s pcb p).client_state
  recv_in-Moves a cs_none clock s pcb p e =
      stays (receives a clock pcb (some p) err_ok) s.client_state
  recv_in-Moves a cs_accepted clock s pcb p e =
      let first = record s { client_state = cs_received } in
      let moved : Moves (receives a clock pcb (some p) err_ok) s.client_state cs_received =
        subst (λ c. Moves (receives a clock pcb (some p) err_ok) c cs_received) (sym e)
          (received a clock pcb p) in
      elim (Bool-cases (ltb 0 (w.tot_len p))) [
        | inl full ↦ rw full (
            subst (Moves (receives a clock pcb (some p) err_ok) s.client_state)
              (sym (recv_first-client_state clock first pcb p)) moved)
        | inr nothing ↦ rw nothing moved
      ]
  recv_in-Moves a cs_received clock s pcb p e = elim (Bool-cases (ltb 0 (w.tot_len p))) [
    | inl full ↦ rw full (
        kept (receives a clock pcb (some p) err_ok) s (recv_more w clock s pcb p)
          (recv_more-Keeps w laws clock s pcb p).1)
    | inr nothing ↦ rw nothing (stays (receives a clock pcb (some p) err_ok) s.client_state)
  ]
  recv_in-Moves a cs_closing clock s pcb p e =
      stays (receives a clock pcb (some p) err_ok) s.client_state

  receive-Moves :
      (a : Answers) (clock : Clock) (s : Server P) (pcb : ℕ) (p : Option P) (err : Err)
      → Moves
          (receives a clock pcb p err)
          s.client_state
          (server_recv w a clock s pcb p err).0.client_state
  unfolding server_recv recv_data
  receive-Moves a clock s pcb none err =
      subst (Moves (receives a clock pcb none err) s.client_state)
        (sym (recv_close-Moves a clock pcb err s)) (closing a clock pcb err s.client_state)
  receive-Moves a clock s pcb (some p) err_ok = recv_in-Moves a s.client_state clock s pcb p refl
  receive-Moves a clock s pcb (some p) err_mem =
      stays (receives a clock pcb (some p) err_mem) s.client_state
  receive-Moves a clock s pcb (some p) err_val =
      stays (receives a clock pcb (some p) err_val) s.client_state
  receive-Moves a clock s pcb (some p) err_abrt =
      stays (receives a clock pcb (some p) err_abrt) s.client_state
  receive-Moves a clock s pcb (some p) (err_other n) =
      stays (receives a clock pcb (some p) (err_other n)) s.client_state

  -- Whatever call reaches the server, in whatever state, the state of the client stays or moves along the graph: to
  -- accepted by a connection that is accepted without an error, from accepted to received by data without an
  -- error, and to closing when the remote host closes; it never goes back to no state.
  pub step-Moves : (s : Server P) (e : Event P) → Moves e s.client_state (step w s e).client_state
  unfolding step stop_server get
  step-Moves s (starts cb bound listener) =
      kept (starts cb bound listener) s (start_server s cb bound listener).0
        (start_server-Keeps s cb bound listener).1
  step-Moves s stops = kept stops s (server_shutdown s) (server_shutdown-Keeps s).1
  step-Moves s (sends a f more) =
      kept (sends a f more) s (send_can_frame a s f more) (send_can_frame-Keeps a s f more).1
  step-Moves s gets = kept gets s (get_from s s.can_buffer).0 (get_from-Keeps s s.can_buffer).1
  step-Moves s (accepts cb err) = accept-Moves w s cb err
  step-Moves s (receives a clock pcb p err) = receive-Moves a clock s pcb p err
  step-Moves s (sent len) = kept (sent len) s (server_sent s len) (server_sent-Keeps s len).1
  step-Moves s (polls a pcb) =
      kept (polls a pcb) s (server_poll a s pcb).0 (poll-client_state a s pcb)
  step-Moves s (fails err) = kept (fails err) s (server_err s err) (server_err-Keeps s err).1
