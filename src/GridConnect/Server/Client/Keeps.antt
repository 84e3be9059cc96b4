-- ===== src/GridConnect/Server/Client/Keeps.antt =====
-- What the parts of the server of GridConnectPicoW/CBUSGridConnect.cpp leave alone: the two message buffers stay inside their arrays, and
-- the state of the client stays as it is.
use cbuspico_lib.Common.{
  ℕ, zero, suc, ◌+◌, ◌-◌, ◌^◌, ◌≤◌, ◌≡◌, refl, ap, ◌∙◌, ◌⊎◌, inl, inr, Bool, true, false, Option,
  none, some, List, arith, ltb, leb, ◌==◌, leb→le, Bool-cases, Option-cases, length, take, drop,
  replicate, length-append, length-take, length-drop, length-replicate, u16,
}
use cbuspico_lib.Frame.{CanFrame, empty_frame}
use cbuspico_lib.CircularBuffer as Ring
use cbuspico_lib.GridConnect.Codec.RoundTrip.{encode_gc-cases}
use cbuspico_lib.GridConnect.Codec.{GcMessage, blank, gc_max_msg, encode_gc, decode_gc}
use cbuspico_lib.GridConnect.Server.{
  Clock, Server, Lwip, Err, err_ok, err_mem, err_val, err_abrt, err_other, log, writes, parsed,
  keep, reset, take_message, keep_partial, extract, finished, copy_over, not_found,
  extract_and_queue_gc,
}
use cbuspico_lib.GridConnect.Server.Send.{
  Answers, written, send_to, server_send, send_can_frame, server_sent,
}
use cbuspico_lib.GridConnect.Server.Laws.{LwipLaws}
use cbuspico_lib.GridConnect.Server.Client.{
  is_ok, close_listener, started, get_from, server_close_conn, server_shutdown, server_open,
  start_server, put_text, recv_more, server_err,
}
use cbuspico_lib.GridConnect.Server.Client.Step.{}

-- The array has its size, and the length in use is at most that.
abbrev pub IsMessage : GcMessage → Type 0
IsMessage m = (length m.byte ≡ gc_max_msg) × (m.len ≤ gc_max_msg)

blank-IsMessage : IsMessage blank
blank-IsMessage = (refl, omega arith)

module _ {P : Type 0} where
  abbrev pub IsBounded : Server P → Type 0
  IsBounded s = IsMessage s.buffer_recv × IsMessage s.buffer_sent

  abbrev pub Keeps : Server P → Server P → Type 0
  Keeps s s' = (IsBounded s → IsBounded s') × (s'.client_state ≡ s.client_state)

  Keeps-trans : (s s' s'' : Server P) → Keeps s s' → Keeps s' s'' → Keeps s s''
  Keeps-trans s s' s'' (b, c) (b', c') = ((λ h. b' (b h)), c' ∙ c)

  parsed-Keeps :
      (s : Server P) (clock : Clock) (o : Option CanFrame) (m c : GcMessage)
      → (IsMessage s.buffer_recv → IsMessage c)
      → Keeps s (keep (parsed (keep s m) clock o) c)
  parsed-Keeps s clock none m c i = ((λ (r, t). (i r, t)), refl)
  parsed-Keeps s clock (some f) m c i = ((λ (r, t). (i r, t)), refl)

reset-IsMessage : (m : GcMessage) → length m.byte ≡ gc_max_msg → IsMessage (reset m)
reset-IsMessage m h = (
  omega (
    arith,
    length-append (replicate 28 0) (drop 28 m.byte),
    length-drop 28 m.byte,
    length-replicate {A = ℕ} 28 0,
  ),
  omega arith,
)

length-copy_over :
    (byte xs : List ℕ) (n : ℕ)
    → length byte ≡ gc_max_msg
    → length xs ≤ n
    → n ≤ gc_max_msg
    → length (copy_over byte xs) ≡ gc_max_msg
length-copy_over byte xs n h l m =
    omega (arith, length-append xs (drop (length xs) byte), length-drop (length xs) byte)

module _ {P : Type 0} (w : Lwip P) (laws : LwipLaws w) where
  copied_length : (p : P) (len start : ℕ) → length (w.copy_partial p len start) ≤ len
  copied_length p len start = omega (
    arith,
    ap (length {A = ℕ}) (laws.copied p len start),
    length-take len (drop start (laws.contents p)),
  )

  take_message-Keeps :
      (clock : Clock) (s : Server P) (p : P) (first len : ℕ)
      → Keeps s (take_message w clock s p first len)
  unfolding take_message
  take_message-Keeps clock s p first len =
      let bytes = w.copy_partial p len first in
      let m : GcMessage = record { byte = copy_over s.buffer_recv.byte bytes; len = len } in
      elim (Bool-cases (leb len gc_max_msg)) [
        | inr long ↦ rw long ((λ b. b), refl)
        | inl short ↦
            let cleared : IsMessage s.buffer_recv → IsMessage (reset m) = λ r. reset-IsMessage m (
              length-copy_over s.buffer_recv.byte bytes len r.0 (copied_length p len first)
                (leb→le len gc_max_msg short)) in
            elim (Bool-cases (ltb 0 (length bytes))) [
              | inl full ↦
                  rw (short, full)
                    (parsed-Keeps s clock (decode_gc m empty_frame) m (reset m) cleared)
              | inr no_bytes ↦ rw (short, no_bytes) ((λ (r, t). (cleared r, t)), refl)
            ]
      ]

  keep_partial-Keeps : (s : Server P) (p : P) (first : ℕ) → Keeps s (keep_partial w s p first)
  unfolding keep_partial
  keep_partial-Keeps s p first =
      let left = u16 (w.tot_len p + 2 ^ 16 - first) in
      let bytes = w.copy_partial p left first in
      elim (Bool-cases (leb left gc_max_msg)) [
        | inr long ↦ rw long ((λ b. b), refl)
        | inl short ↦ rw short (
          (λ (r, t). (
            (
              length-copy_over s.buffer_recv.byte bytes left r.0 (copied_length p left first)
                  (leb→le left gc_max_msg short),
              leb→le left gc_max_msg short,
            ),
            t,
          )),
          refl,
        )
      ]

  extract-Keeps :
      (clock : Clock) (rounds : ℕ) (s0 s : Server P) (start : ℕ) (p : P)
      → Keeps s0 s
      → Keeps s0 (finished s0 (extract w clock rounds s start p))
  unfolding extract
  extract-Keeps clock zero s0 s start p k = ((λ b. b), refl)
  extract-Keeps clock (suc rounds) s0 s start p k =
      let first = w.memfind p b':' start in
      let last = w.memfind p b';' first in
      let len = u16 (last + 1 + 2 ^ 16 - first) in
      let taken = take_message w clock s p first len in
      let kept = Keeps-trans s0 s taken k (take_message-Keeps clock s p first len) in
      elim (Bool-cases (first == not_found)) [
        | inl none_left ↦ rw none_left k
        | inr begins ↦ elim (Bool-cases (last == not_found)) [
          | inl open_end ↦
              rw (begins, open_end)
                (Keeps-trans s0 s (keep_partial w s p first) k (keep_partial-Keeps s p first))
          | inr ends ↦ elim (Bool-cases (ltb (len + first) (w.tot_len p))) [
            | inr all ↦ rw (begins, ends, all) kept
            | inl more ↦
                rw (begins, ends, more)
                  (extract-Keeps clock rounds s0 taken (u16 (len + first)) p kept)
          ]
        ]
      ]

  pub extract_and_queue_gc-Keeps :
      (clock : Clock) (s : Server P) (p : P) → Keeps s (extract_and_queue_gc w clock s p)
  unfolding extract_and_queue_gc
  extract_and_queue_gc-Keeps clock s p =
      extract-Keeps clock (w.tot_len p + 1) s s 0 p ((λ b. b), refl)

  pub recv_more-Keeps :
      (clock : Clock) (s : Server P) (pcb : ℕ) (p : P) → Keeps s (recv_more w clock s pcb p)
  unfolding recv_more
  recv_more-Keeps clock s pcb p = elim (Bool-cases (s.buffer_recv.len == 0)) [
    | inl nothing ↦ rw nothing (extract_and_queue_gc-Keeps clock s p)
    | inr stored ↦ elim (Option-cases (w.alloc s.buffer_recv.len)) [
      | inl full ↦ rw (stored, full) ((λ b. b), refl)
      | inr (fragment, got) ↦
          rw (stored, got)
            (extract_and_queue_gc-Keeps clock s
              (w.cat (put_text w fragment s.buffer_recv.byte s.buffer_recv.len 0) p))
    ]
  ]

module _ {P : Type 0} where
  pub server_close_conn-Keeps : (s : Server P) (pcb : Option ℕ) → Keeps s (server_close_conn s pcb)
  unfolding server_close_conn
  server_close_conn-Keeps s none = ((λ b. b), refl)
  server_close_conn-Keeps s (some pcb) = ((λ b. b), refl)

  close_listener-Keeps :
      (s z : Server P) (cb : Option ℕ) → Keeps s z → Keeps s (close_listener z cb)
  close_listener-Keeps s z none k = k
  close_listener-Keeps s z (some cb) k = k

  pub server_shutdown-Keeps : (s : Server P) → Keeps s (server_shutdown s)
  unfolding server_shutdown
  server_shutdown-Keeps s =
      let closed = record (server_close_conn s s.client_cb) { client_cb = none } in
      close_listener-Keeps s closed closed.server_cb (server_close_conn-Keeps s s.client_cb)

  server_open-Keeps :
      (s : Server P) (cb : Option ℕ) (bound : Err) (listener : ℕ)
      → Keeps s (server_open s cb bound listener).0
  unfolding server_open
  server_open-Keeps s none bound listener = ((λ b. b), refl)
  server_open-Keeps s (some cb) bound listener = elim (Bool-cases (is_ok bound)) [
    | inl ok ↦ rw ok ((λ b. b), refl)
    | inr failed ↦ rw failed ((λ b. b), refl)
  ]

  started-Keeps :
      (s : Server P) (o : Option Ring.CircularBuffer) (r : Server P × Bool)
      → Keeps s r.0
      → Keeps s (started s o r).0
  started-Keeps s none r k = ((λ b. b), refl)
  started-Keeps s (some b) (opened, true) k = k
  started-Keeps s (some b) (opened, false) k =
      Keeps-trans s opened (server_shutdown opened) k (server_shutdown-Keeps opened)

  pub start_server-Keeps :
      (s : Server P) (cb : Option ℕ) (bound : Err) (listener : ℕ)
      → Keeps s (start_server s cb bound listener).0
  unfolding start_server
  start_server-Keeps s cb bound listener =
      started-Keeps s s.can_buffer (server_open s cb bound listener)
        (server_open-Keeps s cb bound listener)

  written-Keeps :
      (s z : Server P) (pcb : ℕ) (m : GcMessage) (more : Bool) (write output : Err)
      → IsMessage m
      → Keeps s z
      → Keeps s (written z pcb m more write output).0
  written-Keeps s z pcb m true err_ok output ok k = k
  written-Keeps s z pcb m false err_ok output ok k = k
  written-Keeps s z pcb m more err_mem output ok (b, c) = ((λ h. ((b h).0, ok)), c)
  written-Keeps s z pcb m more err_val output ok k = k
  written-Keeps s z pcb m more err_abrt output ok k = k
  written-Keeps s z pcb m more (err_other n) output ok k = k

  pub server_send-Keeps :
      (a : Answers) (s : Server P) (pcb : ℕ) (m : GcMessage) (more : Bool)
      → IsMessage m
      → Keeps s (server_send a s pcb m more).0
  unfolding server_send
  server_send-Keeps a s pcb m more ok =
      written-Keeps s (log (record s { sent_len = 0 }) (writes pcb (take m.len m.byte) more)) pcb m
        more a.write a.output ok ((λ b. b), refl)

  send_to-Keeps :
      (a : Answers) (s : Server P) (cb : Option ℕ) (r : Bool × GcMessage) (more : Bool)
      → (r.0 ≡ false) ⊎ IsMessage r.1
      → Keeps s (send_to a s cb r more)
  send_to-Keeps a s none r more h = ((λ b. b), refl)
  send_to-Keeps a s (some pcb) (ok, m) more (inl refused) = rw refused ((λ b. b), refl)
  send_to-Keeps a s (some pcb) (true, m) more (inr h) = server_send-Keeps a s pcb m more h
  send_to-Keeps a s (some pcb) (false, m) more (inr h) = ((λ b. b), refl)

  pub send_can_frame-Keeps :
      (a : Answers) (s : Server P) (f : CanFrame) (more : Bool)
      → Keeps s (send_can_frame a s f more)
  unfolding send_can_frame
  send_can_frame-Keeps a s f more =
      send_to-Keeps a s s.client_cb (encode_gc f) more (encode_gc-cases f)

  pub server_sent-Keeps : (s : Server P) (len : ℕ) → Keeps s (server_sent s len)
  unfolding server_sent
  server_sent-Keeps s len = elim (Bool-cases (leb s.buffer_sent.len (s.sent_len + len))) [
    | inl all ↦ rw all ((λ (r, t). (r, blank-IsMessage)), refl)
    | inr part ↦ rw part ((λ b. b), refl)
  ]

  pub get_from-Keeps : (s : Server P) (o : Option Ring.CircularBuffer) → Keeps s (get_from s o).0
  get_from-Keeps s none = ((λ b. b), refl)
  get_from-Keeps s (some b) = ((λ h. h), refl)

  written-client_state :
      (s : Server P) (pcb : ℕ) (m : GcMessage) (more : Bool) (write output : Err)
      → (written s pcb m more write output).0.client_state ≡ s.client_state
  written-client_state s pcb m true err_ok output = refl
  written-client_state s pcb m false err_ok output = refl
  written-client_state s pcb m more err_mem output = refl
  written-client_state s pcb m more err_val output = refl
  written-client_state s pcb m more err_abrt output = refl
  written-client_state s pcb m more (err_other n) output = refl

  pub server_send-client_state :
      (a : Answers) (s : Server P) (pcb : ℕ) (m : GcMessage) (more : Bool)
      → (server_send a s pcb m more).0.client_state ≡ s.client_state
  unfolding server_send
  server_send-client_state a s pcb m more =
      written-client_state (log (record s { sent_len = 0 }) (writes pcb (take m.len m.byte) more))
        pcb m more a.write a.output

  pub server_err-Keeps : (s : Server P) (e : Err) → Keeps s (server_err s e)
  unfolding server_err
  server_err-Keeps s err_ok = server_shutdown-Keeps s
  server_err-Keeps s err_mem = server_shutdown-Keeps s
  server_err-Keeps s err_val = server_shutdown-Keeps s
  server_err-Keeps s err_abrt = ((λ b. b), refl)
  server_err-Keeps s (err_other n) = server_shutdown-Keeps s
