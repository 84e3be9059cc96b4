-- ===== src/GridConnect/Server/Send.antt =====
-- The sending half of the server of GridConnectPicoW/CBUSGridConnect.cpp: canSend, sendCANFrame, serverSend and serverSent.
use cbuspico_lib.Common.{ℕ, ◌+◌, Bool, not, Option, none, some, ltb, leb, if◌then◌else◌, take}
use cbuspico_lib.Frame.{CanFrame}
use cbuspico_lib.GridConnect.Codec.{GcMessage, blank, gc_max_msg, encode_gc}
use cbuspico_lib.GridConnect.Server.{
  Server, Err, err_ok, err_mem, err_val, err_abrt, err_other, writes, outputs, log,
}

-- What the stack answers to tcp_write and to tcp_output.
pub record Answers : Type 0 where
  pub write : Err
  pub output : Err

-- The free room is what tcp_sndbuf answers.
unfoldable pub can_send : ℕ → Bool
can_send free = ltb gc_max_msg free

module _ {P : Type 0} where
  -- What follows tcp_write.
  abbrev pub written : Server P → ℕ → GcMessage → Bool → Err → Err → Server P × Err
  written s pcb m more err_ok output =
      if not more then (log s (outputs pcb), output) else (s, err_ok)
  written s pcb m more err_mem output = (record s { buffer_sent = m }, err_mem)
  written s pcb m more err_val output = (s, err_val)
  written s pcb m more err_abrt output = (s, err_abrt)
  written s pcb m more (err_other n) output = (s, err_other n)

  unfoldable pub server_send : Answers → Server P → ℕ → GcMessage → Bool → Server P × Err
  server_send a s pcb m more =
      written (log (record s { sent_len = 0 }) (writes pcb (take m.len m.byte) more)) pcb m more
        a.write a.output

  abbrev pub send_to : Answers → Server P → Option ℕ → Bool × GcMessage → Bool → Server P
  send_to a s none encoded more = s
  send_to a s (some pcb) (ok, m) more = if ok then (server_send a s pcb m more).0 else s

  unfoldable pub send_can_frame : Answers → Server P → CanFrame → Bool → Server P
  send_can_frame a s f more = send_to a s s.client_cb (encode_gc f) more

  -- The acknowledgement of `len` bytes.
  unfoldable pub server_sent : Server P → ℕ → Server P
  server_sent s len =
      if leb s.buffer_sent.len (s.sent_len + len)
      then record s { buffer_sent = blank; sent_len = 0 }
      else record s { sent_len = s.sent_len + len }
