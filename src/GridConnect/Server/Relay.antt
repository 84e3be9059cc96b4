-- ===== src/GridConnect/Server/Relay.antt =====
-- Two servers of GridConnectPicoW/CBUSGridConnect.cpp: what one sends to its client is what the other receives from one.
use cbuspico_lib.Common.{
  ℕ, ◌≡◌, refl, sym, ap, ◌∙◌, subst, Bool, true, false, some, List, [], ◌∷◌, ◌++◌, append-nil,
  append_assoc, if◌then◌else◌, length, drop,
}
use cbuspico_lib.Frame.{CanFrame}
use cbuspico_lib.GridConnect.Codec.{GcMessage, encode_gc, not_encodable}
use cbuspico_lib.GridConnect.Codec.RoundTrip.{IsFrame, decode_gc-encode_gc}
use cbuspico_lib.GridConnect.Server.{
  Clock, Server, Lwip, Err, err_ok, Call, frees, recved, writes, outputs, asks_sent, installs,
  closes, listens, cs_accepted, cs_received,
}
use cbuspico_lib.GridConnect.Server.Send.{Answers, server_send, send_to, send_can_frame}
use cbuspico_lib.GridConnect.Server.Laws.{LwipLaws, Allocates}
use cbuspico_lib.GridConnect.Server.Scan.{scan, Fits}
use cbuspico_lib.GridConnect.Server.Frames.{frames, queue_all}
use cbuspico_lib.GridConnect.Server.Stream.{holding, feed, text_of, AllPieces, feed-scan}
use cbuspico_lib.GridConnect.Server.Spoken.{
  text, spoken, AllEncodable, received, spoken-scan, frames-messages,
}

module _ {Q : Type 0} where
  -- What tcp_write was given.
  unfoldable pub written_text : List (Call Q) → List ℕ
  written_text [] = []
  written_text (frees p ∷ cs) = written_text cs
  written_text (recved pcb n ∷ cs) = written_text cs
  written_text (writes pcb bytes more ∷ cs) = bytes ++ written_text cs
  written_text (outputs pcb ∷ cs) = written_text cs
  written_text (asks_sent pcb ∷ cs) = written_text cs
  written_text (installs pcb ∷ cs) = written_text cs
  written_text (closes pcb ∷ cs) = written_text cs
  written_text (listens pcb ∷ cs) = written_text cs

  written_text-append :
      (cs ds : List (Call Q)) → written_text (cs ++ ds) ≡ written_text cs ++ written_text ds
  unfolding written_text
  written_text-append [] ds = refl
  written_text-append (frees p ∷ cs) ds = written_text-append cs ds
  written_text-append (recved pcb n ∷ cs) ds = written_text-append cs ds
  written_text-append (writes pcb bytes more ∷ cs) ds =
      ap (λ t. bytes ++ t) (written_text-append cs ds)
      ∙ sym (append_assoc bytes (written_text cs) (written_text ds))
  written_text-append (outputs pcb ∷ cs) ds = written_text-append cs ds
  written_text-append (asks_sent pcb ∷ cs) ds = written_text-append cs ds
  written_text-append (installs pcb ∷ cs) ds = written_text-append cs ds
  written_text-append (closes pcb ∷ cs) ds = written_text-append cs ds
  written_text-append (listens pcb ∷ cs) ds = written_text-append cs ds

  -- Frames given to the server, each with the flag whether more follow; the stack takes every text.
  unfoldable pub send_all : Err → Server Q → List (CanFrame × Bool) → Server Q
  send_all output s [] = s
  send_all output s ((f, more) ∷ fs) =
      send_all output (send_can_frame (record { write = err_ok; output = output }) s f more) fs

  one_write :
      (cs : List (Call Q)) (pcb : ℕ) (m : GcMessage) (more : Bool)
      → written_text (cs ++ writes pcb (text m) more ∷ []) ≡ written_text cs ++ text m
  unfolding written_text
  one_write cs pcb m more =
      written_text-append cs (writes pcb (text m) more ∷ [])
      ∙ ap (λ t. written_text cs ++ t) (append-nil (text m))

  -- A client is there, and some text was written.
  abbrev Wrote : ℕ → List ℕ → Server Q → Type 0
  Wrote pcb t s = (s.client_cb ≡ some pcb) × (written_text s.calls ≡ t)

  server_send-Wrote :
      (output : Err) (s : Server Q) (pcb : ℕ) (m : GcMessage) (more : Bool)
      → s.client_cb ≡ some pcb
      → Wrote pcb
          (written_text s.calls ++ text m)
          (server_send (record { write = err_ok; output = output }) s pcb m more).0
  unfolding server_send written_text
  server_send-Wrote output s pcb m true e = (e, one_write s.calls pcb m true)
  server_send-Wrote output s pcb m false e =
      let cs = s.calls ++ writes pcb (text m) false ∷ [] in
      (
        e,
        written_text-append cs (outputs pcb ∷ [])
            ∙ append-nil (written_text cs)
            ∙ one_write s.calls pcb m false,
      )

  send_can_frame-Wrote :
      (output : Err) (s : Server Q) (pcb : ℕ) (f : CanFrame) (more : Bool)
      → s.client_cb ≡ some pcb
      → IsFrame f
      → not_encodable f ≡ false
      → Wrote pcb
          (written_text s.calls ++ text (encode_gc f).1)
          (send_can_frame (record { write = err_ok; output = output }) s f more)
  unfolding send_can_frame
  send_can_frame-Wrote output s pcb f more e frame accepted =
      let a : Answers = record { write = err_ok; output = output } in
      let m = (encode_gc f).1 in
      let done = (decode_gc-encode_gc f frame accepted).0 in
      subst (Wrote pcb (written_text s.calls ++ text m))
        (sym (
          ap (λ cb. send_to a s cb (encode_gc f) more) e
          ∙ ap (λ ok. if ok then (server_send a s pcb m more).0 else s) done))
        (server_send-Wrote output s pcb m more e)

  send_all-Wrote :
      (output : Err) (s : Server Q) (pcb : ℕ) (fs : List (CanFrame × Bool))
      → s.client_cb ≡ some pcb
      → AllEncodable fs
      → written_text (send_all output s fs).calls ≡ written_text s.calls ++ spoken fs
  unfolding send_all spoken AllEncodable
  send_all-Wrote output s pcb [] e all = sym (append-nil (written_text s.calls))
  send_all-Wrote output s pcb ((f, more) ∷ fs) e (frame, accepted, all) =
      let s' = send_can_frame (record { write = err_ok; output = output }) s f more in
      let (kept, wrote) = send_can_frame-Wrote output s pcb f more e frame accepted in
      send_all-Wrote output s' pcb fs kept all
      ∙ ap (λ t. t ++ spoken fs) wrote
      ∙ append_assoc (written_text s.calls) (text (encode_gc f).1) (spoken fs)

drop-append : (xs ys : List ℕ) → drop (length xs) (xs ++ ys) ≡ ys
drop-append [] ys = refl
drop-append (x ∷ xs) ys = drop-append xs ys

module _ {P : Type 0} (w : Lwip P) (laws : LwipLaws w) (a : Answers) (clock : Clock) (pcb : ℕ)
    {Q : Type 0} where
  -- A server with a client is given frames that encodeGC accepts, and its stack takes every text. What it wrote on the
  -- connection since then comes to a second server, in any pieces that are not empty and short enough for the 16-bit
  -- lengths; its client was accepted, no text is stored, and memory is there for the pieces. Then the second server
  -- gives just these frames, in order and with their unused data bytes zero, to its bus and to its queue, and no
  -- text is left over.
  pub feed-send_all :
      (sender : Server Q) (client : ℕ) (output : Err) (fs : List (CanFrame × Bool)) (s : Server P)
      (p : P) (ps : List P)
      → sender.client_cb ≡ some client
      → AllEncodable fs
      → Allocates laws
      → s ≡ holding s cs_accepted []
      → AllPieces w laws a clock pcb (p ∷ ps)
      → written_text (send_all output sender fs).calls
        ≡ written_text sender.calls ++ text_of w laws a clock pcb (p ∷ ps)
      → let s' = feed w laws a clock pcb s (p ∷ ps) in
        (s'.to_can ≡ s.to_can ++ received fs)
        × (s'.can_buffer ≡ queue_all clock (length s.to_can) s.can_buffer (received fs))
        × (s' ≡ holding s' cs_received [])
  feed-send_all sender client output fs s p ps e all alloc h pieces sent =
      let heard_text = text_of w laws a clock pcb (p ∷ ps) in
      let same : spoken fs ≡ heard_text =
        sym (drop-append (written_text sender.calls) (spoken fs))
        ∙ ap (drop (length (written_text sender.calls)))
            (sym (send_all-Wrote output sender client fs e all) ∙ sent)
        ∙ drop-append (written_text sender.calls) heard_text in
      let (s1, fits) = spoken-scan fs all in
      let s' = feed w laws a clock pcb s (p ∷ ps) in
      let heard = feed-scan w laws a clock pcb s p ps alloc h pieces (subst (Fits []) same fits) in
      let r = ap (scan []) (sym same) ∙ s1 in
      let got = ap (λ z. frames z.1) r ∙ frames-messages fs all in
      (
        heard.0 ∙ ap (λ l. s.to_can ++ l) got,
        heard.1 ∙ ap (queue_all clock (length s.to_can) s.can_buffer) got,
        heard.2 ∙ ap (λ z. holding s' cs_received z.0) r,
      )
