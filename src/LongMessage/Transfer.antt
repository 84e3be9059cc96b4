-- ===== src/LongMessage/Transfer.antt =====
-- A sending and a receiving CBUSLongMessage at the two ends of the bus, which passes the frames on in order.
use cbuspico_lib.Common.{
  ℕ, ◌+◌, ◌-◌, ◌*◌, ◌^◌, ◌≤◌, ◌<◌, bit_and, ◌≡◌, refl, sym, ap, ap₂, ◌∙◌, subst, inl, inr, true,
  false, List, [], ◌∷◌, ◌++◌, arith, ltb, length, sub32,
}
use cbuspico_lib.Frame.{CanFrame}
use cbuspico_lib.LongMessage.{LongMessage, Delivery, byte, Sent}
use cbuspico_lib.LongMessage.Send.{
  process_send, send_long_message, is_sending, send_message_fragment, header, opened,
}
use cbuspico_lib.LongMessage.Send.Filling.{
  IsSending, next_fragment, advanced, process_send-due, process_send-done, next_fragment_lem,
  advanced-IsSending,
}
use cbuspico_lib.LongMessage.Receive.{process_received_message_fragment, subscribed}
use cbuspico_lib.LongMessage.Receive.Taking.{IsReceiving, arrival}
use cbuspico_lib.LongMessage.Receive.Fragment.{fragment_lem, header_lem}

-- A frame as it arrives: the identifier names the sender.
abbrev pub arrive : ℕ → Sent → CanFrame
arrive id s = record s.frame { id = id }

-- The frames are handed to the receiver one after the other.
unfoldable pub hear : ℕ → LongMessage → List Sent → ℕ → LongMessage × List Delivery
hear id r [] now = (r, [])
hear id r (s ∷ frames) now =
    let (r', calls) = process_received_message_fragment r (arrive id s) now in
    let (r'', later) = hear id r' frames now in (r'', calls ++ later)

-- `process` of the sender is called at each of the times; the calls of the receiver's handler come out.
unfoldable pub transfer : ℕ → LongMessage → LongMessage → List ℕ → LongMessage × List Delivery
transfer id s r [] = (r, [])
transfer id s r (t ∷ times) =
    let (s', (frames, sent)) = process_send s t t true in
    let (r', calls) = hear id r frames t in
    let (r'', later) = transfer id s' r' times in (r'', calls ++ later)

-- The whole exchange: the header, then the fragments.
unfoldable pub exchange :
    ℕ → LongMessage → LongMessage → List ℕ → ℕ → ℕ → ℕ → List ℕ → LongMessage × List Delivery
exchange id s r msg stream priority now times =
    let (s', (frames, sent)) = send_long_message s msg (length msg) stream priority true in
    let (r', calls) = hear id r frames now in
    let (r'', later) = transfer id s' r' times in (r'', calls ++ later)

-- The times are at least the delay apart, from the last frame on.
abbrev pub IsPaced : ℕ → ℕ → List ℕ → Type 0
IsPaced delay last [] = Unit {0}
IsPaced delay last (t ∷ times) = (delay ≤ sub32 t last) × IsPaced delay t times

transfer-idle :
    (id : ℕ) (s r : LongMessage) (times : List ℕ)
    → ltb s.send_buffer_index s.send_buffer_len ≡ false
    → transfer id s r times ≡ (r, [])
unfolding transfer hear
transfer-idle id s r [] idle = refl
transfer-idle id s r (t ∷ times) idle =
    rw (process_send-done s t t true idle, transfer-idle id s r times idle) refl

-- One step: a frame is sent and received.
transfer-due :
    (id : ℕ) (s r : LongMessage) (t : ℕ) (times : List ℕ)
    → ltb s.send_buffer_index s.send_buffer_len ≡ true
    → s.msg_delay ≤ sub32 t s.last_fragment_sent
    → (let heard = process_received_message_fragment r (arrive id (next_fragment s)) t in
        let rest = transfer id (advanced s t) heard.0 times in
        transfer id s r (t ∷ times) ≡ (rest.0, (heard.1 ++ []) ++ rest.1))
unfolding transfer hear
transfer-due id s r t times more due = rw (process_send-due s t t true more due) refl

-- What an exchange ends with: the handler was called once, with the message, and nothing is under way.
abbrev pub Arrived : List ℕ → ℕ → LongMessage × List Delivery → Type 0
Arrived msg stream (r, calls) = (calls ≡ arrival msg stream ∷ []) × (r.is_receiving ≡ false)

later-Arrived :
    (msg : List ℕ) (stream : ℕ) (calls : List Delivery) (rest : LongMessage × List Delivery)
    → calls ≡ []
    → Arrived msg stream rest
    → Arrived msg stream (rest.0, (calls ++ []) ++ rest.1)
later-Arrived msg stream calls rest nothing (all, idle) =
    (ap (λ x. (x ++ []) ++ rest.1) nothing ∙ all, idle)

now-Arrived :
    (msg : List ℕ) (stream : ℕ) (calls : List Delivery) (r : LongMessage)
    (rest : LongMessage × List Delivery)
    → calls ≡ arrival msg stream ∷ []
    → r.is_receiving ≡ false
    → rest ≡ (r, [])
    → Arrived msg stream (rest.0, (calls ++ []) ++ rest.1)
now-Arrived msg stream calls r rest all idle over =
    (ap₂ (λ x y. (x ++ []) ++ y.1) all over, ap (λ y. y.0.is_receiving) over ∙ idle)

transfer_lem :
    (msg : List ℕ) (id stream k sequence : ℕ) (s r : LongMessage) (times : List ℕ)
    → length msg < 2 ^ 16
    → k < length msg
    → length msg ≤ k + 5 * length times
    → length msg ≤ k + 5 * (256 - sequence)
    → IsSending msg stream k sequence s
    → IsReceiving msg (record { stream = stream; canid = bit_and id 0x7F; sequence = sequence }) k r
    → IsPaced s.msg_delay s.last_fragment_sent times
    → Arrived msg stream (transfer id s r times)
transfer_lem msg id stream k sequence s r [] short lt enough few sending receiving paced =
    absurd (omega arith)
transfer_lem msg id stream k sequence s r (t ∷ times) short lt enough few sending receiving
      (due, paced) =
    let carried = next_fragment_lem msg short s sending lt in
    let number : byte (next_fragment s).frame 2 ≡ sequence = carried.1.1 ∙ (omega arith) in
    let step = transfer-due id s r t times (ground (arith, sending.index, sending.size)) due in
    let heard = process_received_message_fragment r (arrive id (next_fragment s)) t in
    let rest = transfer id (advanced s t) heard.0 times in
    subst (Arrived msg stream) (sym step)
      (elim (fragment_lem msg _ r (arrive id (next_fragment s)) k t short (omega arith) lt receiving
        carried.0 refl carried.1.0 number) [
          | inl (more, (nothing, going)) ↦
              let sends = advanced-IsSending msg short s t sending lt (omega arith) in
              later-Arrived msg stream heard.1 rest nothing (
                transfer_lem msg id stream (k + 5) (sequence + 1) (advanced s t) heard.0 times short
                  more (omega arith) (omega arith)
                  (subst (λ n. IsSending msg stream n (sequence + 1) (advanced s t)) (omega arith)
                    sends)
                  going paced)
          | inr (last, (all, idle)) ↦
              let sends = advanced-IsSending msg short s t sending lt (omega arith) in
              now-Arrived msg stream heard.1 heard.0 rest all idle (
                transfer-idle id (advanced s t) heard.0 times
                  (ground (arith, sends.index, sends.size)))
        ])

-- The header is sent and received.
exchange-free :
    (id : ℕ) (s r : LongMessage) (msg : List ℕ) (stream priority now : ℕ) (times : List ℕ)
    → is_sending s ≡ false
    → (let heard =
          process_received_message_fragment r
            (arrive id (send_message_fragment (header stream (length msg)) priority))
            now in
        let rest = transfer id (opened s msg (length msg) stream priority) heard.0 times in
        exchange id s r msg stream priority now times ≡ (rest.0, (heard.1 ++ []) ++ rest.1))
unfolding exchange send_long_message hear
exchange-free id s r msg stream priority now times free = rw free refl

-- A message of one to 1275 bytes, sent by an idle sender on a stream that an idle receiver with room for it
-- is subscribed to, arrives whole: if `process` of the sender is called often enough, and each time its delay
-- has passed, the receiver's handler is called exactly once, with the message and the status that says it is
-- complete, and the receiver is idle again.
pub exchange-Arrived :
    (id : ℕ) (s r : LongMessage) (msg : List ℕ) (stream priority now : ℕ) (times : List ℕ)
    → is_sending s ≡ false
    → r.is_receiving ≡ false
    → subscribed r.stream_ids stream ≡ true
    → 1 ≤ length msg
    → length msg ≤ 5 * 255
    → length msg ≤ r.receive_buffer_len
    → length msg ≤ 5 * length times
    → IsPaced s.msg_delay s.last_fragment_sent times
    → Arrived msg stream (exchange id s r msg stream priority now times)
exchange-Arrived id s r msg stream priority now times free idle sub pos short fits enough paced =
    let start = send_message_fragment (header stream (length msg)) priority in
    let heard = process_received_message_fragment r (arrive id start) now in
    let opened_sender = opened s msg (length msg) stream priority in
    let begun =
      header_lem msg stream r (arrive id start) now idle sub pos fits refl refl (omega arith)
        refl in
    subst (Arrived msg stream) (sym (exchange-free id s r msg stream priority now times free)) (
      later-Arrived msg stream heard.1 (transfer id opened_sender heard.0 times) begun.0 (
        transfer_lem msg id stream 0 1 opened_sender heard.0 times (omega arith) (omega arith)
          (omega arith) (omega arith)
          (record { buffer = refl; size = refl; stream_id = refl; index = refl; number = refl })
          begun.1 paced))
