-- ===== src/LongMessage/Receive/Interrupted.antt =====
-- A long message that is interrupted by a frame of somebody else: the receiving half of CBUSLongMessage counts the
-- frame as one of its own.
use cbuspico_lib.Common.{
  ℕ, ◌+◌, ◌-◌, ◌^◌, ◌<◌, bit_and, ◌≡◌, refl, sym, ap, ◌∙◌, subst, true, false, ◌&&◌, List, [], ◌∷◌,
  ◌++◌, arith, ◌==◌, if◌then◌else◌, length, u32,
}
use cbuspico_lib.Frame.{CanFrame}
use cbuspico_lib.LongMessage.{LongMessage, Delivery, sequence_error, byte}
use cbuspico_lib.LongMessage.Receive.{
  continue, finish, start, conclude, process_received_message_fragment, deliver,
}
use cbuspico_lib.LongMessage.Receive.Taking.{Wanted, IsReceiving}
use cbuspico_lib.LongMessage.Receive.Fragment.{conclude-going}

-- The receiver gave up, and reported a sequence error.
abbrev pub GaveUp : LongMessage × List Delivery → Type 0
GaveUp (m, calls) =
    (m.is_receiving ≡ false) × ((d : Delivery) × ((calls ≡ d ∷ []) × (d.status ≡ sequence_error)))

continue-other :
    (m : LongMessage) (f : CanFrame)
    → (bit_and f.id 0x7F == m.sender_canid && byte f 1 == m.receive_stream_id) ≡ false
    → continue m f ≡ (m, [])
unfolding continue
continue-other m f h = rw h refl

abbrev broken : LongMessage → LongMessage
broken m = record m {
  incoming_message_length = 0;
  incoming_bytes_received = 0;
  is_receiving = false;
}

continue-wrong :
    (m : LongMessage) (f : CanFrame)
    → (bit_and f.id 0x7F == m.sender_canid && byte f 1 == m.receive_stream_id) ≡ true
    → (byte f 2 == m.expected_next_receive_sequence_num) ≡ false
    → continue m f ≡ (broken m, deliver m sequence_error ∷ [])
unfolding continue
continue-wrong m f mine wrong = rw (mine, wrong) refl

conclude-broken :
    (m : LongMessage) (calls : List Delivery)
    → ((conclude (broken m, calls)).0.is_receiving ≡ false)
      × ((conclude (broken m, calls)).1 ≡ calls ++ [])
unfolding conclude finish
conclude-broken m calls = (refl, refl)

-- A frame for a receiver that is in the middle of a message.
while_receiving :
    (m : LongMessage) (f : CanFrame) (now : ℕ)
    → m.is_receiving ≡ true
    → process_received_message_fragment m f now
      ≡ conclude (continue (record m { last_fragment_received = now }) f)
unfolding process_received_message_fragment
while_receiving m f now busy =
    ap
      (λ b. conclude (
        if b
        then continue (record m { last_fragment_received = now }) f
        else (start (record m { last_fragment_received = now }) f, [])))
      busy

-- After a frame that is not the message's.
abbrev counted : LongMessage → ℕ → LongMessage
counted m now = record m {
  last_fragment_received = now;
  expected_next_receive_sequence_num = u32 (m.expected_next_receive_sequence_num + 1);
}

other_frame :
    (msg : List ℕ) (w : Wanted) (k : ℕ) (m : LongMessage) (f : CanFrame) (now : ℕ)
    → IsReceiving msg w k m
    → k < length msg
    → (bit_and f.id 0x7F == w.canid && byte f 1 == w.stream) ≡ false
    → process_received_message_fragment m f now ≡ (counted m now, [])
other_frame msg w k m f now s lt other =
    let stamped = record m { last_fragment_received = now } in
    let not_mine : (bit_and f.id 0x7F == m.sender_canid && byte f 1 == m.receive_stream_id)
        ≡ false =
      rw (s.canid, s.stream) other in
    while_receiving m f now s.receiving
    ∙ ap conclude (continue-other stamped f not_mine)
    ∙ conclude-going stamped (ground (arith, s.received, s.expecting))

-- In the middle of a message, a frame of another sender or stream calls no handler, but the next fragment of the
-- message, which carries the number that was waited for, is then refused: the handler is called with a sequence
-- error, and the receiver gives the message up.
pub interrupted-GaveUp :
    (msg : List ℕ) (w : Wanted) (k : ℕ) (m : LongMessage) (f g : CanFrame) (t1 t2 : ℕ)
    → IsReceiving msg w k m
    → k < length msg
    → w.sequence < 2 ^ 32 - 1
    → (bit_and f.id 0x7F == w.canid && byte f 1 == w.stream) ≡ false
    → bit_and g.id 0x7F ≡ w.canid
    → byte g 1 ≡ w.stream
    → byte g 2 ≡ w.sequence
    → ((process_received_message_fragment m f t1).1 ≡ [])
      × GaveUp (process_received_message_fragment (process_received_message_fragment m f t1).0 g t2)
interrupted-GaveUp msg w k m f g t1 t2 s lt small other id stream number =
    let first = other_frame msg w k m f t1 s lt other in
    let after = counted m t1 in
    let stamped = record after { last_fragment_received = t2 } in
    let mine : (bit_and g.id 0x7F == after.sender_canid && byte g 1 == after.receive_stream_id)
        ≡ true =
      ground (arith, s.canid, s.stream) in
    let wrong : (byte g 2 == after.expected_next_receive_sequence_num) ≡ false =
      ground (arith, s.sequence) in
    let second : process_received_message_fragment after g t2
        ≡ conclude (broken stamped, deliver stamped sequence_error ∷ []) =
      while_receiving after g t2 s.receiving ∙ ap conclude (continue-wrong stamped g mine wrong) in
    let gave_up = conclude-broken stamped (deliver stamped sequence_error ∷ []) in
    (
      ap (λ (x : LongMessage × List Delivery). x.1) first,
      subst
          (λ (x : LongMessage × List Delivery). GaveUp (process_received_message_fragment x.0 g t2))
          (sym first)
          (subst GaveUp (sym second)
            (gave_up.0, (deliver stamped sequence_error, (gave_up.1, refl)))),
    )
