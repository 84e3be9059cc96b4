-- ===== src/LongMessage/Receive/Fragment.antt =====
-- What one frame makes of a receiver of CBUSLongMessage: a header starts a message, and a fragment adds to it or
-- ends it.
use cbuspico_lib.Common.{
  ℕ, ◌+◌, ◌-◌, ◌*◌, ◌^◌, ◌≤◌, ◌<◌, bit_and, ◌≡◌, refl, sym, ap, ap₂, ◌∙◌, subst, ◌⊎◌, inl, inr,
  true, false, ◌&&◌, List, [], ◌∷◌, ◌++◌, arith, ltb, leb, ◌==◌, if◌then◌else◌, length,
  length-replicate, u32,
}
use cbuspico_lib.Frame.{CanFrame}
use cbuspico_lib.LongMessage.{LongMessage, Delivery, byte}
use cbuspico_lib.LongMessage.Receive.{
  zero_buffer, copy, continue, finish, start, process_received_message_fragment, conclude,
  subscribed,
}
use cbuspico_lib.LongMessage.Receive.Taking.{
  Carries, Wanted, IsReceiving, arrival, Outcome, copy_lem,
}

-- What a frame that brings the bytes up to `n` leads to: more to come, or the message and the end of receiving.
abbrev pub Concluded : List ℕ → Wanted → ℕ → LongMessage × List Delivery → Type 0
Concluded msg w n (m, calls) =
    ((n < length msg)
      × ((calls ≡ []) × IsReceiving msg (record w { sequence = w.sequence + 1 }) n m))
    ⊎ ((length msg ≤ n) × ((calls ≡ arrival msg w.stream ∷ []) × (m.is_receiving ≡ false)))

continue-next :
    (m : LongMessage) (f : CanFrame)
    → (bit_and f.id 0x7F == m.sender_canid && byte f 1 == m.receive_stream_id) ≡ true
    → (byte f 2 == m.expected_next_receive_sequence_num) ≡ true
    → continue m f ≡ copy m f 0 5
unfolding continue
continue-next m f mine next = rw (mine, next) refl

finish-going :
    (m : LongMessage)
    → leb m.incoming_message_length m.incoming_bytes_received ≡ false
    → finish m ≡ (m, [])
unfolding finish
finish-going m h =
    let goes_on : ltb 0 m.incoming_message_length
          && leb m.incoming_message_length m.incoming_bytes_received
        ≡ false =
      ground arith in
    rw goes_on refl

finish-last :
    (m : LongMessage)
    → leb m.incoming_message_length m.incoming_bytes_received ≡ true
    → 1 ≤ m.incoming_message_length
    → m.receive_buffer_index ≡ 0
    → ((finish m).0.is_receiving ≡ false) × ((finish m).1 ≡ [])
unfolding finish
finish-last m h pos idx =
    let ends : ltb 0 m.incoming_message_length
          && leb m.incoming_message_length m.incoming_bytes_received
        ≡ true =
      ground arith in
    let rewound : ltb 0 m.receive_buffer_index ≡ false = ground arith in
    rw (ends, rewound) (refl, refl)

module _ (msg : List ℕ) (w : Wanted) where
  conclude_lem :
      (n : ℕ) (r : LongMessage × List Delivery)
      → w.sequence < 2 ^ 32 - 1
      → 1 ≤ length msg
      → Outcome msg w n r
      → Concluded msg w n (conclude r)
  unfolding Outcome conclude
  conclude_lem n (m, calls) small pos (inl (lt, (none_yet, s))) =
      let counted = record m {
        expected_next_receive_sequence_num = u32 (m.expected_next_receive_sequence_num + 1);
      } in
      rw (finish-going counted (ground (arith, s.received, s.expecting))) (
        inl (
          lt,
          (
            ap (λ x. x ++ []) none_yet,
            record {
              receiving = s.receiving;
              stream = s.stream;
              canid = s.canid;
              sequence = omega (arith, s.sequence);
              expecting = s.expecting;
              room = s.room;
              buffer = s.buffer;
              index = s.index;
              received = s.received;
              so_far = s.so_far;
            },
          ),
        ))
  conclude_lem n (m, calls) small pos (inr (le, (all, s))) =
      let counted = record m {
        expected_next_receive_sequence_num = u32 (m.expected_next_receive_sequence_num + 1);
      } in
      let ended =
        finish-last counted (ground (arith, s.received, s.expecting)) (omega (arith, s.expecting))
          s.index in
      inr (le, (ap₂ ◌++◌ all ended.1, ended.0))

  -- A frame with the next bytes, from the sender, on the stream and with the number that are waited for.
  pub fragment_lem :
      (m : LongMessage) (f : CanFrame) (k now : ℕ)
      → length msg < 2 ^ 16
      → w.sequence < 2 ^ 32 - 1
      → k < length msg
      → IsReceiving msg w k m
      → Carries msg k f
      → bit_and f.id 0x7F ≡ w.canid
      → byte f 1 ≡ w.stream
      → byte f 2 ≡ w.sequence
      → Concluded msg w (k + 5) (process_received_message_fragment m f now)
  unfolding process_received_message_fragment
  fragment_lem m f k now short small lt s c id stream sequence =
      let stamped = record m { last_fragment_received = now } in
      let s' : IsReceiving msg w k stamped = record {
        receiving = s.receiving;
        stream = s.stream;
        canid = s.canid;
        sequence = s.sequence;
        expecting = s.expecting;
        room = s.room;
        buffer = s.buffer;
        index = s.index;
        received = s.received;
        so_far = s.so_far;
      } in
      let mine : bit_and f.id 0x7F == m.sender_canid && byte f 1 == m.receive_stream_id ≡ true =
        ground (arith, s.canid, s.stream) in
      let next : byte f 2 == m.expected_next_receive_sequence_num ≡ true =
        ground (arith, s.sequence) in
      let copies : process_received_message_fragment m f now ≡ conclude (copy stamped f 0 5) =
        ap (λ b. conclude (if b then continue stamped f else (start stamped f, []))) s.receiving
        ∙ ap conclude (continue-next stamped f mine next) in
      subst (Concluded msg w (k + 5)) (sym copies) (
        conclude_lem (k + 5) (copy stamped f 0 5) small (omega arith) (
          copy_lem msg w short f k 0 5 stamped c (omega arith) refl
            (subst (λ n. IsReceiving msg w n stamped) (omega arith) s')))

abbrev started : LongMessage → CanFrame → LongMessage
started m f = record (zero_buffer m) {
  is_receiving = true;
  receive_stream_id = byte f 1;
  incoming_message_length = byte f 3 * 2 ^ 8 + byte f 4;
  incoming_message_crc = byte f 5 * 2 ^ 8 + byte f 6;
  incoming_bytes_received = 0;
  receive_buffer_index = 0;
  expected_next_receive_sequence_num = 0;
  sender_canid = bit_and f.id 0x7F;
}

start-opens :
    (m : LongMessage) (f : CanFrame)
    → ((byte f 2 == 0 && byte f 7 == 0) && subscribed m.stream_ids (byte f 1)) ≡ true
    → start m f ≡ started m f
unfolding start
start-opens m f h = rw h refl

pub conclude-going :
    (m : LongMessage)
    → leb m.incoming_message_length m.incoming_bytes_received ≡ false
    → conclude (m, []) ≡ (
      record m {
        expected_next_receive_sequence_num = u32 (m.expected_next_receive_sequence_num + 1);
      },
      [],
    )
unfolding conclude
conclude-going m h =
    rw
      (finish-going
        (record m {
          expected_next_receive_sequence_num = u32 (m.expected_next_receive_sequence_num + 1);
        })
        h)
      refl

-- What a receiver is after a header.
abbrev pub Begun : List ℕ → ℕ → ℕ → LongMessage × List Delivery → Type 0
Begun msg stream canid (m, calls) =
    (calls ≡ []) × IsReceiving msg (record { stream = stream; canid = canid; sequence = 1 }) 0 m

-- A header on a subscribed stream, of a message that is not empty and fits, is the start of its receiving.
pub header_lem :
    (msg : List ℕ) (stream : ℕ) (m : LongMessage) (f : CanFrame) (now : ℕ)
    → m.is_receiving ≡ false
    → subscribed m.stream_ids stream ≡ true
    → 1 ≤ length msg
    → length msg ≤ m.receive_buffer_len
    → byte f 1 ≡ stream
    → byte f 2 ≡ 0
    → byte f 3 * 2 ^ 8 + byte f 4 ≡ length msg
    → byte f 7 ≡ 0
    → Begun msg stream (bit_and f.id 0x7F) (process_received_message_fragment m f now)
unfolding process_received_message_fragment
header_lem msg stream m f now idle sub pos fits b1 b2 b34 b7 =
    let stamped = record m { last_fragment_received = now } in
    let opens : ((byte f 2 == 0 && byte f 7 == 0) && subscribed m.stream_ids (byte f 1)) ≡ true =
      rw (b1, b2, b7) sub in
    let begins : process_received_message_fragment m f now ≡ conclude (started stamped f, []) =
      ap (λ b. conclude (if b then continue stamped f else (start stamped f, []))) idle
      ∙ ap (λ x. conclude (x, [])) (start-opens stamped f opens) in
    subst (Begun msg stream (bit_and f.id 0x7F))
      (sym (begins ∙ conclude-going (started stamped f) (ground arith)))
      (
        refl,
        record {
          receiving = refl;
          stream = b1;
          canid = refl;
          sequence = refl;
          expecting = b34;
          room = fits;
          buffer = length-replicate {A = ℕ} m.receive_buffer_len 0;
          index = refl;
          received = refl;
          so_far = λ i lt. absurd (omega arith);
        },
      )
