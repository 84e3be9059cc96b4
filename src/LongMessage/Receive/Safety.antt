-- ===== src/LongMessage/Receive/Safety.antt =====
-- The receive buffer of CBUSLongMessage, whatever frames arrive.
use cbuspico_lib.Common.{
  ℕ, zero, suc, ◌+◌, ◌^◌, ◌≤◌, ◌<◌, bit_and, ◌≡◌, sym, ◌∙◌, subst, inl, inr, false, ◌&&◌, List, [],
  arith, ltb, leb, ◌==◌, if◌then◌else◌, Bool-cases, length, get_or, length-set, length-replicate,
  u32,
}
use cbuspico_lib.Frame.{CanFrame}
use cbuspico_lib.LongMessage.{LongMessage, Delivery}
use cbuspico_lib.LongMessage.Receive.{
  copy, continue, finish, start, conclude, process_received_message_fragment, rewind, take_byte,
  subscribed,
}

-- No byte was written outside the buffer, it has the length that is kept of it, and the index is at most at its end.
pub record IsSafe (m : LongMessage) : Type 0 where
  pub inside : m.overran ≡ false
  pub whole : length m.receive_buffer ≡ m.receive_buffer_len
  pub word : m.receive_buffer_len < 2 ^ 32
  pub bound : m.receive_buffer_index ≤ m.receive_buffer_len

rewind-IsSafe : (m : LongMessage) → IsSafe m → IsSafe (rewind m)
rewind-IsSafe m s = record {
  inside = ground (arith, s.inside, s.whole);
  whole = length-replicate {A = ℕ} m.receive_buffer_len 0;
  word = s.word;
  bound = omega arith;
}

copy-IsSafe :
    (f : CanFrame) (j rounds : ℕ) (m : LongMessage) → IsSafe m → IsSafe (copy m f j rounds).0
unfolding copy
copy-IsSafe f j zero m s = s
copy-IsSafe f j (suc rounds) m s =
    elim (Bool-cases (leb m.receive_buffer_len m.receive_buffer_index)) [
      | inl full ↦ rw full (rewind-IsSafe m s)
      | inr room ↦
          let taken : IsSafe (take_byte m (get_or f.bytes (j + 3) 0)) = record {
            inside = ground (arith, s.inside, s.whole);
            whole =
                length-set m.receive_buffer m.receive_buffer_index (get_or f.bytes (j + 3) 0)
                ∙ s.whole;
            word = s.word;
            bound = ground (arith, s.word);
          } in
          elim (Bool-cases (leb m.incoming_message_length (u32 (m.incoming_bytes_received + 1)))) [
            | inl ended ↦
                rw (room, ended) (rewind-IsSafe (take_byte m (get_or f.bytes (j + 3) 0)) taken)
            | inr going ↦
                rw (room, going)
                  (copy-IsSafe f (j + 1) rounds (take_byte m (get_or f.bytes (j + 3) 0)) taken)
          ]
    ]

start-IsSafe : (f : CanFrame) (m : LongMessage) → IsSafe m → IsSafe (start m f)
unfolding start
start-IsSafe f m s =
    elim (Bool-cases (
      (get_or f.bytes 2 0 == 0 && get_or f.bytes 7 0 == 0)
      && subscribed m.stream_ids (get_or f.bytes 1 0))) [
        | inl opens ↦ rw opens (record {
          inside = ground (arith, s.inside, s.whole);
          whole = length-replicate {A = ℕ} m.receive_buffer_len 0;
          word = s.word;
          bound = omega arith;
        })
        | inr other ↦ rw other s
      ]

continue-IsSafe : (f : CanFrame) (m : LongMessage) → IsSafe m → IsSafe (continue m f).0
unfolding continue
continue-IsSafe f m s =
    elim (Bool-cases
      (bit_and f.id 0x7F == m.sender_canid && get_or f.bytes 1 0 == m.receive_stream_id)) [
        | inr other ↦ rw other s
        | inl mine ↦
            elim (Bool-cases (get_or f.bytes 2 0 == m.expected_next_receive_sequence_num)) [
              | inl next ↦ rw (mine, next) (copy-IsSafe f 0 5 m s)
              | inr wrong ↦
                  rw (mine, wrong)
                    (record { inside = s.inside; whole = s.whole; word = s.word; bound = s.bound })
            ]
      ]

conclude-IsSafe : (r : LongMessage × List Delivery) → IsSafe r.0 → IsSafe (conclude r).0
unfolding conclude finish
conclude-IsSafe (m, calls) s =
    elim (Bool-cases (
      ltb 0 m.incoming_message_length && leb m.incoming_message_length m.incoming_bytes_received)) [
        | inl ends ↦
            rw ends
              (record { inside = s.inside; whole = s.whole; word = s.word; bound = omega arith })
        | inr going ↦
            rw going (record { inside = s.inside; whole = s.whole; word = s.word; bound = s.bound })
      ]

-- If no byte was written outside the receive buffer so far, the buffer has the length that is kept of it (less than
-- 2 ^ 32) and the index is at most at its end, then all this holds again after any frame, in whatever state the
-- receiver is: it writes only inside its buffer.
pub process_received_message_fragment-IsSafe :
    (m : LongMessage) (f : CanFrame) (now : ℕ)
    → IsSafe m
    → IsSafe (process_received_message_fragment m f now).0
unfolding process_received_message_fragment
process_received_message_fragment-IsSafe m f now s =
    let stamped = record m { last_fragment_received = now } in
    let s' : IsSafe stamped = record {
      inside = s.inside;
      whole = s.whole;
      word = s.word;
      bound = s.bound;
    } in
    conclude-IsSafe (if m.is_receiving then continue stamped f else (start stamped f, []))
      (elim (Bool-cases m.is_receiving) [
        | inl busy ↦
            subst (λ b. IsSafe (if b then continue stamped f else (start stamped f, [])).0)
              (sym busy) (continue-IsSafe f stamped s')
        | inr idle ↦
            subst (λ b. IsSafe (if b then continue stamped f else (start stamped f, [])).0)
              (sym idle) (start-IsSafe f stamped s')
      ])
