-- ===== src/LongMessage/Tests.antt =====
-- A message of seven bytes in two fragments.
use cbuspico_lib.Common.{ℕ, ◌≡◌, refl, true, List, [], ◌∷◌, arith, replicate}
use cbuspico_lib.Frame.{CanFrame, empty_frame}
use cbuspico_lib.LongMessage.{LongMessage, new_long_message, subscribe}
use cbuspico_lib.LongMessage.Receive.{process_received_message_fragment, subscribed}
use cbuspico_lib.LongMessage.Receive.Safety.{IsSafe, process_received_message_fragment-IsSafe}
use cbuspico_lib.LongMessage.Receive.Taking.{IsReceiving}
use cbuspico_lib.LongMessage.Receive.Interrupted.{GaveUp, interrupted-GaveUp}
use cbuspico_lib.LongMessage.Transfer.{Arrived, exchange, exchange-Arrived}

abbrev letters : List ℕ
letters = 99 ∷ 98 ∷ 117 ∷ 115 ∷ 45 ∷ 52 ∷ 50 ∷ []

abbrev listener : LongMessage
listener = subscribe new_long_message (3 ∷ 5 ∷ []) (replicate 16 0)

exchange-Arrived_example :
    Arrived letters 5 (exchange 0x5A1 new_long_message listener letters 5 0xB 7 (20 ∷ 41 ∷ 70 ∷ []))
unfolding subscribed
exchange-Arrived_example =
    exchange-Arrived 0x5A1 new_long_message listener letters 5 0xB 7 (20 ∷ 41 ∷ 70 ∷ []) refl refl
      refl (omega arith) (omega arith) (omega arith) (omega arith)
      (omega arith, (omega arith, (omega arith, tt)))

abbrev stray : CanFrame
stray = record empty_frame { id = 0x5A1; len = 8; bytes = 0xE9 ∷ 5 ∷ 0 ∷ 0 ∷ 7 ∷ 0 ∷ 0 ∷ 0 ∷ [] }

listener-IsSafe : IsSafe listener
listener-IsSafe = record { inside = refl; whole = refl; word = omega arith; bound = omega arith }

process_received_message_fragment-IsSafe_example :
    IsSafe (process_received_message_fragment listener stray 9).0
process_received_message_fragment-IsSafe_example =
    process_received_message_fragment-IsSafe listener stray 9 listener-IsSafe

-- A receiver that waits for the first fragment of the message, from CAN ID 0x21 on stream 5.
abbrev waiting : LongMessage
waiting = record listener {
  is_receiving = true;
  receive_stream_id = 5;
  sender_canid = 0x21;
  expected_next_receive_sequence_num = 1;
  incoming_message_length = 7;
}

waiting-IsReceiving :
    IsReceiving letters (record { stream = 5; canid = 0x21; sequence = 1 }) 0 waiting
waiting-IsReceiving = record {
  receiving = refl;
  stream = refl;
  canid = refl;
  sequence = refl;
  expecting = refl;
  room = omega arith;
  buffer = refl;
  index = refl;
  received = refl;
  so_far = λ i lt. absurd (omega arith);
}

abbrev fragment : CanFrame
fragment = record empty_frame {
  id = 0x5A1;
  len = 8;
  bytes = 0xE9 ∷ 5 ∷ 1 ∷ 99 ∷ 98 ∷ 117 ∷ 115 ∷ 45 ∷ [];
}

abbrev foreign : CanFrame
foreign = record empty_frame { id = 0x5A2; len = 8; bytes = 0xE9 ∷ 3 ∷ 0 ∷ 0 ∷ 9 ∷ 0 ∷ 0 ∷ 0 ∷ [] }

interrupted-GaveUp_example :
    ((process_received_message_fragment waiting foreign 10).1 ≡ [])
    × GaveUp (
        process_received_message_fragment
          (process_received_message_fragment waiting foreign 10).0
          fragment
          20)
interrupted-GaveUp_example =
    interrupted-GaveUp letters (record { stream = 5; canid = 0x21; sequence = 1 }) 0 waiting foreign
      fragment 10 20 waiting-IsReceiving (omega arith) (omega arith) refl refl refl refl
