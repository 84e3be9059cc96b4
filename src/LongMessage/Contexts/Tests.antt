-- ===== src/LongMessage/Contexts/Tests.antt =====
-- CBUSLongMessageEx on concrete messages, and the theorems at inputs that meet their hypotheses.
use cbuspico_lib.Common.{
  ℕ, ◌+◌, ◌<◌, ◌≡◌, refl, inl, Bool, true, false, some, List, [], ◌∷◌, arith, ◌==◌, ==_iff,
  passes_below, passes_below_lem, get_or,
}
use cbuspico_lib.Frame.{CanFrame, empty_frame}
use cbuspico_lib.LongMessage.{new_long_message, set_delay}
use cbuspico_lib.LongMessage.Contexts.{
  LongMessageEx, ReceiveContext, SendContext, find, allocate_contexts, release_all,
  release_all_send,
}
use cbuspico_lib.LongMessage.Contexts.Crc.{
  crc16, crc16_bytes, crc16_byte, crc32, crc32_bytes, crc32_byte,
}
use cbuspico_lib.LongMessage.Contexts.Interleave.{
  hear, hear-Arrives, Arrives, IsMixed, next, other, complete,
}
use cbuspico_lib.LongMessage.Contexts.Send.{process, send_fragment}
use cbuspico_lib.LongMessage.Contexts.Turns.{IsPaced}
use cbuspico_lib.LongMessage.Contexts.Exchange.{exchange, exchange-Arrives}
use cbuspico_lib.LongMessage.Contexts.Safety.{
  IsWhole, run, run-IsWhole, receives, processes, allocate_contexts-IsWhole,
}
use cbuspico_lib.LongMessage.Receive.{subscribed}

-- "123456789"
abbrev digits : List ℕ
digits = b'1' ∷ b'2' ∷ b'3' ∷ b'4' ∷ b'5' ∷ b'6' ∷ b'7' ∷ b'8' ∷ b'9' ∷ []

-- The check value of the standard CRC-32.
crc32-digits : crc32 digits ≡ 0xCBF43926
unfolding crc32 crc32_bytes crc32_byte
crc32-digits = refl

-- The check value of CRC-16/X-25, 0x906E, with its bytes exchanged.
crc16-digits : crc16 digits ≡ 0x6E90
unfolding crc16 crc16_bytes crc16_byte
crc16-digits = refl

abbrev memory : ReceiveContext
memory = record {
  in_use = true;
  receive_stream_id = 0;
  sender_canid = 0;
  buffer = 7 ∷ 7 ∷ 7 ∷ 7 ∷ 7 ∷ 7 ∷ 7 ∷ 7 ∷ [];
  receive_buffer_index = 9;
  incoming_bytes_received = 0;
  incoming_message_length = 0;
  expected_next_receive_sequence_num = 0;
  incoming_message_crc = 0;
  last_fragment_received = 0;
  overran = false;
}

abbrev fresh : LongMessageEx
fresh = record {
  base = record new_long_message { stream_ids = 3 ∷ 4 ∷ [] };
  use_crc = true;
  receive_context = [];
  send_context = [];
  context = 0;
}

abbrev ready : LongMessageEx
ready = (allocate_contexts fresh 8 (some (memory ∷ memory ∷ [])) (some [])).0

-- Seven bytes on stream 3, from node 5.
abbrev message : List ℕ
message = 11 ∷ 12 ∷ 13 ∷ 14 ∷ 15 ∷ 16 ∷ 17 ∷ []

abbrev frame_of : ℕ → List ℕ → CanFrame
frame_of id bytes = record empty_frame { id = id; len = 8; bytes = bytes }

abbrev message_header : CanFrame
message_header = frame_of 5 (0xE9 ∷ 3 ∷ 0 ∷ 0 ∷ 7 ∷ 0 ∷ 0 ∷ 0 ∷ [])

-- A header of another node comes in between.
abbrev frames : List (CanFrame × ℕ)
frames =
    (frame_of 5 (0xE9 ∷ 3 ∷ 1 ∷ 11 ∷ 12 ∷ 13 ∷ 14 ∷ 15 ∷ []), 1)
    ∷ (frame_of 6 (0xE9 ∷ 3 ∷ 0 ∷ 0 ∷ 9 ∷ 0 ∷ 0 ∷ 0 ∷ []), 2)
    ∷ (frame_of 5 (0xE9 ∷ 3 ∷ 2 ∷ 16 ∷ 17 ∷ 0 ∷ 0 ∷ 0 ∷ []), 3)
    ∷ []

allocate_contexts-IsWhole_example : IsWhole ready
allocate_contexts-IsWhole_example =
    allocate_contexts-IsWhole fresh 8 (memory ∷ memory ∷ []) [] (omega arith) (omega arith)
      (refl, (refl, _))

run-IsWhole_example : IsWhole (run ready (receives message_header 4 ∷ processes 5 5 5 true ∷ []))
run-IsWhole_example = run-IsWhole ready (receives message_header 4 ∷ processes 5 5 5 true ∷ []) (
    allocate_contexts-IsWhole fresh 8 (memory ∷ memory ∷ []) [] (omega arith) (omega arith)
      (refl, (refl, _)))

abbrev carries_test : ℕ → List ℕ → ℕ → Bool
carries_test k bytes j = get_or bytes (j + 3) 0 == get_or message (k + j) 0

carries_first :
    (j : ℕ)
    → j < 5
    → get_or (0xE9 ∷ 3 ∷ 1 ∷ 11 ∷ 12 ∷ 13 ∷ 14 ∷ 15 ∷ []) (j + 3) 0 ≡ get_or message (0 + j) 0
unfolding passes_below
carries_first j lt =
    let bytes = 0xE9 ∷ 3 ∷ 1 ∷ 11 ∷ 12 ∷ 13 ∷ 14 ∷ 15 ∷ [] in
    (==_iff (get_or bytes (j + 3) 0) (get_or message (0 + j) 0)).0
      (passes_below_lem (carries_test 0 bytes) 5 j lt refl)

carries_second :
    (j : ℕ)
    → 5 + j < 7
    → get_or (0xE9 ∷ 3 ∷ 2 ∷ 16 ∷ 17 ∷ 0 ∷ 0 ∷ 0 ∷ []) (j + 3) 0 ≡ get_or message (5 + j) 0
unfolding passes_below
carries_second j lt =
    let below : j < 2 = omega arith in
    let bytes = 0xE9 ∷ 3 ∷ 2 ∷ 16 ∷ 17 ∷ 0 ∷ 0 ∷ 0 ∷ [] in
    (==_iff (get_or bytes (j + 3) 0) (get_or message (5 + j) 0)).0
      (passes_below_lem (carries_test 5 bytes) 2 j below refl)

frames-IsMixed : IsMixed message 3 5 0 1 frames
frames-IsMixed =
    next 0 1 _ 1 _
      (record {
        stream = refl;
        canid = refl;
        number = refl;
        carries = λ j lt lt'. carries_first j lt;
      })
      (other 5 2 _ 2 _ refl (
        next 5 2 _ 3 _
          (record {
            stream = refl;
            canid = refl;
            number = refl;
            carries = λ j lt lt'. carries_second j lt';
          })
          (complete 10 3 [] (omega arith))))

hear-Arrives_example : Arrives message 3 (hear ready ((message_header, 0) ∷ frames)).1
unfolding allocate_contexts release_all release_all_send subscribed find
hear-Arrives_example =
    hear-Arrives message 0 3 5 0 ready (record memory { in_use = false }) message_header 0 frames
      (omega arith) (omega arith) (omega arith) (inl refl)
      (record {
        stream_id = refl;
        sender = refl;
        number = refl;
        flags = refl;
        size = refl;
        checksum = refl;
      })
      refl refl (refl, (refl, _)) frames-IsMixed

-- A sender that is sending on stream 4 and has one more context.
abbrev sending_context : SendContext
sending_context = record {
  in_use = true;
  send_stream_id = 4;
  send_priority = 11;
  buffer = b'h' ∷ b'i' ∷ 0 ∷ [];
  send_buffer_len = 2;
  send_buffer_index = 0;
  send_sequence_num = 1;
  last_fragment_sent = 0;
}

abbrev sender : LongMessageEx
sender = record fresh {
  base = set_delay fresh.base 0;
  send_context = sending_context ∷ record sending_context { in_use = false } ∷ [];
}

abbrev greeting : List ℕ
greeting = b'g' ∷ b'o' ∷ b'o' ∷ b'd' ∷ b'd' ∷ b'a' ∷ b'y' ∷ []

exchange-Arrives_example :
    Arrives greeting 3 (exchange 5 sender ready greeting 3 11 100 (120 ∷ 140 ∷ 160 ∷ 180 ∷ []))
unfolding allocate_contexts release_all release_all_send subscribed find IsPaced process
    send_fragment
exchange-Arrives_example =
    exchange-Arrives 5 sender ready greeting 3 11 100 1 0 1
      (record sending_context { in_use = false }) (record memory { in_use = false })
      (120 ∷ 140 ∷ 160 ∷ 180 ∷ []) refl refl (omega arith) (omega arith) (omega arith) (omega arith)
      (refl, (refl, (refl, (refl, (refl, (refl, (refl, _))))))) (omega arith) (λ e. e) refl refl
      (refl, (refl, _)) (omega arith) (omega arith)
      (
        λ c found turn. omega arith,
        (
          λ c found turn. omega arith,
          (λ c found turn. omega arith, (λ c found turn. omega arith, _)),
        ),
      )
