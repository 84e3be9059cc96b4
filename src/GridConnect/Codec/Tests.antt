-- ===== src/GridConnect/Codec/Tests.antt =====
-- Encoding and decoding of concrete frames, and the theorems at inputs that meet their hypotheses.
use cbuspico_lib.Common.{ℕ, ◌≤◌, ◌≡◌, refl, true, false, some, List, [], ◌∷◌, arith, replicate}
use cbuspico_lib.Frame.{CanFrame, empty_frame}
use cbuspico_lib.GridConnect.Hex.{
  hex_to_uint8, uint8_to_hex, nibble_value, upper, lower, check_hex_chars, hex_char_ok,
  hex_to_uint8-uint8_to_hex,
}
use cbuspico_lib.GridConnect.Codec.{
  gc_max_msg, encode_gc, decode_gc, finish, standard_header, encode_bytes, decode_flag,
  decode_payload, payload_length, decode_bytes, strtol, not_encodable,
}
use cbuspico_lib.GridConnect.Codec.RoundTrip.{IsFrame, used_part, decode_gc-encode_gc}
use cbuspico_lib.GridConnect.Codec.Sound.{decode_gc-encodable}

-- A long CBUS event, on with node 256 and event 5, as a standard frame.
abbrev event : CanFrame
event = record empty_frame { id = 0x5FD; len = 5; bytes = 0x90 ∷ 1 ∷ 0 ∷ 0 ∷ 5 ∷ 0 ∷ 0 ∷ 0 ∷ [] }

abbrev wide : CanFrame
wide = record empty_frame {
  id = 0x1ABCDEF5;
  ext = true;
  rtr = true;
  len = 8;
  bytes = 0xFF ∷ 1 ∷ 0x7E ∷ 0 ∷ 5 ∷ 0x80 ∷ 0 ∷ 9 ∷ [];
}

-- ":SBFA0N9001000005;"
abbrev event_text : List ℕ
event_text =
    b':'
    ∷ b'S'
    ∷ b'B'
    ∷ b'F'
    ∷ b'A'
    ∷ b'0'
    ∷ b'N'
    ∷ b'9'
    ∷ b'0'
    ∷ b'0'
    ∷ b'1'
    ∷ b'0'
    ∷ b'0'
    ∷ b'0'
    ∷ b'0'
    ∷ b'0'
    ∷ b'5'
    ∷ b';'
    ∷ replicate 10 0

encode_event : encode_gc event ≡ (true, record { byte = event_text; len = 18 })
unfolding encode_gc finish standard_header encode_bytes upper lower uint8_to_hex
encode_event = refl

decode_event : decode_gc (record { byte = event_text; len = 18 }) empty_frame ≡ some event
unfolding decode_gc decode_flag decode_payload payload_length decode_bytes strtol check_hex_chars
    hex_char_ok hex_to_uint8 nibble_value
decode_event = refl

encode_long : (encode_gc (record event { len = 9 })).0 ≡ false
unfolding encode_gc
encode_long = refl

event-IsFrame : IsFrame event
event-IsFrame = record { width = refl; byte_range = omega arith }

wide-IsFrame : IsFrame wide
wide-IsFrame = record { width = refl; byte_range = omega arith }

hex_to_uint8-uint8_to_hex_example : hex_to_uint8 (uint8_to_hex 0xA7) ≡ 0xA7
hex_to_uint8-uint8_to_hex_example = hex_to_uint8-uint8_to_hex 0xA7 (omega arith)

decode_gc-encode_gc_example :
    ((encode_gc wide).0 ≡ true)
    × ((encode_gc wide).1.len ≤ gc_max_msg)
    × (decode_gc (encode_gc wide).1 empty_frame ≡ some (used_part wide))
decode_gc-encode_gc_example = decode_gc-encode_gc wide wide-IsFrame refl

decode_gc-encodable_example : not_encodable event ≡ false
decode_gc-encodable_example =
    decode_gc-encodable (record { byte = event_text; len = 18 }) empty_frame event (omega arith)
      decode_event
