-- ===== src/GridConnect/Codec.antt =====
-- encodeGC and decodeGC of GridConnectPicoW/CBUSGridConnect.cpp. A function with a `bool` result
-- and an out-parameter returns both, or an option where the caller drops the rest.
pub mod Encode
pub mod Decode
pub mod RoundTrip
pub mod Text
pub mod Sound
mod Tests
use cbuspico_lib.Common.{
  ℕ, zero, suc, ◌+◌, ◌-◌, ◌*◌, ◌/◌, ◌%◌, ◌^◌, min, Bool, true, false, ◌&&◌, ◌||◌, not, Option, none,
  some, List, ltb, leb, ◌==◌, if◌then◌else◌, get_or, set, replicate, u8, u16, u32, shr,
}
use cbuspico_lib.Frame.{CanFrame}
use cbuspico_lib.GridConnect.Hex.{
  hex_to_uint8, check_hex_chars, digit_value, upper, lower, isxdigit,
}

abbrev pub gc_max_msg : ℕ
gc_max_msg = 28

-- `gcMessage_t`: an array of `gc_max_msg` characters and the length in use.
pub record GcMessage : Type 0 where
  pub byte : List ℕ
  pub len : ℕ

abbrev pub blank : GcMessage
blank = record { byte = replicate gc_max_msg 0; len = 0 }

-- A write position in the message.
pub record Cursor : Type 0 where
  pub byte : List ℕ
  pub offset : ℕ

-- `gcMsg.byte[offset++] = c`
abbrev pub emit : Cursor → ℕ → Cursor
emit c x = record { byte = set c.byte c.offset x; offset = c.offset + 1 }

-- ":X" and the 29-bit identifier: bits 21 to 28, bits 18 to 20 with a gap below them, bits 16 and
-- 17, bits 0 to 15. `x & 0xE` is `x / 2 % 8 * 2`.
pub extended_header : ℕ → List ℕ → Cursor
extended_header id byte =
    let b0 = set byte 0 b':' in
    let b1 = set b0 1 b'X' in
    let b2 = set b1 2 (upper (shr id 21)) in
    let b3 = set b2 3 (lower (shr id 21)) in
    let b4 = set b3 4 (lower (shr id 17 / 2 % 8 * 2)) in
    let b5 = set b4 5 (lower (shr id 16 % 4)) in
    let b6 = set b5 6 (upper (shr id 8 % 2 ^ 8)) in
    let b7 = set b6 7 (lower (shr id 8 % 2 ^ 8)) in
    let b8 = set b7 8 (upper (id % 2 ^ 8)) in
    let b9 = set b8 9 (lower (id % 2 ^ 8)) in record { byte = b9; offset = 10 }

-- ":S" and the 11-bit identifier, shifted up by 5.
unfoldable pub standard_header : ℕ → List ℕ → Cursor
standard_header id byte =
    let can_id = u16 (id * 2 ^ 5) in
    let b0 = set byte 0 b':' in
    let b1 = set b0 1 b'S' in
    let b2 = set b1 2 (upper (shr can_id 8 % 2 ^ 8)) in
    let b3 = set b2 3 (lower (shr can_id 8 % 2 ^ 8)) in
    let b4 = set b3 4 (upper (can_id % 2 ^ 8)) in
    let b5 = set b4 5 (lower (can_id % 2 ^ 8)) in record { byte = b5; offset = 6 }

-- The loop over the data bytes, with the rounds left and the index `i`.
unfoldable pub encode_bytes : List ℕ → ℕ → ℕ → Cursor → Cursor
encode_bytes bytes zero i c = c
encode_bytes bytes (suc rounds) i c =
    encode_bytes bytes rounds (i + 1)
      (emit (emit c (upper (get_or bytes i 0))) (lower (get_or bytes i 0)))

-- What encodeGC refuses.
abbrev pub not_encodable : CanFrame → Bool
not_encodable f = ltb 8 f.len || (not f.ext && ltb 0x7FF f.id || f.ext && ltb 0x1FFFFFFF f.id)

-- The flag, the data and the terminator behind a header.
unfoldable pub finish : CanFrame → Cursor → GcMessage
finish f header =
    let flagged = emit header (if f.rtr then b'R' else b'N') in
    let body = encode_bytes f.bytes f.len 0 flagged in
    let closed = emit body b';' in record { byte = closed.byte; len = closed.offset }

unfoldable pub encode_gc : CanFrame → Bool × GcMessage
encode_gc f = if not_encodable f then (false, blank) else (
  true,
  finish f (if f.ext then extended_header f.id blank.byte else standard_header f.id blank.byte),
)

-- `std::strtol(&byte[i], nullptr, 16)` from a position that holds a hexadecimal digit: the digits up
-- to the first other character, at most LONG_MAX. (No sign, space or "0x" can stand there.)
pub strtol : List ℕ → ℕ → ℕ → ℕ → ℕ
strtol byte zero i value = value
strtol byte (suc rounds) i value =
    let c = get_or byte i 0 in
    let rest = strtol byte rounds (i + 1) (min (value * 16 + digit_value c) (2 ^ 31 - 1)) in
    if isxdigit c then rest else value

pub extended_id : List ℕ → ℕ
extended_id byte =
    let pair = λ (i : ℕ).
      hex_to_uint8
        (record { upper_nibble = get_or byte i 0; lower_nibble = get_or byte (i + 1) 0 }) in
    u32 (
      pair 2 * 2 ^ 21
      + pair 4 / 32 % 8 * 32 * 2 ^ 13
      + pair 4 % 4 * 2 ^ 16
      + pair 6 * 2 ^ 8
      + pair 8)

-- The loop over the data characters, with the rounds left, the index `i` and the read position.
pub decode_bytes : List ℕ → ℕ → ℕ → ℕ → List ℕ → Option (List ℕ)
decode_bytes byte zero i offset bytes = some bytes
decode_bytes byte (suc rounds) i offset bytes =
    let value =
      hex_to_uint8 (record {
        upper_nibble = get_or byte offset 0;
        lower_nibble = get_or byte (offset + 1) 0;
      }) in
    let rest = decode_bytes byte rounds (i + 1) (offset + 2) (set bytes i value) in
    if check_hex_chars byte offset 2 then rest else none

-- The length of the frame's data, from the characters between the flag and the terminator; `none` for an odd number or more
-- than 16. A negative even number is halved and cut to a `uint8_t`.
pub payload_length : ℕ → ℕ → Option ℕ
payload_length len offset =
    if leb (offset + 1) len
    then (let count = len - offset - 1 in
        if not (count % 2 == 0) || ltb 16 count then none else some (count / 2))
    else (let missing = offset + 1 - len in
        if missing % 2 == 0 then some (u8 (2 ^ 8 - missing / 2)) else none)

-- The data and the terminator, once the identifier and the flag are read.
pub decode_payload : GcMessage → CanFrame → ℕ → Option CanFrame
decode_payload m f offset = elim (payload_length m.len offset) [
  | none ↦ none
  | some n ↦ elim (decode_bytes m.byte n 0 offset f.bytes) [
    | none ↦ none
    | some bytes ↦
        if get_or m.byte (m.len - 1) 0 == b';'
        then some (record f { len = n; bytes = bytes })
        else none
  ]
]

-- The flag, at position `offset`.
pub decode_flag : GcMessage → CanFrame → ℕ → Option CanFrame
decode_flag m f offset =
    let c = get_or m.byte offset 0 in
    if c == b'R'
    then decode_payload m (record f { rtr = true }) (offset + 1)
    else (if c == b'N' then decode_payload m (record f { rtr = false }) (offset + 1) else none)

-- `none` is the result `false`, after which no caller reads the frame.
pub decode_gc : GcMessage → CanFrame → Option CanFrame
decode_gc m f =
    if ltb gc_max_msg m.len
    then none
    else (if not (get_or m.byte 0 0 == b':')
        then none
        else (if get_or m.byte 1 0 == b'X'
            then (if check_hex_chars m.byte 2 8
                then decode_flag m (record f { ext = true; id = extended_id m.byte }) 10
                else none)
            else (if get_or m.byte 1 0 == b'S'
                then (if check_hex_chars m.byte 2 4
                    then decode_flag m (record f { ext = false; id = shr (strtol m.byte 26 2 0) 5 })
                        6
                    else none)
                else none)))
