-- ===== src/GridConnect/Codec/Sound.antt =====
-- What decodeGC accepts from a TCP client is a frame that the CAN bus can carry.
use cbuspico_lib.Common.{
  ℕ, zero, suc, ◌+◌, ◌-◌, ◌*◌, ◌≤◌, ◌<◌, ◌≡◌, refl, ◌∙◌, ◌≢◌, ◌⊎◌, inl, inr, true, false, some,
  List, arith, ◌==◌, Bool-cases, get_or, shr,
}
use cbuspico_lib.Frame.{CanFrame}
use native.Mathlib.Decide.{dec_lt}
use cbuspico_lib.GridConnect.Codec.RoundTrip.{strtol-digit, strtol-stop}
use cbuspico_lib.GridConnect.Hex.{hex_to_uint8, check_hex_chars, hex_char_ok, isxdigit, digit_value}
use cbuspico_lib.GridConnect.Codec.{
  GcMessage, not_encodable, payload_length, decode_payload, decode_flag, decode_gc, strtol,
  extended_id,
}

hex_char_ok_lem :
    (c : ℕ) → hex_char_ok c ≡ true → (isxdigit c ≡ true) × (digit_value c ≤ 15) × (c ≢ b';')
unfolding hex_char_ok
hex_char_ok_lem c h = ground arith

-- Every character in the checked range is a digit.
check_hex_chars-at :
    (byte : List ℕ) (start count j : ℕ)
    → check_hex_chars byte start count ≡ true
    → start ≤ j
    → j < start + count
    → hex_char_ok (get_or byte j 0) ≡ true
unfolding check_hex_chars
check_hex_chars-at byte start zero j h lo hi = absurd (omega arith)
check_hex_chars-at byte start (suc count) j h lo hi = elim (Bool-cases (j == start)) [
  | inl e ↦ ground arith
  | inr e ↦ check_hex_chars-at byte (start + 1) count j (ground arith) (ground arith) (omega arith)
]

-- Reading on stops at the first other character, and `n` digits are below 16 ^ n.
strtol_four :
    (byte : List ℕ)
    → check_hex_chars byte 2 4 ≡ true
    → isxdigit (get_or byte 6 0) ≡ false
    → shr (strtol byte 26 2 0) 5 ≤ 0x7FF
strtol_four byte h stop =
    let d = λ (j : ℕ). get_or byte j 0 in
    let ok = λ (j : ℕ) (lo : 2 ≤ j) (hi : j < 2 + 4).
      hex_char_ok_lem (d j) (check_hex_chars-at byte 2 4 j h lo hi) in
    let (x2, b2, _) = ok 2 (omega arith) (omega arith) in
    let (x3, b3, _) = ok 3 (omega arith) (omega arith) in
    let (x4, b4, _) = ok 4 (omega arith) (omega arith) in
    let (x5, b5, _) = ok 5 (omega arith) (omega arith) in
    let v2 : ℕ = 0 * 16 + digit_value (d 2) in
    let v3 : ℕ = v2 * 16 + digit_value (d 3) in
    let v4 : ℕ = v3 * 16 + digit_value (d 4) in
    let read =
      strtol-digit byte 25 2 0 (d 2) _ refl (x2, refl) (omega arith)
      ∙ strtol-digit byte 24 3 v2 (d 3) _ refl (x3, refl) (omega arith)
      ∙ strtol-digit byte 23 4 v3 (d 4) _ refl (x4, refl) (omega arith)
      ∙ strtol-digit byte 22 5 v4 (d 5) _ refl (x5, refl) (omega arith)
      ∙ strtol-stop byte 21 6 _ stop in
    rw read (omega arith)

payload_lem :
    (m : GcMessage) (g : CanFrame) (o : ℕ) (h : CanFrame)
    → decode_payload m g o ≡ some h
    → (h.id ≡ g.id)
      × (h.ext ≡ g.ext)
      × (payload_length m.len o ≡ some h.len)
      × (get_or m.byte (m.len - 1) 0 ≡ b';')
unfolding decode_payload
payload_lem m g o h e = ground arith

flag_lem :
    (m : GcMessage) (g : CanFrame) (o : ℕ) (h : CanFrame)
    → decode_flag m g o ≡ some h
    → (h.id ≡ g.id)
      × (h.ext ≡ g.ext)
      × (payload_length m.len (o + 1) ≡ some h.len)
      × (get_or m.byte (m.len - 1) 0 ≡ b';')
      × ((get_or m.byte o 0 ≡ b'R') ⊎ (get_or m.byte o 0 ≡ b'N'))
unfolding decode_flag
flag_lem m g o h e = ground (
  arith,
  payload_lem m (record g { rtr = true }) (o + 1) h,
  payload_lem m (record g { rtr = false }) (o + 1) h,
)

-- A payload that ends behind the flag is at most eight bytes long.
payload_short : (len o n : ℕ) → payload_length len o ≡ some n → o < len → n ≤ 8
unfolding payload_length
payload_short len o n e h = ground arith

extended_id-le : (byte : List ℕ) → extended_id byte ≤ 0x1FFFFFFF
unfolding extended_id hex_to_uint8
extended_id-le byte = omega arith

-- A terminator that none of the first `o + 1` characters is stands behind them.
behind :
    (m : GcMessage) (o : ℕ)
    → 0 < m.len
    → get_or m.byte (m.len - 1) 0 ≡ b';'
    → ((j : ℕ) → j ≤ o → get_or m.byte j 0 ≢ b';')
    → o + 1 < m.len
behind m o pos last other = elim (dec_lt (o + 1) m.len) [
  | yes h ↦ h
  | no h ↦ absurd (other (m.len - 1) (omega arith) last)
]

no_terminator :
    (m : GcMessage) (count o : ℕ) (c : ℕ)
    → o ≡ 2 + count
    → get_or m.byte 0 0 ≡ b':'
    → get_or m.byte 1 0 ≡ c
    → c ≢ b';'
    → check_hex_chars m.byte 2 count ≡ true
    → (get_or m.byte o 0 ≡ b'R') ⊎ (get_or m.byte o 0 ≡ b'N')
    → (j : ℕ) → j ≤ o
    → get_or m.byte j 0 ≢ b';'
no_terminator m count o c eo colon kind ne digits flag zero h = omega arith
no_terminator m count o c eo colon kind ne digits flag (suc zero) h = omega arith
no_terminator m count o c eo colon kind ne digits flag (suc (suc j)) h =
    elim (Bool-cases (suc (suc j) == o)) [
      | inl e ↦ let at : suc (suc j) ≡ o = ground arith in rw at (ground arith)
      | inr e ↦
          (hex_char_ok_lem (get_or m.byte (suc (suc j)) 0)
            (check_hex_chars-at m.byte 2 count (suc (suc j)) digits (omega arith) (ground arith))).2
    ]

decode_cases :
    (m : GcMessage) (g f : CanFrame)
    → decode_gc m g ≡ some f
    → ((get_or m.byte 0 0 ≡ b':')
        × (get_or m.byte 1 0 ≡ b'X')
        × (check_hex_chars m.byte 2 8 ≡ true)
        × (decode_flag m (record g { ext = true; id = extended_id m.byte }) 10 ≡ some f))
      ⊎ ((get_or m.byte 0 0 ≡ b':')
          × (get_or m.byte 1 0 ≡ b'S')
          × (check_hex_chars m.byte 2 4 ≡ true)
          × (decode_flag m (record g { ext = false; id = shr (strtol m.byte 26 2 0) 5 }) 6
              ≡ some f))
unfolding decode_gc
decode_cases m g f e = ground arith

-- Whatever decodeGC accepts, encodeGC accepts too: the identifier fits its format, and the frame has
-- at most eight data bytes.
pub decode_gc-encodable :
    (m : GcMessage) (g f : CanFrame) → 0 < m.len → decode_gc m g ≡ some f → not_encodable f ≡ false
decode_gc-encodable m g f pos e = elim (decode_cases m g f e) [
  | inl (colon, kind, digits, rest) ↦
      let (i, x, size, last, flag) =
        flag_lem m (record g { ext = true; id = extended_id m.byte }) 10 f rest in
      let short = payload_short m.len 11 f.len size (
        behind m 10 pos last
          (no_terminator m 8 10 b'X' refl colon kind (omega arith) digits flag)) in
      ground (arith, extended_id-le m.byte)
  | inr (colon, kind, digits, rest) ↦
      let (i, x, size, last, flag) =
        flag_lem m (record g { ext = false; id = shr (strtol m.byte 26 2 0) 5 }) 6 f rest in
      let short = payload_short m.len 7 f.len size (
        behind m 6 pos last (no_terminator m 4 6 b'S' refl colon kind (omega arith) digits flag)) in
      let stop : isxdigit (get_or m.byte 6 0) ≡ false = ground arith in
      ground (arith, strtol_four m.byte digits stop)
]
