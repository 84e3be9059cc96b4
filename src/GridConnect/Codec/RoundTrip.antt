-- ===== src/GridConnect/Codec/RoundTrip.antt =====
-- decodeGC undoes encodeGC on every frame that encodeGC accepts.
use cbuspico_lib.Common.{
  ℕ, suc, ◌+◌, ◌-◌, ◌*◌, ◌%◌, ◌^◌, ◌≤◌, ◌<◌, min, ◌≡◌, refl, ap, ◌∙◌, subst, ◌⊎◌, inl, inr, Bool,
  true, false, some, List, ◌++◌, arith, ltb, if◌then◌else◌, Bool-cases, length, get_or, take,
  replicate, u8, u16, shr,
}
use cbuspico_lib.Frame.{CanFrame, AllBytes, empty_frame}
use cbuspico_lib.GridConnect.Hex.{
  upper, lower, check_hex_chars, hex_char_ok-upper, hex_char_ok-lower, hex_to_uint8-pair,
  hex_to_uint8-lower, strtol_digit-upper, strtol_digit-lower, isxdigit, digit_value,
}
use cbuspico_lib.GridConnect.Codec.{
  GcMessage, Cursor, blank, gc_max_msg, extended_header, standard_header, finish, encode_gc,
  not_encodable, payload_length, decode_payload, decode_flag, decode_gc, strtol, extended_id,
}
use cbuspico_lib.GridConnect.Codec.Encode.{IsFinished, finish-IsFinished}
use cbuspico_lib.GridConnect.Codec.Decode.{fill, fill_used, decode_bytes_lem}

-- A frame with eight data bytes.
pub record IsFrame (f : CanFrame) : Type 0 where
  pub width : length f.bytes ≡ 8
  pub byte_range : AllBytes f.bytes

module _ (f : CanFrame) (header : Cursor) (m : GcMessage) (v : IsFinished f header m)
    (w : IsFrame f) (short : f.len ≤ 8) where
  payload_length_lem : payload_length m.len (header.offset + 1) ≡ some f.len
  unfolding payload_length
  payload_length_lem = ground (arith, v.size)

  -- The data and the terminator are read back.
  decode_payload_lem :
      (g : CanFrame)
      → decode_payload m g (header.offset + 1)
        ≡ some (record g { len = f.len; bytes = fill f.bytes f.len 0 g.bytes })
  unfolding decode_payload
  decode_payload_lem g =
      let size = payload_length_lem in
      let data_back =
        decode_bytes_lem m.byte f.bytes f.len 0 (header.offset + 1) g.bytes w.byte_range
          (λ k p j ep ej lt.
            let e : j ≡ k = omega arith in rw e (v.data_at k p (omega arith) lt)) in
      rw (decode_payload, size, data_back, v.terminator)

  -- So is the flag.
  decode_flag_lem :
      (g : CanFrame)
      → decode_flag m g header.offset
        ≡ some (record g { rtr = f.rtr; len = f.len; bytes = fill f.bytes f.len 0 g.bytes })
  unfolding decode_flag
  decode_flag_lem g = elim (Bool-cases f.rtr) [
    | inl e ↦
        let c : get_or m.byte header.offset 0 ≡ b'R' = ground (arith, v.flag) in
        rw c (decode_payload_lem (record g { rtr = true }) ∙ rw e)
    | inr e ↦
        let c : get_or m.byte header.offset 0 ≡ b'N' = ground (arith, v.flag) in
        rw c (decode_payload_lem (record g { rtr = false }) ∙ rw e)
  ]

-- The eight characters of an extended identifier pass the check and give the identifier back.
module _ (f : CanFrame) (m : GcMessage) (v : IsFinished f (extended_header f.id blank.byte) m) where
  at_extended :
      (j : ℕ) → j < 10 → get_or m.byte j 0 ≡ get_or (extended_header f.id blank.byte).byte j 0
  unfolding extended_header
  at_extended j h = v.before j h

  extended_marks : (get_or m.byte 0 0 ≡ b':') × (get_or m.byte 1 0 ≡ b'X')
  unfolding extended_header
  extended_marks = (v.before 0 (omega arith), v.before 1 (omega arith))

  check_extended : check_hex_chars m.byte 2 8 ≡ true
  unfolding check_hex_chars extended_header
  check_extended =
      rw
        (
          at_extended 2 (omega arith),
          at_extended 3 (omega arith),
          at_extended 4 (omega arith),
          at_extended 5 (omega arith),
          at_extended 6 (omega arith),
          at_extended 7 (omega arith),
          at_extended 8 (omega arith),
          at_extended 9 (omega arith),
        )
        (simp (hex_char_ok-upper, hex_char_ok-lower))

  extended_id_lem : f.id ≤ 0x1FFFFFFF → extended_id m.byte ≡ f.id
  unfolding extended_id extended_header
  extended_id_lem small =
      rw
        (
          at_extended 2 (omega arith),
          at_extended 3 (omega arith),
          at_extended 4 (omega arith),
          at_extended 5 (omega arith),
          at_extended 6 (omega arith),
          at_extended 7 (omega arith),
          at_extended 8 (omega arith),
          at_extended 9 (omega arith),
        )
        (rw
          (
            hex_to_uint8-lower,
            hex_to_uint8-pair (shr f.id 21) (omega arith),
            hex_to_uint8-pair (shr f.id 8 % 2 ^ 8) (omega arith),
            hex_to_uint8-pair (f.id % 2 ^ 8) (omega arith),
          )
          (omega arith))

pub strtol-digit :
    (byte : List ℕ) (r i v : ℕ) (c d : ℕ)
    → get_or byte i 0 ≡ c
    → (isxdigit c ≡ true) × (digit_value c ≡ d)
    → v * 16 + d < 2 ^ 31
    → strtol byte (suc r) i v ≡ strtol byte r (i + 1) (v * 16 + d)
unfolding strtol
strtol-digit byte r i v c d e (x, value) h =
    let no_clamp : min (v * 16 + d) (2 ^ 31 - 1) ≡ v * 16 + d = omega arith in
    rw (e, x, value, no_clamp)

pub strtol-stop :
    (byte : List ℕ) (r i v : ℕ) → isxdigit (get_or byte i 0) ≡ false → strtol byte (suc r) i v ≡ v
unfolding strtol
strtol-stop byte r i v h = rw h

-- The four characters of a standard identifier, read by `strtol`, likewise.
module _ (f : CanFrame) (m : GcMessage) (v : IsFinished f (standard_header f.id blank.byte) m) where
  abbrev shifted : ℕ
  shifted = u16 (f.id * 2 ^ 5)

  at_standard :
      (get_or m.byte 2 0 ≡ upper (shr shifted 8 % 2 ^ 8))
      × (get_or m.byte 3 0 ≡ lower (shr shifted 8 % 2 ^ 8))
      × (get_or m.byte 4 0 ≡ upper (shifted % 2 ^ 8))
      × (get_or m.byte 5 0 ≡ lower (shifted % 2 ^ 8))
      × (get_or m.byte 6 0 ≡ (if f.rtr then b'R' else b'N'))
  unfolding standard_header
  at_standard = (
    v.before 2 (omega arith),
    v.before 3 (omega arith),
    v.before 4 (omega arith),
    v.before 5 (omega arith),
    v.flag,
  )

  standard_marks : (get_or m.byte 0 0 ≡ b':') × (get_or m.byte 1 0 ≡ b'S')
  unfolding standard_header
  standard_marks = (v.before 0 (omega arith), v.before 1 (omega arith))

  check_standard : check_hex_chars m.byte 2 4 ≡ true
  unfolding check_hex_chars
  check_standard =
      let (c2, c3, c4, c5, _) = at_standard in
      rw (c2, c3, c4, c5) (simp (hex_char_ok-upper, hex_char_ok-lower))

  strtol_lem : f.id ≤ 0x7FF → shr (strtol m.byte 26 2 0) 5 ≡ f.id
  strtol_lem small =
      let (c2, c3, c4, c5, c6) = at_standard in
      let stop : isxdigit (get_or m.byte 6 0) ≡ false = ground arith in
      let hi = shr shifted 8 % 2 ^ 8 in
      let lo = shifted % 2 ^ 8 in
      let v2 : ℕ = 0 * 16 + shr (u8 hi) 4 % 16 in
      let v3 : ℕ = v2 * 16 + u8 hi % 16 in
      let v4 : ℕ = v3 * 16 + shr (u8 lo) 4 % 16 in
      let v5 : ℕ = v4 * 16 + u8 lo % 16 in
      let read =
        strtol-digit m.byte 25 2 0 (upper hi) _ c2 (strtol_digit-upper hi) (omega arith)
        ∙ strtol-digit m.byte 24 3 v2 (lower hi) _ c3 (strtol_digit-lower hi) (omega arith)
        ∙ strtol-digit m.byte 23 4 v3 (upper lo) _ c4 (strtol_digit-upper lo) (omega arith)
        ∙ strtol-digit m.byte 22 5 v4 (lower lo) _ c5 (strtol_digit-lower lo) (omega arith)
        ∙ strtol-stop m.byte 21 6 v5 stop in
      rw read (omega arith)

-- What a frame becomes on the way: the data bytes that it does not use are zero.
abbrev pub used_part : CanFrame → CanFrame
used_part f = record f { bytes = take f.len f.bytes ++ replicate (8 - f.len) 0 }

header-extended :
    (id : ℕ)
    → ((extended_header id blank.byte).offset ≡ 10)
      × (length (extended_header id blank.byte).byte ≡ 28)
unfolding extended_header
header-extended id = (refl, refl)

header-standard :
    (id : ℕ)
    → ((standard_header id blank.byte).offset ≡ 6)
      × (length (standard_header id blank.byte).byte ≡ 28)
unfolding standard_header
header-standard id = (refl, refl)

-- The rest of the message, once the header has been read into `g`.
decode_rest :
    (f : CanFrame) (header : Cursor) (g : CanFrame)
    → IsFinished f header (finish f header)
    → IsFrame f
    → f.len ≤ 8
    → g.bytes ≡ replicate 8 0
    → decode_flag (finish f header) g header.offset
      ≡ some (record (used_part f) { id = g.id; ext = g.ext })
decode_rest f header g v w short e =
    decode_flag_lem f header (finish f header) v w short g
    ∙ rw (e, fill_used f.bytes f.len w.width short) refl

decode-extended :
    (f : CanFrame)
    → IsFrame f
    → f.ext ≡ true
    → f.len ≤ 8
    → f.id ≤ 0x1FFFFFFF
    → decode_gc (finish f (extended_header f.id blank.byte)) empty_frame ≡ some (used_part f)
unfolding decode_gc
decode-extended f w e short small =
    let header = extended_header f.id blank.byte in
    let m = finish f header in
    let v = finish-IsFinished f header (omega (arith, header-extended f.id)) in
    let fits : ltb gc_max_msg m.len ≡ false = ground (arith, v.size, header-extended f.id) in
    let (colon, kind) = extended_marks f m v in
    rw (fits, colon, kind, check_extended f m v, extended_id_lem f m v small)
      (subst
        (λ o. decode_flag m (record empty_frame { ext = true; id = f.id }) o ≡ some (used_part f))
        ((header-extended f.id).0)
        (decode_rest f header (record empty_frame { ext = true; id = f.id }) v w short refl ∙ rw e))

decode-standard :
    (f : CanFrame)
    → IsFrame f
    → f.ext ≡ false
    → f.len ≤ 8
    → f.id ≤ 0x7FF
    → decode_gc (finish f (standard_header f.id blank.byte)) empty_frame ≡ some (used_part f)
unfolding decode_gc
decode-standard f w e short small =
    let header = standard_header f.id blank.byte in
    let m = finish f header in
    let v = finish-IsFinished f header (omega (arith, header-standard f.id)) in
    let fits : ltb gc_max_msg m.len ≡ false = ground (arith, v.size, header-standard f.id) in
    let (colon, kind) = standard_marks f m v in
    rw (fits, colon, kind, check_standard f m v, strtol_lem f m v small)
      (subst
        (λ o. decode_flag m (record empty_frame { ext = false; id = f.id }) o ≡ some (used_part f))
        ((header-standard f.id).0)
        (decode_rest f header (record empty_frame { ext = false; id = f.id }) v w short refl
          ∙ rw e))

abbrev pub header_of : CanFrame → Bool → Cursor
header_of f x = if x then extended_header f.id blank.byte else standard_header f.id blank.byte

pub encode_gc-eq :
    (f : CanFrame) (x : Bool)
    → f.ext ≡ x
    → not_encodable f ≡ false
    → encode_gc f ≡ (true, finish f (header_of f x))
unfolding encode_gc
encode_gc-eq f x e h =
    ap (λ c. if c then (false, blank) else (true, finish f (header_of f f.ext))) h
    ∙ ap (λ y. (true, finish f (header_of f y))) e

encode_gc-refuses : (f : CanFrame) → not_encodable f ≡ true → (encode_gc f).0 ≡ false
unfolding encode_gc
encode_gc-refuses f h = rw h refl

-- A frame that encodeGC accepts is encoded into at most 28 characters, which decodeGC reads back as
-- the same frame, with the data bytes beyond its length zero.
pub decode_gc-encode_gc :
    (f : CanFrame)
    → IsFrame f
    → not_encodable f ≡ false
    → let (done, m) = encode_gc f in
      (done ≡ true) × (m.len ≤ gc_max_msg) × (decode_gc m empty_frame ≡ some (used_part f))
decode_gc-encode_gc f w h = elim (Bool-cases f.ext) [
  | inl e ↦
      let v = finish-IsFinished f (header_of f true) (ground (arith, header-extended f.id)) in
      rw (encode_gc-eq f true e h) (
        refl,
        ground (arith, v.size, header-extended f.id),
        decode-extended f w e (ground arith) (ground arith),
      )
  | inr e ↦
      let v = finish-IsFinished f (header_of f false) (ground (arith, header-standard f.id)) in
      rw (encode_gc-eq f false e h) (
        refl,
        ground (arith, v.size, header-standard f.id),
        decode-standard f w e (ground arith) (ground arith),
      )
]

-- The array that encodeGC fills is never longer than its 28 characters, nor the length in use.
pub encode_gc-cases :
    (f : CanFrame)
    → ((encode_gc f).0 ≡ false)
      ⊎ ((length (encode_gc f).1.byte ≡ gc_max_msg) × ((encode_gc f).1.len ≤ gc_max_msg))
encode_gc-cases f = elim (Bool-cases (not_encodable f)) [
  | inl refused ↦ inl (encode_gc-refuses f refused)
  | inr h ↦ inr (elim (Bool-cases f.ext) [
    | inl e ↦
        let v = finish-IsFinished f (header_of f true) (ground (arith, header-extended f.id)) in
        rw (encode_gc-eq f true e h) (
          omega (arith, v.room, header-extended f.id),
          ground (arith, v.size, header-extended f.id),
        )
    | inr e ↦
        let v = finish-IsFinished f (header_of f false) (ground (arith, header-standard f.id)) in
        rw (encode_gc-eq f false e h) (
          omega (arith, v.room, header-standard f.id),
          ground (arith, v.size, header-standard f.id),
        )
  ])
]
