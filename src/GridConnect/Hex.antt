-- ===== src/GridConnect/Hex.antt =====
-- Bytes as pairs of hexadecimal characters: uint8ToHex, hexToUint8 and checkHexChars of
-- GridConnectPicoW/CBUSGridConnect.cpp. A `char` is its code.
use cbuspico_lib.Common.{
  ℕ, zero, suc, ◌+◌, ◌-◌, ◌*◌, ◌%◌, ◌^◌, ◌<◌, ◌≡◌, refl, Bool, true, false, ◌&&◌, ◌||◌, List, [],
  ◌∷◌, arith, ltb, leb, ◌==◌, if◌then◌else◌, ==_iff, passes_below, passes_below_lem, get_or, u8,
  shr,
}

-- `hexByteChars_t`
pub record HexByteChars : Type 0 where
  pub lower_nibble : ℕ
  pub upper_nibble : ℕ

-- The table `HexChars` of uint8ToHex.
abbrev pub hex_chars : List ℕ
hex_chars =
    b'0' ∷ b'1' ∷ b'2' ∷ b'3' ∷ b'4' ∷ b'5' ∷ b'6' ∷ b'7' ∷ b'8' ∷ b'9' ∷ b'A' ∷ b'B' ∷ b'C' ∷ b'D'
    ∷ b'E' ∷ b'F' ∷ []

-- `x & 0x0f` is `x % 16`.
unfoldable pub uint8_to_hex : ℕ → HexByteChars
uint8_to_hex u = record {
  lower_nibble = get_or hex_chars (u8 u % 16) 0;
  upper_nibble = get_or hex_chars (shr (u8 u) 4 % 16) 0;
}

-- The value of a character, as the `uint8_t` arithmetic of hexToUint8 gives it.
unfoldable pub nibble_value : ℕ → ℕ
nibble_value c = if ltb c b'A' then u8 (c + 2 ^ 8 - b'0') else u8 (c + 10 + 2 ^ 8 - b'A')

unfoldable pub hex_to_uint8 : HexByteChars → ℕ
hex_to_uint8 h = u8 (nibble_value h.lower_nibble + nibble_value h.upper_nibble * 2 ^ 4)

-- `islower` and `isxdigit` of the C locale.
abbrev pub islower : ℕ → Bool
islower c = leb b'a' c && leb c b'z'

abbrev pub isxdigit : ℕ → Bool
isxdigit c = leb b'0' c && leb c b'9' || (leb b'A' c && leb c b'F' || leb b'a' c && leb c b'f')

-- One round of the loop of checkHexChars.
unfoldable pub hex_char_ok : ℕ → Bool
hex_char_ok c = if islower c then false else (if isxdigit c then true else false)

unfoldable pub check_hex_chars : List ℕ → ℕ → ℕ → Bool
check_hex_chars bytes start zero = true
check_hex_chars bytes start (suc count) =
    let rest = check_hex_chars bytes (start + 1) count in
    if hex_char_ok (get_or bytes start 0) then rest else false

-- The value that `strtol` gives a hexadecimal digit.
abbrev pub digit_value : ℕ → ℕ
digit_value c =
    if ltb c b'A' then c - b'0' else (if ltb c b'a' then c + 10 - b'A' else c + 10 - b'a')

-- The characters that uint8ToHex writes.
unfoldable pub upper : ℕ → ℕ
upper u = (uint8_to_hex u).upper_nibble

unfoldable pub lower : ℕ → ℕ
lower u = (uint8_to_hex u).lower_nibble

abbrev nibble_ok : ℕ → Bool
nibble_ok n =
    let c = get_or hex_chars n 0 in
    hex_char_ok c && ((nibble_value c == n) && (isxdigit c && (digit_value c == n)))

nibble_table : passes_below nibble_ok 16 ≡ true
unfolding passes_below hex_char_ok nibble_value
nibble_table = refl

&&-true : (a b : Bool) → (a && b) ≡ true → (a ≡ true) × (b ≡ true)
&&-true a b h = ground arith

-- What uint8ToHex writes passes the check of checkHexChars and stands for its nibble.
nibble_lem :
    (n : ℕ)
    → n < 16
    → let c = get_or hex_chars n 0 in
      (hex_char_ok c ≡ true) × (nibble_value c ≡ n) × (isxdigit c ≡ true) × (digit_value c ≡ n)
nibble_lem n h =
    let c = get_or hex_chars n 0 in
    let all = passes_below_lem nibble_ok 16 n h nibble_table in
    let (a, r) =
      &&-true (hex_char_ok c) ((nibble_value c == n) && (isxdigit c && (digit_value c == n))) all in
    let (b, r') = &&-true (nibble_value c == n) (isxdigit c && (digit_value c == n)) r in
    let (x, d) = &&-true (isxdigit c) (digit_value c == n) r' in
    (a, (==_iff _ n).0 b, x, (==_iff _ n).0 d)

pub hex_char_ok-upper : (u : ℕ) → hex_char_ok (upper u) ≡ true
unfolding uint8_to_hex upper
hex_char_ok-upper u = (nibble_lem (shr (u8 u) 4 % 16) (omega arith)).0

pub hex_char_ok-lower : (u : ℕ) → hex_char_ok (lower u) ≡ true
unfolding uint8_to_hex lower
hex_char_ok-lower u = (nibble_lem (u8 u % 16) (omega arith)).0

pub nibble_value-upper : (u : ℕ) → nibble_value (upper u) ≡ shr (u8 u) 4 % 16
unfolding uint8_to_hex upper
nibble_value-upper u = (nibble_lem (shr (u8 u) 4 % 16) (omega arith)).1

pub nibble_value-lower : (u : ℕ) → nibble_value (lower u) ≡ u8 u % 16
unfolding uint8_to_hex lower
nibble_value-lower u = (nibble_lem (u8 u % 16) (omega arith)).1

-- hexToUint8 undoes uint8ToHex on every byte.
pub hex_to_uint8-uint8_to_hex : (u : ℕ) → u < 2 ^ 8 → hex_to_uint8 (uint8_to_hex u) ≡ u
unfolding hex_to_uint8 uint8_to_hex upper lower
hex_to_uint8-uint8_to_hex u h = omega (arith, nibble_value-upper u, nibble_value-lower u)

pub hex_to_uint8-pair :
    (u : ℕ)
    → u < 2 ^ 8
    → hex_to_uint8 (record { lower_nibble = lower u; upper_nibble = upper u }) ≡ u
unfolding upper lower
hex_to_uint8-pair u h = hex_to_uint8-uint8_to_hex u h

pub strtol_digit-upper :
    (u : ℕ) → (isxdigit (upper u) ≡ true) × (digit_value (upper u) ≡ shr (u8 u) 4 % 16)
unfolding uint8_to_hex upper
strtol_digit-upper u = let (_, _, x, d) = nibble_lem (shr (u8 u) 4 % 16) (omega arith) in (x, d)

pub strtol_digit-lower : (u : ℕ) → (isxdigit (lower u) ≡ true) × (digit_value (lower u) ≡ u8 u % 16)
unfolding uint8_to_hex lower
strtol_digit-lower u = let (_, _, x, d) = nibble_lem (u8 u % 16) (omega arith) in (x, d)

pub hex_to_uint8-lower :
    (x y : ℕ)
    → hex_to_uint8 (record { lower_nibble = lower y; upper_nibble = lower x })
      ≡ u8 x % 16 * 16 + u8 y % 16
unfolding hex_to_uint8
hex_to_uint8-lower x y = rw (nibble_value-lower x, nibble_value-lower y) (omega arith)
