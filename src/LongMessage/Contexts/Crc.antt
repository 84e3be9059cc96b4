-- ===== src/LongMessage/Contexts/Crc.antt =====
-- crc16 and crc32 of CBUSLongMessage.cpp.
use cbuspico_lib.Common.{
  ℕ, zero, suc, ◌+◌, ◌-◌, ◌*◌, ◌/◌, ◌%◌, ◌^◌, ◌≤◌, ◌<◌, bit_xor, List, [], ◌∷◌, arith, ◌==◌,
  if◌then◌else◌, u16,
}

-- `~x` of a word.
abbrev pub complement : ℕ → ℕ → ℕ
complement width x = 2 ^ width - 1 - x % 2 ^ width

-- One bit of a byte: it is shifted out, and the polynomial goes in where the lowest bits differ.
abbrev pub crc16_bit : ℕ → ℕ → ℕ
crc16_bit crc x = if crc % 2 == x % 2 then crc / 2 else bit_xor (crc / 2) 0x8408

unfoldable pub crc16_byte : ℕ → ℕ → ℕ → ℕ
crc16_byte zero crc x = crc
crc16_byte (suc rounds) crc x = crc16_byte rounds (crc16_bit crc x) (x / 2)

unfoldable pub crc16_bytes : ℕ → List ℕ → ℕ
crc16_bytes crc [] = crc
crc16_bytes crc (b ∷ bs) = crc16_bytes (crc16_byte 8 crc b) bs

-- The complement with its two bytes exchanged.
abbrev pub swap : ℕ → ℕ
swap crc = u16 (crc * 2 ^ 8) + crc / 2 ^ 8 % 2 ^ 8

-- The bytes up to the length; the complement of 0xFFFF for none.
unfoldable pub crc16 : List ℕ → ℕ
crc16 [] = 0
crc16 (b ∷ bs) = swap (complement 16 (crc16_bytes 0xFFFF (b ∷ bs)))

abbrev pub crc32_bit : ℕ → ℕ → ℕ
crc32_bit crc ch = if crc % 2 == ch % 2 then crc / 2 else bit_xor (crc / 2) 0xEDB88320

unfoldable pub crc32_byte : ℕ → ℕ → ℕ → ℕ
crc32_byte zero crc ch = crc
crc32_byte (suc rounds) crc ch = crc32_byte rounds (crc32_bit crc ch) (ch / 2)

unfoldable pub crc32_bytes : ℕ → List ℕ → ℕ
crc32_bytes crc [] = crc
crc32_bytes crc (b ∷ bs) = crc32_bytes (crc32_byte 8 crc b) bs

unfoldable pub crc32 : List ℕ → ℕ
crc32 s = complement 32 (crc32_bytes 0xFFFFFFFF s)

-- The checksum fits into the two bytes of a header.
pub crc16_bound : (s : List ℕ) → crc16 s < 2 ^ 16
unfolding crc16
crc16_bound [] = omega arith
crc16_bound (b ∷ bs) =
    let x = complement 16 (crc16_bytes 0xFFFF (b ∷ bs)) in
    let half : u16 (x * 2 ^ 8) ≤ 0xFF00 = omega arith in
    let low : x / 2 ^ 8 % 2 ^ 8 < 2 ^ 8 = omega arith in omega arith
