-- ===== src/Common/Words.antt =====
-- Machine words: a `uintN_t` is a natural number below 2 ^ N, and its wrap-around is written out.
use Prim.Native.Nat.{ℕ, ◌+◌, ◌-◌, ◌/◌, ◌%◌, ◌^◌}

abbrev pub u8 : ℕ → ℕ
u8 x = x % 2 ^ 8

abbrev pub u16 : ℕ → ℕ
u16 x = x % 2 ^ 16

abbrev pub u32 : ℕ → ℕ
u32 x = x % 2 ^ 32

-- `uint32_t` subtraction wraps: the elapsed time of a running counter.
abbrev pub sub32 : ℕ → ℕ → ℕ
sub32 a b = (a + 2 ^ 32 - b) % 2 ^ 32

-- `x >> k`
abbrev pub shr : ℕ → ℕ → ℕ
shr x k = x / 2 ^ k

-- `lowByte` and `highByte` of CBUSUtil.h
abbrev pub low_byte : ℕ → ℕ
low_byte w = w % 2 ^ 8

abbrev pub high_byte : ℕ → ℕ
high_byte w = w / 2 ^ 8 % 2 ^ 8
