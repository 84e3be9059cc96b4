-- ===== src/Frame.antt =====
-- The CAN frame that every component passes on (class CANFrame of CBUSCircularBuffer.h).
use cbuspico_lib.Common.{ℕ, ◌^◌, ◌<◌, Bool, false, List, [], ◌∷◌, replicate}

pub record CanFrame : Type 0 where
  pub id : ℕ
  pub ext : Bool
  pub rtr : Bool
  pub len : ℕ
  pub bytes : List ℕ

-- A frame that is default-constructed: its members are `{}`.
abbrev pub empty_frame : CanFrame
empty_frame = record { id = 0; ext = false; rtr = false; len = 0; bytes = replicate 8 0 }

-- Every entry of an array is a `uint8_t`.
abbrev pub AllBytes : List ℕ → Type 0
AllBytes [] = Unit {0}
AllBytes (b ∷ bs) = (b < 2 ^ 8) × AllBytes bs
