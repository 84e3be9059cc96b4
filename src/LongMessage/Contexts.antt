-- ===== src/LongMessage/Contexts.antt =====
-- The class CBUSLongMessageEx of CBUSLongMessage.cpp and CBUS.h: several long messages at once, each in its own
-- context. The arrays of contexts are lists, whose lengths are the numbers of contexts.
pub mod Crc
pub mod Receive
pub mod Send
pub mod Safety
pub mod Taking
pub mod Places
pub mod Owners
pub mod Interleave
pub mod Fragments
pub mod Turns
pub mod Exchange
mod Tests
use cbuspico_lib.Common.{
  ℕ, suc, ◌+◌, Bool, true, false, Option, none, some, List, [], ◌∷◌, if◌then◌else◌, u8,
}
use cbuspico_lib.LongMessage.{LongMessage}

-- `receive_context_t`; `overran` is not a member of it: it records that a byte was written outside the buffer.
pub record ReceiveContext : Type 0 where
  pub in_use : Bool
  pub receive_stream_id : ℕ
  pub sender_canid : ℕ
  pub buffer : List ℕ
  pub receive_buffer_index : ℕ
  pub incoming_bytes_received : ℕ
  pub incoming_message_length : ℕ
  pub expected_next_receive_sequence_num : ℕ
  pub incoming_message_crc : ℕ
  pub last_fragment_received : ℕ
  pub overran : Bool

-- `send_context_t`
pub record SendContext : Type 0 where
  pub in_use : Bool
  pub send_stream_id : ℕ
  pub send_priority : ℕ
  pub buffer : List ℕ
  pub send_buffer_len : ℕ
  pub send_buffer_index : ℕ
  pub send_sequence_num : ℕ
  pub last_fragment_sent : ℕ

-- The object: the members of the base class, and its own. `context` is the static variable of `process`.
pub record LongMessageEx : Type 0 where
  pub base : LongMessage
  pub use_crc : Bool
  pub receive_context : List ReceiveContext
  pub send_context : List SendContext
  pub context : ℕ

abbrev pub set_use_crc : LongMessageEx → Bool → LongMessageEx
set_use_crc m use_crc = record m { use_crc = use_crc }

-- The buffers are the contexts' own.
abbrev pub subscribe : LongMessageEx → List ℕ → LongMessageEx
subscribe m stream_ids = record m { base = record m.base { stream_ids = stream_ids } }

unfoldable pub release_all : List ReceiveContext → List ReceiveContext
release_all [] = []
release_all (c ∷ cs) = record c { in_use = false; overran = false } ∷ release_all cs

unfoldable pub release_all_send : List SendContext → List SendContext
release_all_send [] = []
release_all_send (c ∷ cs) = record c { in_use = false } ∷ release_all_send cs

-- allocateContexts, with the memory that malloc gave: contexts with anything in them, and buffers of the
-- length, into which nothing was written yet. What a call that runs out of memory leaves is not modelled.
unfoldable pub allocate_contexts :
    LongMessageEx
    → ℕ
    → Option (List ReceiveContext)
    → Option (List SendContext)
    → LongMessageEx × Bool
allocate_contexts m receive_buffer_len none sends = (m, false)
allocate_contexts m receive_buffer_len (some receives) none = (m, false)
allocate_contexts m receive_buffer_len (some receives) (some sends) = (
  record m {
    base = record m.base { receive_buffer_len = receive_buffer_len };
    receive_context = release_all receives;
    send_context = release_all_send sends;
  },
  true,
)

-- isSending: the number of contexts in use, a `uint8_t`.
unfoldable pub count_in_use : List SendContext → ℕ → ℕ
count_in_use [] n = n
count_in_use (c ∷ cs) n = count_in_use cs (if c.in_use then u8 (n + 1) else n)

abbrev pub is_sending : LongMessageEx → ℕ
is_sending m = count_in_use m.send_context 0

-- The first entry that passes a test, with its index.
abbrev pub shifted {ℓ} : {A : Type ℓ} → Option (ℕ × A) → Option (ℕ × A)
shifted none = none
shifted (some (i, c)) = some (suc i, c)

unfoldable pub find {ℓ} : {A : Type ℓ} → (A → Bool) → List A → Option (ℕ × A)
find test [] = none
find test (c ∷ cs) = let rest = find test cs in if test c then some (0, c) else shifted rest
