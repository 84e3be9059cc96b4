-- ===== src/Node/Enumerate.antt =====
-- Self-enumeration of CBUSbase: how a module finds a CAN ID that no other module on the bus uses.
pub mod Lowest
pub mod Answers
use cbuspico_lib.Common.{
  ℕ, zero, suc, ◌+◌, ◌-◌, ◌*◌, ◌/◌, ◌%◌, ◌^◌, bit_or, Bool, true, false, ◌&&◌, not, Option, none,
  some, List, [], ◌∷◌, ltb, leb, ◌==◌, if◌then◌else◌, get_or, set, replicate, u8, sub32, shr,
}
use cbuspico_lib.Frame.{CanFrame, empty_frame}
use cbuspico_lib.Config.{Driver}
use cbuspico_lib.Config.Storage.{set_canid}
use cbuspico_lib.Node.{Node, send_message}
use cbuspico_lib.Node.Sending.{send_opc_my_nn, send_cmderr}

abbrev pub opc_nnack : ℕ
opc_nnack = 0x52

abbrev pub cmderr_invalid_event : ℕ
cmderr_invalid_event = 7

abbrev pub enum_array_size : ℕ
enum_array_size = 16

abbrev pub enumeration_timeout : ℕ
enumeration_timeout = 100

abbrev pub enumeration_holdoff : ℕ
enumeration_holdoff = 200

-- The first byte that is not 0xFF, with its index.
unfoldable pub free_byte : ℕ → List ℕ → Option (ℕ × ℕ)
free_byte i [] = none
free_byte i (e ∷ responses) =
    let rest = free_byte (i + 1) responses in if e == 0xFF then rest else some (i, e)

-- The loop that shifts set bits out; it ends, since a byte that is not 0xFF has a clear bit within eight rounds.
unfoldable pub shift_out : ℕ → ℕ → ℕ → ℕ
shift_out zero result can_id = can_id
shift_out (suc rounds) result can_id =
    let rest = shift_out rounds (shr result 1) (u8 (can_id + 1)) in
    if result % 2 == 1 then rest else can_id

-- The ID of the lowest clear bit of a byte.
abbrev pub id_of : Option (ℕ × ℕ) → Option ℕ
id_of none = none
id_of (some (i, e)) = some (shift_out 8 e (u8 (i * 8)))

-- The lowest CAN ID whose bit is clear: bit id % 8 of byte id / 8.
unfoldable pub lowest_free : List ℕ → Option ℕ
lowest_free responses = id_of (free_byte 0 responses)

-- `bitWrite` of a bit to one.
abbrev pub set_bit : ℕ → ℕ → ℕ
set_bit byte k = bit_or byte (2 ^ k)

-- The clock as one call of `processEnumeration` reads it.
pub record Reads : Type 0 where
  pub holdoff_test : ℕ
  pub start_time : ℕ
  pub timeout_test : ℕ

module _ {Bus : Type 0} where
  unfoldable pub do_enum : Node Bus → Bool → Node Bus
  do_enum n send_result = record n {
    result_required = send_result;
    enumeration_required = if n.enumeration_in_progress then n.enumeration_required else true;
  }

  -- A write beyond the array of responses changes memory that is not modelled, and nothing here.
  unfoldable pub mark_response : Node Bus → ℕ → Node Bus
  mark_response n id = record n {
    enum_responses =
        set n.enum_responses (id / 16) (set_bit (get_or n.enum_responses (id / 16) 0) (id % 8));
  }

  -- Whether the frame is a message, with the frame as it is left; the clock is read at two places.
  unfoldable pub check_incoming_frame : Node Bus → CanFrame → ℕ → ℕ → Node Bus × (CanFrame × Bool)
  check_incoming_frame n msg conflict_time rtr_time =
      let noted =
        if n.enumeration_in_progress
        then mark_response n msg.id
        else if not n.enumeration_required && msg.id == n.config.can_id
        then record (do_enum n false) { enum_start_time = conflict_time }
        else n in
      if msg.rtr
      then (
        record (send_message noted (record msg { len = 0; rtr = false; ext = false })) {
          enum_start_time = rtr_time;
        },
        (record msg { len = 0 }, false),
      )
      else if msg.ext
      then (noted, (msg, false))
      else (noted, (record msg { len = if ltb 8 msg.len then 8 else msg.len }, ltb 0 msg.len))

  -- The request frame goes out, and the answers are cleared; ID 0 counts as taken.
  unfoldable pub start_enumeration : Node Bus → ℕ → Node Bus
  start_enumeration n now =
      send_message
        (record n {
          enum_responses = 1 ∷ replicate (enum_array_size - 1) 0;
          enumeration_in_progress = true;
          enumeration_required = true;
          enum_start_time = now;
        })
        (record empty_frame { rtr = true })

module _ {Bus : Type 0} (d : Driver Bus) where
  -- The answers are in: an ID is chosen, if it is one to 99.
  unfoldable pub choose_canid : Node Bus → Node Bus
  choose_canid n = elim (lowest_free n.enum_responses) [
    | none ↦ if n.result_required then send_cmderr n cmderr_invalid_event else n
    | some can_id ↦
        if leb 1 can_id && leb can_id 99
        then (let chosen = record n { config = (set_canid d n.config can_id).0 } in
            if n.result_required then send_opc_my_nn chosen opc_nnack 0 [] else chosen)
        else n
  ]

  unfoldable pub process_enumeration : Node Bus → Reads → Node Bus
  process_enumeration n r =
      if n.enumeration_required && ltb enumeration_holdoff (sub32 r.holdoff_test n.enum_start_time)
      then start_enumeration n r.start_time
      else if n.enumeration_in_progress
          && ltb enumeration_timeout (sub32 r.timeout_test n.enum_start_time)
      then record (choose_canid n) { enumeration_required = false; enumeration_in_progress = false }
      else n
