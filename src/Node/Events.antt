-- ===== src/Node/Events.antt =====
-- Events that a module hears: parseCBUSMsg and parseCBUSEvent of CBUSbase. The call of the application's handler
-- is a result.
use cbuspico_lib.Common.{
  ℕ, ◌+◌, ◌*◌, ◌%◌, ◌^◌, bit_and, Bool, true, false, ◌&&◌, not, Option, none, some, ltb, ◌==◌,
  if◌then◌else◌, u16,
}
use cbuspico_lib.Frame.{CanFrame}
use cbuspico_lib.Config.{Driver}
use cbuspico_lib.Config.Events.{find_existing_event, get_event_ev_val}
use cbuspico_lib.Node.{Node}
use cbuspico_lib.Node.Commands.{data_byte, event_of}
use cbuspico_lib.Node.Commands.Dispatch.{parse_flim_cmd}

-- A call of the plain or of the extended handler.
pub data HandlerCall : Type 0 where
  event_handler_call : ℕ → CanFrame → HandlerCall
  event_handler_ex_call : ℕ → CanFrame → Bool → ℕ → HandlerCall

abbrev pub event_set_mask : ℕ
event_set_mask = 0x90

abbrev pub event_clr_mask : ℕ
event_clr_mask = 0x06

abbrev pub event_short_mask : ℕ
event_short_mask = 0x08

-- An opcode of an event: the bits of one mask are set, and those of the other are clear.
unfoldable pub is_event : ℕ → Bool
is_event opc = bit_and opc event_set_mask == event_set_mask && bit_and opc event_clr_mask == 0

module _ {Bus : Type 0} (d : Driver Bus) where
  -- A short event has the node number zero.
  unfoldable pub note_event : Node Bus → CanFrame → Node Bus
  note_event n msg = record n {
    node_number =
        if not (bit_and (data_byte msg 0) event_short_mask == 0)
        then 0
        else u16 (data_byte msg 1 * 2 ^ 8 + data_byte msg 2);
    event_number = u16 (data_byte msg 3 * 2 ^ 8 + data_byte msg 4);
  }

  unfoldable pub parse_cbus_event : Node Bus → CanFrame → Node Bus × Option HandlerCall
  parse_cbus_event before msg =
      let n = note_event before msg in
      let index = find_existing_event d n.config (event_of n) in
      if ltb index n.config.max_events
      then (
        n,
        if n.event_handler
            then some (event_handler_call index msg)
            else if n.event_handler_ex
            then some (
                event_handler_ex_call index msg (data_byte msg 0 % 2 == 0)
                  (if ltb 0 n.config.num_evs then get_event_ev_val d n.config index 1 else 0))
            else none,
      )
      else (n, none)

  -- Whether the message was consumed, and the call of a handler.
  unfoldable pub parse_cbus_msg : Node Bus → CanFrame → Node Bus × (Bool × Option HandlerCall)
  parse_cbus_msg n msg =
      if is_event (data_byte msg 0)
      then (let (n', call) = parse_cbus_event n msg in
          (n', (elim call [ none ↦ false | some _ ↦ true ], call)))
      else (let (n', consumed) = parse_flim_cmd d n msg in (n', (consumed, none)))
