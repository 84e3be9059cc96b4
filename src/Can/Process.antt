-- ===== src/Can/Process.antt =====
-- CBUSbase::process of CBUS.cpp, as a CBUSACAN2040 runs it: the messages from the module itself, from Grid Connect clients
-- and from the bus.
pub mod Order
use cbuspico_lib.Common.{
  ℕ, ◌+◌, ◌*◌, ◌/◌, ◌^◌, Bool, true, false, ◌&&◌, ◌||◌, not, Option, none, some, List, [], ◌∷◌,
  ◌++◌, ltb, leb, ◌==◌, if◌then◌else◌, length,
}
use cbuspico_lib.Frame.{CanFrame}
use cbuspico_lib.CircularBuffer.{CircularBuffer}
use cbuspico_lib.CircularBuffer as Ring
use cbuspico_lib.Config.{Driver}
use cbuspico_lib.Led as Led
use cbuspico_lib.Switch as Switch
use cbuspico_lib.Node.{Node}
use cbuspico_lib.Node.Commands.{data_byte}
use cbuspico_lib.Node.Events.{HandlerCall, parse_cbus_msg}
use cbuspico_lib.Node.Flim.{flim_sw_check}
use cbuspico_lib.Node.Enumerate as Enumerate
use cbuspico_lib.GridConnect.Server.{Server}
use cbuspico_lib.GridConnect.Server.Send.{Answers, can_send}
use cbuspico_lib.GridConnect.Server.Client as Client
use cbuspico_lib.GridConnect.Server.Client.{item_at}
use cbuspico_lib.Can.{Can, available, get_next_message, forward, ring_available}

-- What one round of the loop is told: the free room of the connection, the stack's answers, and the clock.
pub record Round : Type 0 where
  pub free : ℕ
  pub answers : Answers
  pub pulse_time : ℕ
  pub led_reads : Led.Reads

abbrev pub gc_available : {P : Type 0} → Option (Server P) → Bool
gc_available none = false
gc_available (some s) = Client.available s

abbrev pub gc_can_send : {P : Type 0} → Option (Server P) → ℕ → Bool
gc_can_send none free = true
gc_can_send (some s) free = can_send free

-- The opcode is in the list.
unfoldable pub listed : List ℕ → ℕ → Bool
listed [] opc = false
listed (o ∷ opcodes) opc = opc == o || listed opcodes opc

-- Whether a frame is directed at this node.
unfoldable pub is_this_nn : {Bus : Type 0} → Node Bus → CanFrame → Bool
is_this_nn n msg =
    leb 2 (data_byte msg 0 / 2 ^ 5)
    && data_byte msg 1 * 2 ^ 8 + data_byte msg 2 == n.config.node_num

-- The activity light of the mode.
unfoldable pub show_activity : {Bus : Type 0} → Round → Node Bus → Bool → Node Bus
show_activity r n consumed =
    if n.config.flim
    then record n { led_grn = (Led.pulse n.led_grn (not consumed) r.pulse_time r.led_reads).0 }
    else record n { led_ylw = (Led.pulse n.led_ylw (not consumed) r.pulse_time r.led_reads).0 }

abbrev pub note_call : List HandlerCall → Option HandlerCall → List HandlerCall
note_call calls none = calls
note_call calls (some call) = calls ++ call ∷ []

module _ {Bus : Type 0} {P : Type 0} where
  -- A message on one of the queues.
  unfoldable pub any_available : Can Bus P → Bool
  any_available c = available c || (gc_available c.gc_server || ring_available c.node.coe_obj)

  -- From the module's own events; the queue is there, since it has a message.
  abbrev pub take_own : Can Bus P → Option CircularBuffer → Can Bus P × Option CanFrame
  take_own c none = (c, none)
  take_own c (some b) =
      let (b', slot) = Ring.get b in
      (record c { node = record c.node { coe_obj = some b' } }, item_at b slot)

  abbrev pub take_gc : Can Bus P → Option (Server P) → Can Bus P × Option CanFrame
  take_gc c none = (c, none)
  take_gc c (some s) = let (s', msg) = Client.get s in (record c { gc_server = some s' }, msg)

  abbrev pub forwarded : Answers → Can Bus P × Option CanFrame → Can Bus P × Option CanFrame
  forwarded a (c, none) = (c, none)
  forwarded a (c, some msg) =
      (record c { gc_server = forward a c.gc_server msg (available c) }, some msg)

  -- The message of a round, and `none` when the round is skipped.
  unfoldable pub pick : Round → Can Bus P → Can Bus P × Option CanFrame
  pick r c =
      if ring_available c.node.coe_obj
      then take_own c c.node.coe_obj
      else if gc_available c.gc_server
      then take_gc c c.gc_server
      else if available c && gc_can_send c.gc_server r.free
      then forwarded r.answers (get_next_message c)
      else (c, none)

  -- The application's frame handler.
  unfoldable pub call_frame_handler : Can Bus P → CanFrame → Can Bus P
  call_frame_handler c msg =
      let wanted = if ltb 0 (length c.opcodes) then listed c.opcodes (data_byte msg 0) else true in
      if c.frame_handler && wanted then record c { handled = c.handled ++ msg ∷ [] } else c

module _ {Bus : Type 0} {P : Type 0} (d : Driver Bus) where
  -- The rest of a round, with its message.
  unfoldable pub handle_message : Round → Can Bus P → CanFrame → Can Bus P
  handle_message r c msg =
      let marked = record c { node = record c.node { this_nn = is_this_nn c.node msg } } in
      let called = call_frame_handler marked msg in
      let (n, (consumed, call)) = parse_cbus_msg d called.node msg in
      record called { node = show_activity r n consumed; heard = note_call called.heard call }

  abbrev pub handle_picked : Round → Can Bus P × Option CanFrame → Can Bus P
  handle_picked r (c, none) = c
  handle_picked r (c, some msg) = handle_message r c msg

  unfoldable pub round : Round → Can Bus P → Can Bus P
  round r c = handle_picked r (pick r c)

  -- The loop, with what each of its rounds is told: as many as it may handle.
  unfoldable pub process_messages : List Round → Can Bus P → Can Bus P
  process_messages [] c = c
  process_messages (r ∷ rounds) c =
      let rest = process_messages rounds (round r c) in if any_available c then rest else c

  -- The clock as the start of `process` reads it.
  unfoldable pub process_ui :
      Can Bus P → Led.Reads → Led.Reads → Switch.Reads → ℕ → Enumerate.Reads → Can Bus P
  process_ui c grn ylw sw now enum =
      let n = c.node in
      let lit = record n {
        led_grn = (Led.run n.led_grn grn).0;
        led_ylw = (Led.run n.led_ylw ylw).0;
        sw = Switch.run n.sw sw;
      } in
      record c { node = Enumerate.process_enumeration d (flim_sw_check d lit now) enum }

  unfoldable pub process :
      Can Bus P
      → Led.Reads
      → Led.Reads
      → Switch.Reads
      → ℕ
      → Enumerate.Reads
      → List Round
      → Can Bus P
  process c grn ylw sw now enum rounds = process_messages rounds (process_ui c grn ylw sw now enum)
