-- ===== src/Node/Sending.antt =====
-- The send functions of CBUSbase: what frame each of them makes.
pub mod Own
use cbuspico_lib.Common.{
  ℕ, ◌+◌, ◌*◌, ◌^◌, bit_and, bit_or, Bool, Option, none, some, List, [], ◌∷◌, ltb, ◌==◌,
  if◌then◌else◌, get_or, set, u8, u16, low_byte, high_byte,
}
use cbuspico_lib.Frame.{CanFrame, empty_frame}
use cbuspico_lib.CircularBuffer.{CircularBuffer, put}
use cbuspico_lib.Node.{Node, send_message}

-- The opcodes and error codes of the bus.
abbrev pub opc_wrack : ℕ
opc_wrack = 0x59

abbrev pub opc_cmderr : ℕ
opc_cmderr = 0x6F

abbrev pub opc_acon : ℕ
opc_acon = 0x90

abbrev pub opc_acdat : ℕ
opc_acdat = 0xF6

-- `makeHeader_impl`
unfoldable pub make_header : CanFrame → ℕ → ℕ → CanFrame
make_header msg id priority = record msg { id = priority * 2 ^ 7 + bit_and id 0x7F }

-- The opcode of an event: short if its node is zero, off, and with the number of data bytes.
unfoldable pub event_opc : ℕ → Bool → ℕ → ℕ
event_opc event_node on_event data_len =
    let short = if event_node == 0 then bit_or opc_acon 0x08 else opc_acon in
    let off = if on_event then short else bit_or short 0x01 in
    if ltb 0 data_len then u8 (bit_or off (data_len * 2 ^ 5)) else off

-- The copy of a frame for the module itself, if it consumes its own events.
abbrev pub keep_own : Option CircularBuffer → ℕ → CanFrame → Option CircularBuffer
keep_own none now frame = none
keep_own (some b) now frame = some (put b now frame)

module _ {Bus : Type 0} where
  unfoldable pub send_single_opc : Node Bus → ℕ → Node Bus
  send_single_opc n opc = send_message n (record empty_frame {
    id = n.config.can_id;
    len = 1;
    bytes = opc ∷ 0 ∷ 0 ∷ 0 ∷ 0 ∷ 0 ∷ 0 ∷ 0 ∷ [];
  })

  -- The first two data bytes after the opcode are a node number.
  unfoldable pub send_msg_nn : Node Bus → CanFrame → ℕ → Node Bus
  send_msg_nn n frame node_id =
      send_message n
        (record frame { bytes = set (set frame.bytes 1 (high_byte node_id)) 2 (low_byte node_id) })

  unfoldable pub send_msg_my_nn : Node Bus → CanFrame → Node Bus
  send_msg_my_nn n frame = send_msg_nn n frame n.config.node_num

  -- Opcode, node number and up to five bytes: `data` are the bytes of the arguments, zero if they are left out.
  unfoldable pub opc_frame : Node Bus → ℕ → ℕ → List ℕ → CanFrame
  opc_frame n opc data_len args = record empty_frame {
    id = n.config.can_id;
    len = u8 (3 + data_len);
    bytes =
        opc
        ∷ 0
        ∷ 0
        ∷ get_or args 0 0
        ∷ get_or args 1 0
        ∷ get_or args 2 0
        ∷ get_or args 3 0
        ∷ get_or args 4 0
        ∷ [];
  }

  unfoldable pub send_opc_my_nn : Node Bus → ℕ → ℕ → List ℕ → Node Bus
  send_opc_my_nn n opc data_len args = send_msg_my_nn n (opc_frame n opc data_len args)

  unfoldable pub send_opc_nn : Node Bus → ℕ → ℕ → ℕ → List ℕ → Node Bus
  send_opc_nn n opc node_id data_len args = send_msg_nn n (opc_frame n opc data_len args) node_id

  -- The frame of an event, in which the node number is not filled in yet.
  abbrev pub event_frame : Node Bus → ℕ → ℕ → Bool → ℕ → List ℕ → CanFrame
  event_frame n event_node event_num on_event data_len args = record empty_frame {
    id = n.config.can_id;
    len = u8 (5 + data_len);
    bytes =
        event_opc event_node on_event data_len
        ∷ 0
        ∷ 0
        ∷ high_byte event_num
        ∷ low_byte event_num
        ∷ get_or args 0 0
        ∷ get_or args 1 0
        ∷ get_or args 2 0
        ∷ [];
  }

  -- The clock is the time stamp of the copy in the module's own buffer.
  unfoldable pub send_event_with_data : Node Bus → ℕ → ℕ → Bool → ℕ → List ℕ → ℕ → Node Bus
  send_event_with_data n event_node event_num on_event data_len args now =
      let node_id = if event_node == 0 then u16 n.config.node_num else event_node in
      let frame = event_frame n event_node event_num on_event data_len args in
      send_msg_nn (record n { coe_obj = keep_own n.coe_obj now frame }) frame node_id

  unfoldable pub send_event : Node Bus → ℕ → ℕ → Bool → ℕ → Node Bus
  send_event n event_node event_num on_event now =
      send_event_with_data n event_node event_num on_event 0 [] now

  unfoldable pub send_my_event : Node Bus → ℕ → Bool → ℕ → Node Bus
  send_my_event n event_num on_event now =
      send_event_with_data n (u16 n.config.node_num) event_num on_event 0 [] now

  unfoldable pub send_data_event : Node Bus → ℕ → List ℕ → Node Bus
  send_data_event n node_id args =
      send_msg_nn n (record (opc_frame n opc_acdat 5 args) { len = 8 }) node_id

  unfoldable pub send_wrack : Node Bus → Node Bus
  send_wrack n = send_opc_my_nn n opc_wrack 0 []

  unfoldable pub send_cmderr : Node Bus → ℕ → Node Bus
  send_cmderr n cerrno = send_opc_my_nn n opc_cmderr 1 (cerrno ∷ [])
