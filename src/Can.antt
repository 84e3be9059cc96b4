-- ===== src/Can.antt =====
-- The class CBUSACAN2040 of CBUSACAN2040.cpp: a module whose bus is the CAN controller of the RP2040, with the queue
-- of received frames and the Grid Connect server. What `new` returned, and the answers of the controller and of the network
-- stack, are arguments.
pub mod Process
pub mod Received
mod Tests
use cbuspico_lib.Common.{
  ℕ, zero, suc, ◌+◌, ◌/◌, ◌%◌, ◌^◌, bit_or, Bool, true, false, ◌&&◌, not, Option, none, some, List,
  [], ◌∷◌, ◌++◌, ltb, ◌==◌, if◌then◌else◌, get_or, set, replicate, u32,
}
use cbuspico_lib.Frame.{CanFrame, empty_frame}
use cbuspico_lib.CircularBuffer.{CircularBuffer, Slot, create, put}
use cbuspico_lib.CircularBuffer as Ring
use cbuspico_lib.Node.{Node}
use cbuspico_lib.Node.Events.{HandlerCall}
use cbuspico_lib.Node.Sending.{make_header}
use cbuspico_lib.Node.Enumerate.{check_incoming_frame}
use cbuspico_lib.GridConnect.Server.{Server}
use cbuspico_lib.GridConnect.Server.Send.{Answers, send_can_frame}
use cbuspico_lib.GridConnect.Server.Client.{item_at}

-- `can2040_msg`: the two highest bits of the identifier are flags.
pub record Message : Type 0 where
  pub id : ℕ
  pub dlc : ℕ
  pub bytes : List ℕ

-- The clock as one call of `notify_cb` reads it: in milliseconds where checkIncomingFrame starts an enumeration, for a
-- conflict and for a request, and in microseconds where the frame is put into the queue.
pub record Clock : Type 0 where
  pub conflict_time : ℕ
  pub rtr_time : ℕ
  pub insert_time : ℕ

-- The object; `acan2040` is whether the controller is there, and `transmitted` what it was given. The frame handler
-- of CBUSbase is a pointer with a list of opcodes; `handled` are the frames it was called with, `heard` the calls of the
-- handlers of events.
pub record Can (Bus : Type 0) (P : Type 0) : Type 0 where
  pub node : Node Bus
  pub gc_server : Option (Server P)
  pub tx_buffer : Option CircularBuffer
  pub rx_buffer : Option CircularBuffer
  pub acan2040 : Bool
  pub gpio_tx : ℕ
  pub gpio_rx : ℕ
  pub num_tx_buffers : ℕ
  pub num_rx_buffers : ℕ
  pub num_msgs_rcvd : ℕ
  pub frame_handler : Bool
  pub opcodes : List ℕ
  pub transmitted : List Message
  pub handled : List CanFrame
  pub heard : List HandlerCall

abbrev pub id_rtr : ℕ
id_rtr = 0x40000000

abbrev pub id_eff : ℕ
id_eff = 0x80000000

abbrev pub tx_qsize : ℕ
tx_qsize = 8

abbrev pub rx_qsize : ℕ
rx_qsize = 32

-- The kind of a notification of the controller.
pub data Notify : Type 0 where
  notify_rx : Notify
  notify_tx : Notify
  notify_error : Notify
  notify_other : Notify

-- The loops that copy up to eight data bytes.
unfoldable pub copy_bytes : List ℕ → List ℕ → ℕ → ℕ → ℕ → List ℕ
copy_bytes to from len i zero = to
copy_bytes to from len i (suc rounds) =
    let rest = copy_bytes (set to i (get_or from i 0)) from len (i + 1) rounds in
    if ltb i len then rest else to

-- The identifier with the flags of the frame.
abbrev pub flagged : ℕ → Bool → Bool → ℕ
flagged id rtr ext =
    let with_rtr = if rtr then bit_or id id_rtr else id in
    if ext then bit_or with_rtr id_eff else with_rtr

-- The data beyond the length is what the stack held, here 0.
abbrev pub message_of : CanFrame → ℕ → Message
message_of msg id = record {
  id = id;
  dlc = msg.len;
  bytes = copy_bytes (replicate 8 0) msg.bytes msg.len 0 8;
}

-- The frame of a message that was received.
abbrev pub frame_of : Message → CanFrame
frame_of m = record {
  id = m.id;
  ext = m.id / 2 ^ 31 % 2 == 1;
  rtr = m.id / 2 ^ 30 % 2 == 1;
  len = m.dlc;
  bytes = copy_bytes (replicate 8 0) m.bytes m.dlc 0 8;
}

abbrev pub is_there {ℓ} : {A : Type ℓ} → Option A → Bool
is_there none = false
is_there (some a) = true

-- `new CBUSCircularBuffer(n)`: the object, and the memory that its constructor got.
abbrev pub ring_of : ℕ → Option (Option (List Slot)) → Option CircularBuffer
ring_of n none = none
ring_of n (some memory) = some (create n memory)

abbrev pub ring_available : Option CircularBuffer → Bool
ring_available none = false
ring_available (some b) = Ring.available b

abbrev pub forward :
    {P : Type 0} → Answers → Option (Server P) → CanFrame → Bool → Option (Server P)
forward a none msg more = none
forward a (some s) msg more = some (send_can_frame a s msg more)

module _ {Bus : Type 0} {P : Type 0} where
  unfoldable pub new_can : Node Bus → Option (Server P) → Can Bus P
  new_can node gc_server = record {
    node = node;
    gc_server = gc_server;
    tx_buffer = none;
    rx_buffer = none;
    acan2040 = false;
    gpio_tx = 0;
    gpio_rx = 0;
    num_tx_buffers = tx_qsize;
    num_rx_buffers = rx_qsize;
    num_msgs_rcvd = 0;
    frame_handler = false;
    opcodes = [];
    transmitted = [];
    handled = [];
    heard = [];
  }

  -- The two queues and the controller, as far as `new` finds memory for them.
  unfoldable pub begin :
      Can Bus P
      → Option (Option (List Slot))
      → Option (Option (List Slot))
      → Bool
      → Can Bus P × Bool
  begin c rx tx controller = (
    record c {
      rx_buffer = ring_of c.num_rx_buffers rx;
      tx_buffer = ring_of c.num_tx_buffers tx;
      acan2040 = controller;
    },
    is_there rx && (is_there tx && controller),
  )

  abbrev pub available : Can Bus P → Bool
  available c = ring_available c.rx_buffer

  -- The frame is `none` if an empty queue gave no slot to read.
  abbrev pub next_from : Can Bus P → Option CircularBuffer → Can Bus P × Option CanFrame
  next_from c none = (c, some empty_frame)
  next_from c (some b) =
      let (b', slot) = Ring.get b in
      (record c { rx_buffer = some b'; num_msgs_rcvd = u32 (c.num_msgs_rcvd + 1) }, item_at b slot)

  unfoldable pub get_next_message : Can Bus P → Can Bus P × Option CanFrame
  get_next_message c = next_from c c.rx_buffer

  abbrev pub keep_received :
      Can Bus P → CircularBuffer → ℕ → Node Bus × (CanFrame × Bool) → Can Bus P
  keep_received c b now (node, (msg, is_message)) =
      if is_message
      then record c { node = node; rx_buffer = some (put b now msg) }
      else record c { node = node }

  abbrev pub receive : Can Bus P → Option CircularBuffer → Message → Clock → Can Bus P
  receive c none m t = c
  receive c (some b) m t =
      keep_received c b t.insert_time
        (check_incoming_frame c.node (frame_of m) t.conflict_time t.rtr_time)

  -- The callback of the controller.
  unfoldable pub notify_cb : Can Bus P → Notify → Message → Clock → Can Bus P
  notify_cb c notify_rx m t = receive c c.rx_buffer m t
  notify_cb c notify_tx m t = c
  notify_cb c notify_error m t = c
  notify_cb c notify_other m t = c

  -- `ok` and `accepted` are the controller's answers. The server gets the frame before the header is made.
  unfoldable pub send_message :
      Answers → Can Bus P → CanFrame → Bool → Bool → ℕ → Bool → Bool → Can Bus P × Bool
  send_message a c msg rtr ext priority ok accepted =
      let headed = make_header msg c.node.config.can_id priority in
      if not ok then (c, false) else (
        record c {
          gc_server = forward a c.gc_server msg false;
          transmitted = c.transmitted ++ message_of msg (flagged headed.id rtr ext) ∷ [];
        },
        accepted,
      )

  -- A frame that came from a Grid Connect client.
  unfoldable pub send_can_message : Can Bus P → CanFrame → Bool → Bool → Can Bus P × Bool
  send_can_message c msg ok accepted = if not ok then (c, false) else (
    record c {
      transmitted = c.transmitted ++ message_of msg (flagged msg.id msg.rtr msg.ext) ∷ [];
    },
    accepted,
  )

  -- The receive queue is deleted; the transmit queue is not, since the test is of the pointer just cleared. `begin` allocates anew.
  unfoldable pub reset :
      Can Bus P → Option (Option (List Slot)) → Option (Option (List Slot)) → Bool → Can Bus P
  reset c rx tx controller =
      (begin (record c { rx_buffer = none; acan2040 = false }) rx tx controller).0

  unfoldable pub set_pins : Can Bus P → ℕ → ℕ → Can Bus P
  set_pins c gpio_tx gpio_rx = record c { gpio_tx = gpio_tx; gpio_rx = gpio_rx }

  unfoldable pub set_num_buffers : Can Bus P → ℕ → ℕ → Can Bus P
  set_num_buffers c rx tx = record c { num_rx_buffers = rx; num_tx_buffers = tx }

  unfoldable pub set_frame_handler : Can Bus P → Bool → List ℕ → Can Bus P
  set_frame_handler c handler opcodes = record c { frame_handler = handler; opcodes = opcodes }

-- All values are rejected.
unfoldable pub validate_nv : ℕ → ℕ → ℕ → Bool
validate_nv nv_index old_value nv_value = false
