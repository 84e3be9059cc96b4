-- ===== src/Node.antt =====
-- The class CBUSbase of CBUS.cpp and CBUS.h: a module on the bus. `sendMessage` is the derived class's, so the
-- frames that are given to it are collected in the state, oldest first; its result is not used here.
pub mod Sending
pub mod Opcodes
pub mod Commands
pub mod Events
pub mod Flim
pub mod Enumerate
pub mod Tests
use cbuspico_lib.Common.{ℕ, Bool, Option, List, [], ◌∷◌, ◌++◌}
use cbuspico_lib.Frame.{CanFrame}
use cbuspico_lib.Config.{Config}
use cbuspico_lib.Switch.{Switch}
use cbuspico_lib.Led.{Led}
use cbuspico_lib.CircularBuffer.{CircularBuffer}

-- `fsState`
pub data FsState : Type 0 where
  fs_slim : FsState
  fs_flim : FsState
  fs_pressed : FsState
  fs_flashing : FsState
  fs_flim_setup : FsState
  fs_pressed_setup : FsState
  fs_unknown : FsState

-- The object, with the modules it owns. `params` is the block that `setParams` was given, and `coe_obj` the buffer of the
-- module's own events, if it consumes them. The two handlers are pointers, of which it is kept whether they are set.
-- `validate_nv` is the virtual function that accepts or rejects a new value of a node variable.
pub record Node (Bus : Type 0) : Type 0 where
  pub led_grn : Led
  pub led_ylw : Led
  pub sw : Switch
  pub config : Config Bus
  pub params : List ℕ
  pub name : List ℕ
  pub enum_responses : List ℕ
  pub learn : Bool
  pub this_nn : Bool
  pub node_number : ℕ
  pub event_number : ℕ
  pub enum_start_time : ℕ
  pub enumeration_required : Bool
  pub enumeration_in_progress : Bool
  pub result_required : Bool
  pub flim_state : FsState
  pub prev_flim_state : FsState
  pub event_handler : Bool
  pub event_handler_ex : Bool
  pub coe_obj : Option CircularBuffer
  pub sent : List CanFrame
  pub validate_nv : ℕ → ℕ → ℕ → Bool

module _ {Bus : Type 0} where
  -- A frame is given to `sendMessage`; the flags of its `rtr` and `ext` are the arguments of the call.
  abbrev pub send_message : Node Bus → CanFrame → Node Bus
  send_message n frame = record n { sent = n.sent ++ (frame ∷ []) }
