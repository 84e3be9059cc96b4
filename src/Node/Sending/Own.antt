-- ===== src/Node/Sending/Own.antt =====
-- The copy of an event that CBUSbase keeps for a module that consumes its own events.
use cbuspico_lib.Common.{
  ℕ, ◌≡◌, refl, ap, Bool, false, some, List, [], ◌∷◌, ◌++◌, ◌==◌, if◌then◌else◌, get_or, set, u16,
  low_byte, high_byte,
}
use cbuspico_lib.Frame.{CanFrame}
use cbuspico_lib.CircularBuffer.{CircularBuffer, put}
use cbuspico_lib.Node.{Node}
use cbuspico_lib.Node.Sending.{send_event_with_data, send_msg_nn, event_frame, keep_own}

abbrev byte : CanFrame → ℕ → ℕ
byte f i = get_or f.bytes i 0

-- A frame that was put into the module's own buffer with no node number, and sent on the bus with one.
pub record IsKeptBare {Bus : Type 0} (n n' : Node Bus) (b : CircularBuffer) (now event_node : ℕ)
    : Type 0 where
  pub copy : CanFrame
  pub kept : n'.coe_obj ≡ some (put b now copy)
  pub bare : (byte copy 1 ≡ 0) × (byte copy 2 ≡ 0)
  pub frame : CanFrame
  pub sent : n'.sent ≡ n.sent ++ (frame ∷ [])
  pub numbered : (byte frame 1 ≡ high_byte event_node) × (byte frame 2 ≡ low_byte event_node)

module _ {Bus : Type 0} where
  -- If the module consumes its own events, a long event is put into its own buffer with the two bytes of the node number
  -- zero, whatever the node of the event is, while the frame that goes out on the bus carries them.
  pub send_event_with_data-IsKeptBare :
      (n : Node Bus) (b : CircularBuffer) (event_node event_num : ℕ) (on : Bool) (len : ℕ)
      (args : List ℕ) (now : ℕ)
      → n.coe_obj ≡ some b
      → (event_node == 0) ≡ false
      → IsKeptBare n (send_event_with_data n event_node event_num on len args now) b now event_node
  unfolding send_event_with_data send_msg_nn
  send_event_with_data-IsKeptBare n b event_node event_num on len args now own long =
      let node_id = if event_node == 0 then u16 n.config.node_num else event_node in
      let its_own : node_id ≡ event_node = rw long refl in
      record {
        copy = event_frame n event_node event_num on len args;
        kept = ap (λ o. keep_own o now (event_frame n event_node event_num on len args)) own;
        bare = (refl, refl);
        frame = record (event_frame n event_node event_num on len args) {
          bytes =
              set (set (event_frame n event_node event_num on len args).bytes 1 (high_byte node_id))
                2 (low_byte node_id);
        };
        sent = refl;
        numbered = (ap high_byte its_own, ap low_byte its_own);
      }
