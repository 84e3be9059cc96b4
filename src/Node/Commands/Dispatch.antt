-- ===== src/Node/Commands/Dispatch.antt =====
-- Which command a frame is: parseFLiMCmd of CBUSbase.
use cbuspico_lib.Common.{
  ◌+◌, ◌*◌, ◌^◌, Bool, true, false, ◌&&◌, ◌||◌, Option, none, some, ◌==◌, if◌then◌else◌, u16,
}
use cbuspico_lib.Frame.{CanFrame}
use cbuspico_lib.Config.{Driver}
use cbuspico_lib.Config.Storage.{set_canid}
use cbuspico_lib.Node.{Node, FsState, fs_flim_setup}
use cbuspico_lib.Node.Opcodes
use cbuspico_lib.Node.Sending.{send_cmderr}
use cbuspico_lib.Node.Enumerate.{cmderr_invalid_event, do_enum}
use cbuspico_lib.Node.Commands.{
  data_byte, qnn_respond, do_rqnpn, do_rqnp, do_rqmn, do_rqevn, do_nnevn, do_nvrd, do_nvset, do_snn,
  do_nnclr, do_evlrn, do_reval, do_evuln, do_reqev, do_nerd, do_nenrd,
}

abbrev pub is_setup : FsState → Bool
is_setup fs_flim_setup = true
is_setup _ = false

-- The first of two that is a result.
abbrev pub or_else : {A : Type 0} → Option A → Option A → Option A
or_else (some n) other = some n
or_else none other = other

module _ {Bus : Type 0} (d : Driver Bus) where
  -- The commands of learn mode: the new state, if it was one of them.
  unfoldable pub learn_cmd : Node Bus → CanFrame → Option (Node Bus)
  learn_cmd n msg =
      let opc = data_byte msg 0 in
      if opc == Opcodes.opc_nnlrn && n.this_nn
      then some n
      else if opc == Opcodes.opc_nnlrn || opc == Opcodes.opc_nnuln
      then some (record n { learn = false })
      else if opc == Opcodes.opc_nnclr
      then some (do_nnclr d n)
      else if opc == Opcodes.opc_evuln
      then some (do_evuln d n)
      else if opc == Opcodes.opc_evlrn
      then some (do_evlrn d n (data_byte msg 5) (data_byte msg 6))
      else if opc == Opcodes.opc_evlrni
      then some (do_evlrn d n (data_byte msg 6) (data_byte msg 7))
      else if opc == Opcodes.opc_reqev
      then some (do_reqev d n (data_byte msg 5))
      else none

  -- The commands to this node.
  unfoldable pub node_cmd : Node Bus → CanFrame → Option (Node Bus)
  node_cmd n msg =
      let opc = data_byte msg 0 in
      if opc == Opcodes.opc_rqnpn
      then some (do_rqnpn n (data_byte msg 3))
      else if opc == Opcodes.opc_nnlrn
      then some (record n { learn = if n.config.flim then true else n.learn })
      else if opc == Opcodes.opc_nnevn
      then some (do_nnevn n)
      else if opc == Opcodes.opc_nerd
      then some (do_nerd d n)
      else if opc == Opcodes.opc_nenrd
      then some (do_nenrd d n (data_byte msg 3))
      else if opc == Opcodes.opc_rqevn
      then some (do_rqevn n)
      else if opc == Opcodes.opc_nvrd
      then some (do_nvrd d n (data_byte msg 3))
      else if opc == Opcodes.opc_nvset
      then some (do_nvset d n (data_byte msg 3) (data_byte msg 4))
      else if opc == Opcodes.opc_reval
      then some (do_reval d n (data_byte msg 3) (data_byte msg 4))
      else if opc == Opcodes.opc_canid
      then some (
          let (c, ok) = set_canid d n.config (data_byte msg 3) in
          let stored = record n { config = c } in
          if ok then stored else send_cmderr stored cmderr_invalid_event)
      else if opc == Opcodes.opc_enum
      then some (do_enum n true)
      else none

  -- The commands while the module is being set up.
  unfoldable pub setup_cmd : Node Bus → CanFrame → Option (Node Bus)
  setup_cmd n msg =
      let opc = data_byte msg 0 in
      if opc == Opcodes.opc_rqnp
      then some (do_rqnp n)
      else if opc == Opcodes.opc_rqmn
      then some (do_rqmn n)
      else if opc == Opcodes.opc_snn
      then some (do_snn d n)
      else none

  unfoldable pub parse_flim_cmd : Node Bus → CanFrame → Node Bus × Bool
  parse_flim_cmd before msg =
      let n = record before {
        node_number = u16 (data_byte msg 1 * 2 ^ 8 + data_byte msg 2);
        event_number = u16 (data_byte msg 3 * 2 ^ 8 + data_byte msg 4);
      } in
      let learning = if n.learn then learn_cmd n msg else none in
      let own = if n.this_nn then node_cmd n msg else none in
      let query = if data_byte msg 0 == Opcodes.opc_qnn then some (qnn_respond n) else none in
      let setup = if is_setup n.flim_state then setup_cmd n msg else none in
      elim (or_else learning (or_else own (or_else query setup))) [
        | some done ↦ (done, true)
        | none ↦ (n, false)
      ]
