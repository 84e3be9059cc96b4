-- ===== src/Node/Commands.antt =====
-- The configuration commands of CBUSbase: the do functions that read and write node variables, parameters and events. `validateNV` and `actUponNVchange` are those of the base class, which
-- accept every value and do nothing.
pub mod Dispatch
pub mod Learn
use cbuspico_lib.Common.{
  ℕ, zero, suc, ◌+◌, bit_or, Bool, true, ◌||◌, not, [], ◌∷◌, ltb, leb, ◌==◌, if◌then◌else◌, get_or,
  take, u8, low_byte, high_byte,
}
use cbuspico_lib.Frame.{CanFrame, empty_frame}
use cbuspico_lib.Config.{Config, Driver, EventInfo}
use cbuspico_lib.Config.Storage.{read_nv, write_nv, set_node_num, set_flim}
use cbuspico_lib.Config.Events.{
  read_event, get_event_ev_val, write_event_ev, write_event, clear_event_eeprom,
  clear_events_eeprom, update_ev_hash_entry, clear_ev_hash_table, num_events, get_ev_table_entry,
  find_existing_event, find_event_space,
}
use cbuspico_lib.Node.{Node, send_message}
use cbuspico_lib.Node.Opcodes
use cbuspico_lib.Node.Sending.{send_opc_my_nn, send_wrack, send_cmderr}
use cbuspico_lib.Node.Enumerate.{opc_nnack, cmderr_invalid_event}
use cbuspico_lib.Node.Flim.{indicate_flim_mode}

abbrev pub data_byte : CanFrame → ℕ → ℕ
data_byte msg i = get_or msg.bytes i 0

-- The event that a command is about.
abbrev pub event_of : {Bus : Type 0} → Node Bus → EventInfo
event_of n = record { node_number = n.node_number; event_number = n.event_number }

module _ {Bus : Type 0} where
  abbrev pub param : Node Bus → ℕ → ℕ
  param n i = get_or n.params i 0

  unfoldable pub get_par_flags : Node Bus → ℕ
  get_par_flags n =
      if n.learn
      then bit_or (bit_or Opcodes.pf_lrn Opcodes.pf_flim) (param n Opcodes.par_flags)
      else if n.config.flim
      then bit_or Opcodes.pf_flim (param n Opcodes.par_flags)
      else param n Opcodes.par_flags

  unfoldable pub qnn_respond : Node Bus → Node Bus
  qnn_respond n =
      send_opc_my_nn n Opcodes.opc_pnn 3
        (param n Opcodes.par_manu ∷ param n Opcodes.par_mtyp ∷ get_par_flags n ∷ [])

  unfoldable pub do_rqnpn : Node Bus → ℕ → Node Bus
  do_rqnpn n index =
      if leb index (param n Opcodes.par_nparams)
      then send_opc_my_nn n Opcodes.opc_paran 2
          (index ∷ (if index == Opcodes.par_flags then get_par_flags n else param n index) ∷ [])
      else send_cmderr n Opcodes.cmderr_inv_param_idx

  unfoldable pub do_rqnp : Node Bus → Node Bus
  do_rqnp n = send_message n (record empty_frame {
    len = 8;
    bytes =
        Opcodes.opc_params
        ∷ param n Opcodes.par_manu
        ∷ param n Opcodes.par_minver
        ∷ param n Opcodes.par_mtyp
        ∷ param n Opcodes.par_evnum
        ∷ param n Opcodes.par_evnum
        ∷ param n Opcodes.par_nvnum
        ∷ param n Opcodes.par_majver
        ∷ [];
  })

  -- The name has seven bytes.
  unfoldable pub do_rqmn : Node Bus → Node Bus
  do_rqmn n =
      send_message n (record empty_frame { len = 8; bytes = Opcodes.opc_name ∷ take 7 n.name })

  unfoldable pub do_rqevn : Node Bus → Node Bus
  do_rqevn n = send_opc_my_nn n Opcodes.opc_numev 1 (num_events n.config ∷ [])

  -- The slots from an index on that are free.
  unfoldable pub count_free : Config Bus → ℕ → ℕ → ℕ
  count_free c i zero = 0
  count_free c i (suc rounds) =
      (if get_ev_table_entry c i == 0 then 1 else 0) + count_free c (i + 1) rounds

  unfoldable pub do_nnevn : Node Bus → Node Bus
  do_nnevn n =
      send_opc_my_nn n Opcodes.opc_evnlf 1 (u8 (count_free n.config 0 n.config.max_events) ∷ [])

-- validateNV of CBUSbase: every value is valid.
unfoldable pub base_validate_nv : ℕ → ℕ → ℕ → Bool
base_validate_nv nv_index old_value nv_value = true

module _ {Bus : Type 0} (d : Driver Bus) where
  unfoldable pub do_nvrd : Node Bus → ℕ → Node Bus
  do_nvrd n nv_index =
      if nv_index == 0 || ltb n.config.num_nvs nv_index
      then send_cmderr n Opcodes.cmderr_inv_nv_idx
      else send_opc_my_nn n Opcodes.opc_nvans 2 (nv_index ∷ read_nv d n.config nv_index ∷ [])

  -- The test compares the truth value of `index == 0` with the number of variables.
  unfoldable pub do_nvset : Node Bus → ℕ → ℕ → Node Bus
  do_nvset n nv_index nv_value =
      if ltb n.config.num_nvs (if nv_index == 0 then 1 else 0)
      then send_cmderr n Opcodes.cmderr_inv_nv_idx
      else if n.validate_nv nv_index (read_nv d n.config nv_index) nv_value
      then send_wrack (record n { config = write_nv d n.config nv_index nv_value })
      else send_cmderr n Opcodes.cmderr_inv_nv_value

  unfoldable pub do_snn : Node Bus → Node Bus
  do_snn n =
      let stored = record n { config = set_flim d (set_node_num d n.config n.node_number) true } in
      send_opc_my_nn (indicate_flim_mode stored stored.config.flim) opc_nnack 0 []

  unfoldable pub do_nnclr : Node Bus → Node Bus
  do_nnclr n =
      if n.learn
      then send_wrack (record n { config = clear_ev_hash_table (clear_events_eeprom d n.config) })
      else send_cmderr n Opcodes.cmderr_not_lrn

  -- The slot of the event, or else a free one.
  unfoldable pub slot_for : Config Bus → EventInfo → ℕ
  slot_for c ev =
      let index = find_existing_event d c ev in
      if leb c.max_events index then find_event_space c else index

  -- What learning stores in a slot; the number of the event only with the first variable.
  unfoldable pub learn_in : Config Bus → ℕ → EventInfo → ℕ → ℕ → Config Bus
  learn_in c index ev ev_num ev_val =
      let named = if ltb ev_num 2 then write_event d c index ev true else c in
      update_ev_hash_entry d (write_event_ev d named index ev_num ev_val) index

  unfoldable pub do_evlrn : Node Bus → ℕ → ℕ → Node Bus
  do_evlrn n ev_num ev_val =
      let index = slot_for n.config (event_of n) in
      if ev_num == 0
      then send_cmderr n Opcodes.cmderr_inv_nv_idx
      else if ltb index n.config.max_events
      then send_wrack (record n { config = learn_in n.config index (event_of n) ev_num ev_val })
      else send_cmderr n Opcodes.cmderr_inv_nv_idx

  unfoldable pub do_reval : Node Bus → ℕ → ℕ → Node Bus
  do_reval n en_num ev_num =
      if ltb n.config.num_evs ev_num
      then send_cmderr n Opcodes.cmderr_inv_ev_idx
      else if not (get_ev_table_entry n.config en_num == 0)
      then send_opc_my_nn n Opcodes.opc_neval 3
          (en_num ∷ ev_num ∷ get_event_ev_val d n.config en_num ev_num ∷ [])
      else send_cmderr n cmderr_invalid_event

  unfoldable pub do_evuln : Node Bus → Node Bus
  do_evuln n =
      let index = find_existing_event d n.config (event_of n) in
      if ltb index n.config.max_events
      then record n {
        config = update_ev_hash_entry d (clear_event_eeprom d n.config index true) index;
      }
      else n

  -- The event number of the command is the index of the slot, of which the table takes a byte.
  unfoldable pub do_reqev : Node Bus → ℕ → Node Bus
  do_reqev n ev_num =
      if ltb n.config.num_evs ev_num
      then send_cmderr n Opcodes.cmderr_inv_ev_idx
      else if not (get_ev_table_entry n.config (u8 n.event_number) == 0)
      then send_opc_my_nn n Opcodes.opc_neval 3
          (u8 n.event_number ∷ ev_num ∷ get_event_ev_val d n.config (u8 n.event_number) ev_num ∷ [])
      else send_cmderr n cmderr_invalid_event

  -- The answer about a slot: the event that is stored there, and the index.
  unfoldable pub enrsp : Node Bus → ℕ → CanFrame
  enrsp n index =
      let ev = read_event d n.config index in
      record empty_frame {
        len = 8;
        bytes =
            Opcodes.opc_enrsp
            ∷ high_byte n.node_number
            ∷ low_byte n.node_number
            ∷ high_byte ev.node_number
            ∷ low_byte ev.node_number
            ∷ high_byte ev.event_number
            ∷ low_byte ev.event_number
            ∷ index
            ∷ [];
      }

  -- The bus is tried until it accepts each answer.
  unfoldable pub nerd_from : Node Bus → ℕ → ℕ → Node Bus
  nerd_from n i zero = n
  nerd_from n i (suc rounds) =
      nerd_from (if not (get_ev_table_entry n.config i == 0) then send_message n (enrsp n i) else n)
        (i + 1) rounds

  unfoldable pub do_nerd : Node Bus → Node Bus
  do_nerd n = nerd_from n 0 n.config.max_events

  unfoldable pub do_nenrd : Node Bus → ℕ → Node Bus
  do_nenrd n index =
      if get_ev_table_entry n.config index == 0
      then send_cmderr n cmderr_invalid_event
      else send_message n (enrsp n index)
