-- ===== src/Node/Flim.antt =====
-- The mode of a module, SLiM or FLiM, and the push button that changes it: setSLiM, initFLiM, revertSLiM,
-- indicateModeOnLEDs, indicateFLiMMode and FLiMSWCheck of CBUSbase.
pub mod Consistent
pub mod Setup
use cbuspico_lib.Common.{ℕ, Bool, true, false, ◌&&◌, not, [], ltb, if◌then◌else◌}
use cbuspico_lib.Config.{Config, Driver}
use cbuspico_lib.Config.Storage.{set_node_num, set_flim, set_canid}
use cbuspico_lib.Switch.{is_pressed, get_current_state_duration}
use cbuspico_lib.Led.{on, off, blink}
use cbuspico_lib.Node.{
  Node, FsState, fs_slim, fs_flim, fs_pressed, fs_flashing, fs_flim_setup, fs_pressed_setup,
  fs_unknown,
}
use cbuspico_lib.Node.Sending.{send_opc_my_nn}

abbrev pub opc_rqnn : ℕ
opc_rqnn = 0x50

abbrev pub opc_nnrel : ℕ
opc_nnrel = 0x51

abbrev pub flim_debounce_time : ℕ
flim_debounce_time = 100

abbrev pub flim_hold_time : ℕ
flim_hold_time = 4000

-- The modes that the LEDs show.
pub data Mode : Type 0 where
  mode_slim : Mode
  mode_flim : Mode
  mode_changing : Mode

abbrev pub is_slim : FsState → Bool
is_slim fs_slim = true
is_slim _ = false

abbrev pub is_flim : FsState → Bool
is_flim fs_flim = true
is_flim _ = false

module _ {Bus : Type 0} where
  unfoldable pub indicate_mode_on_leds : Node Bus → Mode → Node Bus
  indicate_mode_on_leds n mode_flim = record n { led_ylw = on n.led_ylw; led_grn = off n.led_grn }
  indicate_mode_on_leds n mode_slim = record n { led_ylw = off n.led_ylw; led_grn = on n.led_grn }
  indicate_mode_on_leds n mode_changing = record n {
    led_ylw = blink n.led_ylw;
    led_grn = if n.config.flim then off n.led_grn else on n.led_grn;
  }

  unfoldable pub indicate_flim_mode : Node Bus → Bool → Node Bus
  indicate_flim_mode n flim =
      indicate_mode_on_leds (record n { flim_state = if flim then fs_flim else fs_slim })
        (if flim then mode_flim else mode_slim)

  unfoldable pub init_flim : Node Bus → Node Bus
  init_flim n = send_opc_my_nn (indicate_mode_on_leds n mode_changing) opc_rqnn 0 []

  unfoldable pub renegotiate : Node Bus → Node Bus
  renegotiate n = init_flim n

module _ {Bus : Type 0} (d : Driver Bus) where
  -- What setSLiM stores.
  unfoldable pub slim_config : Config Bus → Config Bus
  slim_config c = (set_canid d (set_flim d (set_node_num d c 0) false) 1).0

  unfoldable pub set_slim : Node Bus → Node Bus
  set_slim n =
      let stored = record n { config = slim_config n.config } in
      indicate_flim_mode stored stored.config.flim

  unfoldable pub revert_slim : Node Bus → Node Bus
  revert_slim n = set_slim (send_opc_my_nn n opc_nnrel 0 [])

  -- One check of the button in a state; the clock is read for the time that the button is held.
  unfoldable pub check_in : FsState → Node Bus → ℕ → Node Bus
  check_in fs_flim n now =
      if is_pressed n.sw
      then record n { prev_flim_state = n.flim_state; flim_state = fs_pressed }
      else n
  check_in fs_slim n now =
      if is_pressed n.sw
      then record n { prev_flim_state = n.flim_state; flim_state = fs_pressed }
      else n
  check_in fs_pressed n now =
      if is_pressed n.sw
      then (if ltb flim_hold_time (get_current_state_duration n.sw now)
          then indicate_mode_on_leds (record n { flim_state = fs_flashing }) mode_changing
          else n)
      else if is_flim n.prev_flim_state && ltb flim_debounce_time n.sw.last_state_duration
      then init_flim (record n { flim_state = fs_flim_setup })
      else record n { flim_state = n.prev_flim_state }
  check_in fs_flashing n now =
      if not (is_pressed n.sw)
      then (if is_slim n.prev_flim_state
          then init_flim (record n { flim_state = fs_flim_setup })
          else revert_slim (record n { flim_state = fs_slim }))
      else n
  check_in fs_flim_setup n now =
      if is_pressed n.sw then record n { flim_state = fs_pressed_setup } else n
  check_in fs_pressed_setup n now =
      if not (is_pressed n.sw)
      then (if ltb flim_debounce_time n.sw.last_state_duration
          then indicate_mode_on_leds (record n { flim_state = n.prev_flim_state })
              (if is_flim n.prev_flim_state then mode_flim else mode_slim)
          else record n { flim_state = fs_flim_setup })
      else n
  check_in fs_unknown n now = revert_slim n

  unfoldable pub flim_sw_check : Node Bus → ℕ → Node Bus
  flim_sw_check n now = check_in n.flim_state n now
