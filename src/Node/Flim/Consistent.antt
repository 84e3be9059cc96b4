-- ===== src/Node/Flim/Consistent.antt =====
-- The mode in which the button leaves a module is the mode that its configuration stores.
use cbuspico_lib.Common.{
  ℕ, ◌≡◌, refl, ap, ◌∙◌, inl, inr, Bool, true, false, ◌&&◌, List, ltb, if◌then◌else◌, Bool-cases,
}
use cbuspico_lib.Config.{Driver}
use cbuspico_lib.Switch.{is_pressed, get_current_state_duration}
use cbuspico_lib.Node.{
  Node, FsState, fs_slim, fs_flim, fs_pressed, fs_flashing, fs_flim_setup, fs_pressed_setup,
  fs_unknown,
}
use cbuspico_lib.Node.Sending.{send_opc_my_nn, send_msg_my_nn, send_msg_nn}
use cbuspico_lib.Node.Flim.{
  Mode, mode_slim, mode_flim, mode_changing, is_slim, is_flim, indicate_mode_on_leds,
  indicate_flim_mode, init_flim, slim_config, set_slim, revert_slim, check_in, flim_sw_check,
  flim_hold_time, flim_debounce_time,
}

abbrev pub state_of : Bool → FsState
state_of true = fs_flim
state_of false = fs_slim

-- The mode of a module at rest, or the one it had before the button was pressed.
abbrev pub resting : FsState → FsState → FsState
resting fs_slim prev = fs_slim
resting fs_flim prev = fs_flim
resting fs_unknown prev = fs_unknown
resting _ prev = prev

-- The mode is the one that is stored.
abbrev pub IsConsistent : {Bus : Type 0} → Node Bus → Type 0
IsConsistent n = resting n.flim_state n.prev_flim_state ≡ state_of n.config.flim

-- The mode is not known yet, as before the first check, or it is the one that is stored.
abbrev pub IsConsistentIn : FsState → FsState → Bool → Type 0
IsConsistentIn fs_unknown prev flim = Unit {0}
IsConsistentIn s prev flim = resting s prev ≡ state_of flim

resting-state : (b : Bool) (p : FsState) → p ≡ state_of b → resting p p ≡ state_of b
resting-state true p e = ap (λ x. resting x x) e
resting-state false p e = ap (λ x. resting x x) e

module _ {Bus : Type 0} where
  indicate_mode_on_leds-IsConsistent :
      (n : Node Bus) (m : Mode) → IsConsistent n → IsConsistent (indicate_mode_on_leds n m)
  unfolding indicate_mode_on_leds
  indicate_mode_on_leds-IsConsistent n mode_slim h = h
  indicate_mode_on_leds-IsConsistent n mode_flim h = h
  indicate_mode_on_leds-IsConsistent n mode_changing h = h

  send_opc_my_nn-IsConsistent :
      (n : Node Bus) (opc len : ℕ) (args : List ℕ)
      → IsConsistent n
      → IsConsistent (send_opc_my_nn n opc len args)
  unfolding send_opc_my_nn send_msg_my_nn send_msg_nn
  send_opc_my_nn-IsConsistent n opc len args h = h

  init_flim-IsConsistent : (n : Node Bus) → IsConsistent n → IsConsistent (init_flim n)
  unfolding init_flim
  init_flim-IsConsistent n h =
      send_opc_my_nn-IsConsistent _ _ _ _ (indicate_mode_on_leds-IsConsistent n mode_changing h)

  pub indicate_flim_mode-IsConsistent :
      (n : Node Bus) → IsConsistent (indicate_flim_mode n n.config.flim)
  unfolding indicate_flim_mode
  indicate_flim_mode-IsConsistent n =
      indicate_mode_on_leds-IsConsistent
        (record n { flim_state = if n.config.flim then fs_flim else fs_slim })
        (if n.config.flim then mode_flim else mode_slim) (shown n.config.flim n.prev_flim_state)
    where
      shown : (b : Bool) (p : FsState) → resting (if b then fs_flim else fs_slim) p ≡ state_of b
      shown true p = refl
      shown false p = refl

module _ {Bus : Type 0} (d : Driver Bus) where
  set_slim-IsConsistent : (n : Node Bus) → IsConsistent (set_slim d n)
  unfolding set_slim
  set_slim-IsConsistent n =
      indicate_flim_mode-IsConsistent (record n { config = slim_config d n.config })

  revert_slim-IsConsistent : (n : Node Bus) → IsConsistent (revert_slim d n)
  unfolding revert_slim
  revert_slim-IsConsistent n = set_slim-IsConsistent _

  check_in-IsConsistent :
      (s : FsState) (n : Node Bus) (now : ℕ)
      → n.flim_state ≡ s
      → IsConsistentIn s n.prev_flim_state n.config.flim
      → IsConsistent (check_in d s n now)
  unfolding check_in
  check_in-IsConsistent fs_unknown n now e h = revert_slim-IsConsistent n
  check_in-IsConsistent fs_slim n now e h = elim (Bool-cases (is_pressed n.sw)) [
    | inl down ↦ rw down (e ∙ h)
    | inr up ↦ rw up (ap (λ s. resting s n.prev_flim_state) e ∙ h)
  ]
  check_in-IsConsistent fs_flim n now e h = elim (Bool-cases (is_pressed n.sw)) [
    | inl down ↦ rw down (e ∙ h)
    | inr up ↦ rw up (ap (λ s. resting s n.prev_flim_state) e ∙ h)
  ]
  check_in-IsConsistent fs_pressed n now e h = elim (Bool-cases (is_pressed n.sw)) [
    | inl down ↦ elim (Bool-cases (ltb flim_hold_time (get_current_state_duration n.sw now))) [
      | inl long ↦
          rw (down, long)
            (indicate_mode_on_leds-IsConsistent (record n { flim_state = fs_flashing })
              mode_changing h)
      | inr short ↦ rw (down, short) (ap (λ s. resting s n.prev_flim_state) e ∙ h)
    ]
    | inr up ↦
        elim (Bool-cases
          (is_flim n.prev_flim_state && ltb flim_debounce_time n.sw.last_state_duration)) [
            | inl setup ↦
                rw (up, setup) (init_flim-IsConsistent (record n { flim_state = fs_flim_setup }) h)
            | inr back ↦ rw (up, back) (resting-state n.config.flim n.prev_flim_state h)
          ]
  ]
  check_in-IsConsistent fs_flashing n now e h = elim (Bool-cases (is_pressed n.sw)) [
    | inl down ↦ rw down (ap (λ s. resting s n.prev_flim_state) e ∙ h)
    | inr up ↦ elim (Bool-cases (is_slim n.prev_flim_state)) [
      | inl setup ↦
          rw (up, setup) (init_flim-IsConsistent (record n { flim_state = fs_flim_setup }) h)
      | inr slim ↦ rw (up, slim) (revert_slim-IsConsistent (record n { flim_state = fs_slim }))
    ]
  ]
  check_in-IsConsistent fs_flim_setup n now e h = elim (Bool-cases (is_pressed n.sw)) [
    | inl down ↦ rw down h
    | inr up ↦ rw up (ap (λ s. resting s n.prev_flim_state) e ∙ h)
  ]
  check_in-IsConsistent fs_pressed_setup n now e h = elim (Bool-cases (is_pressed n.sw)) [
    | inl down ↦ rw down (ap (λ s. resting s n.prev_flim_state) e ∙ h)
    | inr up ↦ elim (Bool-cases (ltb flim_debounce_time n.sw.last_state_duration)) [
      | inl long ↦
          rw (up, long)
            (indicate_mode_on_leds-IsConsistent (record n { flim_state = n.prev_flim_state })
              (if is_flim n.prev_flim_state then mode_flim else mode_slim)
              (resting-state n.config.flim n.prev_flim_state h))
      | inr bounce ↦ rw (up, bounce) h
    ]
  ]

  -- Whatever the button does, a check of it leaves the module in the mode that its configuration stores, or on the
  -- way from it, if it was so before or if the mode was not known yet.
  pub flim_sw_check-IsConsistent :
      (n : Node Bus) (now : ℕ)
      → IsConsistentIn n.flim_state n.prev_flim_state n.config.flim
      → IsConsistent (flim_sw_check d n now)
  unfolding flim_sw_check
  flim_sw_check-IsConsistent n now h = check_in-IsConsistent n.flim_state n now refl h
