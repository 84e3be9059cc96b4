-- ===== src/Switch/Tests.antt =====
-- A bouncing press of a switch, and the theorems at inputs that meet their hypotheses.
use cbuspico_lib.Common.{ℕ, ◌≡◌, refl, Bool, true, false, List, [], ◌∷◌, arith}
use cbuspico_lib.Switch.{Switch, new_switch, set_pin, run, is_pressed, get_current_state_duration}
use cbuspico_lib.Switch.Debounce.{at_time, run_all, run_all-bouncing, run_all-settles}

abbrev button : Switch
unfolding set_pin
button = set_pin new_switch 7 false true

-- The contact closes at 1000, opens at 1004 and closes again at 1009.
abbrev bounce : List (Bool × ℕ)
bounce = (false, 1000) ∷ (true, 1004) ∷ (false, 1009) ∷ (false, 1020) ∷ []

abbrev bounced : Switch
unfolding run_all run
bounced = run_all button bounce

press : is_pressed (run bounced (at_time false 1029)) ≡ true
unfolding bounced is_pressed button
press = refl

release_at_once : is_pressed (run bounced (at_time false 1028)) ≡ false
unfolding bounced is_pressed button
release_at_once = refl

held : get_current_state_duration (run bounced (at_time false 1029)) 5000 ≡ 3971
unfolding bounced get_current_state_duration button
held = refl

run_all-bouncing_example :
    ((run_all button bounce).active_state ≡ true)
    × ((run_all button bounce).last_state_change_time ≡ 0)
unfolding button
run_all-bouncing_example = run_all-bouncing button bounce refl (omega arith)

abbrev closing : Switch
closing = record new_switch { configured = true; debounce_start_time = 1009 }

run_all-settles_example :
    (run (run_all closing ((false, 1015) ∷ (false, 1020) ∷ [])) (at_time false 1029)).active_state
    ≡ false
run_all-settles_example =
    run_all-settles closing false ((false, 1015) ∷ (false, 1020) ∷ []) 1029 refl refl
      (refl, (refl, tt)) (omega arith)
