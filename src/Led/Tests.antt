-- ===== src/Led/Tests.antt =====
-- Pulses and blinking of a concrete LED, and the theorems at inputs that meet their hypotheses.
use cbuspico_lib.Common.{◌-◌, ◌^◌, ◌≡◌, refl, true, false, some, [], ◌∷◌, arith}
use cbuspico_lib.Led.{Led, new_led, on, run, pulse, still, set_blink_rate}
use cbuspico_lib.Led.Timing.{run_all, run_all-pulse, run_all-period}

abbrev green : Led
green = record new_led { configured = true; pin = 15 }

pulse_lights : (pulse green true 1000 (still 1000)).1 ≡ some (15, true)
unfolding pulse run
pulse_lights = refl

-- `on` does not cancel a pulse: its end turns the LED off.
pulse_wins : (run (on (pulse green true 1000 (still 1000)).0) (still 1100)).1 ≡ some (15, false)
unfolding pulse run on
pulse_wins = refl

settings : (set_blink_rate green 250).ms_blink_duration ≡ 250
unfolding set_blink_rate
settings = refl

run_all-pulse_example :
    let lit = run_all (pulse green true 1000 (still 1000)).0 (1010 ∷ 1099 ∷ []) in
    let ended = (run lit (still 1100)).0 in
    (lit.state ≡ true) × (ended.state ≡ false) × (ended.is_pulsing ≡ false)
run_all-pulse_example =
    run_all-pulse green true 1000 (1010 ∷ 1099 ∷ []) 1100 refl (omega arith) (omega arith)
      (omega arith)

abbrev flashing : Led
flashing = record green { is_blinking = true; last_time = 2 ^ 32 - 100 }

run_all-period_example :
    let before = (2 ^ 32 - 50) ∷ 399 ∷ [] in
    let changed = (run (run_all flashing before) (still 400)).0 in
    (run_all flashing before ≡ flashing)
    × (changed.state ≡ true)
    × (run_all changed (899 ∷ []) ≡ changed)
    × ((run (run_all changed (899 ∷ [])) (still 900)).0 ≡ record flashing { last_time = 900 })
run_all-period_example =
    run_all-period flashing ((2 ^ 32 - 50) ∷ 399 ∷ []) 400 (899 ∷ []) 900 refl refl
      (omega arith, (omega arith, tt)) (omega arith) (omega arith, tt) (omega arith)
