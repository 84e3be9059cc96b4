-- ===== src/Node/Tests.antt =====
-- A module with two event slots, on which the theorems about CBUSbase are applied.
use cbuspico_lib.Common.{◌≡◌, refl, true, false, none, some, [], ◌∷◌, arith, replicate}
use cbuspico_lib.Frame.{CanFrame, empty_frame}
use cbuspico_lib.Config.Tests.{chip, hashed, turnout, hashed-IsHashed, hashed-IsPlaced, unknown}
use cbuspico_lib.Config.Events.{find_event_space, find_hash}
use cbuspico_lib.Switch.{new_switch}
use cbuspico_lib.Led.{new_led}
use cbuspico_lib.Node.{Node, fs_unknown}
use cbuspico_lib.Node.Commands.{do_evlrn, do_snn}
use cbuspico_lib.Node.Flim.Setup.{IsSetUp, do_snn-IsSetUp}
use cbuspico_lib.CircularBuffer.{CircularBuffer, create}
use cbuspico_lib.Node.Sending.{send_event_with_data}
use cbuspico_lib.Node.Sending.Own.{IsKeptBare, send_event_with_data-IsKeptBare}
use cbuspico_lib.Node.Commands.Learn.{IsTeachable, Calls, do_evlrn-Calls}
use cbuspico_lib.Node.Events.{event_handler_call, note_event}
use cbuspico_lib.Node.Enumerate.{start_enumeration}
use cbuspico_lib.Node.Enumerate.Answers.{AllBelow, hear_all, IsChosen, lowest_free-hear_all}
use cbuspico_lib.Node.Flim.{flim_sw_check}
use cbuspico_lib.Node.Flim.Consistent.{IsConsistent, flim_sw_check-IsConsistent}

-- In learn mode, with the event 2 of node 0x0105 noted from the command.
abbrev pub pupil : Node (Unit {0})
pupil = record {
  led_grn = new_led;
  led_ylw = new_led;
  sw = new_switch;
  config = hashed;
  params = [];
  name = [];
  enum_responses = replicate 16 0;
  learn = true;
  this_nn = false;
  node_number = 0x0105;
  event_number = 0x0002;
  enum_start_time = 0;
  enumeration_required = false;
  enumeration_in_progress = false;
  result_required = false;
  flim_state = fs_unknown;
  prev_flim_state = fs_unknown;
  event_handler = true;
  event_handler_ex = false;
  coe_obj = none;
  sent = [];
  validate_nv = λ _ _ _. true;
}

-- The on event 2 of node 0x0105.
abbrev heard : CanFrame
heard = record empty_frame { len = 5; bytes = 0x90 ∷ 0x01 ∷ 0x05 ∷ 0x00 ∷ 0x02 ∷ 0 ∷ 0 ∷ 0 ∷ [] }

first_free : find_event_space hashed ≡ 0
unfolding find_event_space find_hash
first_free = refl

teachable : IsTeachable chip hashed turnout
teachable = record {
  placed = hashed-IsPlaced;
  variables = omega arith;
  hashed = hashed-IsHashed;
  proper = refl;
  node = omega arith;
  number = omega arith;
  new = unknown;
  free = rw first_free (omega arith);
}

do_evlrn-Calls_example :
    Calls chip (do_evlrn chip pupil 1 7) heard (event_handler_call (find_event_space hashed) heard)
unfolding note_event
do_evlrn-Calls_example = do_evlrn-Calls chip pupil 7 heard teachable refl refl

flim_sw_check-IsConsistent_example : IsConsistent (flim_sw_check chip pupil 5)
flim_sw_check-IsConsistent_example = flim_sw_check-IsConsistent chip pupil 5 tt

-- An enumeration of the module `pupil`, with an answer of ID 9.
lowest_free-hear_all_example :
    IsChosen (hear_all (start_enumeration pupil 50) (9 ∷ [])).enum_responses (9 ∷ [])
unfolding AllBelow
lowest_free-hear_all_example = lowest_free-hear_all pupil 50 (9 ∷ []) (omega arith, tt)

do_snn-IsSetUp_example : IsSetUp chip pupil (do_snn chip pupil)
do_snn-IsSetUp_example = do_snn-IsSetUp chip pupil

abbrev ring : CircularBuffer
ring = create 2 (some (replicate 2 (record { insert_time = 0; item = empty_frame })))

-- A module that consumes its own events.
abbrev selfish : Node (Unit {0})
selfish = record pupil { coe_obj = some ring }

send_event_with_data-IsKeptBare_example :
    IsKeptBare selfish (send_event_with_data selfish 0x0105 2 true 0 [] 9) ring 9 0x0105
send_event_with_data-IsKeptBare_example =
    send_event_with_data-IsKeptBare selfish ring 0x0105 2 true 0 [] 9 refl refl
