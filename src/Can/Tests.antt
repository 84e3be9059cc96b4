-- ===== src/Can/Tests.antt =====
-- A module with a CAN controller, and the theorems at inputs that meet their hypotheses.
use cbuspico_lib.Common.{ℕ, refl, true, none, some, List, [], ◌∷◌, arith, replicate}
use cbuspico_lib.CircularBuffer.{create, no_slot}
use cbuspico_lib.GridConnect.Server.{err_ok}
use cbuspico_lib.Led.{still}
use cbuspico_lib.Node.Tests.{pupil}
use cbuspico_lib.Can.{Can, Clock, Message, new_can, begin, notify_rx, notify_cb}
use cbuspico_lib.Can.Process.{Round}
use cbuspico_lib.Can.Process.Order.{Picks, pick-Forwards}
use cbuspico_lib.Can.Received.{Keeps, IsOnBus, notify_cb-Keeps}

abbrev idle : Can (Unit {0}) (List ℕ)
idle =
    (begin (new_can pupil none) (some (some (replicate 32 no_slot)))
      (some (some (replicate 8 no_slot))) true).0

-- The event 2 of node 0x0105, on, from node 5.
abbrev arriving : Message
arriving = record { id = 0x585; dlc = 5; bytes = 0x90 ∷ 1 ∷ 5 ∷ 0 ∷ 2 ∷ 0 ∷ 0 ∷ 0 ∷ [] }

abbrev times : Clock
times = record { conflict_time = 3; rtr_time = 3; insert_time = 3000 }

abbrev listening : Can (Unit {0}) (List ℕ)
listening = notify_cb idle notify_rx arriving times

arriving-IsOnBus : IsOnBus arriving
arriving-IsOnBus = record { word = omega arith; identifier = λ e. omega arith }

notify_cb-Keeps_example :
    Keeps arriving
      (create 32 (some (replicate 32 no_slot)))
      (notify_cb idle notify_rx arriving times).rx_buffer
      3000
unfolding begin new_can
notify_cb-Keeps_example =
    notify_cb-Keeps idle (create 32 (some (replicate 32 no_slot))) arriving times arriving-IsOnBus
      refl

abbrev told : Round
told = record {
  free = 0;
  answers = record { write = err_ok; output = err_ok };
  pulse_time = 4;
  led_reads = still 4;
}

pick-Forwards_example : Picks told listening
pick-Forwards_example = pick-Forwards told listening
