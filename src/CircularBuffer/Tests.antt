-- ===== src/CircularBuffer/Tests.antt =====
-- Runs of the ring on concrete frames, and the theorems at inputs that meet their hypotheses.
use cbuspico_lib.Common.{
  ℕ, ◌≡◌, refl, true, false, none, some, List, [], ◌∷◌, arith, ◌==◌, if◌then◌else◌,
}
use cbuspico_lib.Frame.{CanFrame, empty_frame}
use cbuspico_lib.CircularBuffer.{
  Slot, CircularBuffer, no_slot, create, put, get, peek, deref, available, free_slots, empty, clear,
  insert_time,
}
use cbuspico_lib.CircularBuffer.Queue
use cbuspico_lib.CircularBuffer.Queue.{Call, puts, gets, clears}
use cbuspico_lib.CircularBuffer.Invariant.{IsValid, put-IsValid, get-IsValid, create-IsValid}
use cbuspico_lib.CircularBuffer.Refine.{contents, put_refines}
use cbuspico_lib.CircularBuffer.History.{
  run, run_refines, IsBalanced, put-IsBalanced, deref-put-get,
}

abbrev frame : ℕ → CanFrame
frame n = record empty_frame { id = n; len = 1 }

abbrev slot : ℕ → ℕ → Slot
slot t n = record { insert_time = t; item = frame n }

abbrev fresh : CircularBuffer
unfolding create
fresh = create 2 (some (no_slot ∷ no_slot ∷ []))

-- Three frames went in; the first of them has been lost.
abbrev lapped : CircularBuffer
lapped = record {
  full = true;
  head = 1;
  tail = 1;
  capacity = 2;
  count = 2;
  high_water_mark = 2;
  puts = 3;
  gets = 0;
  overflows = 1;
  buffer = some (slot 30 3 ∷ slot 20 2 ∷ []);
}

put_three : put (put (put fresh 10 (frame 1)) 20 (frame 2)) 30 (frame 3) ≡ lapped
unfolding put create
put_three = refl

get-lapped : (get lapped).1 ≡ some 1
unfolding get
get-lapped = refl

available-lapped : (available lapped ≡ true) × (free_slots lapped ≡ 0) × (empty lapped ≡ false)
unfolding available free_slots empty
available-lapped = (refl, refl, refl)

peek-lapped : (peek lapped ≡ some 1) × (insert_time lapped ≡ 20) × (peek (clear lapped) ≡ none)
unfolding peek insert_time clear
peek-lapped = (refl, refl, refl)

lapped-IsValid : IsValid lapped
lapped-IsValid = record {
  stored = refl;
  room = refl;
  positive = omega arith;
  small = omega arith;
  tail_in = omega arith;
  count_le = omega arith;
  head_at = refl;
  full_when = refl;
  marked = omega arith;
  mark_le = omega arith;
}

script : List Call
script = puts 40 (frame 4) ∷ gets ∷ gets ∷ gets ∷ []

run-script : run lapped script ≡ none ∷ some (slot 30 3) ∷ some (slot 40 4) ∷ none ∷ []
unfolding run script put get deref
run-script = refl

put-IsValid_example : IsValid (put lapped 40 (frame 4))
put-IsValid_example = put-IsValid 40 (frame 4) lapped-IsValid

get-IsValid_example : IsValid (get lapped).0
get-IsValid_example = get-IsValid lapped-IsValid

create-IsValid_example : IsValid (create 2 (some (no_slot ∷ no_slot ∷ [])))
create-IsValid_example = create-IsValid 2 (no_slot ∷ no_slot ∷ []) (omega arith) (omega arith) refl

put_refines_example :
    contents (put lapped 40 (frame 4)) ≡ Queue.push 2 (slot 20 2 ∷ slot 30 3 ∷ []) (slot 40 4)
put_refines_example = put_refines 40 (frame 4) lapped-IsValid

run_refines_example : run lapped script ≡ Queue.run 2 (slot 20 2 ∷ slot 30 3 ∷ []) script
run_refines_example = run_refines script lapped-IsValid

put-IsBalanced_example : IsBalanced (put lapped 40 (frame 4))
put-IsBalanced_example = put-IsBalanced 40 (frame 4) lapped-IsValid refl

deref-put-get_example :
    (i : ℕ) × ((s : Slot) × (((get lapped).1 ≡ some i)
        × ((Queue.pop (contents lapped)).0 ≡ some s)
        × (deref (get lapped).0 i ≡ s)
        × (deref (put (get lapped).0 40 (frame 4)) i
            ≡ (if lapped.count == lapped.capacity then slot 40 4 else s))))
deref-put-get_example = deref-put-get 40 (frame 4) lapped-IsValid (omega arith)
