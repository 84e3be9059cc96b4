-- ===== src/CircularBuffer/Queue.antt =====
-- What CBUSCircularBuffer promises: a queue that holds at most `capacity` frames and gives up the
-- oldest one to a frame that finds it full.
use cbuspico_lib.Common.{
  ℕ, Option, none, some, List, [], ◌∷◌, ◌++◌, ◌==◌, if◌then◌else◌, length, drop,
}
use cbuspico_lib.Frame.{CanFrame}
use cbuspico_lib.CircularBuffer.{Slot}

-- Oldest first.
abbrev pub Queue : Type 0
Queue = List Slot

unfoldable pub push : ℕ → Queue → Slot → Queue
push capacity q s = if length q == capacity then drop 1 q ++ s ∷ [] else q ++ s ∷ []

unfoldable pub pop : Queue → Option Slot × Queue
pop [] = (none, [])
pop (s ∷ q) = (some s, q)

-- The calls of the interrupt handler and of the message loop.
pub data Call : Type 0 where
  puts : ℕ → CanFrame → Call
  gets : Call
  clears : Call

unfoldable pub run : ℕ → Queue → List Call → List (Option Slot)
run capacity q [] = []
run capacity q (puts now item ∷ cs) =
    none ∷ run capacity (push capacity q (record { insert_time = now; item = item })) cs
run capacity q (gets ∷ cs) = let (s, q') = pop q in s ∷ run capacity q' cs
run capacity q (clears ∷ cs) = none ∷ run capacity [] cs
