-- ===== src/CircularBuffer.antt =====
-- CBUSCircularBuffer.cpp and CBUSCircularBuffer.h: the ring of CAN frames between the interrupt
-- handler and the message loop. A method returns the new object beside its result. The time that
-- `put` reads from SystemTick::GetMicros is an argument. A `CANFrame *` into the storage is the index of
-- its slot. Storage is `none` for a null pointer; what `new (std::nothrow)` returned is an argument.
pub mod Invariant
pub mod Queue
pub mod Refine
pub mod History
mod Tests
use cbuspico_lib.Common.{
  ℕ, ◌+◌, ◌-◌, ◌%◌, ◌^◌, Bool, false, ◌&&◌, not, Option, none, some, List, [], ltb, leb, ◌==◌,
  if◌then◌else◌, get_or, set, u8, u32,
}
use cbuspico_lib.Frame.{CanFrame, empty_frame}

-- `cbus_frame_buffer_t`
pub record Slot : Type 0 where
  pub insert_time : ℕ
  pub item : CanFrame

pub record CircularBuffer : Type 0 where
  pub full : Bool
  pub head : ℕ
  pub tail : ℕ
  pub capacity : ℕ
  pub count : ℕ
  pub high_water_mark : ℕ
  pub puts : ℕ
  pub gets : ℕ
  pub overflows : ℕ
  pub buffer : Option (List Slot)

-- What an index outside the storage would read; the invariant rules that out.
abbrev pub no_slot : Slot
no_slot = record { insert_time = 0; item = empty_frame }

abbrev pub stored_slots : Option (List Slot) → List Slot
stored_slots none = []
stored_slots (some slots) = slots

pub create : ℕ → Option (List Slot) → CircularBuffer
create num_items allocated = record {
  full = false;
  head = 0;
  tail = 0;
  capacity = num_items;
  count = 0;
  high_water_mark = 0;
  puts = 0;
  gets = 0;
  overflows = 0;
  buffer = if ltb 0 num_items then allocated else none;
}

pub available : CircularBuffer → Bool
available b = ltb 0 b.count

-- The value that `size` computes before it stores it in `m_size`.
abbrev pub used : CircularBuffer → ℕ
used b =
    if b.full
    then b.capacity
    else (if leb b.tail b.head then u8 (b.head - b.tail) else u8 (b.capacity + b.head - b.tail))

-- `size` also refreshes `m_size`.
pub size : CircularBuffer → CircularBuffer × ℕ
size b = (record b { count = used b }, used b)

-- The first half of `put`: store the slot, and let the oldest go if the ring is full.
abbrev pub store : CircularBuffer → List Slot → Slot → CircularBuffer
store b slots s = record b {
  buffer = some (set slots b.head s);
  tail = if b.full then (b.tail + 1) % b.capacity else b.tail;
  overflows = if b.full then u32 (b.overflows + 1) else b.overflows;
}

-- The second half of `put`: advance the head and bring the counters up to date.
abbrev pub advance : CircularBuffer → CircularBuffer
advance b =
    let moved = record b { head = (b.head + 1) % b.capacity } in
    let flagged = record moved { full = moved.head == moved.tail } in
    let sized = (size flagged).0 in
    record sized {
      high_water_mark =
          if ltb sized.high_water_mark sized.count then sized.count else sized.high_water_mark;
      puts = u32 (sized.puts + 1);
    }

pub put : CircularBuffer → ℕ → CanFrame → CircularBuffer
unfolding size
put b now item = elim b.buffer [
  | none ↦ b
  | some slots ↦ advance (store b slots (record { insert_time = now; item = item }))
]

-- The pointer that `get` returns is the index of its slot.
pub get : CircularBuffer → CircularBuffer × Option ℕ
unfolding size
get b = elim b.buffer [
  | none ↦ (b, none)
  | some slots ↦
      if ltb 0 b.count
      then (
        record ((size (record b { full = false; tail = (b.tail + 1) % b.capacity })).0) {
          gets = u32 (b.gets + 1);
        },
        some b.tail,
      )
      else (b, none)
]

-- What a caller reads through the pointer.
pub deref : CircularBuffer → ℕ → Slot
deref b i = get_or (stored_slots b.buffer) i no_slot

-- A null storage reads as time 0, which is what `no_slot` holds.
pub insert_time : CircularBuffer → ℕ
insert_time b = (get_or (stored_slots b.buffer) b.tail no_slot).insert_time

pub peek : CircularBuffer → Option ℕ
peek b = elim b.buffer [ none ↦ none | some slots ↦ if b.count == 0 then none else some b.tail ]

pub clear : CircularBuffer → CircularBuffer
clear b = record b { head = 0; tail = 0; full = false; count = 0 }

pub empty : CircularBuffer → Bool
empty b = not b.full && (b.head == b.tail)

pub free_slots : CircularBuffer → ℕ
free_slots b = u8 (b.capacity + 2 ^ 8 - b.count)
