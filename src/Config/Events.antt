-- ===== src/Config/Events.antt =====
-- The event table of CBUSConfig.cpp: slots of stored events with their variables, and the table of hashes that
-- speeds up the search. A loop counter of type int_fast8_t is an int on the Pico, so it does not wrap.
pub mod Find
pub mod Slots
pub mod Written
pub mod Learn
use cbuspico_lib.Common.{
  ℕ, zero, suc, ◌+◌, ◌-◌, ◌*◌, ◌/◌, ◌%◌, ◌^◌, ◌≤◌, ◌<◌, bit_and, bit_or, bit_xor, min, ◌≡◌, refl,
  sym, ap, ap₂, ◌∙◌, subst, ◌≡⟨◌⟩◌, ◌∎, ◌≢◌, ◌↔◌, ◌⊎◌, inl, inr, Bool, true, false, ◌&&◌, ◌||◌, not,
  Option, none, some, List, [], ◌∷◌, ◌++◌, append-nil, append_assoc, arith, ltb, leb, ◌==◌,
  if◌then◌else◌, same, ltb→lt, lt→ltb, leb→le, ==_iff, Bool-cases, Option-cases, some_eq,
  passes_below, passes_below_lem, length, get_elem?, get_or, set, take, drop, replicate,
  length-append, length-set, length-take, length-drop, length-replicate, get_or-set_self,
  get_or-set_ne, get_or-set, get_or-replicate, get_elem?-eq-get_or, array_ext, u8, u16, u32, sub32,
  shr, low_byte, high_byte,
}
use cbuspico_lib.Config.{Config, Driver, EventInfo, ev_info_unused, event_eq}
use cbuspico_lib.Config.Storage.{read_eeprom, write_eeprom, commit_changes, load_flash, load_nvs}

abbrev pub hash_length : ℕ
hash_length = 128

-- A folded 16-bit number, as an int.
abbrev pub fold : ℕ → ℕ
fold n = bit_xor n (n / 2 ^ 8)

unfoldable pub make_hash : EventInfo → ℕ
make_hash ev =
    let hash = u8 (7 * u8 (fold ev.event_number) + fold ev.node_number) % hash_length in
    if hash == 0 then 255 else hash

-- The entry of the hash table for a slot: zero for a free slot.
unfoldable pub slot_hash : EventInfo → ℕ
slot_hash ev = if event_eq ev ev_info_unused then 0 else make_hash ev

-- The first index of a hash, from an index on.
unfoldable pub find_hash : ℕ → ℕ → List ℕ → ℕ
find_hash h i [] = i
find_hash h i (t ∷ table) = let rest = find_hash h (i + 1) table in if t == h then i else rest

unfoldable pub count_hash : ℕ → List ℕ → ℕ
count_hash h [] = 0
count_hash h (t ∷ table) = (if t == h then 1 else 0) + count_hash h table

unfoldable pub collides : List ℕ → Bool
collides [] = false
collides (t ∷ table) = ltb 0 (count_hash t table) && not (t == 0) || collides table

unfoldable pub count_used : List ℕ → ℕ
count_used [] = 0
count_used (t ∷ table) = (if not (t == 0) then 1 else 0) + count_used table

module _ {Bus : Type 0} where
  -- The address of a byte of a slot.
  abbrev pub slot_address : Config Bus → ℕ → ℕ → ℕ
  slot_address c idx k = u32 (c.events_start + idx * c.bytes_per_event + k)

  unfoldable pub check_hash_collisions : Config Bus → Bool
  check_hash_collisions c = collides c.hash_table

  unfoldable pub clear_ev_hash_table : Config Bus → Config Bus
  clear_ev_hash_table c = record c {
    hash_table = replicate c.max_events 0;
    hash_collisions = false;
  }

  unfoldable pub num_events : Config Bus → ℕ
  num_events c = u8 (count_used c.hash_table)

  unfoldable pub get_ev_table_entry : Config Bus → ℕ → ℕ
  get_ev_table_entry c tindex = if ltb tindex c.max_events then get_or c.hash_table tindex 0 else 0

  unfoldable pub find_event_space : Config Bus → ℕ
  find_event_space c = find_hash 0 0 c.hash_table

module _ {Bus : Type 0} (d : Driver Bus) where
  unfoldable pub read_event : Config Bus → ℕ → EventInfo
  read_event c idx =
      let byte = λ (k : ℕ). read_eeprom d c (slot_address c idx k) in
      record {
        node_number = u16 (byte 0 * 2 ^ 8 + byte 1);
        event_number = u16 (byte 2 * 2 ^ 8 + byte 3);
      }

  -- The variables of an event are numbered from one.
  unfoldable pub get_event_ev_val : Config Bus → ℕ → ℕ → ℕ
  get_event_ev_val c idx evnum = read_eeprom d c (slot_address c idx (3 + evnum))

  unfoldable pub write_event_ev : Config Bus → ℕ → ℕ → ℕ → Config Bus
  write_event_ev c idx evnum evval = write_eeprom d c (slot_address c idx (3 + evnum)) evval true

  unfoldable pub write_event : Config Bus → ℕ → EventInfo → Bool → Config Bus
  write_event c idx ev flush =
      let c0 = write_eeprom d c (slot_address c idx 0) (high_byte ev.node_number) false in
      let c1 = write_eeprom d c0 (slot_address c idx 1) (low_byte ev.node_number) false in
      let c2 = write_eeprom d c1 (slot_address c idx 2) (high_byte ev.event_number) false in
      let c3 = write_eeprom d c2 (slot_address c idx 3) (low_byte ev.event_number) false in
      if flush then commit_changes d c3 else c3

  unfoldable pub clear_event_eeprom : Config Bus → ℕ → Bool → Config Bus
  clear_event_eeprom c idx flush = write_event c idx ev_info_unused flush

  unfoldable pub clear_slots : Config Bus → ℕ → ℕ → Config Bus
  clear_slots c e zero = c
  clear_slots c e (suc rounds) = clear_slots (clear_event_eeprom c e false) (e + 1) rounds

  unfoldable pub clear_events_eeprom : Config Bus → Config Bus
  clear_events_eeprom c = commit_changes d (clear_slots c 0 c.max_events)

  -- The entries of the slots from an index on.
  unfoldable pub hashes : Config Bus → ℕ → ℕ → List ℕ
  hashes c idx zero = []
  hashes c idx (suc rounds) = slot_hash (read_event c idx) ∷ hashes c (idx + 1) rounds

  -- The allocation of the table is assumed to succeed: the code stops the module otherwise.
  unfoldable pub make_ev_hash_table : Config Bus → Config Bus
  make_ev_hash_table c =
      let table = hashes c 0 c.max_events in
      record c { hash_table = table; hash_collisions = collides table }

  unfoldable pub update_ev_hash_entry : Config Bus → ℕ → Config Bus
  update_ev_hash_entry c idx =
      let table = set c.hash_table idx (slot_hash (read_event c idx)) in
      record c { hash_table = table; hash_collisions = collides table }

  -- The slow search: the first slot with this hash that stores this event.
  unfoldable pub scan_events : Config Bus → EventInfo → ℕ → ℕ → List ℕ → ℕ
  scan_events c ev h i [] = i
  scan_events c ev h i (t ∷ table) =
      let rest = scan_events c ev h (i + 1) table in
      if (t == h) && event_eq (read_event c i) ev then i else rest

  -- The slot that the hashes point at, and whether its event is known to match.
  unfoldable pub candidate : Config Bus → EventInfo → ℕ × Bool
  candidate c ev =
      let h = make_hash ev in
      if (ltb (find_hash h 0 c.hash_table) c.max_events && c.hash_collisions)
        && ltb 1 (count_hash h c.hash_table)
      then (let i = scan_events c ev h 0 c.hash_table in (i, ltb i c.max_events))
      else (find_hash h 0 c.hash_table, false)

  unfoldable pub find_existing_event : Config Bus → EventInfo → ℕ
  find_existing_event c ev =
      let (i, confirmed) = candidate c ev in
      if (ltb i c.max_events && not confirmed) && not (event_eq (read_event c i) ev)
      then c.max_events
      else i

  -- Setting up the I2C controller and its pins is left out.
  unfoldable pub begin : Config Bus → Config Bus
  begin c =
      load_nvs d
        (make_ev_hash_table (load_flash d (record c { bytes_per_event = u8 (c.num_evs + 4) })))
