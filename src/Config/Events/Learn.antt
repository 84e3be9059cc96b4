-- ===== src/Config/Events/Learn.antt =====
-- Learning an event in flash mode: writeEvent and updateEvHashEntry of CBUSConfig.cpp store it in its slot and in
-- no other, so that the search finds it.
use cbuspico_lib.Common.{
  ℕ, zero, suc, ◌+◌, ◌^◌, ◌≤◌, ◌<◌, ◌≡◌, refl, sym, ap, ap₂, ◌∙◌, Bool, true, false, List, ◌∷◌,
  arith, ◌==◌, if◌then◌else◌, set,
}
use cbuspico_lib.Config.{Config, Driver, EventInfo, ev_info_unused, event_eq}
use cbuspico_lib.Config.Events.{
  slot_hash, hashes, read_event, write_event, update_ev_hash_entry, find_existing_event,
}
use cbuspico_lib.Config.Events.Find.{
  IsHashed, first_slot, find_existing_event-first_slot, hashes-of_table, read_event-of_table,
}
use cbuspico_lib.Config.Events.Slots.{IsPlaced, IsKept}
use cbuspico_lib.Config.Events.Written.{write_event-IsKept, read_event-write_event}

at_slot :
    {A : Type 0} {x : A} (a j : ℕ) (e o : A)
    → x ≡ (if a == j then e else o)
    → (a == j) ≡ true
    → x ≡ e
at_slot a j e o h same_slot = h ∙ ap (λ b. if b then e else o) same_slot

off_slot :
    {A : Type 0} {x : A} (a j : ℕ) (e o : A)
    → x ≡ (if a == j then e else o)
    → (a == j) ≡ false
    → x ≡ o
off_slot a j e o h other_slot = h ∙ ap (λ b. if b then e else o) other_slot

==_self : (n : ℕ) → (n == n) ≡ true
==_self n = ground arith

module _ {Bus : Type 0} (d : Driver Bus) where
  hashes-same :
      (c c' : Config Bus) (i n : ℕ)
      → ((j : ℕ) → i ≤ j → j < i + n → read_event d c' j ≡ read_event d c j)
      → hashes d c' i n ≡ hashes d c i n
  unfolding hashes
  hashes-same c c' i zero h = refl
  hashes-same c c' i (suc n) h =
      ap₂ (λ e es. slot_hash e ∷ es) (h i (omega arith) (omega arith))
        (hashes-same c c' (i + 1) n (λ j ge lt. h j (omega arith) (omega arith)))

  hashes-write :
      (c c' : Config Bus) (ev : EventInfo) (i n k a : ℕ)
      → ((j : ℕ) → j < i + n → read_event d c' j ≡ (if a == j then ev else read_event d c j))
      → a ≡ i + k
      → hashes d c' i n ≡ set (hashes d c i n) k (slot_hash ev)
  unfolding hashes
  hashes-write c c' ev i zero k a h e = refl
  hashes-write c c' ev i (suc n) zero a h e =
      ap₂ (λ e es. slot_hash e ∷ es)
        (at_slot a i ev (read_event d c i) (h i (omega arith)) (ground arith))
        (hashes-same c c' (i + 1) n
          (λ j ge lt. off_slot a j ev (read_event d c j) (h j (omega arith)) (ground arith)))
  hashes-write c c' ev i (suc n) (suc k) a h e =
      ap₂ (λ e es. slot_hash e ∷ es)
        (off_slot a i ev (read_event d c i) (h i (omega arith)) (ground arith))
        (hashes-write c c' ev (i + 1) n k a (λ j lt. h j (omega arith)) (omega arith))

  first_slot-write :
      (c c' : Config Bus) (ev : EventInfo) (i n k a : ℕ)
      → ((j : ℕ) → j < i + n → read_event d c' j ≡ (if a == j then ev else read_event d c j))
      → a ≡ i + k
      → k < n
      → first_slot d c ev i n ≡ i + n
      → first_slot d c' ev i n ≡ a
  unfolding first_slot
  first_slot-write c c' ev i zero k a h e lt new = absurd (omega arith)
  first_slot-write c c' ev i (suc n) zero a h e lt new =
      let now : read_event d c' i ≡ ev =
        at_slot a i ev (read_event d c i) (h i (omega arith)) (ground arith) in
      rw now (simp (==_self ev.node_number, ==_self ev.event_number) (omega arith))
  first_slot-write c c' ev i (suc n) (suc k) a h e lt new =
      let old : read_event d c' i ≡ read_event d c i =
        off_slot a i ev (read_event d c i) (h i (omega arith)) (ground arith) in
      rw old (ground (arith, first_slot-write c c' ev (i + 1) n k a (λ j lt. h j (omega arith))))

  first_slot-of_table :
      (ev : EventInfo) (c' : Config Bus) (table : List ℕ) (b : Bool) (i n : ℕ)
      → first_slot d (record c' { hash_table = table; hash_collisions = b }) ev i n
        ≡ first_slot d c' ev i n
  unfolding first_slot
  first_slot-of_table ev c' table b i zero = refl
  first_slot-of_table ev c' table b i (suc n) =
      rw (read_event-of_table d c' table b i, first_slot-of_table ev c' table b (i + 1) n) refl

  -- A configuration `c'` that differs from `c` in the event of one slot.
  module _ {c : Config Bus} (idx : ℕ) (ev : EventInfo) (hi : idx < c.max_events) (c' : Config Bus)
      (q : IsKept c c')
      (reads : (j : ℕ)
        → j < c.max_events
        → read_event d c' j ≡ (if idx == j then ev else read_event d c j)) where
    table_after :
        IsHashed d c
        → set c'.hash_table idx (slot_hash (read_event d c' idx)) ≡ hashes d c' 0 c'.max_events
    table_after s =
        ap₂ (λ t x. set t idx (slot_hash x)) (q.table ∙ s.table)
          (at_slot idx idx ev (read_event d c idx) (reads idx hi) (==_self idx))
        ∙ sym (
            hashes-write c c' ev 0 c.max_events idx idx (λ j lt. reads j (omega arith))
              (omega arith))
        ∙ ap (hashes d c' 0) (sym q.slots)

    -- Updating the entry of the slot keeps the hash table right.
    pub update_ev_hash_entry-IsHashed : IsHashed d c → IsHashed d (update_ev_hash_entry d c' idx)
    unfolding update_ev_hash_entry
    update_ev_hash_entry-IsHashed s = record {
      table = table_after s ∙ sym (hashes-of_table d c' _ _ 0 _);
      collisions = refl;
    }

    first_slot-updated :
        first_slot d c ev 0 c.max_events ≡ c.max_events
        → first_slot d
            (update_ev_hash_entry d c' idx)
            ev
            0
            (update_ev_hash_entry d c' idx).max_events
          ≡ idx
    unfolding update_ev_hash_entry
    first_slot-updated new =
        first_slot-of_table ev c' _ _ 0 _
        ∙ ap (first_slot d c' ev 0) q.slots
        ∙ first_slot-write c c' ev 0 c.max_events idx idx (λ j lt. reads j (omega arith))
            (omega arith) hi (new ∙ (omega arith))

    -- An event that was not found before is found in the slot.
    pub find_existing_event-updated :
        event_eq ev ev_info_unused ≡ false
        → IsHashed d c
        → find_existing_event d c ev ≡ c.max_events
        → find_existing_event d (update_ev_hash_entry d c' idx) ev ≡ idx
    find_existing_event-updated u s new =
        find_existing_event-first_slot d _ ev (update_ev_hash_entry-IsHashed s) u
        ∙ first_slot-updated (sym (find_existing_event-first_slot d c ev s u) ∙ new)

  module _ {c : Config Bus} (idx : ℕ) (ev : EventInfo) (p : IsPlaced c)
      (hi : idx < c.max_events) where
    -- In flash mode, with the slots placed inside the sector and the hash table right, an event that the
    -- search does not find is found in the slot that it is written into, once the entry of that slot is
    -- updated. It may be any event of 16-bit numbers but the mark of a free slot.
    pub find_existing_event-learned :
        (flush : Bool)
        → ev.node_number < 2 ^ 16
        → ev.event_number < 2 ^ 16
        → event_eq ev ev_info_unused ≡ false
        → IsHashed d c
        → find_existing_event d c ev ≡ c.max_events
        → find_existing_event d (update_ev_hash_entry d (write_event d c idx ev flush) idx) ev ≡ idx
    find_existing_event-learned flush hn he u s new =
        find_existing_event-updated idx ev hi (write_event d c idx ev flush)
          (write_event-IsKept d idx ev p hi flush)
          (λ j lt. read_event-write_event d idx ev p hi flush j lt hn he) u s new
