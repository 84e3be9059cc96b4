-- ===== src/Config/Events/Find.antt =====
-- The search by hash gives the slot that a search of the stored events themselves gives: findExistingEvent
-- and the functions that keep the hash table, of CBUSConfig.cpp.
use cbuspico_lib.Common.{
  ℕ, zero, suc, ◌+◌, ◌≤◌, ◌<◌, ◌≡◌, refl, sym, ap, ap₂, ◌∙◌, subst, ◌⊎◌, inl, inr, Bool, true,
  false, ◌&&◌, not, List, [], ◌∷◌, arith, ltb, ◌==◌, if◌then◌else◌, Bool-cases, length,
}
use cbuspico_lib.Config.{Config, Driver, EventInfo, ev_info_unused, event_eq}
use cbuspico_lib.Config.Flash.{get_chip_eeprom_val}
use cbuspico_lib.Config.Storage.{read_eeprom}
use cbuspico_lib.Config.Events.{
  make_hash, slot_hash, find_hash, count_hash, collides, hashes, read_event, make_ev_hash_table,
  scan_events, candidate, find_existing_event,
}

pub make_hash_nonzero : (ev : EventInfo) → (1 ≤ make_hash ev) × (make_hash ev ≤ 255)
unfolding make_hash
make_hash_nonzero ev = ground arith

pub event_eq-eq : (a b : EventInfo) → event_eq a b ≡ true → a ≡ b
event_eq-eq a b h =
    ap₂ (λ n e. record { node_number = n; event_number = e }) (ground arith) (ground arith)

count-zero :
    (h : ℕ) (i : ℕ) (table : List ℕ)
    → count_hash h table ≡ 0
    → find_hash h i table ≡ i + length table
unfolding find_hash count_hash
count-zero h i [] e = omega arith
count-zero h i (t ∷ table) e = ground (arith, count-zero h (i + 1) table)

count_collide-eq :
    (h t : ℕ) (table : List ℕ) → (t == h) ≡ true → count_hash t table ≡ count_hash h table
count_collide-eq h t table e = ap (λ x. count_hash x table) (ground arith)

-- Without collisions, a hash that is not zero stands in the table at most once.
count-collides : (h : ℕ) (table : List ℕ) → 1 ≤ h → collides table ≡ false → count_hash h table ≤ 1
unfolding collides count_hash
count-collides h [] n e = omega arith
count-collides h (t ∷ table) n e =
    ground (arith, count-collides h table n, count_collide-eq h t table)

find_hash-count :
    (h i : ℕ) (table : List ℕ) → (count_hash h table ≡ 0) ⊎ (find_hash h i table < i + length table)
unfolding count_hash find_hash
find_hash-count h i [] = inl refl
find_hash-count h i (t ∷ table) = ground (arith, find_hash-count h (i + 1) table)

module _ {Bus : Type 0} (d : Driver Bus) where
  -- The hash table describes the stored events.
  pub record IsHashed (c : Config Bus) : Type 0 where
    pub table : c.hash_table ≡ hashes d c 0 c.max_events
    pub collisions : c.hash_collisions ≡ collides c.hash_table

  -- The first slot from an index on that stores the event, by reading each of them.
  unfoldable pub first_slot : Config Bus → EventInfo → ℕ → ℕ → ℕ
  first_slot c ev i zero = i
  first_slot c ev i (suc n) =
      let rest = first_slot c ev (i + 1) n in if event_eq (read_event d c i) ev then i else rest

  pub length-hashes : (c : Config Bus) (i n : ℕ) → length (hashes d c i n) ≡ n
  unfolding hashes
  length-hashes c i zero = refl
  length-hashes c i (suc n) = ap suc (length-hashes c (i + 1) n)

  -- An event that is stored has its hash in the table.
  hash_of-slot :
      (c : Config Bus) (ev : EventInfo) (i : ℕ)
      → event_eq ev ev_info_unused ≡ false
      → event_eq (read_event d c i) ev ≡ true
      → slot_hash (read_event d c i) ≡ make_hash ev
  unfolding slot_hash
  hash_of-slot c ev i u e =
      subst (λ x. slot_hash x ≡ make_hash ev) (sym (event_eq-eq (read_event d c i) ev e))
        (simp u refl)

  scan_events-first :
      (c : Config Bus) (ev : EventInfo) (i n : ℕ)
      → event_eq ev ev_info_unused ≡ false
      → scan_events d c ev (make_hash ev) i (hashes d c i n) ≡ first_slot c ev i n
  unfolding scan_events hashes first_slot
  scan_events-first c ev i zero u = refl
  scan_events-first c ev i (suc n) u = elim (Bool-cases (event_eq (read_event d c i) ev)) [
    | inl e ↦
        let hash : slot_hash (read_event d c i) ≡ make_hash ev = hash_of-slot c ev i u e in
        ground (arith, hash, e)
    | inr e ↦ ground (arith, scan_events-first c ev (i + 1) n u, e)
  ]

  first_slot-absent :
      (c : Config Bus) (ev : EventInfo) (i n : ℕ)
      → event_eq ev ev_info_unused ≡ false
      → count_hash (make_hash ev) (hashes d c i n) ≡ 0
      → first_slot c ev i n ≡ i + n
  unfolding hashes first_slot count_hash
  first_slot-absent c ev i zero u e = omega arith
  first_slot-absent c ev i (suc n) u e =
      ground (arith, hash_of-slot c ev i u, first_slot-absent c ev (i + 1) n u)

  -- A hash that the table holds at most once leads to the right slot, once its event is compared.
  find_hash-first :
      (c : Config Bus) (ev : EventInfo) (i n m : ℕ)
      → event_eq ev ev_info_unused ≡ false
      → m ≡ i + n
      → count_hash (make_hash ev) (hashes d c i n) ≤ 1
      → (if ltb (find_hash (make_hash ev) i (hashes d c i n)) m
            && not (event_eq (read_event d c (find_hash (make_hash ev) i (hashes d c i n))) ev)
          then m
          else find_hash (make_hash ev) i (hashes d c i n))
        ≡ first_slot c ev i n
  unfolding find_hash hashes first_slot count_hash
  find_hash-first c ev i zero m u e le = ground arith
  find_hash-first c ev i (suc n) m u e le =
      elim (Bool-cases (slot_hash (read_event d c i) == make_hash ev)) [
        | inl hit ↦ rw hit (ground (arith, first_slot-absent c ev (i + 1) n u))
        | inr miss ↦
            rw miss (ground (arith, hash_of-slot c ev i u, find_hash-first c ev (i + 1) n m u))
      ]

  searched :
      (c : Config Bus) (ev : EventInfo)
      → event_eq ev ev_info_unused ≡ false
      → IsHashed c
      → count_hash (make_hash ev) c.hash_table ≤ 1
      → (if ltb (find_hash (make_hash ev) 0 c.hash_table) c.max_events
            && not (event_eq (read_event d c (find_hash (make_hash ev) 0 c.hash_table)) ev)
          then c.max_events
          else find_hash (make_hash ev) 0 c.hash_table)
        ≡ first_slot c ev 0 c.max_events
  searched c ev u s =
      subst
        (λ table.
          count_hash (make_hash ev) table ≤ 1
          → (if ltb (find_hash (make_hash ev) 0 table) c.max_events
                && not (event_eq (read_event d c (find_hash (make_hash ev) 0 table)) ev)
              then c.max_events
              else find_hash (make_hash ev) 0 table)
            ≡ first_slot c ev 0 c.max_events)
        (sym s.table) (find_hash-first c ev 0 c.max_events c.max_events u (omega arith))

  -- Where the slow search is not made, the hash stands in the table at most once.
  few :
      (c : Config Bus) (ev : EventInfo)
      → IsHashed c
      → ((ltb (find_hash (make_hash ev) 0 c.hash_table) c.max_events && c.hash_collisions)
          && ltb 1 (count_hash (make_hash ev) c.hash_table))
        ≡ false
      → count_hash (make_hash ev) c.hash_table ≤ 1
  few c ev s h = elim (find_hash-count (make_hash ev) 0 c.hash_table) [
    | inl none_there ↦ omega (arith, none_there)
    | inr there ↦
        let len : length c.hash_table ≡ c.max_events =
          rw s.table (length-hashes c 0 c.max_events) in
        ground (
          arith,
          count-collides (make_hash ev) c.hash_table (make_hash_nonzero ev).0,
          s.collisions,
          len,
          there,
        )
  ]

  -- If the hash table describes the stored events, findExistingEvent gives the first slot that stores the
  -- event, and the number of slots if none does, for every event other than the mark of a free slot.
  pub find_existing_event-first_slot :
      (c : Config Bus) (ev : EventInfo)
      → IsHashed c
      → event_eq ev ev_info_unused ≡ false
      → find_existing_event d c ev ≡ first_slot c ev 0 c.max_events
  unfolding find_existing_event candidate
  find_existing_event-first_slot c ev s u =
      elim (Bool-cases (
        (ltb (find_hash (make_hash ev) 0 c.hash_table) c.max_events && c.hash_collisions)
        && ltb 1 (count_hash (make_hash ev) c.hash_table))) [
          | inl slow ↦
              let scan : scan_events d c ev (make_hash ev) 0 c.hash_table
                  ≡ first_slot c ev 0 c.max_events =
                subst
                  (λ table.
                    scan_events d c ev (make_hash ev) 0 table ≡ first_slot c ev 0 c.max_events)
                  (sym s.table) (scan_events-first c ev 0 c.max_events u) in
              rw slow (ground (arith, scan))
          | inr fast ↦ rw fast (ground (arith, searched c ev u s (few c ev s fast)))
        ]

  -- Reading a slot does not depend on the hash table.
  pub read_event-of_table :
      (c : Config Bus) (table : List ℕ) (b : Bool) (i : ℕ)
      → read_event d (record c { hash_table = table; hash_collisions = b }) i ≡ read_event d c i
  unfolding read_event read_eeprom get_chip_eeprom_val
  read_event-of_table c table b i = refl

  pub hashes-of_table :
      (c : Config Bus) (table : List ℕ) (b : Bool) (i n : ℕ)
      → hashes d (record c { hash_table = table; hash_collisions = b }) i n ≡ hashes d c i n
  unfolding hashes
  hashes-of_table c table b i zero = refl
  hashes-of_table c table b i (suc n) =
      ap₂ (λ e es. slot_hash e ∷ es) (read_event-of_table c table b i)
        (hashes-of_table c table b (i + 1) n)

  make_ev_hash_table-IsHashed : (c : Config Bus) → IsHashed (make_ev_hash_table d c)
  unfolding make_ev_hash_table hashes
  make_ev_hash_table-IsHashed c = record {
    table = sym (
        hashes-of_table c (hashes d c 0 c.max_events) (collides (hashes d c 0 c.max_events)) 0
          c.max_events);
    collisions = refl;
  }

  first_slot-of_table :
      (c : Config Bus) (table : List ℕ) (b : Bool) (ev : EventInfo) (i n : ℕ)
      → first_slot (record c { hash_table = table; hash_collisions = b }) ev i n
        ≡ first_slot c ev i n
  unfolding first_slot
  first_slot-of_table c table b ev i zero = refl
  first_slot-of_table c table b ev i (suc n) =
      rw (read_event-of_table c table b i, first_slot-of_table c table b ev (i + 1) n) refl

  first_slot-made :
      (c : Config Bus) (ev : EventInfo)
      → first_slot (make_ev_hash_table d c) ev 0 (make_ev_hash_table d c).max_events
        ≡ first_slot c ev 0 c.max_events
  unfolding make_ev_hash_table
  first_slot-made c ev =
      let table = hashes d c 0 c.max_events in
      first_slot-of_table c table (collides table) ev 0 c.max_events

  -- Whatever the hash table held before, after makeEvHashTable findExistingEvent gives the first slot that stores the
  -- event, as reading every slot of the memory finds it, and the number of slots if none does, for every event
  -- other than the mark of a free slot.
  pub find_existing_event-make_ev_hash_table :
      (c : Config Bus) (ev : EventInfo)
      → event_eq ev ev_info_unused ≡ false
      → find_existing_event d (make_ev_hash_table d c) ev ≡ first_slot c ev 0 c.max_events
  find_existing_event-make_ev_hash_table c ev u =
      find_existing_event-first_slot (make_ev_hash_table d c) ev (make_ev_hash_table-IsHashed c) u
      ∙ first_slot-made c ev
