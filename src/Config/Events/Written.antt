-- ===== src/Config/Events/Written.antt =====
-- Writing the number of an event into its slot: writeEvent and readEvent of CBUSConfig.cpp in flash mode.
use cbuspico_lib.Common.{
  ℕ, zero, suc, ◌+◌, ◌^◌, ◌≤◌, ◌<◌, ◌≡◌, refl, ap, ap₂, ◌∙◌, inl, inr, Bool, true, false, ◌&&◌,
  arith, ◌==◌, if◌then◌else◌, Bool-cases, low_byte, high_byte,
}
use cbuspico_lib.Config.{Config, Driver, EventInfo}
use cbuspico_lib.Config.Storage.{read_eeprom, write_eeprom}
use cbuspico_lib.Config.Storage.Durable.{read_eeprom-write_eeprom, read_eeprom-commit_changes}
use cbuspico_lib.Config.Events.{read_event, write_event, write_event_ev, slot_address}
use cbuspico_lib.Config.Events.Slots.{
  IsPlaced, slot_address_lem, slot_address-apart, IsKept, IsKept-refl, IsKept-trans,
  slot_address-IsKept, write_eeprom-IsKept, commit_changes-IsKept,
}

four_bytes :
    (here : Bool) (f : ℕ → ℕ) (old l : ℕ)
    → l < 4
    → (if here && (3 == l)
        then f 3
        else if here && (2 == l)
        then f 2
        else if here && (1 == l)
        then f 1
        else if here && (0 == l)
        then f 0
        else old)
      ≡ (if here then f l else old)
four_bytes true f old zero lt = refl
four_bytes true f old (suc zero) lt = refl
four_bytes true f old (suc (suc zero)) lt = refl
four_bytes true f old (suc (suc (suc zero))) lt = refl
four_bytes true f old (suc (suc (suc (suc l)))) lt = absurd (omega arith)
four_bytes false f old l lt = refl

module _ {Bus : Type 0} (d : Driver Bus) where
  -- The bytes of an event, as they are stored.
  abbrev event_byte : EventInfo → ℕ → ℕ
  event_byte ev zero = high_byte ev.node_number
  event_byte ev (suc zero) = low_byte ev.node_number
  event_byte ev (suc (suc zero)) = high_byte ev.event_number
  event_byte ev (suc (suc (suc k))) = low_byte ev.event_number

  -- One of the four writes of an event.
  abbrev put_byte : Config Bus → Config Bus → ℕ → EventInfo → ℕ → Config Bus
  put_byte c c' idx ev k = write_eeprom d c' (slot_address c idx k) (event_byte ev k) false

  put_byte-IsKept :
      (c c' : Config Bus) (idx : ℕ) (ev : EventInfo) (k : ℕ)
      → IsPlaced c
      → idx < c.max_events
      → k < 4
      → IsKept c c'
      → IsKept c (put_byte c c' idx ev k)
  put_byte-IsKept c c' idx ev k p lt hk q = IsKept-trans q (
      write_eeprom-IsKept d c' (slot_address c idx k) (event_byte ev k) false (q.type ∙ p.type)
        (slot_address_lem c idx k p lt (omega (arith, p.room))).1)

  put_byte-read :
      (c c' : Config Bus) (idx j : ℕ) (ev : EventInfo) (k l : ℕ)
      → IsPlaced c
      → idx < c.max_events
      → j < c.max_events
      → k < 4
      → l < 4
      → IsKept c c'
      → read_eeprom d (put_byte c c' idx ev k) (slot_address c j l) ≡ (
          if (idx == j) && (k == l) then event_byte ev k else read_eeprom d c' (slot_address c j l))
  put_byte-read c c' idx j ev k l p hi hj hk hl q =
      read_eeprom-write_eeprom d c' (slot_address c idx k) (slot_address c j l) (event_byte ev k)
        false (q.type ∙ p.type) (q.buffer ∙ p.buffer)
        (slot_address_lem c idx k p hi (omega (arith, p.room))).1
      ∙ ap (λ b. if b then event_byte ev k else read_eeprom d c' (slot_address c j l))
          (slot_address-apart c idx j k l p hi hj (omega (arith, p.room)) (omega (arith, p.room)))

  abbrev unflushed : Config Bus → ℕ → EventInfo → Config Bus
  unflushed c idx ev =
      put_byte c (put_byte c (put_byte c (put_byte c c idx ev 0) idx ev 1) idx ev 2) idx ev 3

  module _ {c : Config Bus} (idx : ℕ) (ev : EventInfo) (p : IsPlaced c)
      (hi : idx < c.max_events) where
    IsKept0 : IsKept c (put_byte c c idx ev 0)
    IsKept0 = put_byte-IsKept c c idx ev 0 p hi (omega arith) IsKept-refl

    IsKept1 : IsKept c (put_byte c (put_byte c c idx ev 0) idx ev 1)
    IsKept1 = put_byte-IsKept c _ idx ev 1 p hi (omega arith) IsKept0

    IsKept2 : IsKept c (put_byte c (put_byte c (put_byte c c idx ev 0) idx ev 1) idx ev 2)
    IsKept2 = put_byte-IsKept c _ idx ev 2 p hi (omega arith) IsKept1

    unflushed-IsKept : IsKept c (unflushed c idx ev)
    unflushed-IsKept = put_byte-IsKept c _ idx ev 3 p hi (omega arith) IsKept2

    unflushed-read :
        (j l : ℕ)
        → j < c.max_events
        → l < 4
        → read_eeprom d (unflushed c idx ev) (slot_address c j l)
          ≡ (if idx == j then event_byte ev l else read_eeprom d c (slot_address c j l))
    unflushed-read j l hj hl =
        put_byte-read c _ idx j ev 3 l p hi hj (omega arith) hl IsKept2
        ∙ ap (λ x. if (idx == j) && (3 == l) then event_byte ev 3 else x)
            (put_byte-read c _ idx j ev 2 l p hi hj (omega arith) hl IsKept1
              ∙ ap (λ x. if (idx == j) && (2 == l) then event_byte ev 2 else x)
                  (put_byte-read c _ idx j ev 1 l p hi hj (omega arith) hl IsKept0
                    ∙ ap (λ x. if (idx == j) && (1 == l) then event_byte ev 1 else x)
                        (put_byte-read c c idx j ev 0 l p hi hj (omega arith) hl IsKept-refl)))
        ∙ four_bytes (idx == j) (event_byte ev) (read_eeprom d c (slot_address c j l)) l hl

    pub write_event-IsKept : (flush : Bool) → IsKept c (write_event d c idx ev flush)
    unfolding write_event
    write_event-IsKept flush = elim (Bool-cases flush) [
      | inl f ↦ rw f (
          IsKept-trans unflushed-IsKept
            (commit_changes-IsKept d (unflushed c idx ev) (unflushed-IsKept.type ∙ p.type)))
      | inr f ↦ rw f unflushed-IsKept
    ]

    write_event-read :
        (flush : Bool) (b : ℕ)
        → read_eeprom d (write_event d c idx ev flush) b ≡ read_eeprom d (unflushed c idx ev) b
    unfolding write_event
    write_event-read flush b = elim (Bool-cases flush) [
      | inl f ↦
          rw f
            (read_eeprom-commit_changes d (unflushed c idx ev) b (unflushed-IsKept.type ∙ p.type))
      | inr f ↦ rw f refl
    ]

    stored :
        (flush : Bool) (j l : ℕ)
        → j < c.max_events
        → l < 4
        → read_eeprom d
            (write_event d c idx ev flush)
            (slot_address (write_event d c idx ev flush) j l)
          ≡ (if idx == j then event_byte ev l else read_eeprom d c (slot_address c j l))
    stored flush j l hj hl =
        ap (read_eeprom d (write_event d c idx ev flush))
          (slot_address-IsKept j l (write_event-IsKept flush))
        ∙ write_event-read flush (slot_address c j l)
        ∙ unflushed-read j l hj hl

    -- In flash mode, with the slots placed inside the sector, an event that is written into a slot is the event
    -- of that slot, and every other slot keeps its event, whether or not the write is flushed.
    pub read_event-write_event :
        (flush : Bool) (j : ℕ)
        → j < c.max_events
        → ev.node_number < 2 ^ 16
        → ev.event_number < 2 ^ 16
        → read_event d (write_event d c idx ev flush) j
          ≡ (if idx == j then ev else read_event d c j)
    unfolding read_event
    read_event-write_event flush j hj hn he =
        rw
          (
            stored flush j 0 hj (omega arith),
            stored flush j 1 hj (omega arith),
            stored flush j 2 hj (omega arith),
            stored flush j 3 hj (omega arith),
          )
          (elim (Bool-cases (idx == j)) [
            | inl here ↦ rw here (
                ap₂ (λ n e. record { node_number = n; event_number = e }) (omega arith)
                  (omega arith))
            | inr other ↦ rw other refl
          ])

    -- A variable of the slot's event lies after the number of the event.
    ev_address :
        (j k ev_num : ℕ)
        → j < c.max_events
        → k < 4
        → 1 ≤ ev_num
        → 3 + ev_num < c.bytes_per_event
        → (slot_address c idx (3 + ev_num) == slot_address c j k) ≡ false
    ev_address j k ev_num hj hk pos lt =
        slot_address-apart c idx j (3 + ev_num) k p hi hj lt (omega (arith, p.room))
        ∙ (ground arith)

    pub write_event_ev-IsKept :
        (ev_num val : ℕ)
        → 3 + ev_num < c.bytes_per_event
        → IsKept c (write_event_ev d c idx ev_num val)
    unfolding write_event_ev
    write_event_ev-IsKept ev_num val lt =
        write_eeprom-IsKept d c (slot_address c idx (3 + ev_num)) val true p.type
          (slot_address_lem c idx (3 + ev_num) p hi lt).1

    ev_byte :
        (ev_num val j k : ℕ)
        → j < c.max_events
        → k < 4
        → 1 ≤ ev_num
        → 3 + ev_num < c.bytes_per_event
        → read_eeprom d
            (write_event_ev d c idx ev_num val)
            (slot_address (write_event_ev d c idx ev_num val) j k)
          ≡ read_eeprom d c (slot_address c j k)
    unfolding write_event_ev
    ev_byte ev_num val j k hj hk pos lt =
        ap (read_eeprom d (write_event_ev d c idx ev_num val))
          (slot_address-IsKept j k (write_event_ev-IsKept ev_num val lt))
        ∙ read_eeprom-write_eeprom d c (slot_address c idx (3 + ev_num)) (slot_address c j k) val
            true p.type p.buffer (slot_address_lem c idx (3 + ev_num) p hi lt).1
        ∙ ap (λ b. if b then val else read_eeprom d c (slot_address c j k))
            (ev_address j k ev_num hj hk pos lt)

    -- Writing a variable of an event changes the number of no event.
    pub read_event-write_event_ev :
        (ev_num val j : ℕ)
        → j < c.max_events
        → 1 ≤ ev_num
        → 3 + ev_num < c.bytes_per_event
        → read_event d (write_event_ev d c idx ev_num val) j ≡ read_event d c j
    unfolding read_event
    read_event-write_event_ev ev_num val j hj pos lt =
        rw
          (
            ev_byte ev_num val j 0 hj (omega arith) pos lt,
            ev_byte ev_num val j 1 hj (omega arith) pos lt,
            ev_byte ev_num val j 2 hj (omega arith) pos lt,
            ev_byte ev_num val j 3 hj (omega arith) pos lt,
          )
          refl
