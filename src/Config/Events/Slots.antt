-- ===== src/Config/Events/Slots.antt =====
-- Where the event slots of CBUSConfig.cpp lie in the flash sector, and what a write leaves alone.
use cbuspico_lib.Common.{
  ℕ, ◌+◌, ◌*◌, ◌≤◌, ◌<◌, ◌≡◌, refl, ap, ◌∙◌, inl, inr, Bool, ◌&&◌, List, arith, ltb, ◌==◌, ltb→lt,
  ==_iff, Bool-cases, length, set, length-set,
}
use native.Mathlib.Nat.{mul-le-mul_right}
use cbuspico_lib.Config.{Config, Driver, uses_flash, flash_sector_size}
use cbuspico_lib.Config.Flash.{flush_to_flash}
use cbuspico_lib.Config.Storage.{write_eeprom, commit_changes}
use cbuspico_lib.Config.Storage.Durable.{
  with_cache, write_eeprom-with_cache, commit_changes-flash, flush-buf,
}
use cbuspico_lib.Config.Events.{slot_address}

slots_apart : (i j n : ℕ) → i < j → i * n + n ≤ j * n
slots_apart i j n lt = omega (arith, mul-le-mul_right n lt)

module _ {Bus : Type 0} where
  -- The slots lie inside the flash sector, each with room for the number of its event.
  pub record IsPlaced (c : Config Bus) : Type 0 where
    pub type : c.eeprom_type ≡ uses_flash
    pub buffer : length c.flash_buf ≡ flash_sector_size
    pub room : 4 ≤ c.bytes_per_event
    pub fits : c.events_start + c.max_events * c.bytes_per_event ≤ flash_sector_size

  -- The address of a byte of a slot.
  pub slot_address_lem :
      (c : Config Bus) (i k : ℕ)
      → IsPlaced c
      → i < c.max_events
      → k < c.bytes_per_event
      → (slot_address c i k ≡ c.events_start + i * c.bytes_per_event + k)
        × (slot_address c i k < flash_sector_size)
  slot_address_lem c i k p lt hk =
      let below = slots_apart i c.max_events c.bytes_per_event lt in
      (omega (arith, p.fits, p.room), omega (arith, p.fits, p.room))

  -- Two bytes of two slots are at one address only if they are the same byte of the same slot.
  pub slot_address-apart :
      (c : Config Bus) (i j k l : ℕ)
      → IsPlaced c
      → i < c.max_events
      → j < c.max_events
      → k < c.bytes_per_event
      → l < c.bytes_per_event
      → (slot_address c i k == slot_address c j l) ≡ (i == j) && (k == l)
  slot_address-apart c i j k l p hi hj hk hl =
      rw ((slot_address_lem c i k p hi hk).0, (slot_address_lem c j l p hj hl).0)
        (elim (Bool-cases (i == j)) [
          | inl same_slot ↦
              rw
                (ap
                  (λ x.
                    c.events_start + x * c.bytes_per_event + k
                    == c.events_start + j * c.bytes_per_event + l)
                  ((==_iff i j).0 same_slot))
                (ground arith)
          | inr other ↦ elim (Bool-cases (ltb i j)) [
            | inl up ↦ ground (arith, slots_apart i j c.bytes_per_event (ltb→lt i j up), p.room)
            | inr down ↦ ground (arith, slots_apart j i c.bytes_per_event (ground arith), p.room)
          ]
        ])

  -- A change that leaves the layout, the hash table and the size of the cache alone.
  pub record IsKept (c c' : Config Bus) : Type 0 where
    pub type : c'.eeprom_type ≡ c.eeprom_type
    pub start : c'.events_start ≡ c.events_start
    pub size : c'.bytes_per_event ≡ c.bytes_per_event
    pub slots : c'.max_events ≡ c.max_events
    pub table : c'.hash_table ≡ c.hash_table
    pub buffer : length c'.flash_buf ≡ length c.flash_buf

  pub IsKept-refl : {c : Config Bus} → IsKept c c
  IsKept-refl = record {
    type = refl;
    start = refl;
    size = refl;
    slots = refl;
    table = refl;
    buffer = refl;
  }

  pub IsKept-trans : {a b c : Config Bus} → IsKept a b → IsKept b c → IsKept a c
  IsKept-trans p q = record {
    type = q.type ∙ p.type;
    start = q.start ∙ p.start;
    size = q.size ∙ p.size;
    slots = q.slots ∙ p.slots;
    table = q.table ∙ p.table;
    buffer = q.buffer ∙ p.buffer;
  }

  pub with_cache-IsKept :
      (c r : Config Bus) (buf : List ℕ)
      → length buf ≡ length c.flash_buf
      → IsKept c (with_cache c buf r)
  with_cache-IsKept c r buf e = record {
    type = refl;
    start = refl;
    size = refl;
    slots = refl;
    table = refl;
    buffer = e;
  }

  pub slot_address-IsKept :
      {c c' : Config Bus} (i k : ℕ) → IsKept c c' → slot_address c' i k ≡ slot_address c i k
  slot_address-IsKept i k p = rw (p.start, p.size) refl

  pub IsPlaced-IsKept : {c c' : Config Bus} → IsPlaced c → IsKept c c' → IsPlaced c'
  IsPlaced-IsKept p q = record {
    type = q.type ∙ p.type;
    buffer = q.buffer ∙ p.buffer;
    room = rw q.size p.room;
    fits = rw (q.start, q.slots, q.size) p.fits;
  }

module _ {Bus : Type 0} (d : Driver Bus) where
  pub write_eeprom-IsKept :
      (c : Config Bus) (a v : ℕ) (flush : Bool)
      → c.eeprom_type ≡ uses_flash
      → a < flash_sector_size
      → IsKept c (write_eeprom d c a v flush)
  write_eeprom-IsKept c a v flush e lt = rw (write_eeprom-with_cache d c a v flush e lt) (
      with_cache-IsKept c (write_eeprom d c a v flush) (set c.flash_buf a v)
        (length-set c.flash_buf a v))

  pub commit_changes-IsKept :
      (c : Config Bus) → c.eeprom_type ≡ uses_flash → IsKept c (commit_changes d c)
  commit_changes-IsKept c e =
      rw (commit_changes-flash d c e ∙ flush-buf d c)
        (with_cache-IsKept c (flush_to_flash d c) c.flash_buf refl)
