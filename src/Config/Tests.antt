-- ===== src/Config/Tests.antt =====
-- A flash chip and a module of two event slots, on which the theorems about CBUSConfig are applied.
use cbuspico_lib.Common.{
  ℕ, zero, suc, ◌+◌, ◌*◌, ◌/◌, ◌%◌, ◌^◌, ◌≤◌, ◌<◌, min, ◌≡◌, refl, sym, ap, ap₂, ◌∙◌, subst, inl,
  inr, true, false, List, [], ◌∷◌, arith, ltb, ◌==◌, ltb→lt, Bool-cases, length, set, replicate,
  length-replicate, get_or-replicate,
}
use cbuspico_lib.Config.{Config, Driver, EventInfo, uses_flash}
use cbuspico_lib.Config.Flash.{bit, set_chip_eeprom_val, get_chip_eeprom_val, flush_to_flash}
use cbuspico_lib.Config.Flash.Sync.{
  at, IsSector, FlashLaws, IsSynced, IsSector-set, get_or-outside, flush_to_flash_lem,
  set_chip_eeprom_val-IsSynced,
}
use cbuspico_lib.Config.Storage.{read_eeprom, write_eeprom, set_node_num, load_nvs, ofs_reset_flag}
use cbuspico_lib.Config.Storage.Restart.{restart, write_eeprom-restart, load_nvs-set_node_num}
use cbuspico_lib.Config.Events.{
  make_hash, slot_hash, find_hash, count_hash, collides, hashes, candidate, make_ev_hash_table,
  update_ev_hash_entry, write_event, read_event, find_existing_event,
}
use cbuspico_lib.Config.Events.Find.{
  IsHashed, first_slot, find_existing_event-first_slot, find_existing_event-make_ev_hash_table,
}
use cbuspico_lib.Config.Events.Slots.{IsPlaced}
use cbuspico_lib.Config.Events.Written.{read_event-write_event}
use cbuspico_lib.Config.Events.Learn.{find_existing_event-learned}

-- The bits that two bytes have in common.
abbrev and_bits : ℕ → ℕ → ℕ → ℕ
and_bits zero x y = 0
and_bits (suc n) x y = min (x % 2) (y % 2) + 2 * and_bits n (x / 2) (y / 2)

abbrev program_chip : List ℕ → List ℕ → List ℕ
program_chip [] ys = []
program_chip (x ∷ xs) [] = []
program_chip (x ∷ xs) (y ∷ ys) = and_bits 8 x y ∷ program_chip xs ys

abbrev pub chip : Driver Unit
chip = record {
  erase = λ _. replicate 4096 0xFF;
  program = program_chip;
  probe = λ _ _. false;
  read_byte = λ _ _ _. 0;
  read_bytes = λ _ _ _ _. [];
  write_byte = λ bus _ _ _. (bus, false);
}

halve_bit : (b m j : ℕ) → b < 2 → j < 8 → bit (suc j) (b + 2 * m) ≡ bit j m
halve_bit b m zero hb lt = omega arith
halve_bit b m (suc zero) hb lt = omega arith
halve_bit b m (suc (suc zero)) hb lt = omega arith
halve_bit b m (suc (suc (suc zero))) hb lt = omega arith
halve_bit b m (suc (suc (suc (suc zero)))) hb lt = omega arith
halve_bit b m (suc (suc (suc (suc (suc zero))))) hb lt = omega arith
halve_bit b m (suc (suc (suc (suc (suc (suc zero)))))) hb lt = omega arith
halve_bit b m (suc (suc (suc (suc (suc (suc (suc zero))))))) hb lt = omega arith
halve_bit b m (suc (suc (suc (suc (suc (suc (suc (suc j)))))))) hb lt = absurd (omega arith)

half_of : (x k : ℕ) → k < 8 → bit k (x / 2) ≡ bit (suc k) x
half_of x k lt = sym (halve_bit (x % 2) (x / 2) k (omega arith) lt) ∙ ap (bit (suc k)) (omega arith)

and_bits-bit : (n x y k : ℕ) → n ≤ 8 → k < n → bit k (and_bits n x y) ≡ min (bit k x) (bit k y)
and_bits-bit zero x y k le lt = absurd (omega arith)
and_bits-bit (suc n) x y zero le lt = omega arith
and_bits-bit (suc n) x y (suc k) le lt =
    halve_bit (min (x % 2) (y % 2)) (and_bits n (x / 2) (y / 2)) k (omega arith) (omega arith)
    ∙ and_bits-bit n (x / 2) (y / 2) k (omega arith) (omega arith)
    ∙ ap₂ min (half_of x k (omega arith)) (half_of y k (omega arith))

and_bits-bound : (n x y : ℕ) → and_bits n x y < 2 ^ n
and_bits-bound zero x y = omega arith
and_bits-bound (suc n) x y = omega (arith, and_bits-bound n (x / 2) (y / 2))

program_chip-at :
    (xs ys : List ℕ) (i : ℕ)
    → length xs ≡ length ys
    → at (program_chip xs ys) i ≡ and_bits 8 (at xs i) (at ys i)
program_chip-at [] [] i e = refl
program_chip-at [] (y ∷ ys) i e = absurd (omega arith)
program_chip-at (x ∷ xs) [] i e = absurd (omega arith)
program_chip-at (x ∷ xs) (y ∷ ys) zero e = refl
program_chip-at (x ∷ xs) (y ∷ ys) (suc i) e = program_chip-at xs ys i (omega arith)

length-program_chip :
    (xs ys : List ℕ) → length xs ≡ length ys → length (program_chip xs ys) ≡ length ys
length-program_chip [] [] e = refl
length-program_chip [] (y ∷ ys) e = absurd (omega arith)
length-program_chip (x ∷ xs) [] e = absurd (omega arith)
length-program_chip (x ∷ xs) (y ∷ ys) e = ap suc (length-program_chip xs ys (omega arith))

erased_range : (i : ℕ) → at (replicate 4096 0xFF) i < 2 ^ 8
erased_range i = elim (Bool-cases (ltb i 4096)) [
  | inl lt ↦ omega (arith, get_or-replicate {A = ℕ} 4096 i 0xFF 0 (ltb→lt i 4096 lt))
  | inr out ↦ omega (
    arith,
    get_or-outside (replicate 4096 0xFF) i 0 (ground (arith, length-replicate {A = ℕ} 4096 0xFF)),
  )
]

erased-IsSector : IsSector (replicate 4096 0xFF)
erased-IsSector = record { whole = length-replicate {A = ℕ} 4096 0xFF; byte_range = erased_range }

chip_laws : FlashLaws chip
chip_laws = record {
  erase_sector = λ _ _. erased-IsSector;
  erase_ones = λ _ _ i lt. get_or-replicate {A = ℕ} 4096 i 0xFF 0 lt;
  program_sector = λ xs ys sx sy. record {
    whole = length-program_chip xs ys (sx.whole ∙ sym sy.whole) ∙ sy.whole;
    byte_range = λ i.
        subst (λ b. b < 2 ^ 8) (sym (program_chip-at xs ys i (sx.whole ∙ sym sy.whole)))
          (and_bits-bound 8 (at xs i) (at ys i));
  };
  program_bits = λ xs ys sx sy i k lt.
      ap (bit k) (program_chip-at xs ys i (sx.whole ∙ sym sy.whole))
      ∙ and_bits-bit 8 (at xs i) (at ys i) k (omega arith) lt;
}

-- A module with two slots for events with two variables, on an erased chip.
abbrev blank : Config Unit
blank = record {
  events_start = 32;
  max_events = 2;
  num_evs = 2;
  bytes_per_event = 6;
  nvs_start = 16;
  num_nvs = 4;
  eeprom_type = uses_flash;
  external_address = 0x50;
  hash_table = [];
  hash_collisions = false;
  flash_modified = false;
  flash_zero_to_one = false;
  flash_buf = replicate 4096 0xFF;
  can_id = 0;
  flim = false;
  node_num = 0;
  flash = replicate 4096 0xFF;
  bus = tt;
  rebooted = false;
}

blank-IsSynced : IsSynced blank
blank-IsSynced = record {
  buffer = erased-IsSector;
  sector = erased-IsSector;
  unmodified = λ _ i. refl;
  clears_only = λ _ i k lt. omega arith;
}

-- The first byte is programmed without an erase, the second needs one.
abbrev written : Config Unit
written = set_chip_eeprom_val blank 3 0x2A

flush_to_flash_lem_example :
    at (flush_to_flash chip (set_chip_eeprom_val written 3 0x15)).flash 3 ≡ 0x15
unfolding set_chip_eeprom_val
flush_to_flash_lem_example =
    flush_to_flash_lem chip_laws (set_chip_eeprom_val written 3 0x15)
      (set_chip_eeprom_val-IsSynced 3 0x15 (omega arith)
        (set_chip_eeprom_val-IsSynced 3 0x2A (omega arith) blank-IsSynced))
      3

set_chip_eeprom_val-IsSynced_example : IsSynced (set_chip_eeprom_val blank 3 0x2A)
set_chip_eeprom_val-IsSynced_example =
    set_chip_eeprom_val-IsSynced 3 0x2A (omega arith) blank-IsSynced

write_eeprom-restart_example :
    read_eeprom chip (restart chip chip_laws (write_eeprom chip blank 7 0x2A true) blank) 7 ≡ 0x2A
write_eeprom-restart_example =
    write_eeprom-restart chip chip_laws blank blank 7 7 0x2A refl refl blank-IsSynced (omega arith)
      (omega arith)

abbrev in_use : Config Unit
in_use = record blank {
  flash_buf = set (replicate 4096 0xFF) 5 0;
  flash = set (replicate 4096 0xFF) 5 0;
}

in_use-IsSector : IsSector (set (replicate 4096 0xFF) 5 0)
in_use-IsSector = IsSector-set (replicate 4096 0xFF) 5 0 erased-IsSector (omega arith) (omega arith)

in_use-IsSynced : IsSynced in_use
in_use-IsSynced = record {
  buffer = in_use-IsSector;
  sector = in_use-IsSector;
  unmodified = λ _ i. refl;
  clears_only = λ _ i k lt. omega arith;
}

not_reset : (read_eeprom chip in_use ofs_reset_flag == 0xFF) ≡ false
unfolding read_eeprom get_chip_eeprom_val
not_reset = refl

load_nvs-set_node_num_example :
    (load_nvs chip (restart chip chip_laws (set_node_num chip in_use 0x0123) blank)).node_num
    ≡ 0x0123
load_nvs-set_node_num_example =
    load_nvs-set_node_num chip chip_laws in_use blank 0x0123 refl refl in_use-IsSynced not_reset
      (omega arith)

abbrev pub turnout : EventInfo
turnout = record { node_number = 0x0105; event_number = 0x0002 }

blank-IsPlaced : IsPlaced blank
blank-IsPlaced = record {
  type = refl;
  buffer = erased-IsSector.whole;
  room = omega arith;
  fits = omega arith;
}

read_event-write_event_example : read_event chip (write_event chip blank 1 turnout true) 1 ≡ turnout
read_event-write_event_example =
    read_event-write_event chip 1 turnout blank-IsPlaced (omega arith) true 1 (omega arith)
      (omega arith) (omega arith)

abbrev pub hashed : Config Unit
hashed = record blank { hash_table = 0 ∷ 0 ∷ [] }

pub hashed-IsHashed : IsHashed chip hashed
unfolding hashes slot_hash read_event read_eeprom get_chip_eeprom_val collides count_hash
hashed-IsHashed = record { table = refl; collisions = refl }

pub hashed-IsPlaced : IsPlaced hashed
hashed-IsPlaced = record {
  type = refl;
  buffer = erased-IsSector.whole;
  room = omega arith;
  fits = omega arith;
}

find_existing_event-first_slot_example :
    find_existing_event chip hashed turnout ≡ first_slot chip hashed turnout 0 2
find_existing_event-first_slot_example =
    find_existing_event-first_slot chip hashed turnout hashed-IsHashed refl

pub unknown : find_existing_event chip hashed turnout ≡ 2
unfolding find_existing_event candidate find_hash make_hash count_hash
unknown = refl

find_existing_event-learned_example :
    find_existing_event chip
      (update_ev_hash_entry chip (write_event chip hashed 1 turnout true) 1)
      turnout
    ≡ 1
find_existing_event-learned_example =
    find_existing_event-learned chip 1 turnout hashed-IsPlaced (omega arith) true (omega arith)
      (omega arith) refl hashed-IsHashed unknown

-- A table that does not describe the events.
abbrev stale : Config (Unit {0})
stale = record hashed { hash_table = 99 ∷ 99 ∷ [] }

find_existing_event-make_ev_hash_table_example :
    find_existing_event chip (make_ev_hash_table chip stale) turnout
    ≡ first_slot chip stale turnout 0 2
find_existing_event-make_ev_hash_table_example =
    find_existing_event-make_ev_hash_table chip stale turnout refl
