-- ===== src/Config.antt =====
-- CBUSConfig.cpp and CBUSConfig.h: events, node variables and the identity of a module, in on-chip flash or in an
-- external EEPROM. This module holds the state; its children are the parts of the class.
pub mod Flash
pub mod Storage
pub mod Events
pub mod Tests
use cbuspico_lib.Common.{ℕ, Bool, ◌&&◌, List, ◌==◌}

-- `EVENT_INFO_t`
pub record EventInfo : Type 0 where
  pub node_number : ℕ
  pub event_number : ℕ

abbrev pub ev_info_unused : EventInfo
ev_info_unused = record { node_number = 0xFFFF; event_number = 0xFFFF }

-- `operator==` of two events
abbrev pub event_eq : EventInfo → EventInfo → Bool
event_eq lhs rhs = (lhs.node_number == rhs.node_number) && (lhs.event_number == rhs.event_number)

-- `EEPROM_TYPE`
pub data EepromType : Type 0 where
  uses_flash : EepromType
  external_i2c : EepromType

-- The Pico SDK, as far as this class calls it: erasing and programming the flash sector, and the EEPROM on
-- the I2C bus. A transfer on the bus is addressed to a device and an 8-bit offset.
pub record Driver (Bus : Type 0) : Type 0 where
  -- flash_range_erase and flash_range_program of the sector
  pub erase : List ℕ → List ℕ
  pub program : List ℕ → List ℕ → List ℕ
  -- whether the device answers to a one-byte write and a one-byte read
  pub probe : Bus → ℕ → Bool
  -- the byte that a read leaves in `rdata`, which is zero if the transfer fails
  pub read_byte : Bus → ℕ → ℕ → ℕ
  -- the bytes that a longer read delivers before its timeout
  pub read_bytes : Bus → ℕ → ℕ → ℕ → List ℕ
  -- the bus after a two-byte write, and whether both bytes were acknowledged
  pub write_byte : Bus → ℕ → ℕ → ℕ → Bus × Bool

-- The object, with the flash sector and the bus behind it. The hash table is an array of
-- `max_events` entries.
pub record Config (Bus : Type 0) : Type 0 where
  pub events_start : ℕ
  pub max_events : ℕ
  pub num_evs : ℕ
  pub bytes_per_event : ℕ
  pub nvs_start : ℕ
  pub num_nvs : ℕ
  pub eeprom_type : EepromType
  pub external_address : ℕ
  pub hash_table : List ℕ
  pub hash_collisions : Bool
  pub flash_modified : Bool
  pub flash_zero_to_one : Bool
  pub flash_buf : List ℕ
  pub can_id : ℕ
  pub flim : Bool
  pub node_num : ℕ
  pub flash : List ℕ
  pub bus : Bus
  pub rebooted : Bool

abbrev pub flash_sector_size : ℕ
flash_sector_size = 4096
