-- ===== src/Config/Flash.antt =====
-- The RAM cache of the flash sector: setChipEEPROMVal, flushToFlash and getChipEEPROMVal of
-- CBUSConfig.cpp.
pub mod Sync
use cbuspico_lib.Common.{
  ℕ, zero, suc, ◌/◌, ◌%◌, ◌^◌, Bool, true, false, ◌&&◌, ◌||◌, not, List, ltb, ◌==◌, if◌then◌else◌,
  get_or, set,
}
use cbuspico_lib.Config.{Config, Driver, flash_sector_size}

abbrev pub bit : ℕ → ℕ → ℕ
bit k x = x / 2 ^ k % 2

-- `val & ~cur` is not zero: one of the lowest `n` bits is set in `val` and clear in `cur`.
pub raises_bit : ℕ → ℕ → ℕ → Bool
raises_bit zero val cur = false
raises_bit (suc n) val cur = (bit n val == 1) && (bit n cur == 0) || raises_bit n val cur

module _ {Bus : Type 0} where
  unfoldable pub set_chip_eeprom_val : Config Bus → ℕ → ℕ → Config Bus
  set_chip_eeprom_val c eeaddress val =
      if ltb eeaddress flash_sector_size
      then (let cur = get_or c.flash_buf eeaddress 0 in
          record c {
            flash_modified = if not (val == cur) then true else c.flash_modified;
            flash_zero_to_one = if raises_bit 8 val cur then true else c.flash_zero_to_one;
            flash_buf = set c.flash_buf eeaddress val;
          })
      else c

  unfoldable pub get_chip_eeprom_val : Config Bus → ℕ → ℕ
  get_chip_eeprom_val c eeaddress =
      if ltb eeaddress flash_sector_size then get_or c.flash_buf eeaddress 0 else 0xFF

  -- What the sector holds after the write.
  abbrev pub flushed : Driver Bus → Config Bus → List ℕ
  flushed d c =
      if c.flash_modified
      then d.program (if c.flash_zero_to_one then d.erase c.flash else c.flash) c.flash_buf
      else c.flash

  unfoldable pub flush_to_flash : Driver Bus → Config Bus → Config Bus
  flush_to_flash d c = record c {
    flash = flushed d c;
    flash_modified = false;
    flash_zero_to_one = false;
  }
