-- ===== src/Config/Storage.antt =====
-- Reading and writing the EEPROM of CBUSConfig.cpp, which is the cached flash sector or a device on the
-- I2C bus, and what is kept there of the module's identity. Disabling interrupts around a call and
-- the delay after an external write change no state here.
pub mod Durable
pub mod Restart
use cbuspico_lib.Common.{
  ℕ, zero, suc, ◌+◌, ◌-◌, ◌*◌, ◌^◌, Bool, true, false, ◌&&◌, not, List, [], ◌∷◌, leb, ◌==◌,
  if◌then◌else◌, u8, u32, low_byte, high_byte,
}
use cbuspico_lib.Config.{Config, Driver, EepromType, uses_flash, external_i2c}
use cbuspico_lib.Config.Flash.{set_chip_eeprom_val, get_chip_eeprom_val, flush_to_flash}

abbrev pub reset_flag : ℕ
reset_flag = 99

-- Offsets in the storage.
abbrev pub ofs_flim_mode : ℕ
ofs_flim_mode = 0

abbrev pub ofs_can_id : ℕ
ofs_can_id = 1

abbrev pub ofs_node_num_hb : ℕ
ofs_node_num_hb = 2

abbrev pub ofs_node_num_lb : ℕ
ofs_node_num_lb = 3

abbrev pub ofs_reset_flag : ℕ
ofs_reset_flag = 5

abbrev pub byte_of : Bool → ℕ
byte_of true = 1
byte_of false = 0

module _ {Bus : Type 0} (d : Driver Bus) where
  -- Falls back to flash, with the result `false`, if the external device does not answer.
  unfoldable pub set_eeprom_type : Config Bus → EepromType → Config Bus × Bool
  set_eeprom_type c external_i2c =
      if d.probe c.bus c.external_address
      then (record c { eeprom_type = external_i2c }, true)
      else (record c { eeprom_type = uses_flash }, false)
  set_eeprom_type c uses_flash = (record c { eeprom_type = uses_flash }, true)

  unfoldable pub set_ext_eeprom_address : Config Bus → ℕ → Config Bus
  set_ext_eeprom_address c address = record c { external_address = address }

  unfoldable pub read_eeprom : Config Bus → ℕ → ℕ
  read_eeprom c eeaddress = elim c.eeprom_type [
    | external_i2c ↦ d.read_byte c.bus c.external_address (u8 eeaddress)
    | uses_flash ↦ get_chip_eeprom_val c eeaddress
  ]

  -- The bytes of the flash cache from an address on.
  unfoldable pub chip_bytes : Config Bus → ℕ → ℕ → List ℕ
  chip_bytes c eeaddress zero = []
  chip_bytes c eeaddress (suc n) =
      get_chip_eeprom_val c eeaddress ∷ chip_bytes c (u32 (eeaddress + 1)) n

  -- The result is the bytes that arrive; their number is the result of the function.
  unfoldable pub read_bytes_eeprom : Config Bus → ℕ → ℕ → List ℕ
  read_bytes_eeprom c eeaddress nbytes = elim c.eeprom_type [
    | external_i2c ↦ d.read_bytes c.bus c.external_address (u8 eeaddress) nbytes
    | uses_flash ↦ chip_bytes c eeaddress nbytes
  ]

  unfoldable pub write_eeprom : Config Bus → ℕ → ℕ → Bool → Config Bus
  write_eeprom c eeaddress value flush = elim c.eeprom_type [
    | external_i2c ↦ record c {
      bus = (d.write_byte c.bus c.external_address (u8 eeaddress) value).0;
    }
    | uses_flash ↦
        let cached = set_chip_eeprom_val c eeaddress value in
        if flush then flush_to_flash d cached else cached
  ]

  -- The loop over an external device ends at the first write that is not acknowledged.
  unfoldable pub write_bus : ℕ → Bus → ℕ → List ℕ → Bus
  write_bus device bus eeaddress [] = bus
  write_bus device bus eeaddress (b ∷ src) =
      let (bus', acknowledged) = d.write_byte bus device (u8 eeaddress) b in
      let rest = write_bus device bus' (u32 (eeaddress + 1)) src in
      if acknowledged then rest else bus'

  unfoldable pub write_chip : Config Bus → ℕ → List ℕ → Config Bus
  write_chip c eeaddress [] = c
  write_chip c eeaddress (b ∷ src) =
      write_chip (set_chip_eeprom_val c eeaddress b) (u32 (eeaddress + 1)) src

  unfoldable pub write_bytes_eeprom : Config Bus → ℕ → List ℕ → Config Bus
  write_bytes_eeprom c eeaddress src = elim c.eeprom_type [
    | external_i2c ↦ record c { bus = write_bus c.external_address c.bus eeaddress src }
    | uses_flash ↦ flush_to_flash d (write_chip c eeaddress src)
  ]

  unfoldable pub commit_changes : Config Bus → Config Bus
  commit_changes c = elim c.eeprom_type [ external_i2c ↦ c | uses_flash ↦ flush_to_flash d c ]

  -- The first step of `begin`: the flash sector is read into the cache.
  unfoldable pub load_flash : Config Bus → Config Bus
  load_flash c = elim c.eeprom_type [
    | external_i2c ↦ c
    | uses_flash ↦ record c { flash_buf = c.flash }
  ]

  unfoldable pub set_flim : Config Bus → Bool → Config Bus
  set_flim c flim = write_eeprom (record c { flim = flim }) ofs_flim_mode (byte_of flim) true

  unfoldable pub set_canid : Config Bus → ℕ → Config Bus × Bool
  set_canid c canid =
      if leb 1 canid && leb canid 99
      then (write_eeprom (record c { can_id = canid }) ofs_can_id canid true, true)
      else (c, false)

  unfoldable pub set_node_num : Config Bus → ℕ → Config Bus
  set_node_num c nn =
      let high = write_eeprom (record c { node_num = nn }) ofs_node_num_hb (high_byte nn) false in
      commit_changes (write_eeprom high ofs_node_num_lb (low_byte nn) false)

  unfoldable pub set_reset_flag : Config Bus → Config Bus
  set_reset_flag c = write_eeprom c ofs_reset_flag reset_flag true

  unfoldable pub clear_reset_flag : Config Bus → Config Bus
  clear_reset_flag c = write_eeprom c ofs_reset_flag 0 true

  unfoldable pub is_reset_flag_set : Config Bus → Bool
  is_reset_flag_set c = read_eeprom c ofs_reset_flag == reset_flag

  -- Node variables are numbered from one.
  unfoldable pub read_nv : Config Bus → ℕ → ℕ
  read_nv c idx = read_eeprom c (u32 (c.nvs_start + (idx + 2 ^ 32 - 1)))

  unfoldable pub write_nv : Config Bus → ℕ → ℕ → Config Bus
  write_nv c idx val = write_eeprom c (u32 (c.nvs_start + (idx + 2 ^ 32 - 1))) val true

  -- Storage that was never written reads 0xFF at the reset flag: it gets the defaults.
  unfoldable pub load_nvs : Config Bus → Config Bus
  load_nvs c =
      if read_eeprom c ofs_reset_flag == 0xFF
      then clear_reset_flag (set_node_num (set_canid (set_flim c false) 1).0 0)
      else record c {
        flim = not (read_eeprom c ofs_flim_mode == 0);
        can_id = read_eeprom c ofs_can_id;
        node_num = read_eeprom c ofs_node_num_hb * 2 ^ 8 + read_eeprom c ofs_node_num_lb;
      }

  -- The external device is cleared from offset 10 to 15.
  unfoldable pub reset_eeprom : Config Bus → Config Bus
  reset_eeprom c = elim c.eeprom_type [
    | uses_flash ↦ c
    | external_i2c ↦
        write_eeprom
          (write_eeprom
            (write_eeprom
              (write_eeprom (write_eeprom (write_eeprom c 10 0xFF true) 11 0xFF true) 12 0xFF true)
              13 0xFF true)
            14 0xFF true)
          15 0xFF true
  ]

  unfoldable pub zero_nvs : Config Bus → ℕ → ℕ → Config Bus
  zero_nvs c i zero = c
  zero_nvs c i (suc rounds) = zero_nvs (write_nv c (u8 (i + 1)) 0) (i + 1) rounds

  -- The storage of the factory reset, up to the reboot.
  unfoldable pub erase_storage : Config Bus → Config Bus
  erase_storage c = elim c.eeprom_type [
    | uses_flash ↦ record c { flash = d.erase c.flash }
    | external_i2c ↦ reset_eeprom c
  ]

  unfoldable pub write_defaults : Config Bus → Config Bus
  write_defaults c =
      let identity =
        write_eeprom (write_eeprom (write_eeprom (write_eeprom c 0 0 false) 1 0 false) 2 0 false) 3
          0 false in
      commit_changes (set_reset_flag identity)

  unfoldable pub reset_module : Config Bus → Config Bus
  reset_module c =
      let cleared = zero_nvs (write_defaults (erase_storage c)) 0 c.num_nvs in
      record cleared { rebooted = true }
