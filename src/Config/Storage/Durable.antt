-- ===== src/Config/Storage/Durable.antt =====
-- What is written into the storage of CBUSConfig.cpp can be read back, also after the module restarts.
use cbuspico_lib.Common.{
  ℕ, ◌<◌, ◌≡◌, refl, sym, ap, ◌∙◌, subst, inl, inr, Bool, List, arith, ltb, ◌==◌, if◌then◌else◌,
  lt→ltb, Bool-cases, length, set, get_or-set,
}
use cbuspico_lib.Config.{Config, Driver, EepromType, uses_flash, external_i2c, flash_sector_size}
use cbuspico_lib.Config.Flash.{set_chip_eeprom_val, get_chip_eeprom_val, flush_to_flash}
use cbuspico_lib.Config.Flash.Sync.{at}
use cbuspico_lib.Config.Storage.{read_eeprom, write_eeprom, commit_changes}

pub on_flash {ℓ} :
    {A : Type ℓ}
    → (t : EepromType) (x y : A) → t ≡ uses_flash
    → (elim t as (λ _. A) [ external_i2c ↦ x | uses_flash ↦ y ]) ≡ y
on_flash {A = A} t x y e =
    subst (λ t. (elim t as (λ _. A) [ external_i2c ↦ x | uses_flash ↦ y ]) ≡ y) (sym e) refl

module _ {Bus : Type 0} where
  -- The object with another cache and flash.
  abbrev pub with_cache : Config Bus → List ℕ → Config Bus → Config Bus
  with_cache c buf r = record c {
    flash_buf = buf;
    flash_modified = r.flash_modified;
    flash_zero_to_one = r.flash_zero_to_one;
    flash = r.flash;
  }

  pub write_eeprom-flash :
      (d : Driver Bus) (c : Config Bus) (a v : ℕ) (flush : Bool)
      → c.eeprom_type ≡ uses_flash
      → write_eeprom d c a v flush ≡ (
          if flush then flush_to_flash d (set_chip_eeprom_val c a v) else set_chip_eeprom_val c a v)
  unfolding write_eeprom
  write_eeprom-flash d c a v flush e = on_flash c.eeprom_type _ _ e

  pub write_eeprom-with_cache :
      (d : Driver Bus) (c : Config Bus) (a v : ℕ) (flush : Bool)
      → c.eeprom_type ≡ uses_flash
      → a < flash_sector_size
      → write_eeprom d c a v flush ≡ with_cache c (set c.flash_buf a v) (write_eeprom d c a v flush)
  unfolding set_chip_eeprom_val flush_to_flash
  write_eeprom-with_cache d c a v flush e lt =
      rw (write_eeprom-flash d c a v flush e) (elim (Bool-cases flush) [
        | inl f ↦ simp (f, lt→ltb a flash_sector_size lt) refl
        | inr f ↦ simp (f, lt→ltb a flash_sector_size lt) refl
      ])

  pub read_eeprom-flash :
      (d : Driver Bus) (c : Config Bus) (a : ℕ)
      → c.eeprom_type ≡ uses_flash
      → read_eeprom d c a ≡ get_chip_eeprom_val c a
  unfolding read_eeprom
  read_eeprom-flash d c a e = on_flash c.eeprom_type _ _ e

  pub get_chip-at :
      (c : Config Bus) (a : ℕ)
      → get_chip_eeprom_val c a ≡ (if ltb a flash_sector_size then at c.flash_buf a else 0xFF)
  unfolding get_chip_eeprom_val
  get_chip-at c a = refl

  read_cache :
      (c r : Config Bus) (a b v : ℕ)
      → length c.flash_buf ≡ flash_sector_size
      → a < flash_sector_size
      → get_chip_eeprom_val (with_cache c (set c.flash_buf a v) r) b
        ≡ (if a == b then v else get_chip_eeprom_val c b)
  unfolding get_chip_eeprom_val
  read_cache c r a b v len lt = ground (arith, get_or-set c.flash_buf a b v 0, len)

  -- In flash mode, a byte written inside the sector is read back at its address, and every other address
  -- reads as before, whether or not the write is flushed.
  pub read_eeprom-write_eeprom :
      (d : Driver Bus) (c : Config Bus) (a b v : ℕ) (flush : Bool)
      → c.eeprom_type ≡ uses_flash
      → length c.flash_buf ≡ flash_sector_size
      → a < flash_sector_size
      → read_eeprom d (write_eeprom d c a v flush) b ≡ (if a == b then v else read_eeprom d c b)
  unfolding read_eeprom
  read_eeprom-write_eeprom d c a b v flush e len lt =
      rw (write_eeprom-with_cache d c a v flush e lt) (
        read_eeprom-flash d _ b e
        ∙ read_cache c (write_eeprom d c a v flush) a b v len lt
        ∙ ap (λ x. if a == b then v else x) (sym (read_eeprom-flash d c b e)))

  pub write_eeprom-type :
      (d : Driver Bus) (c : Config Bus) (a v : ℕ) (flush : Bool)
      → c.eeprom_type ≡ uses_flash
      → a < flash_sector_size
      → (write_eeprom d c a v flush).eeprom_type ≡ uses_flash
  write_eeprom-type d c a v flush e lt =
      ap (λ (x : Config Bus). x.eeprom_type) (write_eeprom-with_cache d c a v flush e lt) ∙ e

  pub commit_changes-flash :
      (d : Driver Bus) (c : Config Bus)
      → c.eeprom_type ≡ uses_flash
      → commit_changes d c ≡ flush_to_flash d c
  unfolding commit_changes
  commit_changes-flash d c e = on_flash c.eeprom_type _ _ e

  pub flush-buf :
      (d : Driver Bus) (c : Config Bus)
      → flush_to_flash d c ≡ with_cache c c.flash_buf (flush_to_flash d c)
  unfolding flush_to_flash
  flush-buf d c = refl

  pub read_cached :
      (c r : Config Bus) (b : ℕ)
      → get_chip_eeprom_val (with_cache c c.flash_buf r) b ≡ get_chip_eeprom_val c b
  unfolding get_chip_eeprom_val
  read_cached c r b = refl

  -- Committing changes nothing that is read.
  pub read_eeprom-commit_changes :
      (d : Driver Bus) (c : Config Bus) (b : ℕ)
      → c.eeprom_type ≡ uses_flash
      → read_eeprom d (commit_changes d c) b ≡ read_eeprom d c b
  read_eeprom-commit_changes d c b e = rw (commit_changes-flash d c e) (
      read_eeprom-flash d (flush_to_flash d c) b
        (ap (λ (x : Config Bus). x.eeprom_type) (flush-buf d c) ∙ e)
      ∙ ap (λ (x : Config Bus). get_chip_eeprom_val x b) (flush-buf d c)
      ∙ read_cached c (flush_to_flash d c) b
      ∙ sym (read_eeprom-flash d c b e))
