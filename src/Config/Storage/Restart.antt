-- ===== src/Config/Storage/Restart.antt =====
-- What was flushed into the flash sector survives a restart of the module: the end of each write of
-- CBUSConfig.cpp, and the start of begin(), which reads the sector into the cache.
use cbuspico_lib.Common.{
  ℕ, ◌+◌, ◌*◌, ◌^◌, ◌<◌, ◌≡◌, refl, sym, ap, ap₂, ◌∙◌, inl, inr, Bool, true, false, arith, ltb,
  ◌==◌, if◌then◌else◌, Bool-cases, low_byte, high_byte,
}
use cbuspico_lib.Config.{Config, Driver, uses_flash, flash_sector_size}
use cbuspico_lib.Config.Flash.{get_chip_eeprom_val, flush_to_flash}
use cbuspico_lib.Config.Flash.Sync.{
  FlashLaws, IsSynced, set_chip_eeprom_val-IsSynced, flush_to_flash-IsSynced,
}
use cbuspico_lib.Config.Storage.{
  read_eeprom, write_eeprom, load_flash, commit_changes, set_node_num, load_nvs, ofs_node_num_hb,
  ofs_node_num_lb, ofs_reset_flag,
}
use cbuspico_lib.Config.Storage.Durable.{
  on_flash, write_eeprom-flash, read_eeprom-flash, get_chip-at, read_eeprom-write_eeprom,
  write_eeprom-type, commit_changes-flash, flush-buf, read_cached,
}

module _ {Bus : Type 0} (d : Driver Bus) (laws : FlashLaws d) where
  -- The module starts again: a new object reads the sector that the old one left.
  abbrev pub restart : Config Bus → Config Bus → Config Bus
  restart c fresh = load_flash d (record fresh { flash = c.flash })

  load_flash-flash :
      (c : Config Bus)
      → c.eeprom_type ≡ uses_flash
      → load_flash d c ≡ record c { flash_buf = c.flash }
  unfolding load_flash
  load_flash-flash c e = on_flash c.eeprom_type _ _ e

  -- If the flags are right and nothing waits to be flushed, every address reads after a restart as it did before.
  pub read_eeprom-restart :
      (c fresh : Config Bus) (b : ℕ)
      → c.eeprom_type ≡ uses_flash
      → fresh.eeprom_type ≡ uses_flash
      → IsSynced c
      → c.flash_modified ≡ false
      → read_eeprom d (restart c fresh) b ≡ read_eeprom d c b
  read_eeprom-restart c fresh b e f s clean =
      rw (load_flash-flash (record fresh { flash = c.flash }) f) (
        read_eeprom-flash d _ b f
        ∙ get_chip-at _ b
        ∙ ap (λ x. if ltb b flash_sector_size then x else 0xFF) (sym (s.unmodified clean b))
        ∙ sym (get_chip-at c b)
        ∙ sym (read_eeprom-flash d c b e))

  -- A write keeps the flags of the cache right.
  pub write_eeprom-IsSynced :
      {c : Config Bus} (a v : ℕ) (flush : Bool)
      → v < 2 ^ 8
      → c.eeprom_type ≡ uses_flash
      → IsSynced c
      → IsSynced (write_eeprom d c a v flush)
  write_eeprom-IsSynced {c} a v flush hv e s =
      let cached = set_chip_eeprom_val-IsSynced a v hv s in
      rw (write_eeprom-flash d c a v flush e) (elim (Bool-cases flush) [
        | inl f ↦ rw f (flush_to_flash-IsSynced laws cached)
        | inr f ↦ rw f cached
      ])

  flush-clean : (c : Config Bus) → (flush_to_flash d c).flash_modified ≡ false
  unfolding flush_to_flash
  flush-clean c = refl

  -- In flash mode, if the flags of the cache are right, a byte that is written inside the sector with a flush
  -- reads back after a restart, and every other address reads as before the write.
  pub write_eeprom-restart :
      (c fresh : Config Bus) (a b v : ℕ)
      → c.eeprom_type ≡ uses_flash
      → fresh.eeprom_type ≡ uses_flash
      → IsSynced c
      → a < flash_sector_size
      → v < 2 ^ 8
      → read_eeprom d (restart (write_eeprom d c a v true) fresh) b
        ≡ (if a == b then v else read_eeprom d c b)
  write_eeprom-restart c fresh a b v e f s lt hv =
      read_eeprom-restart (write_eeprom d c a v true) fresh b (write_eeprom-type d c a v true e lt)
        f (write_eeprom-IsSynced a v true hv e s)
        (ap (λ (x : Config Bus). x.flash_modified) (write_eeprom-flash d c a v true e)
          ∙ flush-clean _)
      ∙ read_eeprom-write_eeprom d c a b v true e s.buffer.whole lt

  read_node_num :
      (c : Config Bus) (b nn : ℕ) → read_eeprom d (record c { node_num = nn }) b ≡ read_eeprom d c b
  unfolding read_eeprom get_chip_eeprom_val
  read_node_num c b nn = refl

  -- Committing flushes: every address reads after a restart as it did before the commit.
  pub commit_changes-restart :
      (c fresh : Config Bus) (b : ℕ)
      → c.eeprom_type ≡ uses_flash
      → fresh.eeprom_type ≡ uses_flash
      → IsSynced c
      → read_eeprom d (restart (commit_changes d c) fresh) b ≡ read_eeprom d c b
  commit_changes-restart c fresh b e f s = rw (commit_changes-flash d c e) (
      read_eeprom-restart (flush_to_flash d c) fresh b
        (ap (λ (x : Config Bus). x.eeprom_type) (flush-buf d c) ∙ e) f
        (flush_to_flash-IsSynced laws s) (flush-clean c)
      ∙ read_eeprom-flash d (flush_to_flash d c) b
          (ap (λ (x : Config Bus). x.eeprom_type) (flush-buf d c) ∙ e)
      ∙ ap (λ (x : Config Bus). get_chip_eeprom_val x b) (flush-buf d c)
      ∙ read_cached c (flush_to_flash d c) b
      ∙ sym (read_eeprom-flash d c b e))

  -- The bytes of the storage after a node number was set and the module restarted.
  set_node_num-bytes :
      (c fresh : Config Bus) (nn b : ℕ)
      → c.eeprom_type ≡ uses_flash
      → fresh.eeprom_type ≡ uses_flash
      → IsSynced c
      → read_eeprom d (restart (set_node_num d c nn) fresh) b ≡ (
          if ofs_node_num_lb == b
          then low_byte nn
          else if ofs_node_num_hb == b
          then high_byte nn
          else read_eeprom d c b)
  unfolding set_node_num
  set_node_num-bytes c fresh nn b e f s =
      let c0 = record c { node_num = nn } in
      let s0 : IsSynced c0 = record {
        buffer = s.buffer;
        sector = s.sector;
        unmodified = s.unmodified;
        clears_only = s.clears_only;
      } in
      let c1 = write_eeprom d c0 ofs_node_num_hb (high_byte nn) false in
      let s1 : IsSynced c1 =
        write_eeprom-IsSynced ofs_node_num_hb (high_byte nn) false (omega arith) e s0 in
      let e1 = write_eeprom-type d c0 ofs_node_num_hb (high_byte nn) false e (omega arith) in
      let s2 = write_eeprom-IsSynced ofs_node_num_lb (low_byte nn) false (omega arith) e1 s1 in
      let e2 = write_eeprom-type d c1 ofs_node_num_lb (low_byte nn) false e1 (omega arith) in
      commit_changes-restart _ fresh b e2 f s2
      ∙ read_eeprom-write_eeprom d c1 ofs_node_num_lb b (low_byte nn) false e1 s1.buffer.whole
          (omega arith)
      ∙ ap (λ x. if ofs_node_num_lb == b then low_byte nn else x)
          (read_eeprom-write_eeprom d c0 ofs_node_num_hb b (high_byte nn) false e s.buffer.whole
              (omega arith)
            ∙ ap (λ x. if ofs_node_num_hb == b then high_byte nn else x) (read_node_num c b nn))

  load_nvs-used :
      (c : Config Bus)
      → (read_eeprom d c ofs_reset_flag == 0xFF) ≡ false
      → (load_nvs d c).node_num
        ≡ read_eeprom d c ofs_node_num_hb * 2 ^ 8 + read_eeprom d c ofs_node_num_lb
  unfolding load_nvs
  load_nvs-used c h = rw h refl

  -- In flash mode, on storage that is in use and with the flags of the cache right, the node number that
  -- setNodeNum stores is the node number that the module has after a restart, for every 16-bit number.
  pub load_nvs-set_node_num :
      (c fresh : Config Bus) (nn : ℕ)
      → c.eeprom_type ≡ uses_flash
      → fresh.eeprom_type ≡ uses_flash
      → IsSynced c
      → (read_eeprom d c ofs_reset_flag == 0xFF) ≡ false
      → nn < 2 ^ 16
      → (load_nvs d (restart (set_node_num d c nn) fresh)).node_num ≡ nn
  load_nvs-set_node_num c fresh nn e f s used hn =
      let bytes = λ (b : ℕ). set_node_num-bytes c fresh nn b e f s in
      load_nvs-used _ (ap (λ x. x == 0xFF) (bytes ofs_reset_flag) ∙ used)
      ∙ ap₂ (λ h l. h * 2 ^ 8 + l) (bytes ofs_node_num_hb) (bytes ofs_node_num_lb)
      ∙ (omega arith)
