-- ===== src/Config/Flash/Sync.antt =====
-- The flags of the flash cache are right: whatever was written into the cache, flushing it leaves the
-- flash sector equal to the cache, although programming alone can only clear bits.
use cbuspico_lib.Common.{
  ℕ, zero, suc, ◌^◌, ◌≤◌, ◌<◌, min, ◌≡◌, refl, sym, ◌∙◌, subst, inl, inr, Bool, true, false, ◌&&◌,
  not, List, [], ◌∷◌, arith, ltb, ◌==◌, if◌then◌else◌, ltb→lt, ==_iff, Bool-cases, passes_below,
  passes_below_lem, length, get_or, set, length-set, get_or-set,
}
use cbuspico_lib.Config.{Config, Driver, flash_sector_size}
use cbuspico_lib.Config.Flash.{bit, raises_bit, set_chip_eeprom_val, flush_to_flash}

abbrev pub at : List ℕ → ℕ → ℕ
at xs i = get_or xs i 0

-- A sector's worth of bytes.
pub record IsSector (xs : List ℕ) : Type 0 where
  pub whole : length xs ≡ flash_sector_size
  pub byte_range : (i : ℕ) → at xs i < 2 ^ 8

-- What the Pico SDK documents: an erased sector is all ones, and programming clears bits and never
-- sets one.
pub record FlashLaws {Bus : Type 0} (d : Driver Bus) : Type 0 where
  pub erase_sector : (xs : List ℕ) → IsSector xs → IsSector (d.erase xs)
  pub erase_ones :
      (xs : List ℕ) → IsSector xs → (i : ℕ) → i < flash_sector_size → at (d.erase xs) i ≡ 0xFF
  pub program_sector : (xs ys : List ℕ) → IsSector xs → IsSector ys → IsSector (d.program xs ys)
  pub program_bits :
      (xs ys : List ℕ)
      → IsSector xs
      → IsSector ys
      → (i k : ℕ) → k < 8
      → bit k (at (d.program xs ys) i) ≡ min (bit k (at xs i)) (bit k (at ys i))

-- The flags say how the cache differs from the flash.
pub record IsSynced {Bus : Type 0} (c : Config Bus) : Type 0 where
  pub buffer : IsSector c.flash_buf
  pub sector : IsSector c.flash
  pub unmodified : c.flash_modified ≡ false → (i : ℕ) → at c.flash_buf i ≡ at c.flash i
  pub clears_only :
      c.flash_zero_to_one ≡ false
      → (i k : ℕ) → k < 8
      → bit k (at c.flash_buf i) ≤ bit k (at c.flash i)

raises_bit-bits : (n val cur k : ℕ) → raises_bit n val cur ≡ false → k < n → bit k val ≤ bit k cur
unfolding raises_bit
raises_bit-bits zero val cur k h lt = absurd (omega arith)
raises_bit-bits (suc n) val cur k h lt = elim (Bool-cases (k == n)) [
  | inl e ↦ let same_bit : k ≡ n = ground arith in rw same_bit (ground arith)
  | inr e ↦ raises_bit-bits n val cur k (ground arith) (ground arith)
]

-- Bytes with the same eight bits are equal.
byte_ext : (x y : ℕ) → x < 2 ^ 8 → y < 2 ^ 8 → ((k : ℕ) → k < 8 → bit k x ≡ bit k y) → x ≡ y
byte_ext x y hx hy h = omega (
  arith,
  h 0 (omega arith),
  h 1 (omega arith),
  h 2 (omega arith),
  h 3 (omega arith),
  h 4 (omega arith),
  h 5 (omega arith),
  h 6 (omega arith),
  h 7 (omega arith),
)

abbrev ends_of_bits : ℕ → Bool
ends_of_bits k = (bit k 0 == 0) && (bit k 0xFF == 1)

ends_table : passes_below ends_of_bits 8 ≡ true
unfolding passes_below
ends_table = refl

bit_ends : (k : ℕ) → k < 8 → (bit k 0 ≡ 0) × (bit k 0xFF ≡ 1)
bit_ends k lt = ground (arith, passes_below_lem ends_of_bits 8 k lt ends_table)

pub get_or-outside : (xs : List ℕ) (i d : ℕ) → length xs ≤ i → get_or xs i d ≡ d
get_or-outside [] i d h = refl
get_or-outside (x ∷ xs) zero d h = absurd (omega arith)
get_or-outside (x ∷ xs) (suc i) d h = get_or-outside xs i d (omega arith)

pub IsSector-set :
    (xs : List ℕ) (i v : ℕ)
    → IsSector xs
    → i < flash_sector_size
    → v < 2 ^ 8
    → IsSector (set xs i v)
IsSector-set xs i v s hi hv = record {
  whole = length-set xs i v ∙ s.whole;
  byte_range = λ j. ground (arith, get_or-set xs i j v 0, s.whole, s.byte_range j);
}

written_bit :
    (a j v k : ℕ) (buf flash : List ℕ)
    → bit k v ≤ bit k (at buf a)
    → ((i : ℕ) → bit k (at buf i) ≤ bit k (at flash i))
    → bit k (if a == j then v else at buf j) ≤ bit k (at flash j)
written_bit a j v k buf flash h old = elim (Bool-cases (a == j)) [
  | inl e ↦
      let same_place : a ≡ j = (==_iff a j).0 e in
      let below : bit k v ≤ bit k (at buf j) =
        subst (λ i. bit k v ≤ bit k (at buf i)) same_place h in
      rw e (omega (arith, old j))
  | inr e ↦ rw e (old j)
]

module _ {Bus : Type 0} where
  set_chip-out :
      (c : Config Bus) (a v : ℕ) → ltb a flash_sector_size ≡ false → set_chip_eeprom_val c a v ≡ c
  unfolding set_chip_eeprom_val
  set_chip-out c a v h = rw h

  set_chip-in :
      (c : Config Bus) (a v : ℕ)
      → ltb a flash_sector_size ≡ true
      → set_chip_eeprom_val c a v ≡ record c {
        flash_modified = if not (v == at c.flash_buf a) then true else c.flash_modified;
        flash_zero_to_one = if raises_bit 8 v (at c.flash_buf a) then true else c.flash_zero_to_one;
        flash_buf = set c.flash_buf a v;
      }
  unfolding set_chip_eeprom_val
  set_chip-in c a v h = rw h

  -- If the flags of the cache are right, they are right after a byte is written into the cache, at every
  -- address.
  pub set_chip_eeprom_val-IsSynced :
      {c : Config Bus} (a v : ℕ) → v < 2 ^ 8 → IsSynced c → IsSynced (set_chip_eeprom_val c a v)
  set_chip_eeprom_val-IsSynced {c} a v hv s = elim (Bool-cases (ltb a flash_sector_size)) [
    | inr out ↦ rw (set_chip-out c a v out) s
    | inl inside ↦
        let a_lt : a < flash_sector_size = ltb→lt _ _ inside in
        let read = λ (j : ℕ). get_or-set c.flash_buf a j v 0 (rw s.buffer.whole a_lt) in
        rw (set_chip-in c a v inside) (record {
          buffer = IsSector-set c.flash_buf a v s.buffer a_lt hv;
          sector = s.sector;
          unmodified = λ h j. ground (arith, read j, s.unmodified (ground arith) j);
          clears_only = λ h j k lt.
              let no_raise = raises_bit-bits 8 v (at c.flash_buf a) k (ground arith) lt in
              rw (read j) (
                written_bit a j v k c.flash_buf c.flash no_raise
                  (λ i. s.clears_only (ground arith) i k lt));
        })
  ]

module _ {Bus : Type 0} {d : Driver Bus} (laws : FlashLaws d) where
  erased_first :
      (c : Config Bus)
      → IsSynced c
      → IsSector (if c.flash_zero_to_one then d.erase c.flash else c.flash)
  erased_first c s = elim (Bool-cases c.flash_zero_to_one) [
    | inl e ↦ simp e (laws.erase_sector c.flash s.sector)
    | inr e ↦ simp e s.sector
  ]

  -- Where every bit of `ys` that is set is also set in `xs`, programming makes the sector `ys`.
  program_cleared :
      (xs ys : List ℕ)
      → IsSector xs
      → IsSector ys
      → ((i k : ℕ) → k < 8 → bit k (at ys i) ≤ bit k (at xs i))
      → (i : ℕ) → at (d.program xs ys) i ≡ at ys i
  program_cleared xs ys sx sy h i =
      byte_ext _ _ ((laws.program_sector xs ys sx sy).byte_range i) (sy.byte_range i)
        (λ k lt. omega (arith, laws.program_bits xs ys sx sy i k lt, h i k lt))

  bit_erased :
      (c : Config Bus)
      → IsSynced c
      → (i k : ℕ) → k < 8
      → bit k (at c.flash_buf i) ≤ bit k (at (d.erase c.flash) i)
  bit_erased c s i k lt = elim (Bool-cases (ltb i flash_sector_size)) [
    | inl inside ↦
        rw (laws.erase_ones c.flash s.sector i (ltb→lt _ _ inside), (bit_ends k lt).1) (omega arith)
    | inr out ↦
        let nothing = get_or-outside c.flash_buf i 0 (ground (arith, s.buffer.whole)) in
        rw (nothing, (bit_ends k lt).0) (omega arith)
  ]

  -- If the flags of the cache are right and the flash erases and programs as documented, then after a flush
  -- the flash sector holds exactly what the cache holds, at every address.
  pub flush_to_flash_lem :
      (c : Config Bus) → IsSynced c → (i : ℕ) → at (flush_to_flash d c).flash i ≡ at c.flash_buf i
  unfolding flush_to_flash
  flush_to_flash_lem c s i = elim (Bool-cases c.flash_modified) [
    | inr clean ↦ simp clean (sym (s.unmodified clean i))
    | inl dirty ↦ elim (Bool-cases c.flash_zero_to_one) [
      | inl up ↦
          simp (dirty, up)
            (program_cleared (d.erase c.flash) c.flash_buf (laws.erase_sector c.flash s.sector)
              s.buffer (bit_erased c s) i)
      | inr down ↦
          simp (dirty, down)
            (program_cleared c.flash c.flash_buf s.sector s.buffer (s.clears_only down) i)
    ]
  ]

  flushed-IsSector : (c : Config Bus) → IsSynced c → IsSector (flush_to_flash d c).flash
  unfolding flush_to_flash
  flushed-IsSector c s = elim (Bool-cases c.flash_modified) [
    | inr clean ↦ simp clean s.sector
    | inl dirty ↦ simp dirty (laws.program_sector _ c.flash_buf (erased_first c s) s.buffer)
  ]

  -- A flush keeps the flags right.
  pub flush_to_flash-IsSynced : {c : Config Bus} → IsSynced c → IsSynced (flush_to_flash d c)
  unfolding flush_to_flash
  flush_to_flash-IsSynced {c} s = record {
    buffer = s.buffer;
    sector = flushed-IsSector c s;
    unmodified = λ _ i. sym (flush_to_flash_lem c s i);
    clears_only = λ _ i k lt. rw (flush_to_flash_lem c s i) (omega arith);
  }
