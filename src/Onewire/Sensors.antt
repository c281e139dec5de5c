-- ===== src/Onewire/Sensors.antt =====
-- The thermometers and memories of the 1-Wire bus (firmware/onewire/onewire.c), with the checksum of
-- firmware/eeprom.c.
use matemat.Base.{
  ℕ, zero, suc, ◌+◌, ◌*◌, Bool, true, not, ◌||◌, Option, none, some, List, [], ◌∷◌, ◌==◌,
  if◌then◌else◌, u16, get_or, take,
}
use matemat.Base.Int.{ℤ, pos, negsuc}
use mathlib.Core.List.{reverse}
use matemat.Onewire.{
  Line, reset_onewire, ow_skip_rom, ow_match_rom, ow_write_byte, ow_read_byte, read_bytes,
  write_bytes,
}

-- OW_FAMILY_DS1820, OW_FAMILY_DS1822 and OW_FAMILY_DS2502E48.
abbrev pub family_ds1820 : ℕ
family_ds1820 = 0x10

abbrev pub family_ds1822 : ℕ
family_ds1822 = 0x22

abbrev pub family_ds2502e48 : ℕ
family_ds2502e48 = 0x89

unfoldable pub ow_temp_sensor : List ℕ → Bool
ow_temp_sensor rom = (get_or rom 0 0 == family_ds1820) || (get_or rom 0 0 == family_ds1822)

unfoldable pub ow_eeprom : List ℕ → Bool
ow_eeprom rom = get_or rom 0 0 == family_ds2502e48

-- The temperature of a scratchpad, as the bits of an `int16_t`.
unfoldable pub ow_temp_normalize : List ℕ → List ℕ → ℕ
ow_temp_normalize rom sp =
    let temperature = get_or sp 0 0 + get_or sp 1 0 * 256 in
    if get_or rom 0 0 == family_ds1820
    then u16 (temperature * 128)
    else if get_or rom 0 0 == family_ds1822
    then u16 (temperature * 16)
    else 0xffff

module _ {B : Type 0} (l : Line B) where
  -- Either every device or, after a test of its family, the one with a code.
  unfoldable pub ow_address : Option (List ℕ) → Bool → ℤ → B → ℤ × B
  ow_address none known bad b = ow_skip_rom l b
  ow_address (some rom) known bad b = if known then ow_match_rom l rom b else (bad, b)

  abbrev pub is_sensor : Option (List ℕ) → Bool
  is_sensor none = true
  is_sensor (some rom) = ow_temp_sensor rom

  -- The wait for the end of a conversion, for at most `n` slots.
  unfoldable pub wait_read : ℕ → B → Option B
  wait_read zero b = none
  wait_read (suc n) b =
      let (bit, b') = l.read b in let rest = wait_read n b' in if bit then some b' else rest

  unfoldable pub ow_temp_start_convert : ℕ → Option (List ℕ) → Bool → B → Option (ℤ × B)
  ow_temp_start_convert fuel rom wait b =
      let (ret, b1) = ow_address rom (is_sensor rom) (negsuc 1) b in
      let b2 = ow_write_byte l 0x44 b1 in
      let waited : Option (ℤ × B) = elim (wait_read fuel b2) [
        | some b3 ↦ some (pos 1, b3)
        | none ↦ none
      ] in
      elim ret [
        | negsuc n ↦ some (negsuc n, b1)
        | pos n ↦ if wait then waited else some (pos 0, b2)
      ]

  unfoldable pub ow_temp_power : Option (List ℕ) → B → ℤ × B
  ow_temp_power rom b =
      let (ret, b1) = ow_address rom (is_sensor rom) (negsuc 1) b in
      let (bit, b2) = l.read (ow_write_byte l 0xb4 b1) in
      elim ret [ negsuc n ↦ (negsuc n, b1) | pos n ↦ (if bit then pos 1 else pos 0, b2) ]

  -- `_crc_ibutton_update` of the C library.
  module _ (crc_update : ℕ → ℕ → ℕ) where
    unfoldable pub crc_checksum : ℕ → List ℕ → ℕ
    crc_checksum crc [] = crc
    crc_checksum crc (x ∷ xs) = crc_checksum (crc_update crc x) xs

    -- The code read, if a device answers.
    unfoldable pub ow_read_rom : B → ℤ × Option (List ℕ) × B
    ow_read_rom b =
        let (present, b1) = reset_onewire l b in
        let (rom, b2) = read_bytes l 8 (ow_write_byte l 0x33 b1) in
        if not present
        then (negsuc 0, none, b1)
        else if get_or rom 7 0 == crc_checksum 0 (take 7 rom)
        then (pos 1, some rom, b2)
        else (negsuc 1, some rom, b2)

    unfoldable pub ow_temp_read_scratchpad : Option (List ℕ) → B → ℤ × Option (List ℕ) × B
    ow_temp_read_scratchpad rom b =
        let (ret, b1) = ow_address rom (is_sensor rom) (negsuc 2) b in
        let (sp, b2) = read_bytes l 9 (ow_write_byte l 0xbe b1) in
        elim ret [
          | negsuc n ↦ (negsuc n, none, b1)
          | pos n ↦
              if get_or sp 8 0 == crc_checksum 0 (take 8 sp)
              then (pos 1, some sp, b2)
              else (negsuc 1, some sp, b2)
        ]

    -- The six bytes of the address are stored from the last one down.
    unfoldable pub ow_eeprom_read : Option (List ℕ) → B → ℤ × Option (List ℕ) × B
    ow_eeprom_read rom b =
        let known : Bool = elim rom [ none ↦ true | some r ↦ ow_eeprom r ] in
        let (ret, b1) = ow_address rom known (negsuc 1) b in
        let (crc, b2) = ow_read_byte l (write_bytes l (0xf0 ∷ 5 ∷ 0 ∷ []) b1) in
        let (mac, b3) = read_bytes l 6 b2 in
        let reversed : List ℕ = reverse mac in
        elim ret [
          | negsuc n ↦ (negsuc n, none, b1)
          | pos n ↦
              if crc == crc_checksum 0 (0xf0 ∷ 5 ∷ 0 ∷ [])
              then (pos 0, some reversed, b3)
              else (negsuc 1, none, b2)
        ]
