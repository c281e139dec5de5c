-- ===== src/Onewire.antt =====
-- firmware/onewire/onewire.c: the 1-Wire bus of the first firmware.
-- The line is a parameter with its state: a reset, a slot that reads and a slot that writes a bit.
-- The delays inside a slot are left out. A ROM code is its eight bytes.
pub mod Codes
pub mod Devices
pub mod Order
pub mod Path
pub mod Next
pub mod Follow
pub mod Search
pub mod Sensors
pub mod Command
pub mod Listing
pub mod Enumerate
pub mod Silent
pub mod Text
mod Tests
pub mod Successor
use matemat.Base.{
  ℕ, zero, suc, ◌+◌, ◌-◌, ◌*◌, ◌/◌, ◌%◌, ◌^◌, Bool, true, false, not, ◌&&◌, ◌||◌, Option, none,
  some, List, [], ◌∷◌, ◌++◌, ltb, leb, ◌==◌, if◌then◌else◌, u8, u16, test_bit, get_or, set, take,
  drop, replicate,
}
use matemat.Base.Int.{ℤ, pos, negsuc, to_int8}
use mathlib.Core.List.{reverse}

-- The samples after a reset, and the level that a slot reads.
pub record Line (B : Type 0) : Type 0 where
  pub reset : B → Bool × Bool × B
  pub read : B → Bool × B
  pub write : Bool → B → B

-- `ow_global`.
pub record Ow : Type 0 where
  pub lock : ℕ
  pub last_discrepancy : ℤ
  pub current_rom : List ℕ

unfoldable pub onewire_init : Ow → Ow
onewire_init o = record o { lock = 0 }

-- Bit `i` of a ROM code, and `ow_set_address_bit`.
unfoldable pub rom_bit : List ℕ → ℕ → Bool
rom_bit rom i = test_bit (get_or rom (i / 8) 0) (i % 8)

unfoldable pub set_address_bit : List ℕ → ℕ → Bool → List ℕ
set_address_bit rom i v =
    let b = get_or rom (i / 8) 0 in
    let on = if test_bit b (i % 8) then b else b + 2 ^ (i % 8) in
    let off = if test_bit b (i % 8) then b - 2 ^ (i % 8) else b in
    set rom (i / 8) (if v then on else off)

-- What a round of the search does with the two bits read: the bit that is sent next, the ROM code and
-- the last place where 0 was taken.
pub record Choice : Type 0 where
  pub sent : Bool
  pub rom : List ℕ
  pub discrepancy : ℕ

-- The comparisons of an index with `last_discrepancy`, which may be negative.
abbrev pub is_last : ℤ → ℕ → Bool
is_last (pos l) i = i == l
is_last (negsuc l) i = false

abbrev pub behind_last : ℤ → ℕ → Bool
behind_last (pos l) i = ltb l i
behind_last (negsuc l) i = true

unfoldable pub choose : ℤ → ℕ → Bool → Bool → List ℕ → ℕ → Choice
choose last i bit1 bit2 rom disc =
    if not (bit1 || bit2)
    then if is_last last i
      then record { sent = true; rom = set_address_bit rom i true; discrepancy = disc }
      else if behind_last last i
      then record { sent = bit1; rom = set_address_bit rom i false; discrepancy = i }
      else record {
        sent = rom_bit rom i;
        rom = rom;
        discrepancy = if rom_bit rom i then disc else i;
      }
    else record { sent = bit1; rom = set_address_bit rom i bit1; discrepancy = disc }

module _ {B : Type 0} (l : Line B) where
  unfoldable pub reset_onewire : B → Bool × B
  reset_onewire b = let (data1, data2, b') = l.reset b in (not data1 && data2, b')

  -- The loops of `ow_write_byte` and `ow_read_byte`, from bit `i` on.
  unfoldable pub write_bits : ℕ → ℕ → ℕ → B → B
  write_bits zero i value b = b
  write_bits (suc n) i value b = write_bits n (i + 1) value (l.write (test_bit value i) b)

  unfoldable pub ow_write_byte : ℕ → B → B
  ow_write_byte value b = write_bits 8 0 value b

  unfoldable pub read_bits : ℕ → ℕ → ℕ → B → ℕ × B
  read_bits zero i value b = (value, b)
  read_bits (suc n) i value b =
      let (bit, b') = l.read b in read_bits n (i + 1) (value + (if bit then 2 ^ i else 0)) b'

  unfoldable pub ow_read_byte : B → ℕ × B
  ow_read_byte b = read_bits 8 0 0 b

  unfoldable pub read_bytes : ℕ → B → List ℕ × B
  read_bytes zero b = ([], b)
  read_bytes (suc n) b =
      let (x, b1) = ow_read_byte b in let (xs, b2) = read_bytes n b1 in (x ∷ xs, b2)

  unfoldable pub write_bytes : List ℕ → B → B
  write_bytes [] b = b
  write_bytes (x ∷ xs) b = write_bytes xs (ow_write_byte x b)

  unfoldable pub ow_skip_rom : B → ℤ × B
  ow_skip_rom b =
      let (present, b1) = reset_onewire b in
      if present then (pos 1, ow_write_byte 0xcc b1) else (negsuc 0, b1)

  unfoldable pub ow_match_rom : List ℕ → B → ℤ × B
  ow_match_rom rom b =
      let (present, b1) = reset_onewire b in
      if present then (pos 1, write_bytes rom (ow_write_byte 0x55 b1)) else (negsuc 0, b1)

  -- The 64 rounds of `ow_search_rom`: whether devices answered in each.
  unfoldable pub search_bits : ℕ → ℕ → ℤ → List ℕ → ℕ → B → Bool × List ℕ × ℕ × B
  search_bits zero i last rom disc b = (true, rom, disc, b)
  search_bits (suc n) i last rom disc b =
      let (bit1, b1) = l.read b in
      let (bit2, b2) = l.read b1 in
      let c = choose last i bit1 bit2 rom disc in
      let rest = search_bits n (i + 1) last c.rom c.discrepancy (l.write c.sent b2) in
      if bit1 && bit2 then (false, rom, disc, b2) else rest

  -- `ow_search_rom` behind its first test.
  unfoldable pub search_from : Ow → B → ℤ × Ow × B
  search_from o b =
      let (present, b1) = reset_onewire b in
      let (done, rom, disc, b2) =
        search_bits 64 0 o.last_discrepancy o.current_rom 255 (ow_write_byte 0xf0 b1) in
      if not present
      then (negsuc 0, o, b1)
      else if done
      then (pos 1, record o { current_rom = rom; last_discrepancy = to_int8 disc }, b2)
      else (pos 0, record o { current_rom = rom }, b2)

  unfoldable pub ow_search_rom : Bool → Ow → B → ℤ × Ow × B
  ow_search_rom first o b =
      let fresh = record o { last_discrepancy = negsuc 0; current_rom = replicate 8 0 } in
      if first
      then search_from fresh b
      else elim o.last_discrepancy [ pos n ↦ search_from o b | negsuc n ↦ (pos 0, o, b) ]
