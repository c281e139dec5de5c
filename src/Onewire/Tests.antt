-- ===== src/Onewire/Tests.antt =====
-- Runs of the 1-Wire code on a bus with two devices, and with none.
use matemat.Base.{
  ℕ, zero, suc, ◌+◌, ◌<◌, ◌≤◌, ◌≡◌, refl, Bool, true, false, if◌then◌else◌, arith, none, some, ◌==◌,
  ltb, List, [], ◌∷◌, All, inl, inr, ◌⊎◌, test_bit, map, not, ◌&&◌,
}
use matemat.Base.Int.{pos, negsuc}
use matemat.Base.Text.{codes}
use matemat.Onewire.{
  Line, Ow, ow_search_rom, reset_onewire, search_from, search_bits, choose, rom_bit,
  set_address_bit, write_bits, ow_write_byte,
}
use matemat.Onewire.Codes.{IsRom}
use matemat.Onewire.Command.{
  lines, list_answer, put_before, hex_digit, print_rom, parse_cmd_onewire_list, run_list,
}
use matemat.Onewire.Devices.{In, Devices, all_ones, all_zeros, keep}
use matemat.Onewire.Enumerate.{run_list-Sorted}
use matemat.Onewire.Listing.{Sorted}
use matemat.Onewire.Follow.{Follows}
use matemat.Onewire.Order.{key}
use matemat.Onewire.Search.{Found, place, ow_search_rom-next}
use matemat.Onewire.Silent.{parse_cmd_onewire_list-silent}
use matemat.Onewire.Successor.{last_open, pick_open}

-- A bus: the bits of the search command that came so far, or the devices in a search, their bit and
-- the slots read of it, or neither.
data SearchBus : Type 0 where
  command : ℕ → SearchBus
  searching : List (List ℕ) → ℕ → ℕ → SearchBus
  idle : SearchBus

abbrev bus_read : SearchBus → Bool × SearchBus
bus_read (command k) = (true, command k)
bus_read (searching s i zero) = (all_ones i s, searching s i 1)
bus_read (searching s i (suc k)) = (all_zeros i s, searching s i 2)
bus_read idle = (true, idle)

-- The command with its next bit.
abbrev heard : List (List ℕ) → Bool → ℕ → SearchBus
heard codes good k =
    if good then (if k == 7 then searching codes 0 0 else command (k + 1)) else idle

abbrev bus_write : List (List ℕ) → Bool → SearchBus → SearchBus
bus_write codes v (command k) = heard codes (if v then test_bit 0xf0 k else not (test_bit 0xf0 k)) k
bus_write codes v (searching s i k) = searching (keep i v s) (i + 1) 0
bus_write codes v idle = idle

abbrev bus : List (List ℕ) → Line SearchBus
bus codes = record {
  reset = λ b. (false, true, command 0);
  read = bus_read;
  write = bus_write codes;
}

bus-Devices : (codes : List (List ℕ)) → Devices (bus codes) codes
bus-Devices codes = record {
  Answers = λ s i b. b ≡ searching s i 0;
  present = λ b. (refl, refl);
  starts = λ b. refl;
  answer = λ s i b h e. rw e (refl, refl, λ v. refl);
}

-- Two sensors.
abbrev sensor_a : List ℕ
sensor_a = 0x10 ∷ 0x2f ∷ 0x80 ∷ 0 ∷ 0 ∷ 8 ∷ 0 ∷ 0x51 ∷ []

abbrev sensor_b : List ℕ
sensor_b = 0x10 ∷ 0x2e ∷ 0x80 ∷ 0 ∷ 0 ∷ 8 ∷ 0 ∷ 0x0c ∷ []

abbrev two : List (List ℕ)
two = sensor_a ∷ sensor_b ∷ []

abbrev unlocked : Ow
unlocked = record { lock = 0; last_discrepancy = negsuc 0; current_rom = [] }

all_bytes : List ℕ → Bool
all_bytes [] = true
all_bytes (x ∷ xs) = ltb x 256 && all_bytes xs

all_bytes-All : (xs : List ℕ) → all_bytes xs ≡ true → All (λ b. b < 256) xs
unfolding all_bytes
all_bytes-All [] h = tt
all_bytes-All (x ∷ xs) h = (ground arith, all_bytes-All xs (ground arith))

sensor_a-IsRom : IsRom sensor_a
sensor_a-IsRom = (refl, all_bytes-All sensor_a (unfold all_bytes in refl))

sensor_b-IsRom : IsRom sensor_b
sensor_b-IsRom = (refl, all_bytes-All sensor_b (unfold all_bytes in refl))

two-IsRom : All IsRom two
two-IsRom = (sensor_a-IsRom, (sensor_b-IsRom, tt))

run_list-Sorted_example :
    (rs : List (List ℕ)) × (o' : Ow) × (b' : SearchBus) × (run_list (bus two) 3 50 unlocked idle
      ≡ some (map print_rom rs, o', b'))
    × (o'.lock ≡ 0)
    × Sorted two rs
    × ((e : List ℕ) → In e two → In e rs)
run_list-Sorted_example =
    run_list-Sorted (bus two) two (bus-Devices two) 3 50 unlocked idle sensor_a two-IsRom (inl refl)
      (omega arith) refl (omega arith)

-- The lines, and the lock behind them.
listed_two :
    run_list (bus two) 3 50 unlocked idle
    ≡ some (
      codes "102e80000008000c" ∷ codes "102f800000080051" ∷ [],
      record { lock = 0; last_discrepancy = negsuc 0; current_rom = sensor_a },
      searching (sensor_a ∷ []) 64 0,
    )
unfolding run_list parse_cmd_onewire_list ow_search_rom search_from reset_onewire search_bits
    ow_write_byte write_bits all_ones rom_bit keep choose all_zeros list_answer print_rom
    set_address_bit put_before lines hex_digit
listed_two = refl

-- The first search found `sensor_b`.
abbrev first_found : Ow
first_found = record { lock = 1; last_discrepancy = pos 8; current_rom = sensor_b }

first_found-Found : Found two first_found
unfolding Found place last_open keep pick_open rom_bit all_zeros
first_found-Found = (inr (inl refl), refl)

ow_search_rom-next_example :
    let (ret, o', b') = ow_search_rom (bus two) false first_found idle in
    ((ret ≡ pos 1) × Found two o' × Follows 64 0 two sensor_b o'.current_rom × (o'.lock ≡ 1))
    ⊎ ((ret ≡ pos 0)
        × (o' ≡ first_found)
        × ((e : List ℕ) → In e two → key 64 0 e ≤ key 64 0 sensor_b))
ow_search_rom-next_example =
    ow_search_rom-next (bus two) two (bus-Devices two) first_found idle two-IsRom first_found-Found

-- A line that stays high.
abbrev empty_line : Line Unit
empty_line = record { reset = λ b. (true, true, b); read = λ b. (true, b); write = λ v b. b }

silent : (b : Unit) → (reset_onewire empty_line b).0 ≡ false
unfolding reset_onewire
silent b = refl

parse_cmd_onewire_list-silent_example :
    let (ret, output, o1, b1) = parse_cmd_onewire_list empty_line 50 unlocked tt in
    (ret ≡ pos 0)
    × (output ≡ none)
    × (o1.lock ≡ 1)
    × (parse_cmd_onewire_list (bus two) 50 o1 idle ≡ (pos 0, none, record o1 { lock = 0 }, idle))
parse_cmd_onewire_list-silent_example =
    parse_cmd_onewire_list-silent empty_line 50 unlocked tt (bus two) idle refl (silent tt)
