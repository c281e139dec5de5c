-- ===== src/Onewire/Command.antt =====
-- The 1-Wire commands (firmware/ecmd_parser/onewire.c). `sscanf` on two characters is a parameter. The
-- callers of a command call it again while its result asks for it (firmware/ecmd_parser/ecmd.h);
-- `run_list` does so for the list command and collects what it writes.
use matemat.Base.{
  ℕ, zero, suc, ◌+◌, ◌-◌, ◌/◌, ◌%◌, Bool, true, false, Option, none, some, List, [], ◌∷◌, ◌++◌, ltb,
  leb, ◌==◌, if◌then◌else◌, u8, take, drop, length,
}
use matemat.Base.Int.{ℤ, pos, negsuc}
use matemat.Base.Text.{codes, decimal}
use matemat.Onewire.{Line, Ow, ow_search_rom}
use matemat.Onewire.Sensors.{
  ow_temp_sensor, ow_eeprom, ow_temp_normalize, ow_temp_start_convert, ow_temp_read_scratchpad,
  ow_eeprom_read,
}

-- "%02x" of a byte.
unfoldable pub hex_digit : ℕ → ℕ
hex_digit n = if ltb n 10 then b'0' + n else b'a' + (n - 10)

abbrev pub hex_byte : ℕ → List ℕ
hex_byte b = hex_digit (b / 16) ∷ hex_digit (b % 16) ∷ []

-- The text of a ROM code, and of an address with colons.
unfoldable pub print_rom : List ℕ → List ℕ
print_rom [] = []
print_rom (x ∷ xs) = hex_byte x ++ print_rom xs

unfoldable pub print_mac : List ℕ → List ℕ
print_mac [] = []
print_mac (x ∷ []) = hex_byte x
print_mac (x ∷ y ∷ xs) = hex_byte x ++ (b':' ∷ print_mac (y ∷ xs))

-- `snprintf`: the length of the text and what a buffer of `len` bytes takes of it.
abbrev pub snprintf : ℕ → List ℕ → ℕ × List ℕ
snprintf len text = (length text, take (len - 1) text)

-- A result of the list command: a device's code, or the end.
unfoldable pub list_answer : {B : Type 0} → ℕ → ℤ × Ow × B → ℤ × Option (List ℕ) × Ow × B
list_answer len (pos n, o, b) =
    let (ret, output) = snprintf len (print_rom o.current_rom) in
    if n == 1
    then (if ltb 0 ret then negsuc (ret + 9) else pos ret, some output, o, b)
    else if n == 0
    then (pos 0, none, record o { lock = 0 }, b)
    else (negsuc 0, none, o, b)
list_answer len (negsuc n, o, b) = (negsuc 0, none, o, b)

abbrev pub found_any : ℤ → Bool
found_any (pos n) = ltb 0 n
found_any (negsuc n) = false

-- The number of a result that asks for another call, at most -10.
abbrev pub again : ℤ → Bool
again (pos n) = false
again (negsuc n) = leb 9 n

-- A result that tells of an output: above 0, or below -10.
abbrev pub has_output : ℤ → Bool
has_output (pos n) = ltb 0 n
has_output (negsuc n) = leb 10 n

unfoldable pub lines : ℤ → Option (List ℕ) → List (List ℕ)
lines ret none = []
lines ret (some text) = if has_output ret then text ∷ [] else []

unfoldable pub put_before :
    {B : Type 0} → List (List ℕ) → Option (List (List ℕ) × Ow × B) → Option (List (List ℕ) × Ow × B)
put_before line none = none
put_before line (some (texts, o, b)) = some (line ++ texts, o, b)

abbrev pub is_int : ℕ → ℤ → Bool
is_int k (pos n) = n == k
is_int k (negsuc n) = false

-- What a read of a temperature prints.
unfoldable pub print_temperature : List ℕ → List ℕ → List ℕ
print_temperature rom sp =
    let temp = ow_temp_normalize rom sp in
    codes "temperature: "
    ++ (decimal (temp / 256) ++ (b'.' ∷ (decimal (if ltb 0 (u8 temp) then 5 else 0) ++ (10 ∷ []))))

unfoldable pub scan_pairs : (ℕ → ℕ → ℕ) → ℕ → List ℕ → List ℕ
scan_pairs scan zero cmd = []
scan_pairs scan (suc n) [] = []
scan_pairs scan (suc n) (a ∷ []) = []
scan_pairs scan (suc n) (a ∷ b ∷ cmd) = u8 (scan a b) ∷ scan_pairs scan n cmd

unfoldable pub parse_ow_rom : (ℕ → ℕ → ℕ) → List ℕ → Option (List ℕ)
parse_ow_rom scan cmd = if ltb (length cmd) 16 then none else some (scan_pairs scan 8 cmd)

module _ {B : Type 0} (l : Line B) where
  unfoldable pub parse_cmd_onewire_list : ℕ → Ow → B → ℤ × Option (List ℕ) × Ow × B
  parse_cmd_onewire_list len o b =
      let (ret, o1, b1) = ow_search_rom l true (record o { lock = 1 }) b in
      if o.lock == 0
      then if found_any ret then list_answer len (ret, o1, b1) else (pos 0, none, o1, b1)
      else list_answer len (ow_search_rom l false o b)

  -- What the list command writes, called again while it asks for it.
  unfoldable pub run_list : ℕ → ℕ → Ow → B → Option (List (List ℕ) × Ow × B)
  run_list zero len o b = none
  run_list (suc fuel) len o b =
      let (ret, output, o1, b1) = parse_cmd_onewire_list len o b in
      let rest = run_list fuel len o1 b1 in
      let line = lines ret output in if again ret then put_before line rest else some (line, o1, b1)

  module _ (scan : ℕ → ℕ → ℕ) where
    unfoldable pub parse_cmd_onewire_convert : ℕ → List ℕ → B → Option (ℤ × B)
    parse_cmd_onewire_convert fuel cmd b =
        elim (ow_temp_start_convert l fuel (parse_ow_rom scan (drop 1 cmd)) true b) [
          | none ↦ none
          | some (pos n, b1) ↦ some (if n == 1 then pos 0 else negsuc 0, b1)
          | some (negsuc n, b1) ↦ some (if n == 0 then negsuc 1 else negsuc 0, b1)
        ]

    unfoldable pub parse_cmd_onewire_get : (ℕ → ℕ → ℕ) → ℕ → List ℕ → B → ℤ × Option (List ℕ) × B
    parse_cmd_onewire_get crc_update len cmd b = elim (parse_ow_rom scan (drop 1 cmd)) [
      | none ↦ (negsuc 0, none, b)
      | some rom ↦
          let (ret, sp, b1) = ow_temp_read_scratchpad l crc_update (some rom) b in
          let (code, mac, b2) = ow_eeprom_read l crc_update (some rom) b in
          let shown : List ℕ → B → ℤ × Option (List ℕ) × B =
            λ text b'. (pos (length text), some (snprintf len text).1, b') in
          if ow_temp_sensor rom
          then elim sp [
            | some s ↦
                if is_int 1 ret then shown (print_temperature rom s) b1 else (negsuc 1, none, b1)
            | none ↦ (negsuc 1, none, b1)
          ]
          else if ow_eeprom rom
          then elim mac [
            | some m ↦
                if is_int 0 code
                then shown (codes "mac: " ++ print_mac m) b2
                else (negsuc 1, none, b2)
            | none ↦ (negsuc 1, none, b2)
          ]
          else shown (codes "unknown sensor type") b
    ]
