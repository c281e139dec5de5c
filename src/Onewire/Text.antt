-- ===== src/Onewire/Text.antt =====
-- ROM codes and temperatures as text (firmware/ecmd_parser/onewire.c).
use matemat.Base.{
  ℕ, ◌+◌, ◌*◌, ◌/◌, ◌%◌, ◌<◌, ◌≡◌, refl, ap, false, if◌then◌else◌, arith, some, ltb, List, [], ◌∷◌,
  ◌++◌, All, length, get_or, length-append, inl, inr, ◌⊎◌, u8, sym,
}
use matemat.Base.Text.{codes, decimal}
use matemat.Onewire.Sensors.{ow_temp_normalize, family_ds1820, family_ds1822}
use matemat.Onewire.Codes.{IsRom}
use matemat.Onewire.Listing.{ltb-ge, length-print_rom}
use matemat.Onewire.Command.{hex_digit, print_rom, scan_pairs, parse_ow_rom, print_temperature}

scan_pairs-print_rom :
    (scan : ℕ → ℕ → ℕ) (rom rest : List ℕ)
    → ((a b : ℕ) → a < 16 → b < 16 → scan (hex_digit a) (hex_digit b) ≡ a * 16 + b)
    → All (λ b. b < 256) rom
    → scan_pairs scan (length rom) (print_rom rom ++ rest) ≡ rom
unfolding scan_pairs print_rom
scan_pairs-print_rom scan [] rest h a = refl
scan_pairs-print_rom scan (x ∷ xs) rest h (lt, a) =
    let ih = scan_pairs-print_rom scan xs rest h a in
    let digits = h (x / 16) (x % 16) (omega arith) (omega arith) in
    let byte : (x / 16 * 16 + x % 16) % 256 ≡ x = omega arith in rw (digits, byte, ih) refl

-- `parse_ow_rom` reads back a ROM code that the list command printed, whatever follows it, if `sscanf`
-- reads two hexadecimal digits as their number.
parse_ow_rom-print_rom :
    (scan : ℕ → ℕ → ℕ) (rom rest : List ℕ)
    → ((a b : ℕ) → a < 16 → b < 16 → scan (hex_digit a) (hex_digit b) ≡ a * 16 + b)
    → IsRom rom
    → parse_ow_rom scan (print_rom rom ++ rest) ≡ some rom
unfolding parse_ow_rom
parse_ow_rom-print_rom scan rom rest h (n, a) =
    let enough : ltb (length (print_rom rom ++ rest)) 16 ≡ false =
      ltb-ge _ _ (omega (arith, length-append (print_rom rom) rest, length-print_rom rom, n)) in
    rw (enough, sym n) (ap some (scan_pairs-print_rom scan rom rest h a))

-- The degrees of a sensor that counts in parts of a degree, and 5 for any part.
abbrev pub degrees : ℕ → ℕ → List ℕ
degrees parts t =
    codes "temperature: "
    ++ (decimal (t / parts) ++ (b'.' ∷ (decimal (if ltb 0 (t % parts) then 5 else 0) ++ (10 ∷ []))))

-- A DS18S20 counts halves, a DS1822 sixteenths of a degree.
abbrev pub CountsIn : List ℕ → ℕ → Type 0
CountsIn rom parts =
    ((get_or rom 0 0 ≡ family_ds1820) × (parts ≡ 2))
    ⊎ ((get_or rom 0 0 ≡ family_ds1822) × (parts ≡ 16))

fraction :
    (rom sp : List ℕ) (parts : ℕ)
    → CountsIn rom parts
    → get_or sp 0 0 + get_or sp 1 0 * 256 < parts * 256
    → let t = get_or sp 0 0 + get_or sp 1 0 * 256 in
      let temp = ow_temp_normalize rom sp in
      (temp / 256 ≡ t / parts) × (ltb 0 (u8 temp) ≡ ltb 0 (t % parts))
unfolding ow_temp_normalize
fraction rom sp parts (inl (e, q)) h = rw (e, q) (omega arith, ground arith)
fraction rom sp parts (inr (e, q)) h = rw (e, q) (omega arith, ground arith)

-- The temperature printed for a sensor is its whole degrees, with a 5 behind the point for any part of
-- a degree, as long as it is not negative and below 256 degrees.
print_temperature-degrees :
    (rom sp : List ℕ) (parts : ℕ)
    → CountsIn rom parts
    → get_or sp 0 0 + get_or sp 1 0 * 256 < parts * 256
    → print_temperature rom sp ≡ degrees parts (get_or sp 0 0 + get_or sp 1 0 * 256)
unfolding print_temperature
print_temperature-degrees rom sp parts c h =
    let (whole, part) = fraction rom sp parts c h in rw (whole, part) refl
