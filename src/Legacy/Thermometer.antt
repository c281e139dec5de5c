-- ===== src/Legacy/Thermometer.antt =====
-- The temperatures of the first controller: the sensor's two bytes (firmware/matemat/lm75.c) and the
-- text that is shown (`sprintf_temp` of firmware/matemat/matemat.c), in half degrees.
use matemat.Base.{
  ℕ, ◌+◌, ◌-◌, ◌*◌, ◌/◌, ◌%◌, Bool, false, Option, none, some, List, [], ◌∷◌, ◌++◌, ltb, ◌==◌,
  if◌then◌else◌, test_bit,
}
use matemat.Base.Int.{ℤ, pos, negsuc}
use matemat.Base.Text.{codes, decimal}

-- The value that "%d" shows of a `uint16_t`, where `int` has 16 bits.
pub as_int16 : ℕ → ℤ
as_int16 n = if ltb n 32768 then pos n else negsuc (65535 - n)

-- "%d" and "%2d" of a value of `int16_t`.
pub signed_text : ℤ → List ℕ
signed_text (pos n) = decimal n
signed_text (negsuc n) = b'-' ∷ decimal (n + 1)

pad_two : List ℕ → List ℕ
pad_two [] = codes "  "
pad_two (c ∷ []) = b' ' ∷ c ∷ []
pad_two (c ∷ d ∷ s) = c ∷ d ∷ s

-- `t/2` towards zero, and `t & 1` in two's complement.
half : ℤ → ℤ
half (pos n) = pos (n / 2)
half (negsuc n) = if (n + 1) / 2 == 0 then pos 0 else negsuc ((n + 1) / 2 - 1)

is_odd : ℤ → Bool
is_odd (pos n) = n % 2 == 1
is_odd (negsuc n) = n % 2 == 0

is_minus_one : ℤ → Bool
is_minus_one (pos n) = false
is_minus_one (negsuc n) = n == 0

is_hundred : ℤ → Bool
is_hundred (pos n) = n == 100
is_hundred (negsuc n) = false

unfoldable pub sprintf_temp : ℤ → Bool → List ℕ
unfolding signed_text pad_two half is_odd is_minus_one is_hundred
sprintf_temp t pad =
    if is_hundred t
    then codes "# C"
    else (if is_minus_one t
        then if pad then codes " -0" else codes "-0"
        else if pad
        then pad_two (signed_text (half t))
        else signed_text (half t))
      ++ (b'.' ∷ (if is_odd t then b'5' else b'0') ∷ codes " C")

-- `lm75_gettemp`: `none` if the device does not answer, else the two bytes that it sends.
unfoldable pub lm75_gettemp : Option (ℕ × ℕ) → ℤ
lm75_gettemp none = pos 100
lm75_gettemp (some (high, low)) =
    let a = high * 2 in
    let b = low / 128 in if test_bit a 8 then negsuc (511 - (a + b)) else pos (a + b)
