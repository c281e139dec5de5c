-- ===== src/Fs20/Weather.antt =====
-- firmware/fs20/fs20.c with FS20_SUPPORT_RECEIVE_WS300: the reports of the weather station WS300, heard
-- by the same interrupts as the radio commands. The ten bytes of a datagram are their bits from bit 0
-- on, as avr-gcc packs its bit-fields.
pub mod Hearing
pub mod Values
pub mod Station
mod Tests
use Prim.Native.Nat.{bit_xor}
use matemat.Base.{
  ℕ, zero, suc, ◌+◌, ◌-◌, ◌*◌, ◌%◌, Bool, true, false, not, ◌&&◌, ◌||◌, List, [], ◌∷◌, ltb, leb,
  ◌==◌, if◌then◌else◌, u8, get_or, set, replicate, test_bit,
}
use matemat.Base.Int.{ℤ, pos, to_int8}

-- The values that the last valid datagram reported.
pub record Report : Type 0 where
  pub temp : ℤ
  pub temp_frac : ℕ
  pub rain : Bool
  pub rain_value : ℕ
  pub hygro : ℕ
  pub wind : ℕ
  pub wind_frac : ℕ
  pub last_update : ℕ

-- `fs20_global.ws300`, and the interrupt's `time_old` for it.
pub record Ws300 : Type 0 where
  pub bits : List Bool
  pub sync : Bool
  pub null : ℕ
  pub rec : ℕ
  pub time_old : ℕ
  pub reported : Report

-- FS20_WS300_DATAGRAM_LENGTH and FS20_WS300_CONSTANT.
abbrev pub ws300_length : ℕ
ws300_length = 79

abbrev pub ws300_constant : ℕ
ws300_constant = 7

abbrev pub no_bits : List Bool
no_bits = replicate 80 false

-- WS300_PULSE_ONE and WS300_PULSE_ZERO.
unfoldable pub ws300_one : ℕ → ℕ → Bool
ws300_one x y = (leb 20 x && leb x 80) && (leb 90 y && leb y 180)

unfoldable pub ws300_zero : ℕ → ℕ → Bool
ws300_zero x y = (leb 90 x && leb x 180) && (leb 20 y && leb y 80)

-- The part of ANALOG_COMP_vect for the station.
unfoldable pub ws300_edge : ℕ → Ws300 → Ws300
ws300_edge time w =
    let is_zero = ws300_zero w.time_old time in
    let is_one = ws300_one w.time_old time in
    let waiting =
      if is_zero
      then record w { null = (w.null + 1) % 128; time_old = 0 }
      else if is_one
      then if leb 8 w.null
        then record w { sync = true; time_old = 0; null = 0 }
        else record w { time_old = time; null = 0 }
      else record w { time_old = time } in
    let synced =
      if is_zero || is_one
      then record w {
        bits = if is_zero then w.bits else set w.bits w.rec true;
        time_old = 0;
        rec = w.rec + 1;
      }
      else record w { time_old = time } in
    if ltb w.rec ws300_length then (if w.sync then synced else waiting) else w

-- The part of TIMER2_OVF_vect.
unfoldable pub ws300_overflow : Ws300 → Ws300
ws300_overflow w =
    if w.rec == ws300_length
    then w
    else record w { rec = 0; sync = false; null = 0; bits = no_bits }

-- The bit-fields of a datagram: nibbles, each but the last one with a marker behind it.
abbrev pub bit_value : Bool → ℕ
bit_value b = if b then 1 else 0

unfoldable pub read_nibbles : ℕ → List Bool → List ℕ
read_nibbles zero bits = []
read_nibbles (suc n) (a ∷ b ∷ c ∷ d ∷ e ∷ bits) =
    (bit_value a + 2 * bit_value b + 4 * bit_value c + 8 * bit_value d) ∷ read_nibbles n bits
read_nibbles (suc n) bits = []

unfoldable pub markers : ℕ → List Bool → Bool
markers zero bits = true
markers (suc n) (a ∷ b ∷ c ∷ d ∷ e ∷ bits) = e && markers n bits
markers (suc n) bits = false

unfoldable pub xor_from : ℕ → List ℕ → ℕ
xor_from x [] = x
xor_from x (n ∷ ns) = xor_from (bit_xor x n) ns

unfoldable pub sum_from : ℕ → List ℕ → ℕ
sum_from x [] = x
sum_from x (n ∷ ns) = sum_from (x + n) ns

-- The values of a valid datagram.
unfoldable pub ws300_values : List ℕ → Report
ws300_values ns =
    let n = λ (k : ℕ). get_or ns k 0 in
    let temp = u8 (n 3 + 10 * n 4) in
    record {
      temp = to_int8 (if test_bit (n 1) 3 then u8 (256 - temp) else temp);
      temp_frac = n 2;
      rain = test_bit (n 1) 1;
      rain_value = n 10 + 10 * n 11 + 100 * n 12;
      hygro = n 5 + 10 * n 6;
      wind = n 8 + 10 * n 9;
      wind_frac = n 7;
      last_update = 0;
    }

unfoldable pub ws300_parse_datagram : Ws300 → Report
ws300_parse_datagram w =
    let ns = read_nibbles 16 w.bits in
    let summed = read_nibbles 15 w.bits in
    if not (markers 15 w.bits)
    then w.reported
    else if not (get_or ns 0 0 == ws300_constant)
    then w.reported
    else if not (xor_from 0 summed == 0)
    then w.reported
    else if not ((u8 (sum_from 0 summed) + 5) % 16 == get_or ns 15 0)
    then w.reported
    else ws300_values ns

-- The part of `fs20_process`.
unfoldable pub ws300_process : Ws300 → Ws300
ws300_process w =
    if w.rec == ws300_length
    then record w { reported = ws300_parse_datagram w; bits = no_bits; sync = false; rec = 0 }
    else w

-- The part of `fs20_init`; `time_old` is no part of what is cleared.
unfoldable pub ws300_init : Ws300 → Ws300
ws300_init w = record {
  bits = no_bits;
  sync = false;
  null = 0;
  rec = 0;
  time_old = w.time_old;
  reported = record {
    temp = pos 0;
    temp_frac = 0;
    rain = false;
    rain_value = 0;
    hygro = 0;
    wind = 0;
    wind_frac = 0;
    last_update = 0;
  };
}
