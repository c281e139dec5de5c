-- ===== src/Fs20/Weather/Station.antt =====
-- A report of the weather station by what the station measured, in the format that
-- firmware/fs20/fs20.h describes: decimal digits, the lowest first, and two flags.
use matemat.Base.{
  ℕ, ◌+◌, ◌-◌, ◌*◌, ◌/◌, ◌%◌, ◌<◌, ◌≤◌, ◌≡◌, refl, ap, ◌∙◌, arith, Bool, true, false, ◌&&◌, List,
  [], ◌∷◌, ltb, if◌then◌else◌, replicate, u8, test_bit,
}
use matemat.Base.Int.{ℤ, pos, negsuc, to_int8}
use matemat.Fs20.Weather.{Report, ws300_one, ws300_edge, bit_value, ws300_values, ws300_process}
use matemat.Fs20.Weather.Hearing.{Hears, hear, datagram_bits, waiting}
use matemat.Fs20.Weather.Values.{IsReport, hear-report}

-- What the station measured; the temperature is its amount and whether it is below 0.
pub record Station : Type 0 where
  pub below_zero : Bool
  pub degrees : ℕ
  pub degrees_frac : ℕ
  pub water : Bool
  pub humidity : ℕ
  pub wind_speed : ℕ
  pub wind_speed_frac : ℕ
  pub rain_counter : ℕ

-- Two digits for the degrees, the humidity and the wind, three for the counter.
pub record IsStation (s : Station) : Type 0 where
  pub degrees_digits : s.degrees ≤ 99
  pub humidity_digits : s.humidity ≤ 99
  pub wind_digits : s.wind_speed ≤ 99
  pub rain_digits : s.rain_counter ≤ 999

-- The 16 nibbles of the header's table, of which the last three are not described by values.
abbrev pub station_nibbles : Station → ℕ → ℕ → ℕ → List ℕ
station_nibbles s unknown checksum1 checksum2 =
    7
    ∷ (1 + 2 * bit_value s.water + 8 * bit_value s.below_zero)
    ∷ s.degrees_frac
    ∷ (s.degrees % 10)
    ∷ (s.degrees / 10)
    ∷ (s.humidity % 10)
    ∷ (s.humidity / 10)
    ∷ s.wind_speed_frac
    ∷ (s.wind_speed % 10)
    ∷ (s.wind_speed / 10)
    ∷ (s.rain_counter % 10)
    ∷ (s.rain_counter / 10 % 10)
    ∷ (s.rain_counter / 100)
    ∷ unknown
    ∷ checksum1
    ∷ checksum2
    ∷ []

-- The whole degrees with their sign, which 0 has not.
abbrev pub signed : Bool → ℕ → ℤ
signed below n = if below && ltb 0 n then negsuc (n - 1) else pos n

abbrev pub station_report : Station → Report
station_report s = record {
  temp = signed s.below_zero s.degrees;
  temp_frac = s.degrees_frac;
  rain = s.water;
  rain_value = s.rain_counter;
  hygro = s.humidity;
  wind = s.wind_speed;
  wind_frac = s.wind_speed_frac;
  last_update = 0;
}

two_digits : (n : ℕ) → n % 10 + 10 * (n / 10) ≡ n
two_digits n = omega arith

three_digits : (n : ℕ) → n % 10 + 10 * (n / 10 % 10) + 100 * (n / 100) ≡ n
three_digits n = omega arith

sign_flag :
    (water below : Bool) → test_bit (1 + 2 * bit_value water + 8 * bit_value below) 3 ≡ below
sign_flag true true = refl
sign_flag true false = refl
sign_flag false true = refl
sign_flag false false = refl

water_flag :
    (water below : Bool) → test_bit (1 + 2 * bit_value water + 8 * bit_value below) 1 ≡ water
water_flag true true = refl
water_flag true false = refl
water_flag false true = refl
water_flag false false = refl

signed_byte :
    (below : Bool) (n : ℕ)
    → n ≤ 99
    → to_int8 (if below then u8 (256 - u8 n) else u8 n) ≡ signed below n
signed_byte true n h = ground arith
signed_byte false n h = ground arith

values_station :
    (s : Station) (u c1 c2 : ℕ)
    → IsStation s
    → ws300_values (station_nibbles s u c1 c2) ≡ station_report s
unfolding ws300_values
values_station s u c1 c2 h =
    rw
      (
        two_digits s.degrees,
        two_digits s.humidity,
        two_digits s.wind_speed,
        three_digits s.rain_counter,
        sign_flag s.water s.below_zero,
        water_flag s.water s.below_zero,
        signed_byte s.below_zero s.degrees h.degrees_digits,
      )
      refl

-- The pulses of a report that the station makes of its measurements (amounts of at most two digits, the
-- rain counter of three) with right checksums, behind 8 to 127 zeros and a one, all inside the tolerance
-- and heard in a state with no bit counted and no half of one remembered: the next `fs20_process` takes
-- over exactly the measurements, and the receiver is in that state again. The sign of the temperature
-- is kept with its whole degrees, so it is lost where these are 0.
pub hear-station :
    (k : ℕ) (zs : List (ℕ × ℕ)) (x y : ℕ) (ps : List (ℕ × ℕ)) (s : Station) (u c1 c2 : ℕ)
    (r : Report)
    → 8 ≤ k
    → k < 128
    → Hears (replicate k false) zs
    → ws300_one x y ≡ true
    → IsStation s
    → IsReport (station_nibbles s u c1 c2)
    → Hears (datagram_bits (station_nibbles s u c1 c2)) ps
    → ws300_process (hear ps (ws300_edge y (ws300_edge x (hear zs (waiting 0 0 r)))))
      ≡ waiting 0 0 (station_report s)
hear-station k zs x y ps s u c1 c2 r ge lt hz one hs report hp =
    hear-report k zs x y ps (station_nibbles s u c1 c2) r ge lt hz one hp report
    ∙ ap (λ (v : Report). waiting 0 0 v) (values_station s u c1 c2 hs)
