-- ===== src/Fs20/Weather/Tests.antt =====
-- A report of the weather station, heard.
use matemat.Base.{
  ℕ, ◌≡◌, refl, arith, Bool, true, false, ◌&&◌, List, [], ◌∷◌, ◌<◌, ltb, if◌then◌else◌, All,
  replicate,
}
use matemat.Base.Int.{pos, negsuc}
use matemat.Fs20.Weather.{
  Report, ws300_one, ws300_zero, ws300_edge, ws300_process, xor_from, sum_from,
}
use matemat.Fs20.Weather.Hearing.{Hears, hear, datagram_bits, waiting}
use matemat.Fs20.Weather.Values.{IsReport}
use matemat.Fs20.Weather.Station.{Station, hear-station}

-- Pulses in the middle of the tolerance.
abbrev halves : List Bool → List (ℕ × ℕ)
halves [] = []
halves (b ∷ bs) = (if b then (50, 130) else (130, 50)) ∷ halves bs

halves-Hears : (bs : List Bool) → Hears bs (halves bs)
unfolding Hears ws300_one ws300_zero
halves-Hears [] = tt
halves-Hears (true ∷ bs) = (refl, halves-Hears bs)
halves-Hears (false ∷ bs) = (refl, halves-Hears bs)

one_heard : ws300_one 50 130 ≡ true
unfolding ws300_one
one_heard = refl

-- -12.5 degrees, 45 percent, 3.0 km/h, 10 on the rain counter, with its checksums.
abbrev sample : Station
sample = record {
  below_zero = true;
  degrees = 12;
  degrees_frac = 5;
  water = false;
  humidity = 45;
  wind_speed = 3;
  wind_speed_frac = 0;
  rain_counter = 10;
}

abbrev sample_report : List ℕ
sample_report = 7 ∷ 9 ∷ 5 ∷ 2 ∷ 1 ∷ 5 ∷ 4 ∷ 0 ∷ 3 ∷ 0 ∷ 0 ∷ 1 ∷ 0 ∷ 0 ∷ 11 ∷ 5 ∷ []

all_nibbles : List ℕ → Bool
all_nibbles [] = true
all_nibbles (n ∷ ns) = ltb n 16 && all_nibbles ns

all_nibbles-All : (ns : List ℕ) → all_nibbles ns ≡ true → All (λ n. n < 16) ns
unfolding all_nibbles
all_nibbles-All [] h = tt
all_nibbles-All (n ∷ ns) h = (ground arith, all_nibbles-All ns (ground arith))

sample_report-IsReport : IsReport sample_report
unfolding IsReport xor_from sum_from
sample_report-IsReport =
    (refl, all_nibbles-All sample_report (unfold all_nibbles in refl), refl, refl, refl)

abbrev nothing : Report
nothing = record {
  temp = pos 0;
  temp_frac = 0;
  rain = false;
  rain_value = 0;
  hygro = 0;
  wind = 0;
  wind_frac = 0;
  last_update = 0;
}

hear-station_example :
    ws300_process (
      hear
        (halves (datagram_bits sample_report))
        (ws300_edge 130 (ws300_edge 50 (hear (halves (replicate 8 false)) (waiting 0 0 nothing)))))
    ≡ waiting 0 0
        (record nothing { temp = negsuc 11; temp_frac = 5; rain_value = 10; hygro = 45; wind = 3 })
hear-station_example =
    hear-station 8 (halves (replicate 8 false)) 50 130 (halves (datagram_bits sample_report)) sample
      0 11 5 nothing (omega arith) (omega arith) (halves-Hears (replicate 8 false)) one_heard
      (record {
        degrees_digits = omega arith;
        humidity_digits = omega arith;
        wind_digits = omega arith;
        rain_digits = omega arith;
      })
      sample_report-IsReport (halves-Hears (datagram_bits sample_report))
