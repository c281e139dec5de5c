-- ===== src/Climate.antt =====
-- firmware2/temperature.c and firmware2/cooler.c: the temperature readings and the compressor.
-- The sensors' library (`DS18X20_read_decicelsius`, `DS18X20_start_meas`) is a parameter: each tick
-- is given what a reading of each sensor returns, `none` for any status but DS18X20_OK.
-- The sensor search of `temperature_init` only logs, and is not modelled.
pub mod Hysteresis
pub mod DeadTime
mod Tests
use matemat.Base.{
  ℕ, ◌+◌, Bool, true, false, ◌&&◌, ◌==◌, if◌then◌else◌, u16, ltb, Option, none, some, List, [], ◌∷◌,
}
use matemat.Base.Int.{ℤ, pos, ltb_ℤ}

abbrev pub temp_bottom : ℕ
temp_bottom = 0

abbrev pub temp_middle : ℕ
temp_middle = 1

abbrev pub temp_start : ℕ
temp_start = 2

-- `struct temperaturedata` with the array's four elements by name, and the file's `count`.
pub record Temperature : Type 0 where
  pub bottom : ℤ
  pub middle : ℤ
  pub start : ℤ
  pub stop : ℤ
  pub updated : Bool
  pub count : ℕ

-- `temp[index]`.
unfoldable pub temp_at : ℕ → Temperature → ℤ
temp_at index t =
    if index == temp_bottom
    then t.bottom
    else if index == temp_middle
    then t.middle
    else if index == temp_start
    then t.start
    else t.stop

-- `temperature.temp[index] = v` for the indices that stand in the sensor table.
store_temp : ℕ → ℤ → Temperature → Temperature
store_temp index v t =
    if index == temp_bottom then record t { bottom = v } else record t { middle = v }

-- The `index` column of the table `sensors`.
abbrev pub sensors : List ℕ
sensors = temp_bottom ∷ temp_middle ∷ []

-- TEMP_START_VAL and TEMP_STOP_VAL, in tenths of a degree.
unfoldable pub temperature_init : Temperature → Temperature
temperature_init t = record t { start = pos 150; stop = pos 90; count = 200 }

read_sensors : List ℕ → (ℕ → Option ℤ) → Temperature → Temperature
read_sensors [] read t = t
read_sensors (i ∷ is) read t =
    read_sensors is read
      (elim (read i) [ none ↦ t | some v ↦ record (store_temp i v t) { updated = true } ])

unfoldable pub temperature_tick : (ℕ → Option ℤ) → Temperature → Temperature
unfolding read_sensors store_temp
temperature_tick read t =
    if t.count == 0
    then read_sensors sensors read (record t { updated = false; count = 200 })
    else record t { updated = false; count = u16 (t.count + 65535) }

unfoldable pub dead_time : ℕ → Temperature → Temperature
dead_time d t = if ltb t.count d then record t { count = d } else t

abbrev pub cooler_cooling : ℕ
cooler_cooling = 0

abbrev pub cooler_idle : ℕ
cooler_idle = 1

-- `struct coolerdata`, and the latch of the compressor's pin.
pub record Cooler : Type 0 where
  pub state : ℕ
  pub updated : Bool
  pub pin : Bool

unfoldable pub cooler_init : Cooler
cooler_init = record { state = cooler_idle; updated = true; pin = false }

unfoldable pub cooler_tick : Temperature → Cooler → Temperature × Cooler
unfolding dead_time
cooler_tick t c =
    if t.updated && ltb_ℤ t.bottom (pos 1000)
    then if c.state == cooler_idle
      then if ltb_ℤ t.start t.bottom
        then (dead_time 300 t, record { state = cooler_cooling; updated = true; pin = true })
        else (t, record c { updated = true })
      else if c.state == cooler_cooling
      then if ltb_ℤ t.bottom t.stop
        then (dead_time 300 t, record { state = cooler_idle; updated = true; pin = false })
        else (t, record c { updated = true })
      else (t, record c { updated = true })
    else (t, record c { updated = false })

-- What one pass of the main loop does to the two.
unfoldable pub climate_tick : (ℕ → Option ℤ) → Temperature → Cooler → Temperature × Cooler
climate_tick read t c = cooler_tick (temperature_tick read t) c

-- Passes with the given readings.
unfoldable pub climate_run : List (ℕ → Option ℤ) → Temperature → Cooler → Temperature × Cooler
climate_run [] t c = (t, c)
climate_run (read ∷ reads) t c = let (t', c') = climate_tick read t c in climate_run reads t' c'
