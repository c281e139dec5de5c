-- ===== src/Climate/Tests.antt =====
-- The compressor on concrete readings.
use matemat.Base.{
  ℕ, ◌≡◌, refl, true, false, Option, none, some, arith, replicate, ◌==◌, if◌then◌else◌,
}
use matemat.Base.Int.{ℤ, pos}
use matemat.Climate.{
  Temperature, Cooler, cooler_idle, cooler_cooling, temperature_tick, cooler_tick, climate_tick,
  climate_run,
}
use matemat.Climate.Hysteresis.{IsClimate}
use matemat.Climate.DeadTime.{climate_run-dead_time}

-- The bottom sensor reads 20.0 degrees, the other fails.
abbrev warm : ℕ → Option ℤ
warm i = if i == 0 then some (pos 200) else none

abbrev due : Temperature
due = record {
  bottom = pos 0;
  middle = pos 0;
  start = pos 150;
  stop = pos 90;
  updated = false;
  count = 0;
}

abbrev standing : Cooler
standing = record { state = cooler_idle; updated = true; pin = false }

abbrev measured : Temperature
measured = record due { bottom = pos 200; updated = true; count = 200 }

due-IsClimate : IsClimate due standing
due-IsClimate = ground arith

starts : (climate_tick warm due standing).1.state ≡ cooler_cooling
unfolding climate_tick temperature_tick cooler_tick
starts = refl

climate_run-dead_time_example :
    let (t', c') = climate_tick warm due standing in
    ((climate_run (replicate 5 warm) t' c').1.state ≡ c'.state)
    × ((climate_run (replicate 5 warm) t' c').1.pin ≡ c'.pin)
climate_run-dead_time_example =
    climate_run-dead_time warm (replicate 5 warm) due standing due-IsClimate
      (rw starts (ground arith)) (omega arith)
