-- ===== src/Climate/Hysteresis.antt =====
-- When firmware2/cooler.c switches the compressor.
use matemat.Base.{ℕ, ◌≤◌, ◌≡◌, ◌↔◌, ◌⊎◌, true, Option, List, [], ◌∷◌, arith}
use matemat.Base.Int.{ℤ, pos}
use matemat.Climate.{
  Temperature, Cooler, cooler_idle, cooler_cooling, temperature_init, temperature_tick, cooler_init,
  cooler_tick, climate_tick, climate_run,
}

-- The set points are those of `temperature_init`, the pin follows the state, and the counter
-- stays below its dead time.
pub record IsClimate (t : Temperature) (c : Cooler) : Type 0 where
  pub start_set : t.start ≡ pos 150
  pub stop_set : t.stop ≡ pos 90
  pub count_capped : t.count ≤ 300
  pub state_known : (c.state ≡ cooler_idle) ⊎ (c.state ≡ cooler_cooling)
  pub pin_cooling : (c.pin ≡ true) ↔ (c.state ≡ cooler_cooling)

pub climate_tick-IsClimate :
    (read : ℕ → Option ℤ) (t : Temperature) (c : Cooler)
    → IsClimate t c
    → IsClimate (climate_tick read t c).0 (climate_tick read t c).1
unfolding climate_tick temperature_tick cooler_tick
climate_tick-IsClimate read t c h = ground arith

-- The start of the program, whatever the globals held.
pub init-IsClimate : (t : Temperature) → IsClimate (temperature_init t) cooler_init
unfolding temperature_init cooler_init
init-IsClimate t = ground arith

pub climate_run-IsClimate :
    (reads : List (ℕ → Option ℤ)) (t : Temperature) (c : Cooler)
    → IsClimate t c
    → IsClimate (climate_run reads t c).0 (climate_run reads t c).1
unfolding climate_run
climate_run-IsClimate [] t c h = h
climate_run-IsClimate (read ∷ reads) t c h =
    climate_run-IsClimate reads (climate_tick read t c).0 (climate_tick read t c).1
      (climate_tick-IsClimate read t c h)

-- From the start of the program on, with any readings, the pin of the compressor is on exactly in
-- the cooling state, and the set points are never changed.
climate_run-pin :
    (reads : List (ℕ → Option ℤ)) (t : Temperature)
    → let (t', c') = climate_run reads (temperature_init t) cooler_init in
      ((c'.pin ≡ true) ↔ (c'.state ≡ cooler_cooling)) × (t'.start ≡ pos 150) × (t'.stop ≡ pos 90)
climate_run-pin reads t =
    let h = climate_run-IsClimate reads (temperature_init t) cooler_init (init-IsClimate t) in
    (h.pin_cooling, h.start_set, h.stop_set)
