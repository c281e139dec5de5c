-- ===== src/Climate/DeadTime.antt =====
-- The dead time of the compressor in firmware2/cooler.c: after a switch no temperature is read for
-- three seconds, so the next switch is at least that far off.
use matemat.Base.{ℕ, ◌+◌, ◌≤◌, ◌≡◌, ◌≢◌, refl, ◌∙◌, Option, List, [], ◌∷◌, arith, length}
use matemat.Base.Int.{ℤ}
use matemat.Climate.{Temperature, Cooler, temperature_tick, cooler_tick, climate_tick, climate_run}
use matemat.Climate.Hysteresis.{IsClimate}

-- While the counter runs nothing is read, and the cooler is left alone.
climate_tick-quiet :
    (read : ℕ → Option ℤ) (t : Temperature) (c : Cooler)
    → t.count ≢ 0
    → t.count ≤ 300
    → ((climate_tick read t c).1.state ≡ c.state)
      × ((climate_tick read t c).1.pin ≡ c.pin)
      × ((climate_tick read t c).0.count + 1 ≡ t.count)
unfolding climate_tick temperature_tick cooler_tick
climate_tick-quiet read t c some_count h = ground arith

climate_run-quiet :
    (reads : List (ℕ → Option ℤ)) (t : Temperature) (c : Cooler)
    → length reads ≤ t.count
    → t.count ≤ 300
    → ((climate_run reads t c).1.state ≡ c.state) × ((climate_run reads t c).1.pin ≡ c.pin)
unfolding climate_run
climate_run-quiet [] t c some_count h = (refl, refl)
climate_run-quiet (read ∷ reads) t c some_count h =
    let q = climate_tick-quiet read t c (omega arith) h in
    let ih =
      climate_run-quiet reads (climate_tick read t c).0 (climate_tick read t c).1 (omega arith)
        (omega arith) in
    (ih.0 ∙ q.0, ih.1 ∙ q.1)

climate_tick-switch :
    (read : ℕ → Option ℤ) (t : Temperature) (c : Cooler)
    → IsClimate t c
    → (climate_tick read t c).1.state ≢ c.state
    → (climate_tick read t c).0.count ≡ 300
unfolding climate_tick temperature_tick cooler_tick
climate_tick-switch read t c h change = ground arith

-- After a tick that switched the compressor on or off, it is not switched again in the next 300
-- ticks of 10 ms, whatever the sensors would read.
pub climate_run-dead_time :
    (read : ℕ → Option ℤ) (reads : List (ℕ → Option ℤ)) (t : Temperature) (c : Cooler)
    → IsClimate t c
    → (climate_tick read t c).1.state ≢ c.state
    → length reads ≤ 300
    → let (t', c') = climate_tick read t c in
      ((climate_run reads t' c').1.state ≡ c'.state) × ((climate_run reads t' c').1.pin ≡ c'.pin)
climate_run-dead_time read reads t c h change short =
    let e = climate_tick-switch read t c h change in
    climate_run-quiet reads (climate_tick read t c).0 (climate_tick read t c).1 (omega arith)
      (omega arith)
