-- ===== src/Legacy/Sensor.antt =====
-- What the first controller makes of the bytes of a temperature sensor (firmware/matemat/lm75.c), and
-- when its compressor runs.
use matemat.Base.{
  ℕ, ◌+◌, ◌-◌, ◌*◌, ◌/◌, ◌<◌, ◌≡◌, ◌↔◌, ◌⊎◌, true, false, Option, some, arith, if◌then◌else◌, ltb,
}
use matemat.Base.Int.{ltb_ℤ, pos_part, neg_part}
use matemat.Legacy.{Machine, matemat_process}
use matemat.Legacy.Thermometer.{lm75_gettemp}
use matemat.Legacy.Invariant.{IsMachine}

-- The two bytes of an answering sensor are read as half degrees: twice the high byte as a signed
-- number, and the top bit of the low byte.
lm75_gettemp-halves :
    (high low : ℕ)
    → high < 256
    → low < 256
    → let t = lm75_gettemp (some (high, low)) in
      (pos_part t ≡ (if ltb high 128 then 2 * high + low / 128 else 0))
      × (neg_part t ≡ (if ltb high 128 then 0 else 512 - (2 * high + low / 128)))
unfolding lm75_gettemp
lm75_gettemp-halves high low h l = ground arith

-- A call of `matemat_process` that the timer has asked for, with the set points in place (start
-- above stop): the compressor runs afterwards exactly if it stood and the bottom sensor reads more
-- than the start point, or it ran and the sensor does not read less than the stop point.
matemat_process-cooling_iff :
    (b d : Option (ℕ × ℕ)) (m : Machine)
    → IsMachine m
    → m.kick ≡ true
    → let t = lm75_gettemp b in
      ((matemat_process b d m).0.cooler ≡ true) ↔ (
        ((m.cooler ≡ false) × (ltb_ℤ m.start t ≡ true))
        ⊎ ((m.cooler ≡ true) × (ltb_ℤ t m.stop ≡ false)))
unfolding matemat_process
matemat_process-cooling_iff b d m h k = ground arith
