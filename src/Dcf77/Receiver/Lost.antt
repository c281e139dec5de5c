-- ===== src/Dcf77/Receiver/Lost.antt =====
-- What firmware/dcf77/dcf77.c does after a wrong parity bit.
use matemat.Base.{ℕ, ◌≤◌, ◌≡◌, ◌⊎◌, [], ◌∷◌, arith, if◌then◌else◌, ltb}
use matemat.Dcf77.Receiver.{
  Dcf, sync_lost, aus, pulse, select, shift, long_pulse, short_pulse, log_stamp,
}

-- In a pulse of valid length, a parity bit (second 29, 36 or 59 of the minute, counted from 1) that
-- does not fit the bits before it is logged as the loss of the synchronisation, but the second is 1
-- afterwards, as at the start of a minute.
pulse-parity :
    (divtime : ℕ) (c : Dcf)
    → 11 ≤ divtime
    → divtime ≤ 63
    → (c.sync ≡ 29) ⊎ ((c.sync ≡ 36) ⊎ (c.sync ≡ 59))
    → c.timeparity ≡ (if ltb 40 divtime then 0 else 1)
    → let (c', out) = pulse divtime c in
      (out ≡ (if ltb 40 divtime then sync_lost c.sync else aus 3) ∷ []) × (c'.sync ≡ 1)
unfolding pulse select shift long_pulse short_pulse log_stamp
pulse-parity divtime c low high second parity = ground arith
