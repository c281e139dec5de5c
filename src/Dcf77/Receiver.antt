-- ===== src/Dcf77/Receiver.antt =====
-- firmware/dcf77/dcf77.c: the interrupt of the comparator, which decodes the pulses of a minute.
-- The counter's value, the two readings of the clock and the comparator's output are arguments; the
-- calls of the log are outputs, without their formatting.
pub mod Bounds
pub mod Lost
use matemat.Base.{
  ℕ, ◌+◌, ◌-◌, ◌*◌, ◌/◌, Bool, true, false, not, ◌&&◌, ◌||◌, List, [], ◌∷◌, ◌++◌, ltb, ◌==◌,
  if◌then◌else◌, u8, u16, u32, set, get_or,
}
use matemat.Dcf77.{bcd2bin, utc_to_unix_time}

-- `struct dcf77_ctx`.
pub record Dcf : Type 0 where
  pub time : List ℕ
  pub timerover : ℕ
  pub tcnt2last : ℕ
  pub timebyte : ℕ
  pub timeparity : ℕ
  pub sync : ℕ
  pub valid : ℕ

-- The lines of the log.
pub data Line : Type 0 where
  aus : ℕ → Line
  sync_lost : ℕ → Line
  start_sync : Line
  stamp : ℕ → ℕ → Line

-- `dcf.time[dcf.timebyte] >>= k`, with `2 ^ k`.
pub shift : ℕ → Dcf → Dcf
shift power c = record c { time = set c.time c.timebyte (get_or c.time c.timebyte 0 / power) }

-- The switch over `dcf.sync`.
pub select : Dcf → Dcf
unfolding shift
select c =
    if c.sync == 1
    then record c { timebyte = 1 }
    else if c.sync == 22
    then record c { timebyte = 2; timeparity = 0 }
    else if c.sync == 29
    then record (shift 2 c) { timebyte = 0 }
    else if c.sync == 30
    then record c { timebyte = 3; timeparity = 0 }
    else if c.sync == 36
    then record (shift 4 c) { timebyte = 0 }
    else if c.sync == 37
    then record c { timebyte = 4; timeparity = 0 }
    else if c.sync == 43
    then record (shift 4 c) { timebyte = 5 }
    else if c.sync == 46
    then record (shift 32 c) { timebyte = 6 }
    else if c.sync == 51
    then record (shift 8 c) { timebyte = 7 }
    else if c.sync == 59
    then record c { timebyte = 0 }
    else c

-- A long pulse. `>> 1` leaves bit 7 clear, so that `| 0x80` adds; the parity is a bit.
pub long_pulse : Dcf → Dcf × List Line
long_pulse c =
    let p = record c { timeparity = 1 - c.timeparity } in
    if not (c.timebyte == 0)
    then (record p { time = set c.time c.timebyte (get_or c.time c.timebyte 0 / 2 + 128) }, [])
    else if not (p.timeparity == 0)
    then (record p { sync = 0 }, sync_lost c.sync ∷ [])
    else (p, [])

pub short_pulse : Dcf → Dcf × List Line
unfolding shift
short_pulse c =
    let s = if c.sync == 21 then record c { sync = 0 } else c in
    let out = if c.sync == 21 then aus 2 ∷ [] else [] in
    if not (c.timebyte == 0)
    then (shift 2 s, out)
    else if not (c.timeparity == 0)
    then (record s { sync = 0 }, out ++ (aus 3 ∷ []))
    else (s, out)

-- The stamp that is logged at the end of a minute.
pub log_stamp : Dcf → List Line
log_stamp c =
    if c.sync == 59
    then stamp
        (utc_to_unix_time (bcd2bin (get_or c.time 7 0) + 2007) (bcd2bin (get_or c.time 6 0))
          (bcd2bin (get_or c.time 4 0)) (bcd2bin (get_or c.time 3 0)) (bcd2bin (get_or c.time 2 0))
          0)
        (get_or c.time 1 0)
      ∷ []
    else []

-- The branch of a cleared comparator output.
pub pulse : ℕ → Dcf → Dcf × List Line
pulse divtime c =
    let bad = ltb 63 divtime || ltb divtime 11 in
    let c1 = if bad then record c { sync = 0 } else c in
    let out = if bad then aus 1 ∷ [] else [] in
    let c2 = select c1 in
    let (c3, more) = if ltb 40 divtime then long_pulse c2 else short_pulse c2 in
    if ltb 0 c1.sync && ltb c1.sync 60
    then (record c3 { sync = u8 (c3.sync + 1) }, out ++ (more ++ log_stamp c3))
    else (c1, out)

-- The branch of a set one, with whether `TCNT2temp` is set to 0.
pub gap : ℕ → Dcf → Dcf × List Line × Bool
gap divtime c =
    let bad = ltb 248 divtime || ltb divtime 184 in
    let c1 = if bad then record c { sync = 0 } else c in
    let out = if bad then aus 4 ∷ [] else [] in
    if ltb 448 divtime && (ltb divtime 496 && c1.sync == 0)
    then (record c1 { sync = 1 }, out ++ (start_sync ∷ []), true)
    else (c1, out, false)

unfoldable pub comparator : Bool → ℕ → ℕ → ℕ → Dcf → Dcf × List Line
unfolding pulse gap select long_pulse short_pulse log_stamp
comparator output tcnt2 now later c =
    let divtime = u16 (tcnt2 + u32 (now + 4294967296 - c.timerover) * 255 + 65536 - c.tcnt2last) in
    let (c1, out1) = pulse divtime c in
    let (c2, out2, zeroed) = gap divtime c in
    if ltb 5 divtime
    then if output
      then (record c2 { tcnt2last = if zeroed then 0 else tcnt2; timerover = later }, out2)
      else (record c1 { tcnt2last = tcnt2; timerover = later }, out1)
    else (c, [])
