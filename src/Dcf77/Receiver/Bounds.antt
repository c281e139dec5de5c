-- ===== src/Dcf77/Receiver/Bounds.antt =====
-- That the receiver of firmware/dcf77/dcf77.c stays inside its array, whatever pulses arrive.
use matemat.Base.{
  ℕ, ◌+◌, ◌/◌, ◌≤◌, ◌≡◌, Bool, arith, length, length-set, get_or, u16, u32, ◌-◌, ◌*◌,
}
use matemat.Dcf77.Receiver.{Dcf, comparator, pulse, gap, select, shift, long_pulse, short_pulse}

pub record IsDcf (c : Dcf) : Type 0 where
  pub size : length c.time ≡ 8
  pub index : c.timebyte ≤ 7
  pub parity : c.timeparity ≤ 1
  pub second : c.sync ≤ 60

select-IsDcf : (c : Dcf) → IsDcf c → IsDcf (select c)
unfolding select shift
select-IsDcf c h = ground (
  arith,
  length-set c.time c.timebyte (get_or c.time c.timebyte 0 / 2),
  length-set c.time c.timebyte (get_or c.time c.timebyte 0 / 4),
  length-set c.time c.timebyte (get_or c.time c.timebyte 0 / 8),
  length-set c.time c.timebyte (get_or c.time c.timebyte 0 / 32),
)

select-sync : (c : Dcf) → (select c).sync ≡ c.sync
unfolding select shift
select-sync c = ground arith

long_pulse-IsDcf : (c : Dcf) → IsDcf c → IsDcf (long_pulse c).0
unfolding long_pulse
long_pulse-IsDcf c h =
    ground (arith, length-set c.time c.timebyte (get_or c.time c.timebyte 0 / 2 + 128))

short_pulse-IsDcf : (c : Dcf) → IsDcf c → IsDcf (short_pulse c).0
unfolding short_pulse shift
short_pulse-IsDcf c h =
    ground (arith, length-set c.time c.timebyte (get_or c.time c.timebyte 0 / 2))

long_pulse-sync : (c : Dcf) → (long_pulse c).0.sync ≤ c.sync
unfolding long_pulse
long_pulse-sync c = ground arith

short_pulse-sync : (c : Dcf) → (short_pulse c).0.sync ≤ c.sync
unfolding short_pulse shift
short_pulse-sync c = ground arith

pulse-IsDcf : (divtime : ℕ) (c : Dcf) → IsDcf c → IsDcf (pulse divtime c).0
unfolding pulse
pulse-IsDcf divtime c h = ground (
  arith,
  select-IsDcf c h,
  select-sync c,
  long_pulse-IsDcf (select c) (select-IsDcf c h),
  short_pulse-IsDcf (select c) (select-IsDcf c h),
  long_pulse-sync (select c),
  short_pulse-sync (select c),
)

gap-IsDcf : (divtime : ℕ) (c : Dcf) → IsDcf c → IsDcf (gap divtime c).0
unfolding gap
gap-IsDcf divtime c h = ground arith

-- Any interrupt, at any time and with any output of the comparator, keeps the eight bytes of the
-- array of the time, its index inside it, the parity a bit, and the second at most 60.
comparator-IsDcf :
    (output : Bool) (tcnt2 now later : ℕ) (c : Dcf)
    → IsDcf c
    → IsDcf (comparator output tcnt2 now later c).0
unfolding comparator
comparator-IsDcf output tcnt2 now later c h =
    let divtime = u16 (tcnt2 + u32 (now + 4294967296 - c.timerover) * 255 + 65536 - c.tcnt2last) in
    ground (arith, pulse-IsDcf divtime c h, gap-IsDcf divtime c h)
