-- ===== src/Legacy/Invariant.antt =====
-- What holds of the first controller (firmware/matemat/matemat.c) between any two calls.
use matemat.Base.{
  ℕ, zero, suc, ◌+◌, ◌≤◌, ◌≡◌, ◌⊎◌, ◌↔◌, ◌∙◌, refl, Bool, true, false, Option, List, [], ◌∷◌, ◌++◌,
  arith, length, set, length-set,
}
use matemat.Legacy.{
  Machine, Output, mode_idle, mode_cooling, timer_overflow, usart_rx, matemat_process, blank, pace,
  count_grant, sample1, sample3, release,
}

pub length-blank : (k i : ℕ) (msg : List ℕ) → length (blank k i msg) ≡ length msg
unfolding blank
length-blank zero i msg = refl
length-blank (suc k) i msg = length-blank k (i + 1) (set msg i b' ') ∙ length-set msg i b' '

pub record IsMachine (m : Machine) : Type 0 where
  pub pl_known : (m.pl ≡ b'-') ⊎ ((m.pl ≡ b'1') ⊎ (m.pl ≡ b'3'))
  pub count1_capped : m.count1 ≤ 71
  pub count3_capped : m.count3 ≤ 71
  pub count1_waiting : m.pl ≡ b'-' → m.count1 ≤ 70
  pub count3_waiting : m.pl ≡ b'-' → m.count3 ≤ 70
  pub grant_capped : m.grant ≤ 2000
  pub overflows_capped : m.overflows ≤ 3588
  pub msg_size : length m.msg ≡ 30
  pub msgp_capped : m.msgp ≤ 19
  pub mode_known : (m.mode ≡ mode_idle) ⊎ (m.mode ≡ mode_cooling)
  pub cooler_mode : (m.cooler ≡ true) ↔ (m.mode ≡ mode_cooling)

pace-IsMachine : (m : Machine) → IsMachine m → IsMachine (pace m)
unfolding pace
pace-IsMachine m h = ground arith

count_grant-IsMachine : (m : Machine) → IsMachine m → IsMachine (count_grant m)
unfolding count_grant
count_grant-IsMachine m h = ground arith

sample1-IsMachine : (high : Bool) (m : Machine) → IsMachine m → IsMachine (sample1 high m).0
unfolding sample1
sample1-IsMachine true m h = ground arith
sample1-IsMachine false m h = ground arith

sample3-IsMachine : (high : Bool) (m : Machine) → IsMachine m → IsMachine (sample3 high m).0
unfolding sample3
sample3-IsMachine true m h = ground arith
sample3-IsMachine false m h = ground arith

release-IsMachine : (m : Machine) → IsMachine m → IsMachine (release m).0
unfolding release
release-IsMachine m h = ground arith

pub timer_overflow-IsMachine :
    (a b : Bool) (m : Machine) → IsMachine m → IsMachine (timer_overflow a b m).0
unfolding timer_overflow
timer_overflow-IsMachine a b m h =
    let ready = count_grant-IsMachine (pace m) (pace-IsMachine m h) in
    let one = sample1-IsMachine a (count_grant (pace m)) ready in
    let three = sample3-IsMachine b (sample1 a (count_grant (pace m))).0 one in
    release-IsMachine (sample3 b (sample1 a (count_grant (pace m))).0).0 three

pub usart_rx-IsMachine :
    (error : Bool) (c : ℕ) (m : Machine) → IsMachine m → IsMachine (usart_rx error c m).0
unfolding usart_rx
usart_rx-IsMachine error c m h =
    ground (arith, length-set m.msg 20 0, length-set m.msg m.msgp c, length-blank 20 0 m.msg)

pub matemat_process-IsMachine :
    (b d : Option (ℕ × ℕ)) (m : Machine) → IsMachine m → IsMachine (matemat_process b d m).0
unfolding matemat_process
matemat_process-IsMachine b d m h = ground arith

-- A timer interrupt, a serial interrupt, or a call of `matemat_process`.
pub data Event : Type 0 where
  overflow : Bool → Bool → Event
  serial : Bool → ℕ → Event
  process : Option (ℕ × ℕ) → Option (ℕ × ℕ) → Event

pub step : Event → Machine → Machine × List Output
step (overflow a b) m = timer_overflow a b m
step (serial error c) m = usart_rx error c m
step (process b d) m = matemat_process b d m

pub run : List Event → Machine → Machine × List Output
run [] m = (m, [])
run (e ∷ es) m = let (m', out) = step e m in let (m'', rest) = run es m' in (m'', out ++ rest)

-- Any sequence of interrupts and calls, with any received characters, line levels and sensor
-- bytes, keeps a well-formed machine well formed: the request is '-', '1' or '3', no counter leaves its
-- range, the message array keeps its 30 bytes and the write position stays below 20, and the
-- compressor's pin is on exactly in the cooling mode.
pub run-IsMachine : (es : List Event) (m : Machine) → IsMachine m → IsMachine (run es m).0
unfolding run step
run-IsMachine [] m h = h
run-IsMachine (overflow a b ∷ es) m h =
    run-IsMachine es (timer_overflow a b m).0 (timer_overflow-IsMachine a b m h)
run-IsMachine (serial error c ∷ es) m h =
    run-IsMachine es (usart_rx error c m).0 (usart_rx-IsMachine error c m h)
run-IsMachine (process b d ∷ es) m h =
    run-IsMachine es (matemat_process b d m).0 (matemat_process-IsMachine b d m h)
