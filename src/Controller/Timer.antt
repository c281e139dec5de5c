-- ===== src/Controller/Timer.antt =====
-- The time base of firmware2/matemat.c.
use matemat.Base.{
  ℕ, zero, suc, ◌+◌, ◌-◌, ◌%◌, ◌≤◌, ◌<◌, ◌≡◌, if◌then◌else◌, ◌∙◌, ◌==◌, ◌||◌, arith, leb,
}
use matemat.Controller.{Timebase, timebase_reset, timer_divide}

pub timer_run : ℕ → Timebase → Timebase
timer_run zero b = b
timer_run (suc n) b = timer_run n (timer_divide b)

-- The dividers run from their start values down to 1.
pub record IsTimebase (b : Timebase) : Type 0 where
  pub timebase_byte : b.timebase < 256
  pub count1s_low : 0 < b.count1s
  pub count1s_high : b.count1s ≤ 1000
  pub count10ms_low : 0 < b.count10ms
  pub count10ms_high : b.count10ms ≤ 10

pub timer_divide-IsTimebase : (b : Timebase) → IsTimebase b → IsTimebase (timer_divide b)
unfolding timer_divide
timer_divide-IsTimebase b h = ground arith

timer_divide_10ms :
    (b : Timebase)
    → 0 < b.count10ms
    → b.count10ms ≤ 10
    → ((timer_divide b).count10ms ≡ (if b.count10ms == 1 then 10 else b.count10ms - 1))
      × ((timer_divide b).timebase10ms ≡ (b.timebase10ms || b.count10ms == 1))
unfolding timer_divide
timer_divide_10ms b p q = ground arith

timer_divide_1s :
    (b : Timebase)
    → 0 < b.count1s
    → b.count1s ≤ 1000
    → ((timer_divide b).count1s ≡ (if b.count1s == 1 then 1000 else b.count1s - 1))
      × ((timer_divide b).timebase1s ≡ (b.timebase1s || b.count1s == 1))
unfolding timer_divide
timer_divide_1s b p q = ground arith

timer_divide_byte : (b : Timebase) → (timer_divide b).timebase ≡ (b.timebase + 1) % 256
unfolding timer_divide
timer_divide_byte b = ground arith

timer_run_10ms :
    (n : ℕ) (b : Timebase)
    → 0 < b.count10ms
    → b.count10ms ≤ 10
    → ((timer_run n b).timebase10ms ≡ (b.timebase10ms || leb b.count10ms n))
      × ((timer_run n b).count10ms ≡ 10 - (10 - b.count10ms + n) % 10)
unfolding timer_run
timer_run_10ms zero b p q = (ground arith, ground arith)
timer_run_10ms (suc n) b p q =
    let (c, f) = timer_divide_10ms b p q in
    let ih = timer_run_10ms n (timer_divide b) (ground arith) (ground arith) in
    (ground arith, ground arith)

timer_run_1s :
    (n : ℕ) (b : Timebase)
    → 0 < b.count1s
    → b.count1s ≤ 1000
    → ((timer_run n b).timebase1s ≡ (b.timebase1s || leb b.count1s n))
      × ((timer_run n b).count1s ≡ 1000 - (1000 - b.count1s + n) % 1000)
unfolding timer_run
timer_run_1s zero b p q = (ground arith, ground arith)
timer_run_1s (suc n) b p q =
    let (c, f) = timer_divide_1s b p q in
    let ih = timer_run_1s n (timer_divide b) (ground arith) (ground arith) in
    (ground arith, ground arith)

timer_run_byte :
    (n : ℕ) (b : Timebase) → b.timebase < 256 → (timer_run n b).timebase ≡ (b.timebase + n) % 256
unfolding timer_run
timer_run_byte zero b h = omega arith
timer_run_byte (suc n) b h =
    let e = timer_divide_byte b in timer_run_byte n (timer_divide b) (omega arith) ∙ omega arith

-- After n interrupts from reset with no pass of the main loop between them, the 10 ms flag is set
-- exactly if n is at least 10 and the 1 s flag if n is at least 1000, `timebase` is n modulo 256,
-- and the dividers stand at the rest of n by their periods, so that the flags are raised every
-- 10 and every 1000 interrupts.
timer_run-flags :
    (n : ℕ)
    → let b = timer_run n timebase_reset in
      (b.timebase ≡ n % 256)
      × (b.timebase1s ≡ leb 1000 n)
      × (b.timebase10ms ≡ leb 10 n)
      × (b.count1s ≡ 1000 - n % 1000)
      × (b.count10ms ≡ 10 - n % 10)
timer_run-flags n =
    let (f10, c10) = timer_run_10ms n timebase_reset (omega arith) (omega arith) in
    let (f1, c1) = timer_run_1s n timebase_reset (omega arith) (omega arith) in
    (timer_run_byte n timebase_reset (omega arith) ∙ omega arith, f1, f10, omega arith, omega arith)
