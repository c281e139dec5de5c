-- ===== src/Legacy.antt =====
-- firmware/matemat/matemat.c and lm75.c: the first generation of the controller, in which the timer
-- interrupt debounces the price lines, the serial interrupt obeys the host, and
-- `matemat_process` switches the compressor.
-- Calls of the LCD library and writes of the serial data register are a list of outputs. What the
-- I2C bus delivers is a parameter. Register setup is not modelled.
pub mod Thermometer
pub mod Invariant
pub mod Message
pub mod StaleOrder
pub mod Sensor
mod Tests
use matemat.Base.{
  ℕ, zero, suc, ◌+◌, ◌-◌, ◌*◌, ◌/◌, ◌%◌, Bool, true, false, not, ◌&&◌, ◌||◌, Option, none, some,
  List, [], ◌∷◌, ◌++◌, ltb, leb, ◌==◌, if◌then◌else◌, u8, u16, set, test_bit,
}
use Thermometer.{sprintf_temp, lm75_gettemp, signed_text, as_int16}
use matemat.Base.Int.{ℤ, pos, negsuc, ltb_ℤ}
use matemat.Base.Text.{codes, cstr, decimal}

pub data Output : Type 0 where
  goto : ℕ → ℕ → Output
  put : ℕ → Output
  print_text : List ℕ → Output
  print_format : List ℕ → Output
  udr : ℕ → Output

abbrev pub mode_cooling : ℕ
mode_cooling = 0

abbrev pub mode_idle : ℕ
mode_idle = 1

-- The file's globals, the statics of its functions, and the output latches of PC5, PC6 and the
-- compressor's pin. `pl` and `reported` are characters.
pub record Machine : Type 0 where
  pub kick : Bool
  pub grant : ℕ
  pub msg : List ℕ
  pub msgp : ℕ
  pub pl : ℕ
  pub overflows : ℕ
  pub count1 : ℕ
  pub count3 : ℕ
  pub reported : ℕ
  pub print : ℕ
  pub serve1 : Bool
  pub serve3 : Bool
  pub cooler : Bool
  pub mode : ℕ
  pub bottom : ℤ
  pub middle : ℤ
  pub start : ℤ
  pub stop : ℤ
  pub packetcount : ℕ
  pub push : ℕ
  pub state : Bool
  pub timer : ℕ

abbrev printtemp : ℤ → ℕ → ℕ → List Output
printtemp t x y = goto x y ∷ print_format (sprintf_temp t true) ∷ []

unfoldable pub matemat_putmsg : Machine → List Output
matemat_putmsg m = goto 0 0 ∷ print_format (cstr m.msg) ∷ []

unfoldable pub matemat_putmode : Machine → List Output
matemat_putmode m =
    goto 1 10
    ∷ (if m.mode == mode_idle
        then print_text (codes "idle   ") ∷ []
        else if m.mode == mode_cooling
        then print_text (codes "cooling") ∷ []
        else print_text (codes "?mode? ") ∷ [])

-- The switch of the compressor in `matemat_process`.
control : Machine → Machine × List Output
control m =
    let on = record m { mode = mode_cooling; cooler = true } in
    let off = record m { mode = mode_idle; cooler = false } in
    if m.mode == mode_idle
    then if ltb_ℤ m.start m.bottom then (on, matemat_putmode on) else (m, [])
    else if m.mode == mode_cooling
    then if ltb_ℤ m.bottom m.stop then (off, matemat_putmode off) else (m, [])
    else (m, [])

-- `timer++ == 10` compares before the addition.
finish : Machine → Machine
finish m =
    if m.timer == 10
    then record m { kick = false; push = 1; timer = 0 }
    else record m { kick = false; timer = u8 (m.timer + 1) }

-- One call, with what the two sensors would send.
unfoldable pub matemat_process : Option (ℕ × ℕ) → Option (ℕ × ℕ) → Machine → Machine × List Output
unfolding control finish
matemat_process bottom middle m =
    let m1 = record m { bottom = lm75_gettemp bottom; middle = lm75_gettemp middle } in
    let shown =
      printtemp m1.bottom 3 8
      ++ printtemp m1.middle 2 8
      ++ (goto 1 0
          ∷ print_text (signed_text (as_int16 m.packetcount))
          ∷ goto 3 19
          ∷ put (if m.state then b'.' else b' ')
          ∷ []) in
    let (m2, switched) = control (record m1 { state = not m.state }) in
    if m.kick then (finish m2, shown ++ switched) else (m, [])

-- `setPL`, with its result.
unfoldable pub set_pl : ℕ → Machine → Machine × Bool
set_pl p m =
    if p == b'1'
    then (record m { serve1 = true; grant = 2000 }, true)
    else if p == b'3'
    then (record m { serve3 = true; grant = 2000 }, true)
    else (m, false)

-- `i-- == 0` compares before the subtraction, which wraps at 0 and is then overwritten.
pub pace : Machine → Machine
pace m =
    if m.overflows == 0
    then record m { overflows = 3588; kick = true }
    else record m { overflows = u16 (m.overflows + 65535) }

pub count_grant : Machine → Machine
count_grant m = if m.grant == 0 then m else record m { grant = u16 (m.grant + 65535) }

abbrev show_pl : Machine → List Output
show_pl m = goto 1 19 ∷ put m.pl ∷ []

pub sample1 : Bool → Machine → Machine × List Output
sample1 true m =
    let counted = record m { count1 = u8 (m.count1 + 1) } in
    let requested = record counted { pl = b'1' } in
    if m.pl == b'-'
    then if m.count1 == 70 then (requested, show_pl requested) else (counted, [])
    else (m, [])
sample1 false m = (record m { count1 = 0 }, [])

pub sample3 : Bool → Machine → Machine × List Output
sample3 true m =
    let counted = record m { count3 = u8 (m.count3 + 1) } in
    let requested = record counted { pl = b'3' } in
    if m.pl == b'-'
    then if m.count3 == 70 then (requested, show_pl requested) else (counted, [])
    else (m, [])
sample3 false m = (record m { count3 = 0 }, [])

pub release : Machine → Machine × List Output
release m =
    let free = record m { serve1 = false; serve3 = false; pl = b'-' } in
    if m.grant == 0 && (m.count3 == 0 && (m.count1 == 0 && not (m.pl == b'-')))
    then (free, show_pl free)
    else (m, [])

-- ISR(TIMER0_OVF_vect), with the levels of the price lines on PC4 and PC3.
unfoldable pub timer_overflow : Bool → Bool → Machine → Machine × List Output
unfolding pace count_grant sample1 sample3 release
timer_overflow high1 high3 m =
    let (m1, out1) = sample1 high1 (count_grant (pace m)) in
    let (m2, out2) = sample3 high3 m1 in let (m3, out3) = release m2 in (m3, out1 ++ (out2 ++ out3))

-- `for(print=0;print<20;print++) msg[print] = ' '`, by the rounds left.
unfoldable pub blank : ℕ → ℕ → List ℕ → List ℕ
blank zero i msg = msg
blank (suc k) i msg = blank k (i + 1) (set msg i b' ')

-- A character of a message; the position stays at 19 once it is there.
receive_text : ℕ → Machine → Machine × List Output
receive_text c m =
    let done = record m { print = 0; msg = set m.msg 20 0 } in
    let p = u8 (m.msgp + 1) in
    if c == 13 || (c == 10 || c == 0)
    then (done, matemat_putmsg done ++ (udr b'D' ∷ []))
    else (record m { msg = set m.msg m.msgp c; msgp = if p == 20 then u8 (p + 255) else p }, [])

receive_command : ℕ → Machine → Machine × List Output
receive_command c m =
    let (m', accepted) = set_pl m.reported m in
    if c == b'V'
    then (record m { reported = m.pl }, udr m.pl ∷ [])
    else if c == b'O'
    then (m', udr (if accepted then b'D' else b'N') ∷ [])
    else if c == b'D'
    then (record m { msg = blank 20 0 m.msg; print = 1; msgp = 0 }, [])
    else (m, [])

-- The receive interrupt, with the error bits of the status register and the data register.
unfoldable pub usart_rx : Bool → ℕ → Machine → Machine × List Output
unfolding receive_text receive_command set_pl
usart_rx error c m =
    if error then (m, []) else if m.print == 0 then receive_command c m else receive_text c m
