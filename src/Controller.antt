-- ===== src/Controller.antt =====
-- firmware2/matemat.c: the timer interrupt, the host's commands and the main loop.
-- The sensors and the number formatter of the sensor library are parameters, as in `Climate` and
-- `Display`. The setup of the hardware in `main` and the watchdog are not modelled.
-- `sprintf` into local buffers is the text that it writes.
pub mod Timer
pub mod Commands
pub mod Preserve
pub mod System
mod Tests
use matemat.Base.{
  ℕ, zero, suc, ◌+◌, ◌-◌, ◌%◌, Bool, true, false, List, [], ◌∷◌, ◌++◌, ◌==◌, if◌then◌else◌, u8, u16,
  set, get_or, Option, drop, ltb, replicate,
}
use matemat.Base.Int.{ℤ, pos}
use matemat.Base.Text.{codes, decimal}
use matemat.Serial.{
  Reader, serial_readline, send_frames, put_start, put_c_enc, put_s_enc, put_stop, start_control,
  start_debug, bufferlen,
}
use matemat.Priceline
use matemat.Priceline.{Priceline}
use matemat.Climate.{
  Temperature, Cooler, temperature_tick, cooler_tick, temperature_init, cooler_init,
}
use matemat.Uptime.{Uptime, uptime_tick, uptime_init}
use matemat.Display.{display_init, Display, Output, uart, display_msg, display_tick, clrscr, puts}

-- The flags set by the timer interrupt, and its statics.
pub record Timebase : Type 0 where
  pub timebase : ℕ
  pub timebase1s : Bool
  pub timebase10ms : Bool
  pub count1s : ℕ
  pub count10ms : ℕ

-- PRE_1S and PRE_10MS.
abbrev pub pre_1s : ℕ
pre_1s = 1000

abbrev pub pre_10ms : ℕ
pre_10ms = 10

abbrev pub timebase_reset : Timebase
timebase_reset = record {
  timebase = 0;
  timebase1s = false;
  timebase10ms = false;
  count1s = pre_1s;
  count10ms = pre_10ms;
}

divide_1s : Timebase → Timebase
divide_1s b =
    let c = u16 (b.count1s + 65535) in
    if c == 0 then record b { timebase1s = true; count1s = pre_1s } else record b { count1s = c }

divide_10ms : Timebase → Timebase
divide_10ms b =
    let c = u16 (b.count10ms + 65535) in
    if c == 0
    then record b { timebase10ms = true; count10ms = pre_10ms }
    else record b { count10ms = c }

-- The interrupt's own part; the other is `Priceline.interrupt`.
unfoldable pub timer_divide : Timebase → Timebase
unfolding divide_1s divide_10ms
timer_divide b = divide_10ms (divide_1s (record b { timebase = u8 (b.timebase + 1) }))

-- The globals of the program.
pub record Controller : Type 0 where
  pub reader : Reader
  pub timer : Timebase
  pub price : Priceline
  pub temperature : Temperature
  pub cooler : Cooler
  pub uptime : Uptime
  pub display : Display

-- ISR(TIMER1_COMPA_vect), with the levels of the two price lines.
unfoldable pub timer_interrupt : Bool → Bool → Controller → Controller
timer_interrupt high1 high3 c = record c {
  timer = timer_divide c.timer;
  price = Priceline.interrupt high1 high3 c.price;
}

-- `debug` of firmware2/debug.c, with the text that `vsprintf` makes.
unfoldable pub debug : ℕ → List ℕ → List Output
debug level text =
    uart (put_start start_debug)
    ∷ uart (put_c_enc level)
    ∷ uart (put_s_enc text)
    ∷ uart put_stop
    ∷ []

unfoldable pub matemat_served : List Output
matemat_served = uart (send_frames start_control (codes "sD")) ∷ []

abbrev pub reply : List ℕ → List Output
reply text = uart (send_frames start_control text) ∷ []

-- `halted` is `while(1);`, in which the watchdog resets the chip into its bootloader.
pub data Outcome : Type 0 where
  running : Controller → Outcome
  halted : Outcome

cmd_display : ℕ → Controller → Controller × List Output
cmd_display len c =
    let line = set c.reader.serial_buffer len 0 in
    let (msg, shown) = display_msg (drop 1 line) in
    (
      record c { reader = record (c.reader) { serial_buffer = get_or line 0 0 ∷ msg } },
      shown ++ reply (codes "dD"),
    )

-- `cmd[1]-'0'` as the parameter of `priceline_serve`.
cmd_serve : Controller → Controller × List Output
cmd_serve c =
    let pl = u8 (get_or c.reader.serial_buffer 1 0 + 256 - b'0') in
    let (p, ret) = Priceline.serve pl c.price in
    (record c { price = p }, reply (if ret then codes "sO" else codes "sN"))

-- `cmd(serial_buffer, len)`.
unfoldable pub cmd : ℕ → Controller → Outcome × List Output
unfolding cmd_display cmd_serve
cmd len c =
    let first = get_or c.reader.serial_buffer 0 0 in
    if first == b'r'
    then (halted, debug 1 (codes "jumping to bootloader"))
    else if first == b'd'
    then (let (c', out) = cmd_display len c in (running c', out))
    else if first == b'p'
    then (running c, reply (codes "p=" ++ decimal (Priceline.get c.price)))
    else if first == b's'
    then (let (c', out) = cmd_serve c in (running c', out))
    else (running c, [])

module _ (format : ℤ → Option (List ℕ)) where
  -- The five ticks that are due every 10 ms.
  unfoldable pub tick_10ms : (ℕ → Option ℤ) → Controller → Controller × List Output
  tick_10ms read c =
      let (t, k) = cooler_tick (temperature_tick read c.temperature) c.cooler in
      let u = uptime_tick c.uptime in
      let (p, served) = Priceline.tick c.price in
      let (d, shown) = display_tick format false t k u p c.display in
      (
        record c { price = p; temperature = t; cooler = k; uptime = u; display = d },
        (if served then matemat_served else []) ++ shown,
      )

  clear_1s : Controller → Controller
  clear_1s c = record c { timer = record (c.timer) { timebase1s = false } }

  clear_10ms : Controller → Controller
  clear_10ms c = record c { timer = record (c.timer) { timebase10ms = false } }

  -- One pass of the main loop, in which `uart_getc` returns `i` and the sensors read `read`.
  -- `gotcmd` is a byte.
  unfoldable pub main_pass : ℕ → (ℕ → Option ℤ) → Controller → Outcome × List Output
  unfolding clear_1s clear_10ms
  main_pass i read c =
      let (l, r) = serial_readline i c.reader in
      let gotcmd = u8 l in
      let c1 = clear_1s (record c { reader = r }) in
      let (c2, ticked) =
        if c.timer.timebase10ms then tick_10ms read (clear_10ms c1) else (c1, []) in
      let (c3, answered) = if ltb 0 gotcmd then cmd gotcmd c2 else (running c2, []) in
      (c3, ticked ++ answered)

  -- `main` up to its loop, from the C initial values. The setup of the UART, the watchdog, the LCD,
  -- the timer's registers and the sensors is not modelled.
  unfoldable pub main_init : Controller × List Output
  main_init =
      let t = temperature_init (record {
        bottom = pos 0;
        middle = pos 0;
        start = pos 0;
        stop = pos 0;
        updated = false;
        count = 0;
      }) in
      let p = Priceline.init Priceline.reset in
      let (d, shown) =
        display_tick format true t cooler_init uptime_init p
          (record { count = 0; state = false }) in
      (
        record {
          reader = record {
            buffer = replicate bufferlen 0;
            serial_buffer = replicate bufferlen 0;
            fill = 0;
            escaped = false;
          };
          timer = timebase_reset;
          price = p;
          temperature = t;
          cooler = cooler_init;
          uptime = uptime_init;
          display = d;
        },
        debug b'W' (codes "reset")
            ++ (clrscr ∷ puts (codes "booting") ∷ [])
            ++ display_init
            ++ shown
            ++ debug b'I' (codes "init done"),
      )
