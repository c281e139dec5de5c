-- ===== src/Controller/Preserve.antt =====
-- What the parts of a pass of the main loop of firmware2 and its timer interrupt leave true.
use matemat.Base.{
  ℕ, ◌≡◌, Bool, true, false, Option, List, arith, length, set, if◌then◌else◌, length-set, ◌∙◌, drop,
  length-drop, get_or, ◌==◌, ◌++◌, [], ltb, u8,
}
use matemat.Base.Int.{ℤ}
use matemat.Serial.{bufferlen}
use matemat.Serial.Bounds.{IsReader, serial_readline-IsReader}
use matemat.Priceline.Invariant.{
  IsPriceline, interrupt-IsPriceline, serve-IsPriceline, tick-IsPriceline,
}
use matemat.Climate.{climate_tick}
use matemat.Climate.Hysteresis.{IsClimate, climate_tick-IsClimate}
use matemat.Display.{display_msg}
use matemat.Display.Message.{length-pad_msg}
use matemat.Controller.{
  Controller, Outcome, running, halted, timer_interrupt, tick_10ms, cmd, Output, cmd_display,
  cmd_serve, Reader, main_pass, Timebase, serial_readline,
}
use matemat.Controller.Timer.{IsTimebase, timer_divide-IsTimebase}
use matemat.Base.{◌∷◌}
use matemat.Controller.{timer_divide}
use matemat.Priceline.Divided.{serve_divided, order_undisturbed, serve_divided-IsPriceline}

pub record IsController (c : Controller) : Type 0 where
  pub reader_valid : IsReader c.reader
  pub timer_valid : IsTimebase c.timer
  pub price_valid : IsPriceline c.price
  pub climate_valid : IsClimate c.temperature c.cooler

-- The program goes on in a well-formed state, or has handed over to the bootloader.
pub data Continues : Outcome × List Output → Type 0 where
  going : {c : Controller} {out : List Output} → IsController c → Continues (running c, out)
  stopped : {out : List Output} → Continues (halted, out)

pub timer_interrupt-IsController :
    (a b : Bool) (c : Controller) → IsController c → IsController (timer_interrupt a b c)
unfolding timer_interrupt
timer_interrupt-IsController a b c h = record {
  reader_valid = h.reader_valid;
  timer_valid = timer_divide-IsTimebase c.timer h.timer_valid;
  price_valid = interrupt-IsPriceline a b c.price h.price_valid;
  climate_valid = h.climate_valid;
}

tick_10ms-IsController :
    (format : ℤ → Option (List ℕ)) (read : ℕ → Option ℤ) (c : Controller)
    → IsController c
    → IsController (tick_10ms format read c).0
unfolding tick_10ms
tick_10ms-IsController format read c h = record {
  reader_valid = h.reader_valid;
  timer_valid = h.timer_valid;
  price_valid = tick-IsPriceline c.price h.price_valid;
  climate_valid =
      unfold climate_tick in climate_tick-IsClimate read c.temperature c.cooler h.climate_valid;
}

Continues-if :
    (b : Bool) {x y : Outcome × List Output}
    → Continues x
    → Continues y
    → Continues (if b then x else y)
Continues-if true p q = p
Continues-if false p q = q

-- A display command writes a NUL and blanks into the received line, inside its array.
cmd_display-IsController :
    (len : ℕ) (c : Controller) → IsController c → IsController (cmd_display len c).0
unfolding cmd_display display_msg
cmd_display-IsController len c h =
    let line = set c.reader.serial_buffer len 0 in
    let size : length line ≡ bufferlen =
      length-set c.reader.serial_buffer len 0 ∙ h.reader_valid.serial_size in
    record {
      reader_valid = record {
        buffer_size = h.reader_valid.buffer_size;
        serial_size = omega (arith, length-pad_msg (drop 1 line), length-drop 1 line, size);
        fill_capped = h.reader_valid.fill_capped;
      };
      timer_valid = h.timer_valid;
      price_valid = h.price_valid;
      climate_valid = h.climate_valid;
    }

cmd_serve-IsController : (c : Controller) → IsController c → IsController (cmd_serve c).0
unfolding cmd_serve
cmd_serve-IsController c h = record {
  reader_valid = h.reader_valid;
  timer_valid = h.timer_valid;
  price_valid = serve-IsPriceline _ c.price h.price_valid;
  climate_valid = h.climate_valid;
}

pub cmd-Continues : (len : ℕ) (c : Controller) → IsController c → Continues (cmd len c)
unfolding cmd
cmd-Continues len c h =
    let first = get_or c.reader.serial_buffer 0 0 in
    Continues-if (first == b'r') stopped (
      Continues-if (first == b'd') (going (cmd_display-IsController len c h)) (
        Continues-if (first == b'p') (going h)
          (Continues-if (first == b's') (going (cmd_serve-IsController c h)) (going h))))

-- What was sent before does not matter.
Continues-after :
    (out : List Output) {x : Outcome × List Output} → Continues x → Continues (x.0, out ++ x.1)
Continues-after out (going h) = going h
Continues-after out stopped = stopped

IsController-if :
    (b : Bool) (x y : Controller × List Output)
    → IsController x.0
    → IsController y.0
    → IsController (if b then x else y).0
IsController-if true x y p q = p
IsController-if false x y p q = q

-- A new reader and cleared flags.
IsController-received :
    (c : Controller) (r : Reader) (t : Timebase)
    → IsController c
    → IsReader r
    → IsTimebase t
    → IsController (record c { reader = r; timer = t })
IsController-received c r t h hr ht = record {
  reader_valid = hr;
  timer_valid = ht;
  price_valid = h.price_valid;
  climate_valid = h.climate_valid;
}

-- A pass of the main loop up to its command.
unfoldable pub pass_ticks :
    (ℤ → Option (List ℕ)) → ℕ → (ℕ → Option ℤ) → Controller → Controller × List Output
pass_ticks format i read c =
    let t : Timebase = record (c.timer) { timebase1s = false } in
    let c1 : Controller = record c { reader = (serial_readline i c.reader).1; timer = t } in
    if c.timer.timebase10ms
    then tick_10ms format read (record c1 { timer = record t { timebase10ms = false } })
    else (c1, [])

pub pass_ticks-IsController :
    (format : ℤ → Option (List ℕ)) (i : ℕ) (read : ℕ → Option ℤ) (c : Controller)
    → IsController c
    → IsController (pass_ticks format i read c).0
unfolding pass_ticks
pass_ticks-IsController format i read c h =
    let (hr, short) = serial_readline-IsReader i c.reader h.reader_valid in
    let r = (serial_readline i c.reader).1 in
    let t1 : Timebase = record (c.timer) { timebase1s = false } in
    let t2 : Timebase = record t1 { timebase10ms = false } in
    let c1 : Controller = record c { reader = r; timer = t1 } in
    let c1' : Controller = record c { reader = r; timer = t2 } in
    let h1 = IsController-received c r t1 h hr (omega (arith, h.timer_valid)) in
    let h1' = IsController-received c r t2 h hr (omega (arith, h.timer_valid)) in
    IsController-if c.timer.timebase10ms (tick_10ms format read c1') (c1, [])
      (tick_10ms-IsController format read c1' h1') h1

pub main_pass-Continues :
    (format : ℤ → Option (List ℕ)) (i : ℕ) (read : ℕ → Option ℤ) (c : Controller)
    → IsController c
    → Continues (main_pass format i read c)
unfolding main_pass pass_ticks
main_pass-Continues format i read c h =
    let ticked = pass_ticks format i read c in
    let h2 = pass_ticks-IsController format i read c h in
    let gotcmd = u8 (serial_readline i c.reader).0 in
    Continues-after ticked.1
      (Continues-if (ltb 0 gotcmd) (cmd-Continues gotcmd ticked.0 h2) (going h2))

-- Timer interrupts and the time they count.
unfoldable pub time_run : List (Bool × Bool) → Timebase → Timebase
time_run [] t = t
time_run (_ ∷ js) t = time_run js (timer_divide t)

time_run-IsTimebase :
    (js : List (Bool × Bool)) (t : Timebase) → IsTimebase t → IsTimebase (time_run js t)
unfolding time_run
time_run-IsTimebase [] t h = h
time_run-IsTimebase (_ ∷ js) t h =
    time_run-IsTimebase js (timer_divide t) (timer_divide-IsTimebase t h)

-- `priceline_serve` with the interrupts `js` behind its guards and `ks` between its stores.
unfoldable pub serve_interrupted_by :
    List (Bool × Bool) → ℕ → List (Bool × Bool) → Controller → Controller
serve_interrupted_by js pl ks c = record c {
  timer = time_run (js ++ ks) c.timer;
  price = (serve_divided js pl ks c.price).0;
}

pub serve_interrupted_by-IsController :
    (js ks : List (Bool × Bool)) (pl : ℕ) (c : Controller)
    → IsController c
    → order_undisturbed js pl ks c.price ≡ true
    → IsController (serve_interrupted_by js pl ks c)
unfolding serve_interrupted_by
serve_interrupted_by-IsController js ks pl c h u = record {
  reader_valid = h.reader_valid;
  timer_valid = time_run-IsTimebase (js ++ ks) c.timer h.timer_valid;
  price_valid = serve_divided-IsPriceline js ks pl c.price h.price_valid u;
  climate_valid = h.climate_valid;
}
