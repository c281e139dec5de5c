-- ===== src/Display.antt =====
-- firmware2/display.c, and `temperature_format` of firmware2/temperature.c.
-- What the functions do to the LCD and to the serial line is a list of outputs, in order; the LCD
-- library and `uart_putc` that carry them out are not modelled.
-- `DS18X20_format_from_decicelsius` is the parameter `format`, with `none` for a status that is not
-- DS18X20_OK.
pub mod Message
pub mod Frames
mod Tests
use matemat.Base.{
  ℕ, zero, suc, ◌+◌, ◌-◌, Bool, true, false, not, ◌||◌, List, [], ◌∷◌, ◌++◌, Option, suc, u8,
  if◌then◌else◌, set, ◌==◌, u16,
}
use matemat.Base.Text.{codes, cstr, strlen, decimal}
use matemat.Serial.{put_s_enc, put_c_enc, put_start, put_stop, start_temp}
use matemat.Climate.{
  Temperature, Cooler, temp_at, temp_bottom, temp_middle, cooler_idle, cooler_cooling,
}
use matemat.Uptime.{Uptime}
use matemat.Priceline.{Priceline}
use matemat.Base.Int.{ℤ}
use mathlib.Core.Option

-- One call of the LCD library, or bytes handed to `uart_putc`.
pub data Output : Type 0 where
  clrscr : Output
  gotoxy : ℕ → ℕ → Output
  putc : ℕ → Output
  puts : List ℕ → Output
  uart : List ℕ → Output

-- The statics of `display_tick`.
pub record Display : Type 0 where
  pub count : ℕ
  pub state : Bool

module _ (format : ℤ → Option (List ℕ)) where
  unfoldable pub temperature_format : ℕ → Temperature → List ℕ × List Output
  temperature_format index t =
      let text = Option.get_or (format (temp_at index t)) (codes "####.#") in
      (
        text,
        uart (put_start start_temp)
            ∷ uart (put_s_enc (codes "temp"))
            ∷ uart (put_c_enc (u8 (b'0' + index)))
            ∷ uart (put_s_enc (codes "="))
            ∷ uart (put_s_enc text)
            ∷ uart put_stop
            ∷ [],
      )

  unfoldable pub printtemp : ℕ → ℕ → ℕ → Temperature → List Output
  unfolding temperature_format
  printtemp index x y t =
      let (text, sent) = temperature_format index t in
      gotoxy x y ∷ (sent ++ (puts text ∷ putc b' ' ∷ putc 0xdf ∷ putc b'C' ∷ []))

  unfoldable pub display_updatetemp : Temperature → List Output
  unfolding printtemp
  display_updatetemp t = printtemp temp_bottom 8 3 t ++ printtemp temp_middle 8 2 t

unfoldable pub display_init : List Output
display_init =
    clrscr
    ∷ puts (codes "   Matemat blubb")
    ∷ gotoxy 0 2
    ∷ puts (codes "Middle: ")
    ∷ gotoxy 0 3
    ∷ puts (codes "Bottom: ")
    ∷ gotoxy 17 1
    ∷ puts (codes "PL")
    ∷ []

-- The loop `for(i=len;i<20;i++) msg[i] = ' '`, by the rounds left.
blank : ℕ → ℕ → List ℕ → List ℕ
blank zero i msg = msg
blank (suc k) i msg = blank k (i + 1) (set msg i b' ')

-- The message array is changed in place, up to the NUL written at index 20.
unfoldable pub pad_msg : List ℕ → List ℕ
unfolding blank
pad_msg msg = let len = u8 (strlen msg) in set (blank (20 - len) len msg) 20 0

unfoldable pub display_msg : List ℕ → List ℕ × List Output
display_msg msg = (pad_msg msg, gotoxy 0 0 ∷ puts (cstr (pad_msg msg)) ∷ [])

unfoldable pub display_priceline : Priceline → List Output
display_priceline p =
    gotoxy 19 1 ∷ (if p.pl == 0 then putc b'-' ∷ [] else putc (u8 (b'0' + p.pl)) ∷ [])

unfoldable pub display_uptime : Uptime → List Output
display_uptime u = gotoxy 0 1 ∷ puts (decimal u.uptime) ∷ []

unfoldable pub display_putcoolerstate : Cooler → List Output
display_putcoolerstate c =
    gotoxy 10 1
    ∷ (if c.state == cooler_idle
        then puts (codes "idle   ") ∷ []
        else if c.state == cooler_cooling
        then puts (codes "cooling") ∷ []
        else puts (codes "?mode? ") ∷ [])

-- The blinking dot; `count-- == 0` compares before the subtraction.
blink : Display → Display × List Output
blink d =
    if d.count == 0
    then (
      record { count = 50; state = not d.state },
      gotoxy 19 3 ∷ (if d.state then putc b'.' ∷ [] else putc b' ' ∷ []),
    )
    else (record d { count = u16 (d.count + 65535) }, [])

abbrev when : Bool → List Output → List Output
when b out = if b then out else []

unfoldable pub display_tick :
    (ℤ → Option (List ℕ))
    → Bool
    → Temperature
    → Cooler
    → Uptime
    → Priceline
    → Display
    → Display × List Output
unfolding blink
display_tick format force t c u p d =
    let (d', dot) = blink d in
    (
      d',
      dot
          ++ (when (t.updated || force) (display_updatetemp format t)
              ++ (when (c.updated || force) (display_putcoolerstate c)
                  ++ (when (u.updated || force) (display_uptime u)
                      ++ when (p.updated || force) (display_priceline p)))),
    )
