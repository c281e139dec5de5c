-- ===== src/Display/Frames.antt =====
-- The temperature frames of `temperature_format` (firmware2/temperature.c) on the serial line.
use matemat.Base.{ℕ, ◌+◌, ◌<◌, ◌≡◌, Option, List, [], ◌∷◌, ◌++◌, arith}
use matemat.Base.Int.{ℤ}
use matemat.Base.Text.{codes}
use matemat.Serial.{send_frames, start_temp, put_s_enc, put_c_enc}
use matemat.Climate.{Temperature}
use matemat.Display.{Output, uart, temperature_format}

-- The bytes that a list of outputs hands to the serial line.
uart_bytes : List Output → List ℕ
uart_bytes [] = []
uart_bytes (uart bytes ∷ out) = bytes ++ uart_bytes out
uart_bytes (_ ∷ out) = uart_bytes out

-- For each of the four temperatures, the pieces that `temperature_format` sends are together one
-- frame of kind 'T' whose text is "temp", the index as a digit, "=" and the formatted value, for
-- whatever the formatter makes of the temperature ("####.#" where it fails).
temperature_format-frame :
    (format : ℤ → Option (List ℕ)) (index : ℕ) (t : Temperature)
    → index < 4
    → uart_bytes (temperature_format format index t).1
      ≡ send_frames start_temp
          (codes "temp" ++ ((b'0' + index) ∷ b'=' ∷ (temperature_format format index t).0))
unfolding uart_bytes temperature_format send_frames put_s_enc put_c_enc
temperature_format-frame format index t h = ground arith
