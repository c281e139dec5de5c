-- ===== src/Serial/Tests.antt =====
-- Runs of the protocol on concrete frames.
use matemat.Base.{ℕ, ◌≡◌, refl, false, List, [], ◌∷◌, replicate, arith}
use matemat.Serial.{Reader, start_control, readline, serial_readline, receive}
use matemat.Serial.{send_frames, put_s_enc}
use matemat.Serial.Bounds.{IsReader}
use matemat.Serial.RoundTrip.{send_all, receive-send_all}

abbrev idle : Reader
idle = record { buffer = replicate 50 0; serial_buffer = replicate 50 0; fill = 0; escaped = false }

idle-IsReader : IsReader idle
idle-IsReader = omega arith

-- "s1", and a display command that holds an escape character.
abbrev commands : List (List ℕ)
commands = (b's' ∷ b'1' ∷ []) ∷ (b'd' ∷ 0x5c ∷ b'9' ∷ []) ∷ []

frame :
    send_frames start_control (b'd' ∷ 0x5c ∷ [])
    ≡ 0x5c ∷ b'C' ∷ b'd' ∷ 0x5c ∷ 0x5c ∷ 0x5c ∷ b'9' ∷ []
unfolding send_frames put_s_enc
frame = refl

no_data_kept : (receive idle (0x100 ∷ b'x' ∷ 0x5c ∷ 0x100 ∷ b'9' ∷ [])).0 ≡ (b'x' ∷ []) ∷ []
unfolding receive serial_readline readline
no_data_kept = refl

receive-send_all_example :
    ((receive idle (send_all commands)).0 ≡ commands)
    × IsReader (receive idle (send_all commands)).1
    × ((receive idle (send_all commands)).1.escaped ≡ false)
receive-send_all_example = receive-send_all commands idle (omega arith) idle-IsReader refl
