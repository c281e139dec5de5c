-- ===== src/Display/Tests.antt =====
-- What the display shows of concrete messages.
use matemat.Base.{List, ℕ, ◌++◌, ◌≡◌, refl, replicate, List}
use matemat.Base.Text.{codes, cstr}
use matemat.Display.{pad_msg}

-- `serial_buffer` behind its first byte, with the message "hello".
abbrev hello : List ℕ
hello = codes "hello" ++ replicate 44 0

shown : cstr (pad_msg hello) ≡ codes "hello               "
unfolding pad_msg
shown = refl
