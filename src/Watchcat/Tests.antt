-- ===== src/Watchcat/Tests.antt =====
-- A port with two pins that change at once.
use matemat.Base.{◌≡◌, refl, true, false, Bool, List, [], ◌∷◌, arith, replicate}
use matemat.Watchcat.{
  Reaction, VirtualPin, watchcat_init, watchcat_edge, react, port_periodic, same,
}
use matemat.Watchcat.Expected.{expected}
use matemat.Watchcat.Commands.{port_calls, port_calls-commands}

abbrev reactions : List Reaction
reactions =
    record { port = 0; pin = 1; rising = true; command = 10 }
    ∷ record { port = 0; pin = 2; rising = true; command = 20 }
    ∷ record { port = 0; pin = 2; rising = false; command = 30 }
    ∷ []

abbrev pressed : List Bool
pressed = false ∷ true ∷ true ∷ replicate 5 false

abbrev debounced : VirtualPin
debounced = record (watchcat_init 0) { last_input = pressed }

-- One pin at once: the second command is sent by the next call.
first_pin :
    port_periodic reactions 0 pressed pressed pressed debounced
    ≡ (record debounced { state = pressed; old_state = false ∷ true ∷ replicate 6 false }, 10 ∷ [])
unfolding port_periodic react watchcat_edge same
first_pin = refl

two_commands : expected reactions 0 pressed (replicate 8 false) ≡ 10 ∷ 20 ∷ []
unfolding expected
two_commands = refl

port_calls-commands_example :
    let (v', sent) = port_calls reactions 0 pressed 10 (watchcat_init 0) in
    (sent ≡ expected reactions 0 pressed (replicate 8 false))
    × (v'.state ≡ pressed)
    × (v'.old_state ≡ pressed)
port_calls-commands_example =
    port_calls-commands reactions 0 pressed 1 (watchcat_init 0) refl refl refl (omega arith)
