-- ===== src/Legacy/Tests.antt =====
-- Concrete runs of the first controller.
use matemat.Base.{◌≡◌, refl, true, false, [], ◌∷◌, ◌++◌, some, none, arith, replicate}
use matemat.Base.Int.{pos, negsuc}
use matemat.Base.Text.{codes}
use matemat.Legacy.{Machine, goto, print_format, udr, mode_idle}
use matemat.Legacy.Thermometer.{sprintf_temp}
use matemat.Legacy.Invariant.{IsMachine, overflow, serial, process, run, run-IsMachine}
use matemat.Legacy.Message.{receive, message-shown}

-- After `matemat_init`; the globals and statics start at their initial values.
abbrev started : Machine
started = record {
  kick = false;
  grant = 0;
  msg = replicate 30 0;
  msgp = 0;
  pl = b'-';
  overflows = 0;
  count1 = 0;
  count3 = 0;
  reported = b'-';
  print = 0;
  serve1 = false;
  serve3 = false;
  cooler = false;
  mode = mode_idle;
  bottom = pos 0;
  middle = pos 0;
  start = pos 30;
  stop = pos 20;
  packetcount = 0;
  push = 0;
  state = false;
  timer = 0;
}

minus_half : sprintf_temp (negsuc 0) true ≡ codes " -0.5 C"
unfolding sprintf_temp
minus_half = refl

started-IsMachine : IsMachine started
started-IsMachine = ground arith

run-IsMachine_example :
    IsMachine
      (run
        (overflow true false
          ∷ serial false b'D'
          ∷ serial false b'x'
          ∷ process none (some (5, 128))
          ∷ [])
        started).0
run-IsMachine_example =
    run-IsMachine
      (overflow true false
        ∷ serial false b'D'
        ∷ serial false b'x'
        ∷ process none (some (5, 128))
        ∷ [])
      started started-IsMachine

message-shown_example :
    let (m', out) = receive (b'D' ∷ (codes "Club Mate" ++ (10 ∷ []))) started in
    (out ≡ goto 0 0 ∷ print_format (codes "Club Mate" ++ replicate 11 b' ') ∷ udr b'D' ∷ [])
    × (m'.print ≡ 0)
message-shown_example =
    message-shown (codes "Club Mate") started refl (omega arith) (omega arith) (ground arith)

-- Product 1 was reported to the host, and then its request ended.
abbrev reported_one : Machine
reported_one = record started { reported = b'1' }
