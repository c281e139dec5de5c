-- ===== src/Controller/System.antt =====
-- The whole controller of firmware2: timer interrupts and passes of the main loop in any order, the
-- interrupts also inside a pass. One that ends a request inside its order is in `Priceline.Race`.
use matemat.Base.{ℕ, ◌≡◌, Bool, true, false, Option, List, arith, ◌==◌, ◌&&◌, not, ◌↔◌, ◌<◌}
use matemat.Base.Int.{ℤ}
use matemat.Serial.{bufferlen}
use matemat.Priceline.Grant.{init-reset-IsPriceline}
use mathlib.Core.Path.{subst}
use matemat.Climate.{cooler_cooling}
use matemat.Climate.Hysteresis.{init-IsClimate}
use matemat.Controller.{
  Controller, Outcome, running, timer_interrupt, cmd, Output, main_pass, main_init,
}
use matemat.Controller.Preserve.{
  IsController, Continues, going, stopped, timer_interrupt-IsController, main_pass-Continues,
  cmd-Continues, pass_ticks, pass_ticks-IsController, serve_interrupted_by,
  serve_interrupted_by-IsController,
}
use matemat.Priceline.{may_serve}
use matemat.Priceline.Divided.{order_undisturbed}

module _ (format : ℤ → Option (List ℕ)) where
  -- A timer interrupt; a pass of the main loop after which the program goes on; or one of its parts, so
  -- that interrupts come between them: what a pass does before its command, a command, and an accepted
  -- order whose interrupts leave the request it is for.
  pub data Step : Controller → Controller → Type 0 where
    interrupted : (a b : Bool) (c : Controller) → Step c (timer_interrupt a b c)
    passed :
        {c c' : Controller} (i : ℕ) (read : ℕ → Option ℤ) (out : List Output)
        → main_pass format i read c ≡ (running c', out)
        → Step c c'
    ticked : (i : ℕ) (read : ℕ → Option ℤ) (c : Controller) → Step c (pass_ticks format i read c).0
    commanded :
        {c c' : Controller} (len : ℕ) (out : List Output)
        → cmd len c ≡ (running c', out)
        → Step c c'
    served :
        (js ks : List (Bool × Bool)) (pl : ℕ) (c : Controller)
        → may_serve pl c.price ≡ true
        → order_undisturbed js pl ks c.price ≡ true
        → Step c (serve_interrupted_by js pl ks c)

  pub data Reach (s : Controller) : Controller → Type 0 where
    here : Reach s s
    next : {c c' : Controller} → Reach s c → Step c c' → Reach s c'

Continues-running :
    {c : Controller} {out : List Output} {x : Outcome × List Output}
    → Continues x
    → x ≡ (running c, out)
    → IsController c
Continues-running {c} (going {c = c'} h) e = let p : c' ≡ c = ground arith in subst IsController p h
Continues-running stopped e = cc

Step-IsController :
    (format : ℤ → Option (List ℕ)) {c c' : Controller}
    → Step format c c'
    → IsController c
    → IsController c'
Step-IsController format (interrupted a b c) h = timer_interrupt-IsController a b c h
Step-IsController format (passed {c = c} i read out e) h =
    Continues-running (main_pass-Continues format i read c h) e
Step-IsController format (ticked i read c) h = pass_ticks-IsController format i read c h
Step-IsController format (commanded {c = c} len out e) h =
    Continues-running (cmd-Continues len c h) e
Step-IsController format (served js ks pl c _ u) h =
    serve_interrupted_by-IsController js ks pl c h u

Reach-IsController :
    (format : ℤ → Option (List ℕ)) {s c : Controller}
    → IsController s
    → Reach format s c
    → IsController c
Reach-IsController format h here = h
Reach-IsController format h (next r st) =
    Step-IsController format st (Reach-IsController format h r)

pub main_init-IsController : (format : ℤ → Option (List ℕ)) → IsController (main_init format).0
unfolding main_init
main_init-IsController format = record {
  reader_valid = ground arith;
  timer_valid = ground arith;
  price_valid = init-reset-IsPriceline;
  climate_valid = init-IsClimate _;
}

-- In every state reached from start-up with any received words, price line levels and sensor readings,
-- when each timer interrupt comes between two passes of the main loop, between the ticks and the
-- command of a pass, or inside an order (behind its guards or between its two stores) without ending
-- the request the order is for: the two serve lines are never on together, each only while its product
-- is requested; the compressor's pin is on exactly in the cooling state; the write position of the
-- reader lies inside its array. Interrupts inside the reading of a word, the ticks or another
-- command are left out.
pub Reach-safe :
    (format : ℤ → Option (List ℕ)) {c : Controller}
    → Reach format (main_init format).0 c
    → ((c.price.serve1 && c.price.serve3) ≡ false)
      × ((c.price.serve1 && not (c.price.pl == 1)) ≡ false)
      × ((c.price.serve3 && not (c.price.pl == 3)) ≡ false)
      × ((c.cooler.pin ≡ true) ↔ (c.cooler.state ≡ cooler_cooling))
      × (c.reader.fill < bufferlen)
Reach-safe format r =
    let h = Reach-IsController format (main_init-IsController format) r in
    (
      ground (arith, h.price_valid),
      ground (arith, h.price_valid),
      ground (arith, h.price_valid),
      h.climate_valid.pin_cooling,
      h.reader_valid.fill_capped,
    )
