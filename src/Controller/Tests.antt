-- ===== src/Controller/Tests.antt =====
-- The controller on concrete runs.
use matemat.Base.{
  zero, suc, ℕ, ◌-◌, ◌+◌, ◌<◌, ◌≡◌, ◌↔◌, refl, true, false, ◌&&◌, not, Option, none, List, [], ◌∷◌,
  arith, u8, if◌then◌else◌, ◌==◌,
}
use matemat.Base.Int.{ℤ}
use matemat.Base.Text.{codes}
use matemat.Serial.{bufferlen, start_control, send_frames}
use matemat.Priceline
use matemat.Controller.Preserve.{serve_interrupted_by}
use matemat.Priceline.{may_serve, serve_pin, serve_grant, interrupt, init}
use matemat.Priceline.Divided.{order_undisturbed, serve_divided, keep_request, interrupts}
use matemat.Climate.{cooler_cooling}
use matemat.Controller.{Controller, running, timer_interrupt, main_init, reply}
use matemat.Controller.Commands.{passes, after_order, passes-order}
use matemat.Controller.System.{Reach, served, here, next, interrupted, Reach-safe}

-- A formatter that has no text, and sensors that fail.
abbrev no_text : ℤ → Option (List ℕ)
no_text t = none

abbrev no_reading : ℕ → Option ℤ
no_reading i = none

abbrev started : Controller
started = (main_init no_text).0

passes-order_example :
    let (p, accepted) = Priceline.serve (u8 (b'1' + 256 - b'0')) started.price in
    passes no_text no_reading (send_frames start_control (b's' ∷ b'1' ∷ [])) started ≡ (
      running (record started {
        reader = after_order b'1' started.reader;
        timer = record (started.timer) { timebase1s = false };
        price = p;
      }),
      reply (if accepted then codes "sO" else codes "sN"),
    )
unfolding main_init
passes-order_example =
    passes-order no_text no_reading b'1' started refl refl refl (omega arith)
      (omega arith, λ e. omega arith)

-- Interrupts with the first price line high: 21 of them make a request for product 1.
held : ℕ → Controller
held zero = started
held (suc n) = timer_interrupt true false (held n)

held-Reach : (n : ℕ) → Reach no_text started (held n)
unfolding held
held-Reach zero = here
held-Reach (suc n) = next (held-Reach n) (interrupted true false (held n))

-- The order for it, with an interrupt in each of its gaps.
ordered : Controller
ordered = serve_interrupted_by ((true, false) ∷ []) 1 ((true, false) ∷ []) (held 21)

ordered-serve1 : ordered.price.serve1 ≡ true
unfolding ordered held serve_interrupted_by serve_divided interrupts may_serve serve_pin serve_grant
    timer_interrupt main_init interrupt init
ordered-serve1 = refl

ordered-Reach : Reach no_text started ordered
unfolding ordered held serve_interrupted_by order_undisturbed keep_request interrupts may_serve
    serve_pin timer_interrupt main_init interrupt init
ordered-Reach =
    next (held-Reach 21) (served ((true, false) ∷ []) ((true, false) ∷ []) 1 (held 21) refl refl)

Reach-safe_example :
    ((ordered.price.serve1 && ordered.price.serve3) ≡ false)
    × ((ordered.price.serve1 && not (ordered.price.pl == 1)) ≡ false)
    × ((ordered.price.serve3 && not (ordered.price.pl == 3)) ≡ false)
    × ((ordered.cooler.pin ≡ true) ↔ (ordered.cooler.state ≡ cooler_cooling))
    × (ordered.reader.fill < bufferlen)
Reach-safe_example = Reach-safe no_text ordered-Reach
