-- ===== src/Priceline/Tests.antt =====
-- Orders and price lines on concrete runs.
use matemat.Base.{
  ◌≤◌, ◌≡◌, refl, true, false, ◌&&◌, List, ◌∷◌, arith, replicate, leb, if◌then◌else◌, ◌++◌, [],
}
use matemat.Priceline.{
  serve_pin, serve_grant, tick, Priceline, reset, init, interrupt, may_serve, serve,
}
use matemat.Priceline.Invariant.{IsPriceline}
use matemat.Priceline.Divided.{interrupts, serve_divided, keep_request, order_undisturbed}
use matemat.Priceline.Grant.{
  Event, timer, host_divided, orders_undisturbed, undisturbed, main_tick, step, run, run-safe,
  remaining, run-serve_once, ticks,
}
use matemat.Priceline.Race.{serve_interrupted, serve_race}

-- A request for product 1, with the line still high.
abbrev waiting : Priceline
waiting = record reset { pl = 1; count1 = 21 }

-- The same after an accepted order.
abbrev granted : Priceline
granted = record waiting { serve1 = true; grant = 500; count = 2 }

abbrev sixty_ticks : List Event
sixty_ticks = timer false false ∷ replicate 60 main_tick

waiting-IsPriceline : IsPriceline waiting
waiting-IsPriceline = ground arith

granted-IsPriceline : IsPriceline granted
granted-IsPriceline = ground arith

reset-valid : IsPriceline reset
reset-valid = ground arith

sale : (run (replicate 21 (timer true false)) reset).0.pl ≡ 1
unfolding run step interrupt
sale = refl

-- A request for product 1, an order for it with an interrupt in each of its gaps, then ticks.
abbrev divided_sale : List Event
divided_sale =
    replicate 21 (timer true false)
    ++ (host_divided ((true, false) ∷ []) 1 ((true, false) ∷ []) ∷ sixty_ticks)

run-safe_example :
    let s = (run divided_sale (init reset)).0 in IsPriceline s × ((s.serve1 && s.serve3) ≡ false)
unfolding orders_undisturbed order_undisturbed undisturbed keep_request interrupts serve_divided
    step interrupt may_serve serve_pin serve_grant init tick
run-safe_example = run-safe divided_sale refl

run-serve_once_example :
    let t = (serve 1 waiting).0 in
    ((run sixty_ticks t).1 ≡ (if leb (remaining t) (ticks sixty_ticks) then 1 else 0))
    × (55 ≤ remaining t)
    × (remaining t ≤ 60)
unfolding serve
run-serve_once_example =
    run-serve_once 1 waiting sixty_ticks waiting-IsPriceline refl (ground arith)

serve_race_example :
    let (t, accepted) = serve_interrupted false false 1 waiting in
    (accepted ≡ true)
    × (t.grant ≡ 500)
    × (t.serve1 ≡ false)
    × (t.serve3 ≡ false)
    × (t.pl ≡ 0)
    × ¬ (IsPriceline t)
unfolding may_serve
serve_race_example = serve_race 1 waiting waiting-IsPriceline refl refl
