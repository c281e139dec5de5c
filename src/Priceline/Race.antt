-- ===== src/Priceline/Race.antt =====
-- An interrupt between the two stores of `priceline_serve` in firmware2/priceline.c.
use matemat.Base.{ℕ, ◌<◌, ◌≡◌, Bool, true, false, arith, if◌then◌else◌}
use matemat.Priceline.{Priceline, interrupt, may_serve, serve_pin, serve_grant, serve}
use matemat.Priceline.Invariant.{IsPriceline}

-- `priceline_serve` whose guard and first store run before a timer interrupt, and whose second
-- store runs after it.
pub serve_interrupted : Bool → Bool → ℕ → Priceline → Priceline × Bool
serve_interrupted high1 high3 pl s =
    if may_serve pl s
    then (serve_grant (interrupt high1 high3 (serve_pin pl s)), true)
    else (s, false)

-- If the customer's request ends (both lines low) just when an interrupt separates the two stores
-- of an accepted order and no grant was running, the order is still reported as accepted and a
-- grant of 500 runs, but both serve lines are off and no product is requested: nothing is
-- served, and the invariant fails.
pub serve_race :
    (pl : ℕ) (s : Priceline)
    → IsPriceline s
    → s.grant ≡ 0
    → may_serve pl s ≡ true
    → let (t, accepted) = serve_interrupted false false pl s in
      (accepted ≡ true)
      × (t.grant ≡ 500)
      × (t.serve1 ≡ false)
      × (t.serve3 ≡ false)
      × (t.pl ≡ 0)
      × ¬ (IsPriceline t)
unfolding serve_interrupted may_serve serve_pin serve_grant interrupt
serve_race pl s h g e =
    (ground arith, ground arith, ground arith, ground arith, ground arith, λ bad. ground arith)

-- While a grant is running the interrupt may come between the stores: the order has the same
-- effect on the request, the grant and the serve lines as one that is not interrupted.
serve_interrupted-eq-serve :
    (a b : Bool) (pl : ℕ) (s : Priceline)
    → IsPriceline s
    → 0 < s.grant
    → let (t, accepted) = serve_interrupted a b pl s in
      let (u, accepted') = serve pl s in
      (accepted ≡ accepted')
      × (t.grant ≡ u.grant)
      × (t.serve1 ≡ u.serve1)
      × (t.serve3 ≡ u.serve3)
      × (t.pl ≡ u.pl)
unfolding serve_interrupted serve interrupt
serve_interrupted-eq-serve true true pl s h g =
    (ground arith, ground arith, ground arith, ground arith, ground arith)
serve_interrupted-eq-serve _ _ pl s h g =
    (ground arith, ground arith, ground arith, ground arith, ground arith)
