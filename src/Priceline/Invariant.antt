-- ===== src/Priceline/Invariant.antt =====
-- What holds of the price lines of firmware2/priceline.c between any two operations.
use matemat.Base.{ℕ, ◌%◌, ◌≤◌, ◌<◌, ◌≡◌, ◌⊎◌, Bool, true, arith}
use matemat.Priceline.{Priceline, reset, interrupt, serve, tick}

pub record IsPriceline (s : Priceline) : Type 0 where
  pub pl_known : (s.pl ≡ 0) ⊎ ((s.pl ≡ 1) ⊎ (s.pl ≡ 3))
  pub count1_capped : s.count1 ≤ 21
  pub count3_capped : s.count3 ≤ 21
  pub count1_waiting : s.pl ≡ 0 → s.count1 ≤ 20
  pub count3_waiting : s.pl ≡ 0 → s.count3 ≤ 20
  pub serve1_requested : s.serve1 ≡ true → s.pl ≡ 1
  pub serve3_requested : s.serve3 ≡ true → s.pl ≡ 3
  pub grant_serves : 0 < s.grant → (s.serve1 ≡ true) ⊎ (s.serve3 ≡ true)
  pub grant_capped : s.grant ≤ 500
  pub grant_steps : s.grant % 50 ≡ 0
  pub count_capped : s.count ≤ 5

pub reset-IsPriceline : IsPriceline reset
reset-IsPriceline = ground arith

pub interrupt-IsPriceline :
    (high1 high3 : Bool) (s : Priceline) → IsPriceline s → IsPriceline (interrupt high1 high3 s)
unfolding interrupt
interrupt-IsPriceline true true s h = ground arith
interrupt-IsPriceline _ _ s h = ground arith

pub serve-IsPriceline : (pl : ℕ) (s : Priceline) → IsPriceline s → IsPriceline (serve pl s).0
unfolding serve
serve-IsPriceline pl s h = ground arith

pub tick-IsPriceline : (s : Priceline) → IsPriceline s → IsPriceline (tick s).0
unfolding tick
tick-IsPriceline s h = ground arith
