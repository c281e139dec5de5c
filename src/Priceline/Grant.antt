-- ===== src/Priceline/Grant.antt =====
-- The run of a grant of firmware2/priceline.c: events of the timer interrupt, the host and the
-- 10 ms tick in any order, and when the host is told that the product was served. An order is
-- carried out at once (`host`), or with timer interrupts behind its guards and between its two
-- stores (`host_divided`); a tick is carried out at once.
use matemat.Base.{
  ℕ, suc, ◌+◌, ◌-◌, ◌*◌, ◌/◌, ◌≤◌, ◌≡◌, Bool, true, false, ◌&&◌, List, [], ◌∷◌, arith, ltb, leb,
  ◌==◌, if◌then◌else◌, All,
}
use matemat.Priceline.{Priceline, reset, init, interrupt, serve, tick}
use matemat.Priceline.Divided.{
  order_undisturbed, serve_divided, serve_divided-IsPriceline, and_true,
}
use matemat.Priceline.Invariant.{
  IsPriceline, interrupt-IsPriceline, serve-IsPriceline, tick-IsPriceline,
}

pub data Event : Type 0 where
  timer : Bool → Bool → Event
  host : ℕ → Event
  host_divided : List (Bool × Bool) → ℕ → List (Bool × Bool) → Event
  main_tick : Event

unfoldable pub undisturbed : Event → Priceline → Bool
undisturbed (host_divided js pl ks) s = order_undisturbed js pl ks s
undisturbed _ s = true

abbrev count_served : Bool → ℕ
count_served true = 1
count_served false = 0

-- One event, with how often `matemat_served` was called.
unfoldable pub step : Event → Priceline → Priceline × ℕ
step (timer high1 high3) s = (interrupt high1 high3 s, 0)
step (host pl) s = ((serve pl s).0, 0)
step (host_divided js pl ks) s = ((serve_divided js pl ks s).0, 0)
step main_tick s = ((tick s).0, count_served (tick s).1)

unfoldable pub run : List Event → Priceline → Priceline × ℕ
run [] s = (s, 0)
run (e ∷ es) s = let (s', n) = step e s in let (t, m) = run es s' in (t, n + m)

-- `undisturbed` for each event of a run.
unfoldable pub orders_undisturbed : List Event → Priceline → Bool
orders_undisturbed [] s = true
orders_undisturbed (e ∷ es) s = undisturbed e s && orders_undisturbed es (step e s).0

step-IsPriceline :
    (e : Event) (s : Priceline) → IsPriceline s → undisturbed e s ≡ true → IsPriceline (step e s).0
unfolding step undisturbed
step-IsPriceline (timer a b) s h u = interrupt-IsPriceline a b s h
step-IsPriceline (host pl) s h u = serve-IsPriceline pl s h
step-IsPriceline (host_divided js pl ks) s h u = serve_divided-IsPriceline js ks pl s h u
step-IsPriceline main_tick s h u = tick-IsPriceline s h

run-IsPriceline :
    (es : List Event) (s : Priceline)
    → IsPriceline s
    → orders_undisturbed es s ≡ true
    → IsPriceline (run es s).0
unfolding run orders_undisturbed
run-IsPriceline [] s h u = h
run-IsPriceline (e ∷ es) s h u =
    let (now, later) = and_true u in
    run-IsPriceline es (step e s).0 (step-IsPriceline e s h now) later

pub init-reset-IsPriceline : IsPriceline (init reset)
unfolding init
init-reset-IsPriceline = ground arith

-- Timer interrupts, orders and whole 10 ms ticks in any order from start-up, also interrupts inside an
-- order (behind its guards or between its two stores), as long as these do not end the
-- request the order is for: the state is well formed (the request is 0, 1 or 3, the debounce counters
-- are at most 21, the grant is a multiple of 50 up to 500), a serve line is on only while its own
-- product is requested, and never are both serve lines on. Interrupts inside a tick are left out.
pub run-safe :
    (es : List Event)
    → orders_undisturbed es (init reset) ≡ true
    → let s = (run es (init reset)).0 in IsPriceline s × ((s.serve1 && s.serve3) ≡ false)
run-safe es u =
    let h = run-IsPriceline es (init reset) init-reset-IsPriceline u in (h, ground arith)

-- The ticks until the grant has run out.
pub remaining : Priceline → ℕ
remaining s = if s.grant == 0 then 0 else (s.grant / 50 - 1) * 6 + s.count + 1

remaining-tick :
    (s : Priceline)
    → IsPriceline s
    → (remaining (tick s).0 ≡ remaining s - 1)
      × (count_served (tick s).1 ≡ (if remaining s == 1 then 1 else 0))
unfolding remaining tick
remaining-tick s h = ground arith

remaining-interrupt : (a b : Bool) (s : Priceline) → remaining (interrupt a b s) ≡ remaining s
unfolding remaining interrupt
remaining-interrupt true true s = ground arith
remaining-interrupt _ _ s = ground arith

abbrev pub ticks : List Event → ℕ
ticks [] = 0
ticks (main_tick ∷ es) = suc (ticks es)
ticks (_ ∷ es) = ticks es

-- The host asks for nothing meanwhile.
abbrev pub NoHost : Event → Type 0
NoHost (host _) = ⊥
NoHost (host_divided _ _ _) = ⊥
NoHost _ = Unit

-- While the host sends no further order, "served" is reported exactly once if the sequence holds
-- at least as many ticks as the running grant needs, and else not at all, whatever the price
-- lines do in between.
pub notified-run :
    (es : List Event) (s : Priceline)
    → IsPriceline s
    → All NoHost es
    → (run es s).1 ≡ (if ltb 0 (remaining s) && leb (remaining s) (ticks es) then 1 else 0)
unfolding run step
notified-run [] s h q = ground arith
notified-run (timer a b ∷ es) s h q = ground (
  arith,
  remaining-interrupt a b s,
  notified-run es (interrupt a b s) (interrupt-IsPriceline a b s h) q.1,
)
notified-run (host pl ∷ es) s h q = absurd q.0
notified-run (host_divided js pl ks ∷ es) s h q = absurd q.0
notified-run (main_tick ∷ es) s h q =
    ground (arith, remaining-tick s h, notified-run es (tick s).0 (tick-IsPriceline s h) q.1)

remaining-serve :
    (pl : ℕ) (s : Priceline)
    → IsPriceline s
    → (serve pl s).1 ≡ true
    → (55 ≤ remaining (serve pl s).0) × (remaining (serve pl s).0 ≤ 60)
unfolding remaining serve
remaining-serve pl s h e = ground arith

-- After an accepted order, and with no further order, "served" is reported once if the ticks that
-- pass are at least as many as the order needs, and else not at all, whatever the price lines do;
-- the order needs between 55 and 60 ticks (the grant of 500 is counted down by 50 at every sixth
-- tick of 10 ms).
pub run-serve_once :
    (pl : ℕ) (s : Priceline) (es : List Event)
    → IsPriceline s
    → (serve pl s).1 ≡ true
    → All NoHost es
    → let t = (serve pl s).0 in
      ((run es t).1 ≡ (if leb (remaining t) (ticks es) then 1 else 0))
      × (55 ≤ remaining t)
      × (remaining t ≤ 60)
run-serve_once pl s es h e q =
    let r = remaining-serve pl s h e in
    let n = notified-run es (serve pl s).0 (serve-IsPriceline pl s h) q in (ground arith, r.0, r.1)
