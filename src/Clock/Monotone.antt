-- ===== src/Clock/Monotone.antt =====
-- The time stamp of firmware/clock/clock.c never runs backward.
use matemat.Base.{ℕ, ◌+◌, ◌≤◌, ◌<◌, ◌≡◌, List, [], ◌∷◌, arith, leb, if◌then◌else◌}
use matemat.Clock.{Options, Clock, clock_tick, crystal_overflow, clock_set_time}

-- The calls that change the time.
pub data Event : Type 0 where
  tick : Event
  overflow : Event
  sync : ℕ → Event

pub step : Options → Event → Clock → Clock
step o tick c = (clock_tick o c).0
step o overflow c = crystal_overflow o c
step o (sync t) c = clock_set_time o t c

pub run : Options → List Event → Clock → Clock
run o [] c = c
run o (e ∷ es) c = run o es (step o e c)

-- How many seconds the events count: those of the source that the build uses.
abbrev pub seconds : Options → List Event → ℕ
seconds o [] = 0
seconds o (tick ∷ es) = (if o.crystal then 0 else 1) + seconds o es
seconds o (overflow ∷ es) = (if o.crystal then 1 else 0) + seconds o es
seconds o (sync t ∷ es) = seconds o es

-- No time that is set exceeds `b`.
abbrev pub SyncBelow : ℕ → List Event → Type 0
SyncBelow b [] = Unit
SyncBelow b (sync t ∷ es) = (t ≤ b) × SyncBelow b es
SyncBelow b (_ ∷ es) = SyncBelow b es

clock_tick-counts :
    (o : Options) (c : Clock)
    → c.sync_timestamp ≤ c.timestamp
    → c.timestamp + (if o.crystal then 0 else 1) < 4294967296
    → ((clock_tick o c).0.timestamp ≡ c.timestamp + (if o.crystal then 0 else 1))
      × ((clock_tick o c).0.sync_timestamp ≡ c.sync_timestamp)
unfolding clock_tick
clock_tick-counts o c h k = ground arith

crystal_overflow-counts :
    (o : Options) (c : Clock)
    → c.sync_timestamp ≤ c.timestamp
    → c.timestamp + (if o.crystal then 1 else 0) < 4294967296
    → ((crystal_overflow o c).timestamp ≡ c.timestamp + (if o.crystal then 1 else 0))
      × ((crystal_overflow o c).sync_timestamp ≡ c.sync_timestamp)
unfolding crystal_overflow
crystal_overflow-counts o c h k = ground arith

clock_set_time-max :
    (o : Options) (t : ℕ) (c : Clock)
    → ((clock_set_time o t c).timestamp ≡ (if leb t c.timestamp then c.timestamp else t))
      × ((clock_set_time o t c).sync_timestamp ≡ t)
unfolding clock_set_time
clock_set_time-max o t c = ground arith

SyncBelow-weaken : (b b' : ℕ) (es : List Event) → b ≤ b' → SyncBelow b es → SyncBelow b' es
SyncBelow-weaken b b' [] h k = tt
SyncBelow-weaken b b' (tick ∷ es) h k = SyncBelow-weaken b b' es h k
SyncBelow-weaken b b' (overflow ∷ es) h k = SyncBelow-weaken b b' es h k
SyncBelow-weaken b b' (sync t ∷ es) h k = (omega arith, SyncBelow-weaken b b' es h k.1)

-- In every build, for a clock that starts at or below `b` and not before its last synchronisation,
-- over any sequence of ticks, timer overflows and synchronisations that set no time above `b`, as
-- long as the 32 bits suffice: the clock gains at least the seconds that were counted, gets no
-- further than `b` plus those seconds, and ends not before its last synchronisation.
pub run-monotone :
    (o : Options) (es : List Event) (c : Clock) (b : ℕ)
    → c.sync_timestamp ≤ c.timestamp
    → c.timestamp ≤ b
    → SyncBelow b es
    → b + seconds o es < 4294967296
    → (c.timestamp + seconds o es ≤ (run o es c).timestamp)
      × ((run o es c).timestamp ≤ b + seconds o es)
      × ((run o es c).sync_timestamp ≤ (run o es c).timestamp)
unfolding run step
run-monotone o [] c b h k below fits = omega arith
run-monotone o (tick ∷ es) c b h k below fits =
    let n : ℕ = if o.crystal then 0 else 1 in
    let p = clock_tick-counts o c h (omega arith) in
    let ih =
      run-monotone o es (clock_tick o c).0 (b + n) (omega arith) (omega arith)
        (SyncBelow-weaken b (b + n) es (omega arith) below) (omega arith) in
    omega arith
run-monotone o (overflow ∷ es) c b h k below fits =
    let n : ℕ = if o.crystal then 1 else 0 in
    let p = crystal_overflow-counts o c h (omega arith) in
    let ih =
      run-monotone o es (crystal_overflow o c) (b + n) (omega arith) (omega arith)
        (SyncBelow-weaken b (b + n) es (omega arith) below) (omega arith) in
    omega arith
run-monotone o (sync t ∷ es) c b h k below fits =
    let p = clock_set_time-max o t c in
    let ih =
      run-monotone o es (clock_set_time o t c) b (ground arith) (ground arith) below.1 fits in
    ground arith
