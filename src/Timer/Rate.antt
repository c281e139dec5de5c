-- ===== src/Timer/Rate.antt =====
-- How often firmware/timer.c calls the bus and the clock.
use matemat.Base.{
  ℕ, zero, suc, ◌+◌, ◌-◌, ◌/◌, ◌%◌, ◌<◌, ◌≡◌, refl, ◌∙◌, Bool, true, false, ◌||◌, ◌==◌, List, [],
  ◌∷◌, ◌++◌, arith, if◌then◌else◌, Bool-cases, u16, inl, ap, not, inr,
}
use matemat.Timer.{
  Call, watchcat_call, zbus_call, clock_call, tcp_call, udp_call, Options, Timer, tick,
  timer_process, tick_calls, net_calls, second_calls, arp_calls, tcp_calls, udp_calls,
}

-- One pass of the main loop: whether the timer expired before it, and whether the buffer is locked.
pub record Pass : Type 0 where
  pub expires : Bool
  pub locked : Bool

unfoldable pub pass : Options → Pass → Timer → Timer × List Call
pass o p t = timer_process o p.locked (record t { expired = t.expired || p.expires })

unfoldable pub timer_run : Options → List Pass → Timer → Timer × List Call
timer_run o [] t = (t, [])
timer_run o (p ∷ ps) t =
    let (t1, calls) = pass o p t in let (t2, rest) = timer_run o ps t1 in (t2, calls ++ rest)

-- How many of the calls are of a kind.
unfoldable pub count : (Call → Bool) → List Call → ℕ
count f [] = 0
count f (c ∷ cs) = let rest = count f cs in if f c then suc rest else rest

abbrev pub is_tick : Call → Bool
is_tick watchcat_call = true
is_tick _ = false

abbrev pub is_zbus : Call → Bool
is_zbus zbus_call = true
is_zbus _ = false

abbrev pub is_clock : Call → Bool
is_clock clock_call = true
is_clock _ = false

pub count-append :
    (f : Call → Bool) (cs ds : List Call) → count f (cs ++ ds) ≡ count f cs + count f ds
unfolding count
count-append f [] ds = omega arith
count-append f (c ∷ cs) ds = let ih = count-append f cs ds in ground (arith, ih)

count-tcp_calls :
    (f : Call → Bool) → ((i : ℕ) → f (tcp_call i) ≡ false) → (i n : ℕ) → count f (tcp_calls i n) ≡ 0
unfolding count tcp_calls
count-tcp_calls f h i zero = refl
count-tcp_calls f h i (suc n) = rw (h i) (count-tcp_calls f h (i + 1) n)

count-udp_calls :
    (f : Call → Bool) → ((i : ℕ) → f (udp_call i) ≡ false) → (i n : ℕ) → count f (udp_calls i n) ≡ 0
unfolding count udp_calls
count-udp_calls f h i zero = refl
count-udp_calls f h i (suc n) = rw (h i) (count-udp_calls f h (i + 1) n)

count-net_calls :
    (f : Call → Bool) (o : Options) (c : ℕ)
    → ((i : ℕ) → f (tcp_call i) ≡ false)
    → ((i : ℕ) → f (udp_call i) ≡ false)
    → o.teensy ≡ false
    → count f (net_calls o c) ≡ (if c % 10 == 0 then count f (zbus_call ∷ []) else 0)
unfolding count net_calls
count-net_calls f o c tcp udp plain =
    let both = count-append f (tcp_calls 0 o.tcp_conns) (udp_calls 0 o.udp_conns) in
    let none : count f (tcp_calls 0 o.tcp_conns ++ udp_calls 0 o.udp_conns) ≡ 0 =
      omega
        (arith, both, count-tcp_calls f tcp 0 o.tcp_conns, count-udp_calls f udp 0 o.udp_conns) in
    elim (Bool-cases (c % 10 == 0)) [
      | inl y ↦ rw (plain, y, none) refl
      | inr n ↦ rw (plain, n) refl
    ]

-- The calls of one tick that are of a kind.
count-tick :
    (f : Call → Bool) (o : Options) (t : Timer)
    → ((i : ℕ) → f (tcp_call i) ≡ false)
    → ((i : ℕ) → f (udp_call i) ≡ false)
    → o.teensy ≡ false
    → t.counter < 500
    → count f (tick o t).1
      ≡ count f tick_calls
        + ((if (t.counter + 1) % 10 == 0 then count f (zbus_call ∷ []) else 0)
            + (count f (second_calls (t.counter + 1)) + count f (arp_calls (t.counter + 1))))
unfolding tick
count-tick f o t tcp udp plain small =
    let c = t.counter + 1 in
    let same : u16 c ≡ c = omega arith in
    let a = count-append f tick_calls (net_calls o c ++ (second_calls c ++ arp_calls c)) in
    let b = count-append f (net_calls o c) (second_calls c ++ arp_calls c) in
    let d = count-append f (second_calls c) (arp_calls c) in
    let net = count-net_calls f o c tcp udp plain in
    rw same (a ∙ ap (λ x. count f tick_calls + x) (b ∙ rw (net, d)))

-- What a run with `n` ticks that were taken does, from a counter `c` on.
pub record IsRate (c n : ℕ) (t : Timer) (calls : List Call) : Type 0 where
  pub counted : t.counter ≡ (c + n) % 500
  pub buses : count is_zbus calls ≡ (c + n) / 10 - c / 10
  pub clocks : count is_clock calls ≡ (c + n) / 50 - c / 50

tick-counter :
    (o : Options) (t : Timer) → t.counter < 500 → (tick o t).0.counter ≡ (t.counter + 1) % 500
unfolding tick
tick-counter o t small = ground arith

tick-ticks :
    (o : Options) (t : Timer) → o.teensy ≡ false → t.counter < 500 → count is_tick (tick o t).1 ≡ 1
unfolding count second_calls arp_calls
tick-ticks o t plain small =
    let e = count-tick is_tick o t (λ i. refl) (λ i. refl) plain small in ground (arith, e)

tick-IsRate :
    (o : Options) (t : Timer)
    → o.teensy ≡ false
    → t.counter < 500
    → IsRate t.counter 1 (tick o t).0 (tick o t).1
unfolding count second_calls arp_calls
tick-IsRate o t plain small =
    let z = count-tick is_zbus o t (λ i. refl) (λ i. refl) plain small in
    let k = count-tick is_clock o t (λ i. refl) (λ i. refl) plain small in
    record {
      counted = tick-counter o t small;
      buses = ground (arith, z);
      clocks = ground (arith, k);
    }

IsRate-none : (c : ℕ) (t : Timer) → t.counter ≡ c → c < 500 → IsRate c (count is_tick []) t []
unfolding count
IsRate-none c t h small = record {
  counted = omega arith;
  buses = omega arith;
  clocks = omega arith;
}

pass-IsRate :
    (o : Options) (p : Pass) (t : Timer)
    → o.teensy ≡ false
    → t.counter < 500
    → let (t', calls) = pass o p t in IsRate t.counter (count is_tick calls) t' calls
unfolding pass timer_process
pass-IsRate o p t plain small =
    let t0 = record t { expired = t.expired || p.expires } in
    let one = tick-ticks o t0 plain small in
    let r = tick-IsRate o t0 plain small in
    elim (Bool-cases (not (t.expired || p.expires) || p.locked)) [
      | inl y ↦
          rw y (IsRate-none t.counter (record t { expired = t.expired || p.expires }) refl small)
      | inr n ↦ rw (n, one) r
    ]

-- Passes of the main loop with the timer expiring and the buffer locked whenever they do: the calls
-- of the bus and of the clock come once in ten and once in fifty of the ticks that are taken, and
-- with the counter they depend on nothing but how many those are.
pub timer_run-IsRate :
    (o : Options) (ps : List Pass) (t : Timer)
    → o.teensy ≡ false
    → t.counter < 500
    → let (t', calls) = timer_run o ps t in IsRate t.counter (count is_tick calls) t' calls
unfolding timer_run
timer_run-IsRate o [] t plain small = IsRate-none t.counter t refl small
timer_run-IsRate o (p ∷ ps) t plain small =
    let first = pass-IsRate o p t plain small in
    let t1 = (pass o p t).0 in
    let rest = timer_run-IsRate o ps t1 plain (omega (arith, first.counted)) in
    let cs = (pass o p t).1 in
    let ds = (timer_run o ps t1).1 in
    let n = count-append is_tick cs ds in
    let z = count-append is_zbus cs ds in
    let k = count-append is_clock cs ds in
    record {
      counted = omega (arith, n, first.counted, rest.counted);
      buses = omega (arith, n, z, first.counted, first.buses, rest.buses);
      clocks = omega (arith, n, k, first.counted, first.clocks, rest.clocks);
    }
