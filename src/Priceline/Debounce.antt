-- ===== src/Priceline/Debounce.antt =====
-- The debouncing of the price lines in firmware2/priceline.c, and when a request ends.
use matemat.Base.{
  ℕ, zero, suc, ◌+◌, ◌≤◌, ◌<◌, ◌≡◌, Bool, true, false, arith, leb, ◌==◌, if◌then◌else◌,
}
use matemat.Priceline.{Priceline, interrupt}
use matemat.Priceline.Invariant.{IsPriceline}

-- `k` timer interrupts with constant levels on the two lines.
pub hold : Bool → Bool → ℕ → Priceline → Priceline
hold high1 high3 zero s = s
hold high1 high3 (suc k) s = hold high1 high3 k (interrupt high1 high3 s)

interrupt_waiting1 :
    (s : Priceline)
    → s.pl ≡ 0
    → s.count1 ≤ 20
    → ((interrupt true false s).pl ≡ (if s.count1 == 20 then 1 else 0))
      × ((interrupt true false s).count1 ≡ s.count1 + 1)
unfolding interrupt
interrupt_waiting1 s e c = ground arith

interrupt_pending1 :
    (s : Priceline)
    → s.pl ≡ 1
    → 0 < s.count1
    → ((interrupt true false s).pl ≡ 1) × ((interrupt true false s).count1 ≡ s.count1)
unfolding interrupt
interrupt_pending1 s e c = ground arith

interrupt_waiting3 :
    (s : Priceline)
    → s.pl ≡ 0
    → s.count3 ≤ 20
    → ((interrupt false true s).pl ≡ (if s.count3 == 20 then 3 else 0))
      × ((interrupt false true s).count3 ≡ s.count3 + 1)
unfolding interrupt
interrupt_waiting3 s e c = ground arith

interrupt_pending3 :
    (s : Priceline)
    → s.pl ≡ 3
    → 0 < s.count3
    → ((interrupt false true s).pl ≡ 3) × ((interrupt false true s).count3 ≡ s.count3)
unfolding interrupt
interrupt_pending3 s e c = ground arith

hold_pending1 : (k : ℕ) (s : Priceline) → s.pl ≡ 1 → 0 < s.count1 → (hold true false k s).pl ≡ 1
unfolding hold
hold_pending1 zero s e p = e
hold_pending1 (suc k) s e p =
    let (e', c) = interrupt_pending1 s e p in
    hold_pending1 k (interrupt true false s) e' (omega arith)

hold_pending3 : (k : ℕ) (s : Priceline) → s.pl ≡ 3 → 0 < s.count3 → (hold false true k s).pl ≡ 3
unfolding hold
hold_pending3 zero s e p = e
hold_pending3 (suc k) s e p =
    let (e', c) = interrupt_pending3 s e p in
    hold_pending3 k (interrupt false true s) e' (omega arith)

hold_waiting1 :
    (k : ℕ) (s : Priceline)
    → s.pl ≡ 0
    → s.count1 ≤ 20
    → (hold true false k s).pl ≡ (if leb 21 (s.count1 + k) then 1 else 0)
unfolding hold
hold_waiting1 zero s e c = ground arith
hold_waiting1 (suc k) s e c = ground (
  arith,
  interrupt_waiting1 s e c,
  hold_waiting1 k (interrupt true false s),
  hold_pending1 k (interrupt true false s),
)

hold_waiting3 :
    (k : ℕ) (s : Priceline)
    → s.pl ≡ 0
    → s.count3 ≤ 20
    → (hold false true k s).pl ≡ (if leb 21 (s.count3 + k) then 3 else 0)
unfolding hold
hold_waiting3 zero s e c = ground arith
hold_waiting3 (suc k) s e c = ground (
  arith,
  interrupt_waiting3 s e c,
  hold_waiting3 k (interrupt false true s),
  hold_pending3 k (interrupt false true s),
)

-- From a state with no request pending, a line that is held high for k interrupts while the other
-- is low makes its request exactly when the samples it was already held for and k are at least
-- 21 together; the request is that of the line.
hold_requests :
    (k : ℕ) (s : Priceline)
    → IsPriceline s
    → s.pl ≡ 0
    → ((hold true false k s).pl ≡ (if leb 21 (s.count1 + k) then 1 else 0))
      × ((hold false true k s).pl ≡ (if leb 21 (s.count3 + k) then 3 else 0))
hold_requests k s h e =
    (hold_waiting1 k s e (h.count1_waiting e), hold_waiting3 k s e (h.count3_waiting e))

-- While a grant runs, no level of the price lines withdraws the request or moves a serve line.
interrupt_granted :
    (a b : Bool) (s : Priceline)
    → IsPriceline s
    → 0 < s.grant
    → ((interrupt a b s).pl ≡ s.pl)
      × ((interrupt a b s).serve1 ≡ s.serve1)
      × ((interrupt a b s).serve3 ≡ s.serve3)
unfolding interrupt
interrupt_granted true true s h g = ground arith
interrupt_granted _ _ s h g = ground arith

-- With no grant running, one interrupt that finds both lines low ends the request, and both serve
-- lines are off then.
interrupt_release :
    (s : Priceline)
    → IsPriceline s
    → s.grant ≡ 0
    → let t = interrupt false false s in (t.pl ≡ 0) × (t.serve1 ≡ false) × (t.serve3 ≡ false)
unfolding interrupt
interrupt_release s h g = ground arith
