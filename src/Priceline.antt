-- ===== src/Priceline.antt =====
-- firmware2/priceline.c: the two price lines by which the coin mechanism requests a product, and
-- the two serve lines by which the controller grants it.
-- The pins PRICELINE1 and PRICELINE3 are inputs of each interrupt; the serve lines are the latches
-- of the output pins. The data direction registers set by `priceline_init` are not modelled.
pub mod Invariant
pub mod Debounce
pub mod Divided
pub mod Grant
pub mod Race
mod Tests
use matemat.Base.{ℕ, ◌+◌, ◌-◌, Bool, true, false, ◌&&◌, not, ◌==◌, if◌then◌else◌, u8, u16}

-- `struct pricelinedata`, `plfromint`, the statics of the interrupt and of `priceline_tick`, and
-- the output latches.
pub record Priceline : Type 0 where
  pub pl : ℕ
  pub updated : Bool
  pub grant : ℕ
  pub plfromint : Bool
  pub count1 : ℕ
  pub count3 : ℕ
  pub count : ℕ
  pub serve1 : Bool
  pub serve3 : Bool

-- The C initial values.
abbrev pub reset : Priceline
reset = record {
  pl = 0;
  updated = false;
  grant = 0;
  plfromint = false;
  count1 = 0;
  count3 = 0;
  count = 0;
  serve1 = false;
  serve3 = false;
}

unfoldable pub init : Priceline → Priceline
init s = record s { pl = 0; serve1 = false; serve3 = false; updated = true }

-- The debouncing of one line: `count++ == 20` is evaluated only while no request is pending.
sample1 : Bool → Priceline → Priceline
sample1 true s =
    if s.pl == 0
    then if s.count1 == 20
      then record s { count1 = u8 (s.count1 + 1); pl = 1; plfromint = true }
      else record s { count1 = u8 (s.count1 + 1) }
    else s
sample1 false s = record s { count1 = 0 }

sample3 : Bool → Priceline → Priceline
sample3 true s =
    if s.pl == 0
    then if s.count3 == 20
      then record s { count3 = u8 (s.count3 + 1); pl = 3; plfromint = true }
      else record s { count3 = u8 (s.count3 + 1) }
    else s
sample3 false s = record s { count3 = 0 }

release : Priceline → Priceline
release s =
    if s.grant == 0 && (s.count3 == 0 && (s.count1 == 0 && not (s.pl == 0)))
    then record s { serve1 = false; serve3 = false; pl = 0; plfromint = true }
    else s

-- `priceline_interrupt` with the levels of the two price lines.
unfoldable pub interrupt : Bool → Bool → Priceline → Priceline
unfolding sample1 sample3 release
interrupt high1 high3 s = release (sample3 high3 (sample1 high1 s))

unfoldable pub get : Priceline → ℕ
get s = s.pl

-- `priceline_serve` in the two stores that an interrupt may separate.
unfoldable pub serve_pin : ℕ → Priceline → Priceline
serve_pin pl s = if pl == 1 then record s { serve1 = true } else record s { serve3 = true }

unfoldable pub serve_grant : Priceline → Priceline
serve_grant s = record s { grant = 500 }

-- The guards of `priceline_serve`.
unfoldable pub may_serve : ℕ → Priceline → Bool
may_serve pl s = if pl == s.pl then (if pl == 1 then true else pl == 3) else false

unfoldable pub serve : ℕ → Priceline → Priceline × Bool
unfolding may_serve serve_pin serve_grant
serve pl s = if may_serve pl s then (serve_grant (serve_pin pl s), true) else (s, false)

-- The part of `priceline_tick` that runs at every sixth call.
expire : Priceline → Priceline × Bool
expire s =
    let g = u16 (s.grant + 65536 - 50) in
    if s.grant == 0 then (s, false) else (record s { grant = g }, g == 0)

report : Priceline → Priceline
report s = if s.plfromint then record s { updated = true; plfromint = false } else s

-- The result says whether `matemat_served` was called. `count-- == 0` compares before the
-- subtraction, which wraps at 0 and is then overwritten.
unfoldable pub tick : Priceline → Priceline × Bool
unfolding report expire
tick s =
    if s.count == 0
    then (let (t, served) = expire (report (record s { updated = false })) in
        (record t { count = 5 }, served))
    else (record s { updated = false; count = u16 (s.count + 65535) }, false)
