-- ===== src/Cron/Once.antt =====
-- How often the periodic check of firmware/cron/cron.c runs the events.
use matemat.Base.{
  ℕ, ◌+◌, ◌-◌, ◌/◌, ◌%◌, ◌≤◌, ◌<◌, ◌≡◌, refl, true, false, inl, inr, Bool-cases, Option, none, some,
  List, [], ◌∷◌, ◌++◌, arith, ◌==◌, if◌then◌else◌, ltb, u32,
}
use matemat.Clock.{clock_datetime}
use matemat.Clock.Total.{clock_datetime-total}
use matemat.Cron.{CronEvent, check_events, cron_periodic}

-- The handlers that the events matching the date of a time stamp call.
pub fired : List CronEvent → ℕ → List ℕ
fired table timestamp = elim (clock_datetime timestamp) [
  | none ↦ []
  | some d ↦ check_events table d
]

-- Each time stamp's minute fires once, at the first stamp in it, and the minute `m` no more.
pub due : List CronEvent → ℕ → List ℕ → List ℕ
due table m [] = []
due table m (t ∷ ts) =
    let same = due table m ts in
    let next = due table (t / 60) ts in if t / 60 == m then same else fired table t ++ next

-- Calls of `cron_periodic` at the given time stamps: the handlers called.
pub cron_run : List CronEvent → List ℕ → ℕ → Option (List ℕ)
cron_run table [] last_check = some []
cron_run table (t ∷ ts) last_check = elim (cron_periodic table t last_check) [
  | none ↦ none
  | some (l, called) ↦ elim (cron_run table ts l) [
    | none ↦ none
    | some rest ↦ some (called ++ rest)
  ]
]

-- 32-bit time stamps from `low` on that never decrease.
abbrev pub Ascending : ℕ → List ℕ → Type 0
Ascending low [] = Unit
Ascending low (t ∷ ts) = (low ≤ t) × (t < 4294967296) × Ascending t ts

Ascending-lower : (low t : ℕ) (ts : List ℕ) → low ≤ t → Ascending t ts → Ascending low ts
Ascending-lower low t [] h k = tt
Ascending-lower low t (x ∷ ts) h k = (omega (arith, k.0), k.1, k.2)

cron_periodic-same :
    (table : List CronEvent) (t last_check : ℕ)
    → last_check % 60 ≡ 0
    → last_check ≤ t
    → t < 4294967296
    → (t / 60 == last_check / 60) ≡ true
    → cron_periodic table t last_check ≡ some (last_check, [])
unfolding cron_periodic
cron_periodic-same table t last_check whole low high same =
    let e : u32 (t + 4294967296 - last_check) < 60 = ground arith in ground arith

cron_periodic-next :
    (table : List CronEvent) (t last_check : ℕ)
    → last_check % 60 ≡ 0
    → last_check ≤ t
    → t < 4294967296
    → (t / 60 == last_check / 60) ≡ false
    → cron_periodic table t last_check ≡ some (t - t % 60, fired table t)
unfolding cron_periodic fired
cron_periodic-next table t last_check whole low high next =
    let late : (ltb (u32 (t + 4294967296 - last_check)) 60) ≡ false = ground arith in
    let (d, e, _, sec, _) = clock_datetime-total t high in
    let s : u32 (t + 4294967296 - d.sec) ≡ t - t % 60 = omega (arith, sec) in
    let f : fired table t ≡ check_events table d = rw (fired, e) in rw (late, e, s, f)

-- However often and irregularly `cron_periodic` is called, at time stamps that never decrease, it
-- runs the events exactly once in each minute in which it is called and which lies behind the last
-- check: at the first call of that minute, with its date. No call reads behind a table.
pub cron_run-due :
    (table : List CronEvent) (ts : List ℕ) (last_check : ℕ)
    → last_check % 60 ≡ 0
    → Ascending last_check ts
    → cron_run table ts last_check ≡ some (due table (last_check / 60) ts)
unfolding cron_run due
cron_run-due table [] last_check whole asc = refl
cron_run-due table (t ∷ ts) last_check whole (low, high, asc) =
    elim (Bool-cases (t / 60 == last_check / 60)) [
      | inl same ↦
          let e = cron_periodic-same table t last_check whole low high same in
          let ih =
            cron_run-due table ts last_check whole (Ascending-lower last_check t ts low asc) in
          rw (cron_run, due, e, ih, same)
      | inr next ↦
          let e = cron_periodic-next table t last_check whole low high next in
          let l = t - t % 60 in
          let minute : l / 60 ≡ t / 60 = omega arith in
          let ih =
            cron_run-due table ts l (omega arith) (Ascending-lower l t ts (omega arith) asc) in
          rw (cron_run, due, e, ih, next, minute)
    ]
