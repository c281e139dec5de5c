-- ===== src/Onewire/Enumerate.antt =====
-- The list command lists every device (firmware/ecmd_parser/onewire.c, firmware/onewire/onewire.c).
use matemat.Base.{
  ℕ, zero, suc, ◌≤◌, ◌<◌, ◌≡◌, refl, ◌∙◌, true, false, inl, inr, arith, List, [], ◌∷◌, map, some,
  All, length, Bool-cases, ltb, ltb→lt,
}
use matemat.Onewire.{Line, Ow, ow_search_rom}
use matemat.Onewire.Codes.{IsRom}
use matemat.Onewire.Command.{print_rom, run_list}
use matemat.Onewire.Devices.{In, Devices}
use matemat.Onewire.Order.{key}
use matemat.Onewire.Follow.{Follows}
use matemat.Onewire.Search.{
  Found, Found-In, In-All, same_key, ow_search_rom-first, ow_search_rom-next,
}
use matemat.Onewire.Listing.{
  above, above-lt, above-length, Ascending, Sorted, answer-found, answer-end, parse_again,
  parse_first, run_list-more, run_list-end,
}

covers :
    (codes : List (List ℕ)) (r d : List ℕ) (rs : List (List ℕ))
    → All IsRom codes
    → In r codes
    → In d codes
    → key 64 0 r ≤ key 64 0 d
    → ((e : List ℕ) → In e codes → key 64 0 r < key 64 0 e → In e rs)
    → In d (r ∷ rs)
covers codes r d rs a m md le all = elim (Bool-cases (ltb (key 64 0 r) (key 64 0 d))) [
  | inl y ↦ inr (all d md (ltb→lt _ _ y))
  | inr n ↦
      let e : key 64 0 d ≡ key 64 0 r = ground arith in
      inl (same_key d r (In-All codes d a md) (In-All codes r a m) e)
]

module _ {B : Type 0} (l : Line B) (codes : List (List ℕ)) (w : Devices l codes) where
  -- The lines behind the device with the code `o.current_rom`.
  list_rest :
      (fuel len : ℕ) (o : Ow) (b : B)
      → All IsRom codes
      → 17 ≤ len
      → Found codes o
      → o.lock ≡ 1
      → above (key 64 0 o.current_rom) codes < fuel
      → (rs : List (List ℕ)) × (o' : Ow) × (b' : B) × (run_list l fuel len o b
          ≡ some (map print_rom rs, o', b'))
        × (o'.lock ≡ 0)
        × Ascending codes o.current_rom rs
        × ((d : List ℕ) → In d codes → key 64 0 o.current_rom < key 64 0 d → In d rs)
  unfolding Ascending Follows
  list_rest zero len o b a le found lock h = absurd (omega arith)
  list_rest (suc fuel) len o b a le found lock h =
      let (ret, o1, b1) = ow_search_rom l false o b in
      let parse = parse_again l len o b lock in
      elim (ow_search_rom-next l codes w o b a found) [
        | inl (one, again, follows, held) ↦
            let (lt, least) = follows in
            let m = Found-In codes o1 again in
            let r = In-All codes o1.current_rom a m in
            let answer = answer-found len (ow_search_rom l false o b) one le r.0 in
            let fewer = above-lt (key 64 0 o.current_rom) codes o1.current_rom m lt in
            let (rs, o2, b2, run, open_lock, sorted, all) =
              list_rest fuel len o1 b1 a le again (held ∙ lock) (omega arith) in
            (
              o1.current_rom ∷ rs,
              o2,
              b2,
              run_list-more l fuel len o o1 o2 b b1 b2 _ _ (parse ∙ answer) run,
              open_lock,
              (m, lt, sorted),
              λ d md gt. covers codes o1.current_rom d rs a m md (least d md gt) all,
            )
        | inr (none_left, same, greatest) ↦
            let answer = answer-end len (ow_search_rom l false o b) none_left in
            (
              [],
              record o1 { lock = 0 },
              b1,
              run_list-end l fuel len o _ b b1 (parse ∙ answer),
              refl,
              tt,
              λ d md gt. absurd (let k = greatest d md in omega arith),
            )
      ]

  -- On a bus with devices of these codes, at least one and each of eight bytes, the list command, run
  -- with the lock free and a buffer of 17 bytes or more until it stops, writes the code of every device
  -- once, in ascending order of the codes' bits, and gives the lock back; more calls than there are
  -- devices are enough.
  pub run_list-Sorted :
      (fuel len : ℕ) (o : Ow) (b : B) (d : List ℕ)
      → All IsRom codes
      → In d codes
      → 17 ≤ len
      → o.lock ≡ 0
      → length codes < fuel
      → (rs : List (List ℕ)) × (o' : Ow) × (b' : B) × (run_list l fuel len o b
          ≡ some (map print_rom rs, o', b'))
        × (o'.lock ≡ 0)
        × Sorted codes rs
        × ((e : List ℕ) → In e codes → In e rs)
  unfolding Sorted
  run_list-Sorted zero len o b d a m le lock h = absurd (omega arith)
  run_list-Sorted (suc fuel) len o b d a m le lock h =
      let start = record o { lock = 1 } in
      let (ret, o1, b1) = ow_search_rom l true start b in
      let (one, found, least, held) = ow_search_rom-first l codes w start b d a m in
      let mf = Found-In codes o1 found in
      let r = In-All codes o1.current_rom a mf in
      let parse = parse_first l len o b lock one in
      let answer = answer-found len (ow_search_rom l true start b) one le r.0 in
      let fewer = above-length codes o1.current_rom mf in
      let (rs, o2, b2, run, open_lock, sorted, all) =
        list_rest fuel len o1 b1 a le found held (omega arith) in
      (
        o1.current_rom ∷ rs,
        o2,
        b2,
        run_list-more l fuel len o o1 o2 b b1 b2 _ _ (parse ∙ answer) run,
        open_lock,
        (mf, sorted),
        λ e me. covers codes o1.current_rom e rs a mf me (least e me) all,
      )
