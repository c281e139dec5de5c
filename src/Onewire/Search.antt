-- ===== src/Onewire/Search.antt =====
-- `ow_search_rom` on a bus with devices (firmware/onewire/onewire.c).
use matemat.Base.{
  ℕ, ◌≤◌, ◌<◌, ◌≡◌, refl, sym, ap, ◌∙◌, true, false, inl, inr, ◌⊎◌, arith, List, [], ◌∷◌, Option,
  none, some, ltb, All, replicate,
}
use matemat.Base.Int.{ℤ, pos, negsuc, to_int8}
use matemat.Onewire.{Line, Ow, search_from, ow_search_rom, reset_onewire, write_bits, ow_write_byte}
use matemat.Onewire.Codes.{IsRom, rom_ext}
use matemat.Onewire.Devices.{In, Devices}
use matemat.Onewire.Order.{key, key_bits}
use matemat.Onewire.Path.{path, search_bits-path}
use matemat.Onewire.Successor.{last_open, open_or, last_open-range, none-greatest, path-PathTo}
use matemat.Onewire.Next.{path-least}
use matemat.Onewire.Follow.{Follows, path-Follows}

zero-IsRom : IsRom (replicate 8 0)
zero-IsRom =
    let lt : 0 < 256 = omega arith in (refl, (lt, (lt, (lt, (lt, (lt, (lt, (lt, (lt, tt)))))))))

Option-cases : (m : Option ℕ) → (m ≡ none) ⊎ ((p : ℕ) × (m ≡ some p))
Option-cases none = inl refl
Option-cases (some p) = inr (p, refl)

-- The last discrepancy that stands for a last open place.
unfoldable pub place : Option ℕ → ℤ
place none = negsuc 0
place (some p) = pos p

-- The search has found a device and knows its last open place.
unfoldable pub Found : List (List ℕ) → Ow → Type 0
Found codes o =
    In o.current_rom codes × (o.last_discrepancy ≡ place (last_open 64 0 codes o.current_rom))

pub Found-In : (codes : List (List ℕ)) (o : Ow) → Found codes o → In o.current_rom codes
unfolding Found
Found-In codes o h = h.0

pub In-All : (s : List (List ℕ)) (d : List ℕ) → All IsRom s → In d s → IsRom d
In-All [] d a m = absurd m
In-All (x ∷ xs) d a (inl e) = rw e a.0
In-All (x ∷ xs) d a (inr m) = In-All xs d a.1 m

pub same_key : (c d : List ℕ) → IsRom c → IsRom d → key 64 0 c ≡ key 64 0 d → c ≡ d
same_key c d r q e = rom_ext c d r q (λ i h. key_bits 64 0 c d i e (omega arith) (omega arith))

to_int8-place : (m : Option ℕ) → ((p : ℕ) → m ≡ some p → p < 64) → to_int8 (open_or m 255) ≡ place m
unfolding open_or place
to_int8-place none h = refl
to_int8-place (some p) h =
    let lt = h p refl in let small : ltb p 128 ≡ true = ground arith in rw small refl

module _ {B : Type 0} (l : Line B) where
  pub stopped :
      (o : Ow) (b : B) → o.last_discrepancy ≡ negsuc 0 → ow_search_rom l false o b ≡ (pos 0, o, b)
  unfolding ow_search_rom
  stopped o b h =
      ap {A = ℤ} {B = ℤ × Ow × B}
        (λ d. elim d [ pos n ↦ search_from l o b | negsuc n ↦ (pos 0, o, b) ]) h

  continued :
      (o : Ow) (b : B) (p : ℕ)
      → o.last_discrepancy ≡ pos p
      → ow_search_rom l false o b ≡ search_from l o b
  unfolding ow_search_rom
  continued o b p h =
      ap {A = ℤ} {B = ℤ × Ow × B}
        (λ d. elim d [ pos n ↦ search_from l o b | negsuc n ↦ (pos 0, o, b) ]) h

module _ {B : Type 0} (l : Line B) (codes : List (List ℕ)) (w : Devices l codes) where
  -- A search behind the first test, as the search without the line.
  search_from-path :
      (o : Ow) (b : B) (d : List ℕ)
      → In d codes
      → IsRom o.current_rom
      → let f = path 64 0 o.last_discrepancy o.current_rom 255 codes in
        let (ret, o', b') = search_from l o b in
        (ret ≡ pos 1) × (o' ≡ record o { current_rom = f.0; last_discrepancy = to_int8 f.1 })
  unfolding search_from reset_onewire write_bits ow_write_byte
  search_from-path o b d m r =
      let (data1, data2) = w.present b in
      let (done, rom, disc) =
        search_bits-path l codes w 64 0 o.last_discrepancy o.current_rom 255 codes _ d (w.starts b)
          m r (omega arith) in
      rw (data1, data2, done, rom, disc) (refl, refl)

  -- It leaves a found device.
  search_from-Found :
      (o : Ow) (b : B) (d : List ℕ)
      → All IsRom codes
      → In d codes
      → IsRom o.current_rom
      → let (ret, o', b') = search_from l o b in
        (ret ≡ pos 1)
        × Found codes o'
        × (o'.current_rom ≡ (path 64 0 o.last_discrepancy o.current_rom 255 codes).0)
        × (o'.lock ≡ o.lock)
  unfolding Found
  search_from-Found o b d a m r =
      let (ret, state) = search_from-path o b d m r in
      let found = path-PathTo 64 0 o.last_discrepancy o.current_rom 255 codes d m r (omega arith) in
      let (x, mx, k) = found.device in
      let f = path 64 0 o.last_discrepancy o.current_rom 255 codes in
      let here = same_key x f.0 (In-All codes x a mx) found.is_rom k in
      let range =
        λ (p : ℕ) (e : last_open 64 0 codes f.0 ≡ some p). (last_open-range 64 0 codes f.0 p e).1 in
      (
        ret,
        (rw (state, sym here) mx, rw (state, found.place) (to_int8-place _ range)),
        ap (λ (q : Ow). q.current_rom) state,
        ap (λ (q : Ow). q.lock) state,
      )

  -- The first search finds the least code of a device.
  pub ow_search_rom-first :
      (o : Ow) (b : B) (d : List ℕ)
      → All IsRom codes
      → In d codes
      → let (ret, o', b') = ow_search_rom l true o b in
        (ret ≡ pos 1)
        × Found codes o'
        × ((e : List ℕ) → In e codes → key 64 0 o'.current_rom ≤ key 64 0 e)
        × (o'.lock ≡ o.lock)
  unfolding ow_search_rom
  ow_search_rom-first o b d a m =
      let start = record o { last_discrepancy = negsuc 0; current_rom = replicate 8 0 } in
      let zeros : IsRom (replicate 8 0) = zero-IsRom in
      let (ret, found, rom, lock) = search_from-Found start b d a m zeros in
      (
        ret,
        found,
        λ e me.
            rw rom
              (path-least 64 0 (negsuc 0) (replicate 8 0) 255 codes e refl zeros (omega arith) me),
        lock,
      )

  -- On a bus with devices of these codes, each of eight bytes, behind a search that found a device and
  -- left its last open place: the next search finds the device whose code follows in the order of
  -- bits and leaves its last open place, or it returns 0, changes nothing, and no code is greater.
  pub ow_search_rom-next :
      (o : Ow) (b : B)
      → All IsRom codes
      → Found codes o
      → let (ret, o', b') = ow_search_rom l false o b in
        ((ret ≡ pos 1)
          × Found codes o'
          × Follows 64 0 codes o.current_rom o'.current_rom
          × (o'.lock ≡ o.lock))
        ⊎ ((ret ≡ pos 0)
            × (o' ≡ o)
            × ((e : List ℕ) → In e codes → key 64 0 e ≤ key 64 0 o.current_rom))
  unfolding Found place
  ow_search_rom-next o b a (m, e) =
      let r = In-All codes o.current_rom a m in
      elim (Option-cases (last_open 64 0 codes o.current_rom)) [
        | inl z ↦
            let stop : o.last_discrepancy ≡ negsuc 0 = e ∙ ap place z in
            rw (stopped l o b stop)
              (inr (refl, refl, λ x mx. none-greatest 64 0 codes o.current_rom x z mx))
        | inr (p, z) ↦
            let go : o.last_discrepancy ≡ pos p = e ∙ ap place z in
            let (ret, found, rom, lock) = search_from-Found o b o.current_rom a m r in
            rw (continued l o b p go) (
              inl (
                ret,
                found,
                rw (rom, go)
                    (path-Follows 64 0 p o.current_rom 255 codes o.current_rom r (omega arith) m
                      refl z),
                lock,
              ))
      ]
