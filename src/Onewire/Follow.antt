-- ===== src/Onewire/Follow.antt =====
-- The code that follows another (firmware/onewire/onewire.c, `ow_search_rom`).
use matemat.Base.{
  ℕ, zero, suc, ◌+◌, ◌≤◌, ◌<◌, ◌≡◌, sym, ◌∙◌, true, false, inl, inr, Bool-cases, arith, List, ◌==◌,
  ==_iff, none, some,
}
use matemat.Base.Int.{ℤ, pos}
use matemat.Onewire.{rom_bit}
use matemat.Onewire.Codes.{IsRom, rom_ext}
use matemat.Onewire.Devices.{In, all_zeros, keep, In-keep}
use matemat.Onewire.Order.{key, key-lt, key_bits, key_ext}
use matemat.Onewire.Path.{path, chosen, chosen-Chosen, Chosen}
use matemat.Onewire.Successor.{
  path-PathTo, last_open, none-greatest, last_open-range, last_open-cases,
}
use matemat.Onewire.Next.{chosen-kept, chosen-turned, behind_self, path-least}

-- The least code above another.
unfoldable pub Follows : ℕ → ℕ → List (List ℕ) → List ℕ → List ℕ → Type 0
Follows n i s rom f =
    (key n i rom < key n i f)
    × ((d : List ℕ) → In d s → key n i rom < key n i d → key n i f ≤ key n i d)

same_first :
    (n i : ℕ) (s : List (List ℕ)) (rom f : List ℕ)
    → rom_bit f i ≡ rom_bit rom i
    → Follows n (i + 1) (keep i (rom_bit rom i) s) rom f
    → Follows (suc n) i s rom f
unfolding Follows key
same_first n i s rom f e (lt, least) = (
  rw e (omega (arith, lt)),
  λ d m g.
      let small = key-lt n (i + 1) f in
      let low = key-lt n (i + 1) d in
      elim (Bool-cases (rom_bit rom i)) [
        | inl y ↦ elim (Bool-cases (rom_bit d i)) [
          | inl z ↦
              let above = rw (y, z) at g in
              let k = least d (In-keep d i _ s m (z ∙ sym y)) (omega (arith, above)) in
              rw (e, y, z) (omega (arith, k))
          | inr z ↦ absurd (let above = rw (y, z) at g in omega (arith, above, low))
        ]
        | inr y ↦ elim (Bool-cases (rom_bit d i)) [
          | inl z ↦ rw (e, y, z) (omega (arith, small))
          | inr z ↦
              let above = rw (y, z) at g in
              let k = least d (In-keep d i _ s m (z ∙ sym y)) (omega (arith, above)) in
              rw (e, y, z) (omega (arith, k))
        ]
      ],
)

turned_first :
    (n i : ℕ) (s : List (List ℕ)) (rom f : List ℕ)
    → rom_bit rom i ≡ false
    → rom_bit f i ≡ true
    → last_open n (i + 1) (keep i false s) rom ≡ none
    → ((d : List ℕ) → In d (keep i true s) → key n (i + 1) f ≤ key n (i + 1) d)
    → Follows (suc n) i s rom f
unfolding Follows key
turned_first n i s rom f y e rest least =
    let small = key-lt n (i + 1) rom in
    (
      rw (y, e) (omega (arith, small)),
      λ d m g. elim (Bool-cases (rom_bit d i)) [
        | inl z ↦ (let k = least d (In-keep d i true s m z) in rw (e, z) (omega (arith, k)))
        | inr z ↦ absurd (
            let top =
              none-greatest n (i + 1) (keep i false s) rom d rest (In-keep d i false s m z) in
            let k = rw (y, z) at g in omega (arith, k, top))
      ],
    )

unchanged :
    (s : List (List ℕ)) (last : ℤ) (i : ℕ) (rom : List ℕ) (disc : ℕ)
    → Chosen s i rom disc (chosen s last i rom disc)
    → (chosen s last i rom disc).sent ≡ rom_bit rom i
    → IsRom rom
    → (chosen s last i rom disc).rom ≡ rom
unchanged s last i rom disc ch kept r = rom_ext _ rom ch.is_rom r λ j h.
    elim (Bool-cases (j == i)) [
      | inl y ↦ (let q = (==_iff j i).0 y in rw q (ch.wrote ∙ kept))
      | inr o ↦ ch.others j (ground arith)
    ]

path-turned :
    (n i : ℕ) (rom : List ℕ) (disc : ℕ) (s : List (List ℕ)) (e : List ℕ)
    → IsRom rom
    → i + suc n ≤ 64
    → In e s
    → rom_bit e i ≡ false
    → rom_bit rom i ≡ false
    → all_zeros i s ≡ false
    → last_open n (i + 1) (keep i false s) rom ≡ none
    → Follows (suc n) i s rom (path (suc n) i (pos i) rom disc s).0
unfolding path
path-turned n i rom disc s e r h m q y z rest =
    let c = chosen s (pos i) i rom disc in
    let ch = chosen-Chosen s (pos i) i rom disc e m r (omega arith) in
    let (x, mx, p) = ch.device in
    let found =
      path-PathTo n (i + 1) (pos i) c.rom c.discrepancy (keep i c.sent s) x
        (In-keep x i c.sent s mx p) ch.is_rom (omega arith) in
    let one = chosen-turned s i rom disc e m q z in
    turned_first n i s rom _ y (found.prefix i (omega arith) ∙ ch.wrote ∙ one) rest λ d k.
      path-least n (i + 1) (pos i) c.rom c.discrepancy (keep i c.sent s) d (behind_self i) ch.is_rom
        (omega arith) (rw one k)

-- A search whose last discrepancy is the last open place of a device's code finds the next code.
pub path-Follows :
    (n i l : ℕ) (rom : List ℕ) (disc : ℕ) (s : List (List ℕ)) (e : List ℕ)
    → IsRom rom
    → i + n ≤ 64
    → In e s
    → key n i e ≡ key n i rom
    → last_open n i s rom ≡ some l
    → Follows n i s rom (path n i (pos l) rom disc s).0
unfolding path
path-Follows zero i l rom disc s e r h m q o =
    absurd (let (a, b) = last_open-range zero i s rom l o in omega arith)
path-Follows (suc n) i l rom disc s e r h m q o =
    let c = chosen s (pos l) i rom disc in
    let ch = chosen-Chosen s (pos l) i rom disc e m r (omega arith) in
    let (x, mx, p) = ch.device in
    let found =
      path-PathTo n (i + 1) (pos l) c.rom c.discrepancy (keep i c.sent s) x
        (In-keep x i c.sent s mx p) ch.is_rom (omega arith) in
    let bit = found.prefix i (omega arith) ∙ ch.wrote in
    let agree = λ (j : ℕ) (a : i ≤ j) (b : j < i + suc n). key_bits (suc n) i e rom j q a b in
    let first = agree i (omega arith) (omega arith) in
    elim (last_open-cases n i s rom l o) [
      | inl rest ↦
          let (below, above) = last_open-range n (i + 1) (keep i (rom_bit rom i) s) rom l rest in
          let kept = chosen-kept s l i rom disc e (omega arith) m first in
          let same = unchanged s (pos l) i rom disc ch kept r in
          let tail = key_ext n (i + 1) e rom (λ j a b. agree j (omega arith) (omega arith)) in
          let ih =
            path-Follows n (i + 1) l rom c.discrepancy (keep i (rom_bit rom i) s) e r (omega arith)
              (In-keep e i (rom_bit rom i) s m first) tail rest in
          same_first n i s rom _ (bit ∙ kept) (rw (same, kept) ih)
      | inr (rest, y, z, here) ↦
          rw (sym here) (path-turned n i rom disc s e r h m (first ∙ y) y z (rw y at rest))
    ]
