-- ===== src/Onewire/Successor.antt =====
-- Which device a search of `ow_search_rom` (firmware/onewire/onewire.c) finds, in the order of codes.
use matemat.Base.{
  ℕ, zero, suc, ◌+◌, ◌≤◌, ◌<◌, ◌≡◌, refl, ap, ◌∙◌, Bool, true, false, not, ◌&&◌, inl, inr, ◌⊎◌,
  Bool-cases, if◌then◌else◌, arith, List, Option, none, some,
}
use matemat.Base.Int.{ℤ}
use matemat.Onewire.{rom_bit}
use matemat.Onewire.Codes.{IsRom}
use matemat.Onewire.Devices.{In, all_zeros, keep, In-keep, keep-In, all_zeros-true}
use matemat.Onewire.Order.{key, key-lt}
use matemat.Onewire.Path.{path, chosen, chosen-Chosen}

unfoldable pub pick_open : Option ℕ → ℕ → Bool → Option ℕ
pick_open none i o = if o then some i else none
pick_open (some p) i o = some p

unfoldable pub open_or : Option ℕ → ℕ → ℕ
open_or none disc = disc
open_or (some p) disc = p

pick_open-some :
    (m : Option ℕ) (i : ℕ) (o : Bool) (p : ℕ)
    → pick_open m i o ≡ some p
    → (m ≡ some p) ⊎ ((m ≡ none) × (o ≡ true) × (i ≡ p))
unfolding pick_open
pick_open-some (some q) i o p h = inl h
pick_open-some none i true p h = inr (refl, refl, cc h)
pick_open-some none i false p h = absurd (cc h)

pick_open-none :
    (m : Option ℕ) (i : ℕ) (o : Bool) → pick_open m i o ≡ none → (m ≡ none) × (o ≡ false)
unfolding pick_open
pick_open-none (some q) i o h = absurd (cc h)
pick_open-none none i true h = absurd (cc h)
pick_open-none none i false h = (refl, refl)

open_or-pick :
    (m : Option ℕ) (i : ℕ) (o : Bool) (disc : ℕ)
    → open_or (pick_open m i o) disc ≡ open_or m (if o then i else disc)
unfolding pick_open open_or
open_or-pick (some q) i o disc = refl
open_or-pick none i true disc = refl
open_or-pick none i false disc = refl

-- The last place of a code where a device that agrees with it before has 1 for its 0.
unfoldable pub last_open : ℕ → ℕ → List (List ℕ) → List ℕ → Option ℕ
last_open zero i s r = none
last_open (suc n) i s r =
    pick_open (last_open n (i + 1) (keep i (rom_bit r i) s) r) i
      (not (rom_bit r i) && not (all_zeros i s))

pub last_open-cases :
    (n i : ℕ) (s : List (List ℕ)) (r : List ℕ) (p : ℕ)
    → last_open (suc n) i s r ≡ some p
    → let rest = last_open n (i + 1) (keep i (rom_bit r i) s) r in
      (rest ≡ some p) ⊎ ((rest ≡ none) × (rom_bit r i ≡ false) × (all_zeros i s ≡ false) × (i ≡ p))
unfolding last_open
last_open-cases n i s r p h =
    elim (pick_open-some (last_open n (i + 1) (keep i (rom_bit r i) s) r) i _ p h) [
      | inl q ↦ inl q
      | inr (q, o, e) ↦ inr (q, ground (arith, o), ground (arith, o), e)
    ]

pub last_open-range :
    (n i : ℕ) (s : List (List ℕ)) (r : List ℕ) (p : ℕ)
    → last_open n i s r ≡ some p
    → (i ≤ p) × (p < i + n)
unfolding last_open
last_open-range zero i s r p h = absurd (cc h)
last_open-range (suc n) i s r p h = elim (last_open-cases n i s r p h) [
  | inl q ↦
      (let (a, b) = last_open-range n (i + 1) (keep i (rom_bit r i) s) r p q in
        (omega arith, omega arith))
  | inr (q, o, z, e) ↦ (omega arith, omega arith)
]

pub last_open-ext :
    (n i : ℕ) (s : List (List ℕ)) (r q : List ℕ)
    → ((j : ℕ) → i ≤ j → j < i + n → rom_bit r j ≡ rom_bit q j)
    → last_open n i s r ≡ last_open n i s q
unfolding last_open
last_open-ext zero i s r q e = refl
last_open-ext (suc n) i s r q e =
    let first = e i (omega arith) (omega arith) in
    let rest =
      last_open-ext n (i + 1) (keep i (rom_bit q i) s) r q
        (λ j a b. e j (omega arith) (omega arith)) in
    rw (first, rest) refl

-- Without such a place the code is the greatest.
pub none-greatest :
    (n i : ℕ) (s : List (List ℕ)) (r d : List ℕ)
    → last_open n i s r ≡ none
    → In d s
    → key n i d ≤ key n i r
unfolding last_open key
none-greatest zero i s r d h m = omega arith
none-greatest (suc n) i s r d h m =
    let (rest, closed) = pick_open-none _ _ _ h in
    let lt = key-lt n (i + 1) d in
    elim (Bool-cases (rom_bit r i)) [
      | inl y ↦ elim (Bool-cases (rom_bit d i)) [
        | inl z ↦
            let ih =
              none-greatest n (i + 1) (keep i true s) r d (rw y at rest) (In-keep d i true s m z) in
            rw (y, z) (omega (arith, ih))
        | inr z ↦ rw (y, z) (omega (arith, lt))
      ]
      | inr y ↦
          let zeros : all_zeros i s ≡ true = ground (arith, closed, y) in
          let z = all_zeros-true d i s zeros m in
          let ih =
            none-greatest n (i + 1) (keep i false s) r d (rw y at rest) (In-keep d i false s m z) in
          rw (y, z) (omega (arith, ih))
    ]

-- A search ends at a device's code, and has the last open place of it.
pub record PathTo (n i disc : ℕ) (rom : List ℕ) (s : List (List ℕ)) (found : List ℕ × ℕ)
    : Type 0 where
  pub is_rom : IsRom found.0
  pub prefix : (j : ℕ) → j < i → rom_bit found.0 j ≡ rom_bit rom j
  pub device : (d : List ℕ) × In d s × (key n i d ≡ key n i found.0)
  pub place : found.1 ≡ open_or (last_open n i s found.0) disc

pub path-PathTo :
    (n i : ℕ) (last : ℤ) (rom : List ℕ) (disc : ℕ) (s : List (List ℕ)) (d : List ℕ)
    → In d s
    → IsRom rom
    → i + n ≤ 64
    → PathTo n i disc rom s (path n i last rom disc s)
unfolding path last_open key open_or
path-PathTo zero i last rom disc s d m r h = record {
  is_rom = r;
  prefix = λ j l. refl;
  device = (d, m, refl);
  place = refl;
}
path-PathTo (suc n) i last rom disc s d m r h =
    let c = chosen s last i rom disc in
    let ch = chosen-Chosen s last i rom disc d m r (omega arith) in
    let (e, me, q) = ch.device in
    let ih =
      path-PathTo n (i + 1) last c.rom c.discrepancy (keep i c.sent s) e (In-keep e i c.sent s me q)
        ch.is_rom (omega arith) in
    let bit = ih.prefix i (omega arith) ∙ ch.wrote in
    let (x, mx, k) = ih.device in
    let (inx, bx) = keep-In x i c.sent s mx in
    record {
      is_rom = ih.is_rom;
      prefix = λ j l. ih.prefix j (omega arith) ∙ ch.others j (ground arith);
      device = (x, inx, rw (bx, bit, k) refl);
      place =
          rw (bit, open_or-pick)
            (ih.place ∙ ap (open_or (last_open n (i + 1) (keep i c.sent s) _)) ch.open_place);
    }
