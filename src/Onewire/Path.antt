-- ===== src/Onewire/Path.antt =====
-- One search of `ow_search_rom` (firmware/onewire/onewire.c) among the devices that answer.
use matemat.Base.{
  ℕ, zero, suc, ◌+◌, ◌≤◌, ◌<◌, ◌≡◌, ◌≢◌, refl, sym, ◌∙◌, Bool, true, false, not, ◌&&◌, inl, inr,
  Bool-cases, if◌then◌else◌, arith, List,
}
use matemat.Base.Int.{ℤ}
use matemat.Onewire.{
  Line, Choice, choose, rom_bit, set_address_bit, is_last, behind_last, search_bits,
}
use matemat.Onewire.Codes.{IsRom, set_address_bit-IsRom, rom_bit-set_self, rom_bit-set_ne}
use matemat.Onewire.Devices.{
  In, all_ones, all_zeros, keep, Devices, In-keep, all_ones-true, all_zeros-true, all_ones-false,
  all_zeros-false,
}

-- What a round makes of the answers of `s`.
abbrev pub chosen : List (List ℕ) → ℤ → ℕ → List ℕ → ℕ → Choice
chosen s last i rom disc = choose last i (all_ones i s) (all_zeros i s) rom disc

pub record Chosen (s : List (List ℕ)) (i : ℕ) (rom : List ℕ) (disc : ℕ) (c : Choice) : Type 0 where
  pub is_rom : IsRom c.rom
  pub wrote : rom_bit c.rom i ≡ c.sent
  pub others : (j : ℕ) → j ≢ i → rom_bit c.rom j ≡ rom_bit rom j
  pub device : (d : List ℕ) × In d s × (rom_bit d i ≡ c.sent)
  pub open_place : c.discrepancy ≡ (if not c.sent && not (all_zeros i s) then i else disc)

set-Chosen :
    (s : List (List ℕ)) (i : ℕ) (rom : List ℕ) (disc disc' : ℕ) (v : Bool)
    → IsRom rom
    → i < 64
    → (d : List ℕ) × In d s × (rom_bit d i ≡ v)
    → disc' ≡ (if not v && not (all_zeros i s) then i else disc)
    → Chosen s i rom disc (record { sent = v; rom = set_address_bit rom i v; discrepancy = disc' })
set-Chosen s i rom disc disc' v r h d e = record {
  is_rom = set_address_bit-IsRom rom i v r h;
  wrote = rom_bit-set_self rom i v r h;
  others = λ j o. rom_bit-set_ne rom i j v r h (λ q. o (sym q));
  device = d;
  open_place = e;
}

kept_bit :
    (s : List (List ℕ)) (i : ℕ) (rom : List ℕ) (disc : ℕ)
    → IsRom rom
    → all_ones i s ≡ false
    → all_zeros i s ≡ false
    → Chosen s i rom disc (record {
      sent = rom_bit rom i;
      rom = rom;
      discrepancy = if rom_bit rom i then disc else i;
    })
kept_bit s i rom disc r o z = elim (Bool-cases (rom_bit rom i)) [
  | inl y ↦ record {
    is_rom = r;
    wrote = refl;
    others = λ j n. refl;
    device = (let (d, m, e) = all_zeros-false i s z in (d, m, e ∙ sym y));
    open_place = rw y refl;
  }
  | inr y ↦ record {
    is_rom = r;
    wrote = refl;
    others = λ j n. refl;
    device = (let (d, m, e) = all_ones-false i s o in (d, m, e ∙ sym y));
    open_place = rw (y, z) refl;
  }
]

conflict-Chosen :
    (s : List (List ℕ)) (last : ℤ) (i : ℕ) (rom : List ℕ) (disc : ℕ)
    → IsRom rom
    → i < 64
    → all_ones i s ≡ false
    → all_zeros i s ≡ false
    → Chosen s i rom disc (choose last i false false rom disc)
unfolding choose
conflict-Chosen s last i rom disc r h o z = elim (Bool-cases (is_last last i)) [
  | inl y ↦ rw y (set-Chosen s i rom disc disc true r h (all_zeros-false i s z) refl)
  | inr n ↦ elim (Bool-cases (behind_last last i)) [
    | inl y ↦ rw (n, y) (set-Chosen s i rom disc i false r h (all_ones-false i s o) (rw z refl))
    | inr m ↦ rw (n, m) (kept_bit s i rom disc r o z)
  ]
]

pub chosen-Chosen :
    (s : List (List ℕ)) (last : ℤ) (i : ℕ) (rom : List ℕ) (disc : ℕ) (d : List ℕ)
    → In d s
    → IsRom rom
    → i < 64
    → Chosen s i rom disc (chosen s last i rom disc)
unfolding choose
chosen-Chosen s last i rom disc d m r h = elim (Bool-cases (all_ones i s)) [
  | inl o ↦ rw o (set-Chosen s i rom disc disc true r h (d, m, all_ones-true d i s o m) refl)
  | inr o ↦ elim (Bool-cases (all_zeros i s)) [
    | inl z ↦
        rw (o, z)
          (set-Chosen s i rom disc disc false r h (d, m, all_zeros-true d i s z m) (rw z refl))
    | inr z ↦ rw (o, z) (conflict-Chosen s last i rom disc r h o z)
  ]
]

-- The search without the line.
unfoldable pub path : ℕ → ℕ → ℤ → List ℕ → ℕ → List (List ℕ) → List ℕ × ℕ
path zero i last rom disc s = (rom, disc)
path (suc n) i last rom disc s =
    let c = chosen s last i rom disc in path n (i + 1) last c.rom c.discrepancy (keep i c.sent s)

-- Both levels high would mean that no device answers.
not_silent :
    (d : List ℕ) (i : ℕ) (s : List (List ℕ)) → In d s → (all_ones i s && all_zeros i s) ≡ false
not_silent d i s m = elim (Bool-cases (all_ones i s)) [
  | inl o ↦ elim (Bool-cases (all_zeros i s)) [
    | inl z ↦ absurd (
        let p = all_ones-true d i s o m in let q = all_zeros-true d i s z m in ground (arith, p, q))
    | inr z ↦ rw (o, z) refl
  ]
  | inr o ↦ rw o refl
]

module _ {B : Type 0} (l : Line B) (codes : List (List ℕ)) (w : Devices l codes) where
  pub search_bits-path :
      (n i : ℕ) (last : ℤ) (rom : List ℕ) (disc : ℕ) (s : List (List ℕ)) (b : B) (d : List ℕ)
      → w.Answers s i b
      → In d s
      → IsRom rom
      → i + n ≤ 64
      → let (done, rom', disc', b') = search_bits l n i last rom disc b in
        (done ≡ true)
        × (rom' ≡ (path n i last rom disc s).0)
        × (disc' ≡ (path n i last rom disc s).1)
  unfolding search_bits path
  search_bits-path zero i last rom disc s b d a m r h = (refl, refl, refl)
  search_bits-path (suc n) i last rom disc s b d a m r h =
      let (bit1, bit2, next) = w.answer s i b (omega arith) a in
      let c = chosen s last i rom disc in
      let ch = chosen-Chosen s last i rom disc d m r (omega arith) in
      let (e, me, q) = ch.device in
      let ih =
        search_bits-path n (i + 1) last c.rom c.discrepancy (keep i c.sent s) _ e (next c.sent)
          (In-keep e i c.sent s me q) ch.is_rom (omega arith) in
      rw (bit1, bit2, not_silent d i s m) ih
