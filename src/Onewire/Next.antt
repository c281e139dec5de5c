-- ===== src/Onewire/Next.antt =====
-- The least and the next code (firmware/onewire/onewire.c, `ow_search_rom`).
use matemat.Base.{
  ℕ, zero, suc, ◌+◌, ◌≤◌, ◌<◌, ◌≡◌, refl, sym, ◌∙◌, Bool, true, false, inl, inr, Bool-cases, arith,
  List, ◌==◌, ==_iff, ltb,
}
use matemat.Base.Int.{ℤ, pos, negsuc}
use matemat.Onewire.{choose, rom_bit, is_last, behind_last}
use matemat.Onewire.Codes.{IsRom}
use matemat.Onewire.Devices.{In, all_ones, all_zeros, keep, In-keep, all_ones-true, all_zeros-true}
use matemat.Onewire.Order.{key, key-lt}
use matemat.Onewire.Path.{path, chosen, chosen-Chosen}
use matemat.Onewire.Successor.{path-PathTo}

not_last : (last : ℤ) (i : ℕ) → behind_last last i ≡ true → is_last last i ≡ false
not_last (pos l) i h = ground arith
not_last (negsuc l) i h = refl

-- Behind the last discrepancy a round takes 0 wherever a device has it.
chosen-behind :
    (s : List (List ℕ)) (last : ℤ) (i : ℕ) (rom : List ℕ) (disc : ℕ)
    → behind_last last i ≡ true
    → (chosen s last i rom disc).sent ≡ all_ones i s
unfolding choose
chosen-behind s last i rom disc h = elim (Bool-cases (all_ones i s)) [
  | inl o ↦ rw o refl
  | inr o ↦ elim (Bool-cases (all_zeros i s)) [
    | inl z ↦ rw (o, z) refl
    | inr z ↦ rw (o, z, not_last last i h, h) refl
  ]
]

behind_suc : (last : ℤ) (i : ℕ) → behind_last last i ≡ true → behind_last last (i + 1) ≡ true
behind_suc (pos l) i h = ground arith
behind_suc (negsuc l) i h = refl

key-zero_le : (i : ℕ) (c d : List ℕ) → key zero i c ≤ key zero i d
unfolding key
key-zero_le i c d = omega arith

least_step :
    (n i : ℕ) (f d : List ℕ) (v : Bool)
    → rom_bit f i ≡ v
    → (v ≡ true → rom_bit d i ≡ true)
    → (rom_bit d i ≡ v → key n (i + 1) f ≤ key n (i + 1) d)
    → key (suc n) i f ≤ key (suc n) i d
unfolding key
least_step n i f d true e one ih = let z = one refl in let k = ih z in rw (e, z) (omega (arith, k))
least_step n i f d false e one ih = elim (Bool-cases (rom_bit d i)) [
  | inl z ↦ (let lt = key-lt n (i + 1) f in rw (e, z) (omega (arith, lt)))
  | inr z ↦ (let k = ih z in rw (e, z) (omega (arith, k)))
]

pub behind_self : (i : ℕ) → behind_last (pos i) (i + 1) ≡ true
behind_self i = ground arith

pub path-least :
    (n i : ℕ) (last : ℤ) (rom : List ℕ) (disc : ℕ) (s : List (List ℕ)) (d : List ℕ)
    → behind_last last i ≡ true
    → IsRom rom
    → i + n ≤ 64
    → In d s
    → key n i (path n i last rom disc s).0 ≤ key n i d
unfolding path
path-least zero i last rom disc s d b r h m = key-zero_le i rom d
path-least (suc n) i last rom disc s d b r h m =
    let c = chosen s last i rom disc in
    let ch = chosen-Chosen s last i rom disc d m r (omega arith) in
    let (e, me, q) = ch.device in
    let found =
      path-PathTo n (i + 1) last c.rom c.discrepancy (keep i c.sent s) e (In-keep e i c.sent s me q)
        ch.is_rom (omega arith) in
    let bit = found.prefix i (omega arith) ∙ ch.wrote in
    let sent = chosen-behind s last i rom disc b in
    least_step n i _ d c.sent bit (λ y. all_ones-true d i s (sym sent ∙ y) m)
      λ z.
        path-least n (i + 1) last c.rom c.discrepancy (keep i c.sent s) d (behind_suc last i b)
          ch.is_rom (omega arith) (In-keep d i c.sent s m z)

-- In front of the last discrepancy a round keeps the bit of the code.
pub chosen-kept :
    (s : List (List ℕ)) (l i : ℕ) (rom : List ℕ) (disc : ℕ) (e : List ℕ)
    → i < l
    → In e s
    → rom_bit e i ≡ rom_bit rom i
    → (chosen s (pos l) i rom disc).sent ≡ rom_bit rom i
unfolding choose
chosen-kept s l i rom disc e h m q = elim (Bool-cases (all_ones i s)) [
  | inl o ↦ (let y = all_ones-true e i s o m in rw o (sym y ∙ q))
  | inr o ↦ elim (Bool-cases (all_zeros i s)) [
    | inl z ↦ (let y = all_zeros-true e i s z m in rw (o, z) (sym y ∙ q))
    | inr z ↦
        let a : (i == l) ≡ false = ground arith in
        let b : ltb l i ≡ false = ground arith in rw (o, z, a, b) refl
  ]
]

-- At the last discrepancy it turns 0 into 1.
pub chosen-turned :
    (s : List (List ℕ)) (i : ℕ) (rom : List ℕ) (disc : ℕ) (e : List ℕ)
    → In e s
    → rom_bit e i ≡ false
    → all_zeros i s ≡ false
    → (chosen s (pos i) i rom disc).sent ≡ true
unfolding choose
chosen-turned s i rom disc e m q z = elim (Bool-cases (all_ones i s)) [
  | inl o ↦ rw o refl
  | inr o ↦ (let a : (i == i) ≡ true = (==_iff i i).1 refl in rw (o, z, a) refl)
]
