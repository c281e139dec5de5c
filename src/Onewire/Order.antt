-- ===== src/Onewire/Order.antt =====
-- The order of ROM codes in which a search finds them: the first bit, the lowest of the first byte,
-- counts most.
use matemat.Base.{
  Bool-cases, inl, inr, ==_iff, ◌==◌, ℕ, zero, suc, ◌+◌, ◌*◌, ◌≤◌, ◌<◌, ◌≡◌, refl, Bool,
  if◌then◌else◌, arith, List,
}
use matemat.Onewire.{rom_bit}

unfoldable pub pow2 : ℕ → ℕ
pow2 zero = 1
pow2 (suc n) = 2 * pow2 n

-- The number that the `n` bits from bit `i` on make.
unfoldable pub key : ℕ → ℕ → List ℕ → ℕ
key zero i c = 0
key (suc n) i c = (if rom_bit c i then pow2 n else 0) + key n (i + 1) c

pub key-lt : (n i : ℕ) (c : List ℕ) → key n i c < pow2 n
unfolding key pow2
key-lt zero i c = omega arith
key-lt (suc n) i c = ground (arith, key-lt n (i + 1) c)

pub key_ext :
    (n i : ℕ) (c d : List ℕ)
    → ((j : ℕ) → i ≤ j → j < i + n → rom_bit c j ≡ rom_bit d j)
    → key n i c ≡ key n i d
unfolding key
key_ext zero i c d e = refl
key_ext (suc n) i c d e =
    let first = e i (omega arith) (omega arith) in
    let rest = key_ext n (i + 1) c d (λ j a b. e j (omega arith) (omega arith)) in
    rw (first, rest) refl

key_first :
    (a b : Bool) (p x y : ℕ)
    → x < p
    → y < p
    → (if a then p else 0) + x ≡ (if b then p else 0) + y
    → a ≡ b
key_first a b p x y h l e = ground arith

-- Numbers that are equal have equal bits.
pub key_bits :
    (n i : ℕ) (c d : List ℕ) (j : ℕ)
    → key n i c ≡ key n i d
    → i ≤ j
    → j < i + n
    → rom_bit c j ≡ rom_bit d j
unfolding key
key_bits zero i c d j e a b = absurd (omega arith)
key_bits (suc n) i c d j e a b =
    let first : rom_bit c i ≡ rom_bit d i =
      key_first (rom_bit c i) (rom_bit d i) (pow2 n) _ _ (key-lt n (i + 1) c) (key-lt n (i + 1) d)
        e in
    let rest : key n (i + 1) c ≡ key n (i + 1) d = ground (arith, e, first) in
    elim (Bool-cases (j == i)) [
      | inl y ↦ (let q = (==_iff j i).0 y in rw q first)
      | inr o ↦ key_bits n (i + 1) c d j rest (ground arith) (omega arith)
    ]
