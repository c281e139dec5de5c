-- ===== src/Base/Int.antt =====
-- The values of the signed types (`int8_t`, `int16_t`), over the native numbers.
use matemat.Base.{ℕ, suc, ◌+◌, ◌<◌, Bool, ltb, if◌then◌else◌, ◌-◌}

-- `negsuc n` is -(n + 1).
pub data ℤ : Type 0 where
  pos : ℕ → ℤ
  negsuc : ℕ → ℤ

abbrev pub pos_part : ℤ → ℕ
pos_part (pos n) = n
pos_part (negsuc n) = 0

abbrev pub neg_part : ℤ → ℕ
neg_part (pos n) = 0
neg_part (negsuc n) = suc n

infix 50 ◌<ℤ◌
abbrev pub ◌<ℤ◌ : ℤ → ℤ → Type 0
a <ℤ b = pos_part a + neg_part b < pos_part b + neg_part a

abbrev pub ltb_ℤ : ℤ → ℤ → Bool
ltb_ℤ a b = ltb (pos_part a + neg_part b) (pos_part b + neg_part a)

-- `uint8_t` to `int8_t`.
abbrev pub to_int8 : ℕ → ℤ
to_int8 n = if ltb n 128 then pos n else negsuc (255 - n)
