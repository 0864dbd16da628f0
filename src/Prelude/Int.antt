-- ===== src/Prelude/Int.antt =====
-- Signed integers over the native numbers, and the wrap-around of `int64`.
use Prim.Native.Nat.{ℕ, suc, ◌+◌, ◌-◌, ◌*◌, ◌%◌, ◌^◌, ◌≤◌}
use mathlib.Core.Path.{◌≡◌, refl}
use mathlib.Core.Bool.{Bool}
use meteor_operator.Prelude.Tests.{ltb, leb, eqb, if◌then◌else◌}

-- `negsuc n` is -(n + 1).
pub data ℤ : Type 0 where
  pos : ℕ → ℤ
  negsuc : ℕ → ℤ

abbrev pub pos_part : ℤ → ℕ
pos_part (pos n) = n
pos_part (negsuc n) = 0

abbrev pub neg_part : ℤ → ℕ
neg_part (pos n) = 0
neg_part (negsuc n) = suc n

abbrev pub sub_ℕ : ℕ → ℕ → ℤ
sub_ℕ a b = if leb b a then pos (a - b) else negsuc (b - a - 1)

infixl 65 ◌+ℤ◌ ◌-ℤ◌
unfoldable pub ◌+ℤ◌ : ℤ → ℤ → ℤ
a +ℤ b = sub_ℕ (pos_part a + pos_part b) (neg_part a + neg_part b)

unfoldable pub ◌-ℤ◌ : ℤ → ℤ → ℤ
a -ℤ b = sub_ℕ (pos_part a + neg_part b) (neg_part a + pos_part b)

abbrev pub ltb_ℤ : ℤ → ℤ → Bool
ltb_ℤ a b = ltb (pos_part a + neg_part b) (pos_part b + neg_part a)

infix 50 ◌<ℤ◌ ◌≤ℤ◌
abbrev pub ◌≤ℤ◌ : ℤ → ℤ → Type 0
a ≤ℤ b = pos_part a + neg_part b ≤ pos_part b + neg_part a

abbrev pub ◌<ℤ◌ : ℤ → ℤ → Type 0
a <ℤ b = suc (pos_part a + neg_part b) ≤ pos_part b + neg_part a

abbrev pub eqb_ℤ : ℤ → ℤ → Bool
eqb_ℤ a b = eqb (pos_part a + neg_part b) (pos_part b + neg_part a)

-- The integer that the low 64 bits of `n`, or of `-n`, stand for in two's complement.
unfoldable pub wrap_pos : ℕ → ℤ
wrap_pos n =
    let bits = n % 2 ^ 64 in if ltb bits (2 ^ 63) then pos bits else negsuc (2 ^ 64 - bits - 1)

unfoldable pub wrap_neg : ℕ → ℤ
unfolding wrap_pos
wrap_neg n = wrap_pos (2 ^ 64 - n % 2 ^ 64)

-- `a * k` in int64, for a constant `k`.
unfoldable pub mul_int64 : ℤ → ℕ → ℤ
unfolding wrap_pos wrap_neg
mul_int64 (pos n) k = wrap_pos (n * k)
mul_int64 (negsuc n) k = wrap_neg (suc n * k)

mul_int64_test : mul_int64 (negsuc 4) 1000000000 ≡ negsuc 4999999999
unfolding mul_int64
mul_int64_test = refl

mul_int64_wraps : mul_int64 (pos 9223372037) 1000000000 ≡ negsuc 9223372036709551615
unfolding mul_int64
mul_int64_wraps = refl
