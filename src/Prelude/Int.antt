-- ===== src/Prelude/Int.antt =====
-- Integers over the native numbers, with Rust's truncating division and the wrap of `i64`, `i128`.
use Prim.Native.Nat.{ℕ, suc, ◌+◌, ◌-◌, ◌*◌, ◌/◌, ◌%◌, ◌^◌}
use mathlib.Core.Bool.{Bool, true, false}
use zk_perp.Prelude.Tests.{ltb, leb, if◌then◌else◌}

-- `negsuc n` is -(n + 1).
pub data ℤ : Type 0 where
  pos : ℕ → ℤ
  negsuc : ℕ → ℤ

abbrev pub pos_part : ℤ → ℕ
pos_part (pos n) = n
pos_part (negsuc n) = 0

abbrev pub neg_part : ℤ → ℕ
neg_part (pos n) = 0
neg_part (negsuc n) = suc n

-- a - b, as an integer.
abbrev pub sub_ℕ : ℕ → ℕ → ℤ
sub_ℕ a b = if leb b a then pos (a - b) else negsuc (b - a - 1)

abbrev pub neg : ℤ → ℤ
neg a = sub_ℕ (neg_part a) (pos_part a)

abbrev pub is_neg : ℤ → Bool
is_neg (pos n) = false
is_neg (negsuc n) = true

-- `a * n` and `a / n`, toward zero as in Rust, for a natural `n`.
abbrev pub mul_ℕ : ℤ → ℕ → ℤ
mul_ℕ (pos m) n = pos (m * n)
mul_ℕ (negsuc m) n = sub_ℕ 0 (suc m * n)

abbrev pub div_ℕ : ℤ → ℕ → ℤ
div_ℕ (pos m) n = pos (m / n)
div_ℕ (negsuc m) n = sub_ℕ 0 (suc m / n)

infixl 70 ◌*ℤ◌
abbrev pub ◌*ℤ◌ : ℤ → ℤ → ℤ
a *ℤ pos n = mul_ℕ a n
a *ℤ negsuc n = neg (mul_ℕ a (suc n))

-- The number that a bit pattern of `2 * half` values stands for.
abbrev pub signed : ℕ → ℕ → ℤ
signed half w = if ltb w half then pos w else negsuc (half + half - w - 1)

-- The bit pattern of an integer, modulo `2 * half`.
abbrev pub pattern_of : ℕ → ℤ → ℕ
pattern_of half (pos n) = n % (half + half)
pattern_of half (negsuc n) = half + half - 1 - n % (half + half)

abbrev pub i64 : ℤ → ℤ
i64 z = signed (2 ^ 63) (pattern_of (2 ^ 63) z)

abbrev pub i128 : ℤ → ℤ
i128 z = signed (2 ^ 127) (pattern_of (2 ^ 127) z)

-- `x as u128` of an `i128` or an `i64`.
abbrev pub to_u128 : ℤ → ℕ
to_u128 z = pattern_of (2 ^ 127) z
