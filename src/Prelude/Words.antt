-- ===== src/Prelude/Words.antt =====
-- Unsigned machine words as native numbers. A release build wraps silently, so each operation that
-- can leave the range is reduced modulo the width.
use Prim.Native.Nat.{ℕ, zero, suc, ◌+◌, ◌-◌, ◌*◌, ◌/◌, ◌%◌, ◌^◌}
use mathlib.Core.List.{List, [], ◌∷◌}

abbrev pub u16 : ℕ → ℕ
u16 x = x % 2 ^ 16

abbrev pub u32 : ℕ → ℕ
u32 x = x % 2 ^ 32

abbrev pub u64 : ℕ → ℕ
u64 x = x % 2 ^ 64

abbrev pub u128 : ℕ → ℕ
u128 x = x % 2 ^ 128

abbrev pub u64_max : ℕ
u64_max = 2 ^ 64 - 1

-- `a + b`, `a - b` and `a * b` of two `u128` or two `u64`.
abbrev pub add_u128 : ℕ → ℕ → ℕ
add_u128 a b = u128 (a + b)

abbrev pub sub_u128 : ℕ → ℕ → ℕ
sub_u128 a b = u128 (a + 2 ^ 128 - b)

abbrev pub mul_u128 : ℕ → ℕ → ℕ
mul_u128 a b = u128 (a * b)

abbrev pub add_u64 : ℕ → ℕ → ℕ
add_u64 a b = u64 (a + b)

abbrev pub sub_u64 : ℕ → ℕ → ℕ
sub_u64 a b = u64 (a + 2 ^ 64 - b)

abbrev pub mul_u64 : ℕ → ℕ → ℕ
mul_u64 a b = u64 (a * b)

-- `to_be_bytes` and `to_le_bytes` at a width of `w` bytes.
abbrev pub be_bytes : ℕ → ℕ → List ℕ
be_bytes zero n = []
be_bytes (suc w) n = n / 256 ^ w % 256 ∷ be_bytes w n

abbrev pub le_bytes : ℕ → ℕ → List ℕ
le_bytes zero n = []
le_bytes (suc w) n = n % 256 ∷ le_bytes w (n / 256)
