-- ===== src/Prelude/Words.antt =====
-- Go's `int32` and `int64`: two's complement with wrap-around.
use Prim.Native.Nat.{ℕ, ◌+◌, ◌-◌, ◌%◌, ◌≤◌, ◌<◌}
use mathlib.Core.Path.{◌≡◌}
use native.Mathlib.Omega.{arith}
use toko_api.Prelude.Tests.{ltb, if◌then◌else◌}
use toko_api.Prelude.Int.{ℤ, pos, negsuc, pos_part, neg_part}

-- 2 ^ 31 and 2 ^ 63, one more than the largest value of the type.
abbrev pub half32 : ℕ
half32 = 2147483648

abbrev pub half64 : ℕ
half64 = 9223372036854775808

-- The value of the word whose bits are those of `m`, for `m` below twice `half`.
abbrev of_bits : ℕ → ℕ → ℤ
of_bits half m = if ltb m half then pos m else negsuc (half + half - 1 - m)

unfoldable pub wrap32 : ℤ → ℤ
wrap32 (pos n) = of_bits half32 (n % 4294967296)
wrap32 (negsuc n) = of_bits half32 (4294967295 - n % 4294967296)

unfoldable pub wrap64 : ℤ → ℤ
wrap64 (pos n) = of_bits half64 (n % 18446744073709551616)
wrap64 (negsuc n) = of_bits half64 (18446744073709551615 - n % 18446744073709551616)

-- The value is in the range of the type.
abbrev pub Fits32 : ℤ → Type 0
Fits32 z = (pos_part z < half32) × (neg_part z ≤ half32)

abbrev pub Fits64 : ℤ → Type 0
Fits64 z = (pos_part z < half64) × (neg_part z ≤ half64)

pub wrap32_of_Fits32 : (z : ℤ) → Fits32 z → wrap32 z ≡ z
unfolding wrap32
wrap32_of_Fits32 (pos n) h = ground arith
wrap32_of_Fits32 (negsuc n) h = ground arith

pub wrap64_of_Fits64 : (z : ℤ) → Fits64 z → wrap64 z ≡ z
unfolding wrap64
wrap64_of_Fits64 (pos n) h = ground arith
wrap64_of_Fits64 (negsuc n) h = ground arith

pub wrap32-Fits32 : (z : ℤ) → Fits32 (wrap32 z)
unfolding wrap32
wrap32-Fits32 (pos n) = ground arith
wrap32-Fits32 (negsuc n) = ground arith

pub wrap64-Fits64 : (z : ℤ) → Fits64 (wrap64 z)
unfolding wrap64
wrap64-Fits64 (pos n) = ground arith
wrap64-Fits64 (negsuc n) = ground arith

pub wrap64_pos : (n : ℕ) → n < half64 → wrap64 (pos n) ≡ pos n
wrap64_pos n h = wrap64_of_Fits64 (pos n) (h, omega arith)
