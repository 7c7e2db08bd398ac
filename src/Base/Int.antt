-- ===== src/Base/Int.antt =====
-- Signed integers over the native numbers, and the conversions between C++ integer types.
use Prim.Native.Nat.{◌≤◌, ℕ, ◌-◌, ◌%◌, ◌^◌, ◌<◌}
use mathlib.Core.Path.{◌≡◌}
use native.Mathlib.Omega.{arith}
use graftcode_extensions.Base.Tests.{ltb, if◌then◌else◌}

-- `negsuc n` is -(n + 1).
pub data ℤ : Type 0 where
  pos : ℕ → ℤ
  negsuc : ℕ → ℤ

-- `static_cast<int32_t>` of a size, wrapping.
unfoldable pub to_int32 : ℕ → ℤ
to_int32 n = let low = n % 2 ^ 32 in if ltb low (2 ^ 31) then pos low else negsuc (2 ^ 32 - 1 - low)

-- `static_cast<int64_t>` of a uint64_t, wrapping.
unfoldable pub to_int64 : ℕ → ℤ
to_int64 n = let low = n % 2 ^ 64 in if ltb low (2 ^ 63) then pos low else negsuc (2 ^ 64 - 1 - low)

-- `static_cast<int32_t>` of a signed integer, wrapping.
unfoldable pub wrap_int32 : ℤ → ℤ
unfolding to_int32
wrap_int32 (pos n) = to_int32 n
wrap_int32 (negsuc n) =
    let low = n % 2 ^ 32 in if ltb low (2 ^ 31) then negsuc low else pos (2 ^ 32 - 1 - low)

-- `static_cast<std::size_t>` of a signed integer, wrapping at 64 bits.
unfoldable pub to_size : ℤ → ℕ
to_size (pos n) = n % 2 ^ 64
to_size (negsuc n) = 2 ^ 64 - 1 - n % 2 ^ 64

pub to_int32-small : (n : ℕ) → n < 2 ^ 31 → to_int32 n ≡ pos n
unfolding to_int32
to_int32-small n h = ground arith

pub to_int32-large : (n : ℕ) → 2 ^ 31 ≤ n → n < 2 ^ 32 → to_int32 n ≡ negsuc (2 ^ 32 - 1 - n)
unfolding to_int32
to_int32-large n h k = ground arith

pub to_int64-small : (n : ℕ) → n < 2 ^ 63 → to_int64 n ≡ pos n
unfolding to_int64
to_int64-small n h = ground arith
