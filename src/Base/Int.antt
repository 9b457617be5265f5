-- ===== src/Base/Int.antt =====
-- C's `int` as an integer over the native numbers, and its conversions to unsigned words.
use Prim.Native.Nat.{ℕ, suc, ◌-◌, ◌%◌, ◌^◌}
use ecnu_oslab.Base.Tests.{ltb, if◌then◌else◌}

-- `negsuc n` is -(n + 1).
pub data ℤ : Type 0 where
  pos : ℕ → ℤ
  negsuc : ℕ → ℤ

-- The return value -1 of a failing call.
abbrev pub minus_one : ℤ
minus_one = negsuc 0

-- The conversion to a 64-bit size_t, for a value in the range of an int.
abbrev pub to_size_t : ℤ → ℕ
to_size_t (pos n) = n % 2 ^ 64
to_size_t (negsuc n) = (2 ^ 64 - suc n) % 2 ^ 64

-- The conversion to a 32-bit unsigned int.
abbrev pub to_uint : ℤ → ℕ
to_uint (pos n) = n % 2 ^ 32
to_uint (negsuc n) = (2 ^ 32 - suc n) % 2 ^ 32

-- The int that a 32-bit pattern stands for.
abbrev pub to_int : ℕ → ℤ
to_int n = if ltb n (2 ^ 31) then pos n else negsuc (2 ^ 32 - 1 - n)
