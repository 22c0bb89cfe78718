-- ===== src/Prelude/Int.antt =====
-- The integers of an SQL column, with the conversions that the code makes: `i64::from`, `u32::try_from`
-- and `i32::try_from`.
use Prim.Native.Nat.{ℕ, zero, suc, ◌<◌}
use mathlib.Core.Path.{◌≡◌}
use mathlib.Core.Option.{Option, none, some}
use native.Mathlib.Omega.{arith}
use satunera.Prelude.Tests.{ltb, if◌then◌else◌}

-- `negsuc n` is -(n + 1).
pub data ℤ : Type 0 where
  pos negsuc : ℕ → ℤ

abbrev pub two_pow_31 : ℕ
two_pow_31 = 0x80000000

abbrev pub two_pow_32 : ℕ
two_pow_32 = 0x100000000

abbrev pub to_u32 : ℤ → Option ℕ
to_u32 (pos n) = if ltb n two_pow_32 then some n else none
to_u32 (negsuc n) = none

-- An `i32` keeps its integer; what is out of range is refused.
abbrev pub to_i32 : ℤ → Option ℤ
to_i32 (pos n) = if ltb n two_pow_31 then some (pos n) else none
to_i32 (negsuc n) = if ltb n two_pow_31 then some (negsuc n) else none

-- `attempts + 1`, below the bound of a 64-bit column.
abbrev pub add_one : ℤ → ℤ
add_one (pos n) = pos (suc n)
add_one (negsuc zero) = pos 0
add_one (negsuc (suc n)) = negsuc n

pub to_u32-pos : (n : ℕ) → n < two_pow_32 → to_u32 (pos n) ≡ some n
to_u32-pos n h = ground arith
