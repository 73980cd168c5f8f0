-- ===== src/Std/Words.antt =====
-- The integer types: their ranges, the fallible and the wrapping conversions, and the shifts and
-- masks of the 128-bit types. An unsigned value is a number, a signed one an integer; a signed value
-- meets the bit operations as its two's complement pattern.
use orcusapi.Base.{
  ℕ, ◌-◌, ◌*◌, ◌/◌, ◌%◌, ◌^◌, ◌≤◌, Option, none, some, leb, ltb, if◌then◌else◌, Bool,
}
use orcusapi.Base.Int.{ℤ, pos, negsuc, ◌≤ℤ◌}

abbrev pub max_u8 : ℕ
max_u8 = 255

abbrev pub max_u32 : ℕ
max_u32 = 4294967295

abbrev pub max_u64 : ℕ
max_u64 = 18446744073709551615

abbrev pub max_u128 : ℕ
max_u128 = 340282366920938463463374607431768211455

abbrev pub max_i32 : ℕ
max_i32 = 2147483647

abbrev pub max_i64 : ℕ
max_i64 = 9223372036854775807

abbrev pub max_i128 : ℕ
max_i128 = 170141183460469231731687303715884105727

-- `uN::try_from` of an unsigned value
abbrev pub try_unsigned : ℕ → ℕ → Option ℕ
try_unsigned limit n = if leb n limit then some n else none

-- the values from -(limit + 1) to `limit`
abbrev pub in_signed : ℕ → ℤ → Bool
in_signed limit (pos n) = leb n limit
in_signed limit (negsuc n) = leb n limit

-- `iN::try_from` of a signed value
abbrev pub try_signed : ℕ → ℤ → Option ℤ
try_signed limit z = if in_signed limit z then some z else none

-- `uN::try_from` of a signed value
abbrev pub try_unsigned_of_signed : ℕ → ℤ → Option ℕ
try_unsigned_of_signed limit (pos n) = try_unsigned limit n
try_unsigned_of_signed limit (negsuc n) = none

-- the pattern of a signed value in `modulus` patterns, and the value of a pattern
unfoldable pub to_bits : ℕ → ℤ → ℕ
to_bits modulus (pos n) = n % modulus
to_bits modulus (negsuc n) = modulus - 1 - n % modulus

unfoldable pub from_bits : ℕ → ℕ → ℤ
from_bits modulus b = if ltb b (modulus / 2) then pos b else negsuc (modulus - 1 - b)

-- `v >> 64` on `i128`, which rounds down
unfoldable pub shr64_ℤ : ℤ → ℤ
shr64_ℤ (pos n) = pos (n / 2 ^ 64)
shr64_ℤ (negsuc n) = negsuc (n / 2 ^ 64)

-- `v << 64` on 128-bit patterns
unfoldable pub shl64 : ℕ → ℕ
shl64 b = b * 2 ^ 64 % 2 ^ 128

abbrev pub IsU32 : ℕ → Type 0
IsU32 n = n ≤ max_u32

abbrev pub IsU64 : ℕ → Type 0
IsU64 n = n ≤ max_u64

abbrev pub IsI32 : ℤ → Type 0
IsI32 z = (z ≤ℤ pos max_i32) × (negsuc max_i32 ≤ℤ z)

abbrev pub IsI64 : ℤ → Type 0
IsI64 z = (z ≤ℤ pos max_i64) × (negsuc max_i64 ≤ℤ z)

abbrev pub IsI128 : ℤ → Type 0
IsI128 z = (z ≤ℤ pos max_i128) × (negsuc max_i128 ≤ℤ z)
