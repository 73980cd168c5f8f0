-- ===== src/Scval/Parts.antt =====
-- The 128-bit halves of src/scval.rs.
use Prim.Native.Nat.{bit_and, bit_or}
use orcusapi.Base.{ℕ, ◌+◌, ◌-◌, ◌*◌, ◌/◌, ◌%◌, ◌^◌, ◌≤◌, ◌<◌, ◌≡◌, ◌∙◌, ap, arith}
use orcusapi.Base.Bits.{bit_or-shifted, bit_and-masked}
use orcusapi.Base.Int.{ℤ, pos, negsuc}
use orcusapi.Std.Words.{
  to_bits, from_bits, shr64_ℤ, shl64, max_u64, max_i64, max_i128, max_u128, IsI64, IsI128, IsU64,
}
use orcusapi.Xdr.{UnsignedParts, SignedParts}

-- `hi: (v >> 64) as u64`, `lo: v as u64`
unfoldable pub u128_to_parts : ℕ → UnsignedParts
u128_to_parts v = record { hi = v / 2 ^ 64 % 2 ^ 64; lo = v % 2 ^ 64 }

-- `hi: (v >> 64) as i64`, `lo: (v as u128 & 0xFFFF_FFFF_FFFF_FFFF) as u64`
unfoldable pub i128_to_parts : ℤ → SignedParts
unfolding to_bits from_bits shr64_ℤ
i128_to_parts v = record {
  hi = from_bits (2 ^ 64) (to_bits (2 ^ 64) (shr64_ℤ v));
  lo = bit_and (to_bits (2 ^ 128) v) 0xFFFF_FFFF_FFFF_FFFF % 2 ^ 64;
}

-- `((p.hi as u128) << 64) | (p.lo as u128)`
unfoldable pub u128_from_parts : UnsignedParts → ℕ
unfolding shl64
u128_from_parts p = bit_or (shl64 p.hi) p.lo

-- `((p.hi as i128) << 64) | (p.lo as i128)`
unfoldable pub i128_from_parts : SignedParts → ℤ
unfolding to_bits from_bits shl64
i128_from_parts p =
    from_bits (2 ^ 128) (bit_or (shl64 (to_bits (2 ^ 128) p.hi)) (to_bits (2 ^ 128) (pos p.lo)))

-- `|` of the shifted high half and the low half is a sum.
or_halves : (h l : ℕ) → h < 2 ^ 64 → l < 2 ^ 64 → bit_or (h * 2 ^ 64 % 2 ^ 128) l ≡ h * 2 ^ 64 + l
or_halves h l p q = rw (shifted_fits h p) (bit_or-shifted 64 h l q)
  where
    shifted_fits : (h : ℕ) → h < 2 ^ 64 → h * 2 ^ 64 % 2 ^ 128 ≡ h * 2 ^ 64
    shifted_fits h p = omega arith

-- Every `u128` value is what the two halves that it is split into make when put together.
pub u128_from_parts-to_parts : (v : ℕ) → v ≤ max_u128 → u128_from_parts (u128_to_parts v) ≡ v
unfolding u128_from_parts u128_to_parts
u128_from_parts-to_parts v h =
    omega (arith, or_halves (v / 2 ^ 64 % 2 ^ 64) (v % 2 ^ 64) (omega arith) (omega arith))

pub u128_from_parts-le :
    (p : UnsignedParts) → IsU64 p.hi → IsU64 p.lo → u128_from_parts p ≤ max_u128
unfolding u128_from_parts
u128_from_parts-le p h l = omega (arith, or_halves p.hi p.lo (omega arith) (omega arith))

-- Two halves of 64 bits each are the halves of the value that they make.
pub u128_to_parts-from_parts :
    (p : UnsignedParts) → IsU64 p.hi → IsU64 p.lo → u128_to_parts (u128_from_parts p) ≡ p
unfolding u128_from_parts u128_to_parts
u128_to_parts-from_parts p h l = ground (arith, or_halves p.hi p.lo)

mask64 : (x : ℕ) → bit_and x 0xFFFF_FFFF_FFFF_FFFF ≡ x % 2 ^ 64
mask64 x =
    let split : x ≡ x / 2 ^ 64 * 2 ^ 64 + x % 2 ^ 64 = omega arith in
    ap (λ (y : ℕ). bit_and y 0xFFFF_FFFF_FFFF_FFFF) split
    ∙ bit_and-masked 64 (x / 2 ^ 64) (x % 2 ^ 64) (omega arith)

-- The halves of an `i128`: the high one keeps the sign.
i128_to_parts_pos :
    (n : ℕ)
    → n ≤ max_i128
    → i128_to_parts (pos n) ≡ record { hi = pos (n / 2 ^ 64); lo = n % 2 ^ 64 }
unfolding i128_to_parts
i128_to_parts_pos n h = ground (arith, mask64 (n % 2 ^ 128))

i128_to_parts_neg :
    (n : ℕ)
    → n ≤ max_i128
    → i128_to_parts (negsuc n)
      ≡ record { hi = negsuc (n / 2 ^ 64); lo = (2 ^ 128 - 1 - n) % 2 ^ 64 }
unfolding i128_to_parts
i128_to_parts_neg n h = ground (arith, mask64 (2 ^ 128 - 1 - n % 2 ^ 128))

i128_from_parts_pos :
    (h l : ℕ)
    → h ≤ max_i64
    → l ≤ max_u64
    → i128_from_parts (record { hi = pos h; lo = l }) ≡ pos (h * 2 ^ 64 + l)
unfolding i128_from_parts
i128_from_parts_pos h l p q = ground (arith, or_halves h l)

i128_from_parts_neg :
    (h l : ℕ)
    → h ≤ max_i64
    → l ≤ max_u64
    → i128_from_parts (record { hi = negsuc h; lo = l })
      ≡ negsuc (2 ^ 128 - 1 - ((2 ^ 64 - 1 - h) * 2 ^ 64 + l))
unfolding i128_from_parts
i128_from_parts_neg h l p q = ground (arith, or_halves (2 ^ 64 - 1 - h) l)

-- Every `i128` value is what the two halves that it is split into make when put together.
pub i128_from_parts-to_parts : (v : ℤ) → IsI128 v → i128_from_parts (i128_to_parts v) ≡ v
i128_from_parts-to_parts (pos n) h = rw (i128_to_parts_pos n (omega arith)) (
    i128_from_parts_pos (n / 2 ^ 64) (n % 2 ^ 64) (omega arith) (omega arith)
    ∙ ap pos (omega arith))
i128_from_parts-to_parts (negsuc n) h = rw (i128_to_parts_neg n (omega arith)) (
    i128_from_parts_neg (n / 2 ^ 64) ((2 ^ 128 - 1 - n) % 2 ^ 64) (omega arith) (omega arith)
    ∙ ap negsuc (omega arith))

from_parts_by_sign :
    (h : ℤ) (l : ℕ) → IsI64 h → IsU64 l → IsI128 (i128_from_parts (record { hi = h; lo = l }))
from_parts_by_sign (pos h) l p q = rw (i128_from_parts_pos h l (omega arith) q) (omega arith)
from_parts_by_sign (negsuc h) l p q = rw (i128_from_parts_neg h l (omega arith) q) (omega arith)

pub i128_from_parts-IsI128 :
    (p : SignedParts) → IsI64 p.hi → IsU64 p.lo → IsI128 (i128_from_parts p)
i128_from_parts-IsI128 p h l = from_parts_by_sign p.hi p.lo h l

to_parts_by_sign :
    (h : ℤ) (l : ℕ)
    → IsI64 h
    → IsU64 l
    → i128_to_parts (i128_from_parts (record { hi = h; lo = l })) ≡ record { hi = h; lo = l }
to_parts_by_sign (pos h) l p q =
    rw (i128_from_parts_pos h l (omega arith) q)
      (i128_to_parts_pos (h * 2 ^ 64 + l) (omega arith) ∙ ground arith)
to_parts_by_sign (negsuc h) l p q =
    rw (i128_from_parts_neg h l (omega arith) q) (
      i128_to_parts_neg (2 ^ 128 - 1 - ((2 ^ 64 - 1 - h) * 2 ^ 64 + l)) (omega arith)
      ∙ ground arith)

-- A signed high half and an unsigned low half of 64 bits are the halves of the value that they make.
pub i128_to_parts-from_parts :
    (p : SignedParts) → IsI64 p.hi → IsU64 p.lo → i128_to_parts (i128_from_parts p) ≡ p
i128_to_parts-from_parts p h l = to_parts_by_sign p.hi p.lo h l
