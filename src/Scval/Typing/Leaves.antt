-- ===== src/Scval/Typing/Leaves.antt =====
-- What the readers of integers, bytes and addresses of src/scval.rs promise of their results.
use orcusapi.Base.{
  ℕ, ◌^◌, ◌≤◌, ◌≡◌, ◌==◌, refl, Bool, true, false, Option, none, some, List, [], ◌∷◌, String, arith,
  leb, if◌then◌else◌, Option-cases, inl, inr, any, find, Ensures, holds, failed, Ensures-map_err,
  Ensures-result, Ensures-weaken,
}
use orcusapi.Base.Int.{ℤ, pos, negsuc}
use orcusapi.Std.Parse.{parse_unsigned, parse_unsigned-le, IsSigned, parse_signed-IsSigned}
use orcusapi.Std.Words.{
  max_u64, max_u128, max_i32, max_i64, max_i128, try_unsigned, try_signed, IsU64, IsI32, IsI64,
  to_bits, from_bits, shr64_ℤ,
}
use orcusapi.Json.{Json, as_u64, as_i64, as_str}
use orcusapi.Xdr.{ScVal}
use orcusapi.Sdk.{Sdk}
use orcusapi.Scval.Parts.{u128_to_parts, i128_to_parts}
use orcusapi.Scval.Scalars.{
  unsigned_text, signed_text, as_u64_lenient, as_i64_lenient, as_u128, as_i128, address_from_str,
}
use orcusapi.Scval.Typing.{IsJson, IsAddress, number}

unsigned_text-le :
    (limit : ℕ) (what : String) (s : Option String)
    → Ensures (λ n. n ≤ limit) (unsigned_text limit what s)
unfolding unsigned_text
unsigned_text-le limit what none = failed
unsigned_text-le limit what (some s) =
    Ensures-map_err _
      (Ensures-weaken (Ensures-result (parse_unsigned limit s)) (parse_unsigned-le limit s))

signed_text-IsSigned :
    (limit : ℕ) (what : String) (s : Option String)
    → Ensures (IsSigned limit) (signed_text limit what s)
unfolding signed_text
signed_text-IsSigned limit what none = failed
signed_text-IsSigned limit what (some s) = Ensures-map_err _ (parse_signed-IsSigned limit s)

as_u64-le :
    {sdk : Sdk} {hatch : ScVal → Type 0} (v : Json) (n : ℕ)
    → IsJson sdk hatch v
    → as_u64 v ≡ some n
    → IsU64 n
as_u64-le (Json.number m) n (number h) e = h.unsigned n e
as_u64-le _ n h e = cc

as_i64-IsI64 :
    {sdk : Sdk} {hatch : ScVal → Type 0} (v : Json) (z : ℤ)
    → IsJson sdk hatch v
    → as_i64 v ≡ some z
    → IsI64 z
as_i64-IsI64 (Json.number m) z (number h) e = h.signed z e
as_i64-IsI64 _ z h e = cc

pub IsSigned→IsI64 : (z : ℤ) → IsSigned max_i64 z → IsI64 z
IsSigned→IsI64 (pos n) h = omega arith
IsSigned→IsI64 (negsuc n) h = omega arith

pub IsSigned→IsI32 : (z : ℤ) → IsSigned max_i32 z → IsI32 z
IsSigned→IsI32 (pos n) h = omega arith
IsSigned→IsI32 (negsuc n) h = omega arith

IsI64→IsSigned : (z : ℤ) → IsI64 z → IsSigned max_i128 z
IsI64→IsSigned (pos n) h = omega arith
IsI64→IsSigned (negsuc n) h = omega arith

-- The four readers stay within the widths of their types.
pub as_u64_lenient-IsU64 :
    {sdk : Sdk} {hatch : ScVal → Type 0} (v : Json)
    → IsJson sdk hatch v
    → Ensures IsU64 (as_u64_lenient v)
unfolding as_u64_lenient
as_u64_lenient-IsU64 v h = elim (Option-cases (as_u64 v)) [
  | inl other ↦ rw (other, as_u64_lenient) (unsigned_text-le max_u64 "integer" (as_str v))
  | inr (n, given) ↦ rw (given, as_u64_lenient) (holds (as_u64-le v n h given))
]

pub as_u128-le :
    {sdk : Sdk} {hatch : ScVal → Type 0} (v : Json)
    → IsJson sdk hatch v
    → Ensures (λ n. n ≤ max_u128) (as_u128 v)
unfolding as_u128
as_u128-le v h = elim (Option-cases (as_u64 v)) [
  | inl other ↦ rw (other, as_u128) (unsigned_text-le max_u128 "u128" (as_str v))
  | inr (n, given) ↦ rw (given, as_u128) (holds (omega (arith, as_u64-le v n h given)))
]

pub as_i64_lenient-IsI64 :
    {sdk : Sdk} {hatch : ScVal → Type 0} (v : Json)
    → IsJson sdk hatch v
    → Ensures IsI64 (as_i64_lenient v)
unfolding as_i64_lenient
as_i64_lenient-IsI64 v h = elim (Option-cases (as_i64 v)) [
  | inl other ↦
      rw (other, as_i64_lenient)
        (Ensures-weaken (signed_text-IsSigned max_i64 "integer" (as_str v)) IsSigned→IsI64)
  | inr (z, given) ↦ rw (given, as_i64_lenient) (holds (as_i64-IsI64 v z h given))
]

pub as_i128-IsSigned :
    {sdk : Sdk} {hatch : ScVal → Type 0} (v : Json)
    → IsJson sdk hatch v
    → Ensures (IsSigned max_i128) (as_i128 v)
unfolding as_i128
as_i128-IsSigned v h = elim (Option-cases (as_i64 v)) [
  | inl other ↦ rw (other, as_i128) (signed_text-IsSigned max_i128 "i128" (as_str v))
  | inr (z, given) ↦ rw (given, as_i128) (holds (IsI64→IsSigned z (as_i64-IsI64 v z h given)))
]

pub try_unsigned-le : (limit n k : ℕ) → try_unsigned limit n ≡ some k → k ≤ limit
try_unsigned-le limit n k h = ground arith

if_inv :
    {A : Type 0} (b : Bool) (z y : A) → (if b then some z else none) ≡ some y → (b ≡ true) × (z ≡ y)
if_inv true z y h = (refl, cc)
if_inv false z y h = cc

leb_lem : (n k : ℕ) → leb n k ≡ true → n ≤ k
leb_lem n k h = ground arith

pub try_signed-IsI32 : (z y : ℤ) → try_signed max_i32 z ≡ some y → IsI32 y
try_signed-IsI32 (pos n) y h =
    let (fits, same) = if_inv (leb n max_i32) (pos n) y h in
    rw (← same) (omega (arith, leb_lem n max_i32 fits))
try_signed-IsI32 (negsuc n) y h =
    let (fits, same) = if_inv (leb n max_i32) (negsuc n) y h in
    rw (← same) (omega (arith, leb_lem n max_i32 fits))

-- Both halves are within 64 bits.
pub u128_to_parts-IsU64 : (n : ℕ) → IsU64 (u128_to_parts n).hi × IsU64 (u128_to_parts n).lo
unfolding u128_to_parts
u128_to_parts-IsU64 n = omega arith

from_bits-IsI64 : (b : ℕ) → b ≤ max_u64 → IsI64 (from_bits (2 ^ 64) b)
unfolding from_bits
from_bits-IsI64 b h = ground arith

to_bits-le : (z : ℤ) → to_bits (2 ^ 64) z ≤ max_u64
unfolding to_bits
to_bits-le (pos n) = omega arith
to_bits-le (negsuc n) = omega arith

pub i128_to_parts-IsI64 : (z : ℤ) → IsI64 (i128_to_parts z).hi × IsU64 (i128_to_parts z).lo
unfolding i128_to_parts
i128_to_parts-IsI64 z =
    (from_bits-IsI64 (to_bits (2 ^ 64) (shr64_ℤ z)) (to_bits-le (shr64_ℤ z)), omega arith)

pub address_from_str-IsAddress :
    (sdk : Sdk) (s : String) → Ensures IsAddress (address_from_str sdk s)
unfolding address_from_str
address_from_str-IsAddress sdk s = elim (Option-cases (sdk.public_key s)) [
  | inr (key, found) ↦ rw (found, address_from_str) (holds IsAddress.account)
  | inl no_account ↦ elim (Option-cases (sdk.contract s)) [
    | inr (id, found) ↦ rw (no_account, address_from_str) (rw found (holds IsAddress.contract))
    | inl no_contract ↦ rw (no_account, address_from_str) (rw no_contract failed)
  ]
]

-- what is found passes the test, and so does it among all
pub find-any :
    {A : Type 0} (p : A → Bool) (q : A → ℕ) (xs : List A) (x : A)
    → find p xs ≡ some x
    → any (λ y. q y == q x) xs ≡ true
find-any p q [] x h = cc
find-any p q (y ∷ ys) x h = ground (arith, find-any p q ys x)
