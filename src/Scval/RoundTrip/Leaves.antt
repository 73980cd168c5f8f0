-- ===== src/Scval/RoundTrip/Leaves.antt =====
-- The round trip at the types without parts.
use orcusapi.Base.{ℕ, ◌≤◌, ◌≡◌, true, ok, arith, length}
use orcusapi.Base.Int.{ℤ, pos, negsuc}
use orcusapi.Std.Print.{show, show_ℤ, parse_unsigned-show, parse_signed-show}
use orcusapi.Std.Words.{
  max_u32, max_u64, max_u128, max_i64, max_i128, IsU32, IsU64, IsI32, IsI64, IsI128,
}
use orcusapi.Json.{string}
use orcusapi.Xdr.{Bytes, Address, account, contract, ScVal, UnsignedParts, SignedParts}
use orcusapi.Xdr.Spec.{TypeDef}
use orcusapi.Sdk.{Sdk, IsKey, IsLawful}
use orcusapi.Spec.{ContractSpec}
use orcusapi.Scval.Parts.{
  u128_from_parts, i128_from_parts, u128_to_parts-from_parts, u128_from_parts-le,
  i128_to_parts-from_parts, i128_from_parts-IsI128,
}
use orcusapi.Scval.Scalars.{
  as_u64_lenient, as_i64_lenient, as_u128, as_i128, bytes_from_json, address_from_str,
  address_to_string,
}
use orcusapi.Scval.Udt.{Converter}
use orcusapi.Scval.Convert.{convert_with}
use orcusapi.Scval.Render.{scval_to_json}

pub as_u64-show : (n : ℕ) → IsU64 n → as_u64_lenient (string (show n)) ≡ ok n
unfolding as_u64_lenient
as_u64-show n h = rw (parse_unsigned-show max_u64 n h)

pub as_i64-show : (z : ℤ) → IsI64 z → as_i64_lenient (string (show_ℤ z)) ≡ ok z
unfolding as_i64_lenient
as_i64-show z h = rw (parse_signed-show max_i64 z h.0 h.1)

pub as_u128-show : (n : ℕ) → n ≤ max_u128 → as_u128 (string (show n)) ≡ ok n
unfolding as_u128
as_u128-show n h = rw (parse_unsigned-show max_u128 n h)

pub as_i128-show : (z : ℤ) → IsI128 z → as_i128 (string (show_ℤ z)) ≡ ok z
unfolding as_i128
as_i128-show z h = rw (parse_signed-show max_i128 z h.0 h.1)

module _ (sdk : Sdk) (law : IsLawful sdk) (spec : ContractSpec) (convert : Converter) where
  -- one round of the conversion on the rendering of `v`
  abbrev Back : ScVal → TypeDef → Type 0
  Back v t = convert_with sdk spec convert (scval_to_json sdk v) t ≡ ok v

  pub Back-u32 : (n : ℕ) → IsU32 n → Back (ScVal.u32 n) TypeDef.u32
  unfolding convert_with scval_to_json as_u64_lenient
  Back-u32 n h = ground arith

  pub Back-i32 : (z : ℤ) → IsI32 z → Back (ScVal.i32 z) TypeDef.i32
  unfolding convert_with scval_to_json as_i64_lenient
  Back-i32 (pos n) h = ground arith
  Back-i32 (negsuc n) h = ground arith

  pub Back-u64 : (n : ℕ) → IsU64 n → Back (ScVal.u64 n) TypeDef.u64
  unfolding convert_with scval_to_json
  Back-u64 n h = rw (as_u64-show n h)

  pub Back-timepoint : (n : ℕ) → IsU64 n → Back (ScVal.timepoint n) TypeDef.timepoint
  unfolding convert_with scval_to_json
  Back-timepoint n h = rw (as_u64-show n h)

  pub Back-duration : (n : ℕ) → IsU64 n → Back (ScVal.duration n) TypeDef.duration
  unfolding convert_with scval_to_json
  Back-duration n h = rw (as_u64-show n h)

  pub Back-i64 : (z : ℤ) → IsI64 z → Back (ScVal.i64 z) TypeDef.i64
  unfolding convert_with scval_to_json
  Back-i64 z h = rw (as_i64-show z h)

  pub Back-u128 : (p : UnsignedParts) → IsU64 p.hi → IsU64 p.lo → Back (ScVal.u128 p) TypeDef.u128
  unfolding convert_with scval_to_json
  Back-u128 p h l =
      rw (
        as_u128-show (u128_from_parts p) (u128_from_parts-le p h l),
        u128_to_parts-from_parts p h l,
      )

  pub Back-i128 : (p : SignedParts) → IsI64 p.hi → IsU64 p.lo → Back (ScVal.i128 p) TypeDef.i128
  unfolding convert_with scval_to_json
  Back-i128 p h l = rw (
    as_i128-show (i128_from_parts p) (i128_from_parts-IsI128 p h l),
    i128_to_parts-from_parts p h l,
  )

  pub Back-bytes :
      (b : Bytes) → sdk.fits max_u32 (length b) ≡ true → Back (ScVal.bytes b) TypeDef.bytes
  unfolding convert_with scval_to_json
  Back-bytes b h = unfold bytes_from_json in rw (law.decode-encode b) (rw h)

  pub Back-bytes_n :
      (n : ℕ) (b : Bytes)
      → length b ≡ n
      → sdk.fits max_u32 (length b) ≡ true
      → Back (ScVal.bytes b) (TypeDef.bytes_n n)
  unfolding convert_with scval_to_json
  Back-bytes_n n b e h = unfold bytes_from_json in rw (law.decode-encode b) (ground arith)

  Back-address :
      (a : Address)
      → address_from_str sdk (address_to_string sdk a) ≡ ok a
      → Back (ScVal.address a) TypeDef.address
  unfolding convert_with scval_to_json
  Back-address a h = rw h

  pub Back-account : (b : Bytes) → IsKey b → Back (ScVal.address (account b)) TypeDef.address
  Back-account b h =
      Back-address (account b) (
        unfold address_from_str address_to_string in rw (law.public_key-show b h, address_from_str))

  pub Back-contract : (b : Bytes) → IsKey b → Back (ScVal.address (contract b)) TypeDef.address
  Back-contract b h = Back-address (contract b) (
      unfold address_from_str address_to_string in
      rw (law.public_key-show_contract b h, address_from_str)
        (rw (law.contract-show b h, address_from_str)))
