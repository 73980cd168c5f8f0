-- ===== src/Scval/Bounds.antt =====
-- What a converted value is known to satisfy by its type, whatever the JSON was.
use orcusapi.Base.{
  ℕ, ◌≡◌, ◌==◌, refl, sym, ◌∙◌, none, ok, arith, length, Ensures, holds, Ensures-ok, Ensures-bind,
  Ensures-ok_or, Ensures-ensure, Ensures-result,
}
use orcusapi.Base.Int.{ℤ}
use orcusapi.Std.Words.{max_u32, max_i32, try_unsigned, try_signed, IsU32, IsI32}
use orcusapi.Json.{Json, get}
use orcusapi.Xdr.{Bytes, ScVal}
use orcusapi.Xdr.Spec.{TypeDef}
use orcusapi.Sdk.{Sdk}
use orcusapi.Spec.{ContractSpec}
use orcusapi.Scval.Scalars.{as_u64_lenient, as_i64_lenient, bytes_from_json}
use orcusapi.Scval.Udt.{to_sc_bytes}
use orcusapi.Scval.Convert.{json_to_scval, convert_with, by_type}
use orcusapi.Scval.Fuel.{json_to_scval-eq}
use orcusapi.Scval.Typing.Leaves.{try_unsigned-le, try_signed-IsI32}

-- the limits that a type sets, whatever was converted
abbrev pub IsWithin : TypeDef → ScVal → Type 0
IsWithin TypeDef.u32 r = (n : ℕ) × (r ≡ ScVal.u32 n) × IsU32 n
IsWithin TypeDef.i32 r = (z : ℤ) × (r ≡ ScVal.i32 z) × IsI32 z
IsWithin (TypeDef.bytes_n k) r = (b : Bytes) × (r ≡ ScVal.bytes b) × (length b ≡ k)
IsWithin _ r = Unit

module _ (sdk : Sdk) (spec : ContractSpec) where
  -- off the escape hatch the type decides
  plain :
      (v : Json) (t : TypeDef)
      → get "__xdr" v ≡ none
      → json_to_scval sdk spec v t ≡ by_type sdk spec (json_to_scval sdk spec) v t
  unfolding convert_with
  plain v t h = json_to_scval-eq sdk spec v t ∙ rw (h, convert_with) refl

  u32-Ensures :
      (v : Json)
      → Ensures
          (λ r. (n : ℕ) × (r ≡ ScVal.u32 n) × IsU32 n)
          (by_type sdk spec (json_to_scval sdk spec) v TypeDef.u32)
  unfolding by_type
  u32-Ensures v = Ensures-bind (Ensures-result (as_u64_lenient v)) λ big _.
      Ensures-bind (Ensures-ok_or _ (try_unsigned max_u32 big))
        λ n fits. holds (n, refl, try_unsigned-le max_u32 big n fits)

  i32-Ensures :
      (v : Json)
      → Ensures
          (λ r. (z : ℤ) × (r ≡ ScVal.i32 z) × IsI32 z)
          (by_type sdk spec (json_to_scval sdk spec) v TypeDef.i32)
  unfolding by_type
  i32-Ensures v = Ensures-bind (Ensures-result (as_i64_lenient v)) λ big _.
      Ensures-bind (Ensures-ok_or _ (try_signed max_i32 big))
        λ z fits. holds (z, refl, try_signed-IsI32 big z fits)

  bytes_n-Ensures :
      (v : Json) (k : ℕ)
      → Ensures
          (λ r. (b : Bytes) × (r ≡ ScVal.bytes b) × (length b ≡ k))
          (by_type sdk spec (json_to_scval sdk spec) v (TypeDef.bytes_n k))
  unfolding by_type to_sc_bytes
  bytes_n-Ensures v k = Ensures-bind (Ensures-result (bytes_from_json sdk v)) λ b _.
      Ensures-bind (Ensures-ensure (length b == k) _) λ _ exact.
        Ensures-bind (Ensures-ensure (sdk.fits max_u32 (length b)) _)
          λ _ _. holds (b, refl, ground arith)

  -- Off the escape hatch, what converts at `u32` is an unsigned value within 32 bits.
  pub json_to_scval-IsU32 :
      (v : Json) (r : ScVal)
      → get "__xdr" v ≡ none
      → json_to_scval sdk spec v TypeDef.u32 ≡ ok r
      → (n : ℕ) × (r ≡ ScVal.u32 n) × IsU32 n
  json_to_scval-IsU32 v r direct h =
      Ensures-ok (u32-Ensures v) (sym (plain v TypeDef.u32 direct) ∙ h)

  -- Off the escape hatch, what converts at `i32` is a signed value within 32 bits.
  pub json_to_scval-IsI32 :
      (v : Json) (r : ScVal)
      → get "__xdr" v ≡ none
      → json_to_scval sdk spec v TypeDef.i32 ≡ ok r
      → (z : ℤ) × (r ≡ ScVal.i32 z) × IsI32 z
  json_to_scval-IsI32 v r direct h =
      Ensures-ok (i32-Ensures v) (sym (plain v TypeDef.i32 direct) ∙ h)

  -- Off the escape hatch, what converts at `bytesN` is a byte string of exactly that length.
  pub json_to_scval-length :
      (v : Json) (k : ℕ) (r : ScVal)
      → get "__xdr" v ≡ none
      → json_to_scval sdk spec v (TypeDef.bytes_n k) ≡ ok r
      → (b : Bytes) × (r ≡ ScVal.bytes b) × (length b ≡ k)
  json_to_scval-length v k r direct h =
      Ensures-ok (bytes_n-Ensures v k) (sym (plain v (TypeDef.bytes_n k) direct) ∙ h)

  -- Off the escape hatch, what converts at `u32` and `i32` is within 32 bits, unsigned and signed, and
  -- what converts at `bytesN` has exactly that length, whatever the JSON value was.
  pub json_to_scval-IsWithin :
      (v : Json) (t : TypeDef) (r : ScVal)
      → get "__xdr" v ≡ none
      → json_to_scval sdk spec v t ≡ ok r
      → IsWithin t r
  json_to_scval-IsWithin v TypeDef.u32 r direct h = json_to_scval-IsU32 v r direct h
  json_to_scval-IsWithin v TypeDef.i32 r direct h = json_to_scval-IsI32 v r direct h
  json_to_scval-IsWithin v (TypeDef.bytes_n k) r direct h = json_to_scval-length v k r direct h
  json_to_scval-IsWithin v _ r direct h = tt
