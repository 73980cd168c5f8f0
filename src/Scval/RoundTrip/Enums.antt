-- ===== src/Scval/RoundTrip/Enums.antt =====
-- One round of the conversion back at the two kinds of enums.
use orcusapi.Base.{ℕ, leb, ◌==◌, ◌≡◌, true, none, some, arith, any}
use orcusapi.Std.HashMap
use orcusapi.Std.Words.{max_u32, IsU32}
use orcusapi.Xdr.{ScVal}
use orcusapi.Xdr.{Bytes}
use orcusapi.Xdr.Spec.{TypeDef, UdtEnum}
use orcusapi.Sdk.{Sdk}
use orcusapi.Spec.{ContractSpec}
use orcusapi.Scval.Enums.{enum_to_scval, error_enum_to_scval}
use orcusapi.Scval.Udt.{Converter, udt_to_scval, enum_udt_to_scval}
use orcusapi.Scval.Convert.{convert_with}
use orcusapi.Scval.Render.{scval_to_json}
use orcusapi.Scval.RoundTrip.Nodes.{Back}

module _ (sdk : Sdk) (spec : ContractSpec) (convert : Converter) where
  pub Back-enum :
      (name : Bytes) (e : UdtEnum) (n : ℕ)
      → HashMap.get (sdk.to_text name) spec.structs ≡ none
      → HashMap.get (sdk.to_text name) spec.unions ≡ none
      → HashMap.get (sdk.to_text name) spec.enums ≡ some e
      → any (λ c. c.value == n) e.cases ≡ true
      → IsU32 n
      → Back sdk spec convert (ScVal.u32 n) (TypeDef.udt name)
  unfolding convert_with scval_to_json enum_to_scval
  Back-enum name e n no_struct no_union found listed fits =
      rw (no_struct, udt_to_scval)
        (rw (no_union, udt_to_scval)
          (rw (found, enum_udt_to_scval)
            (let in_range : leb n max_u32 ≡ true = ground arith in rw in_range (rw listed))))

  pub Back-error_enum :
      (name : Bytes) (e : UdtEnum) (n : ℕ)
      → HashMap.get (sdk.to_text name) spec.structs ≡ none
      → HashMap.get (sdk.to_text name) spec.unions ≡ none
      → HashMap.get (sdk.to_text name) spec.enums ≡ none
      → HashMap.get (sdk.to_text name) spec.error_enums ≡ some e
      → IsU32 n
      → Back sdk spec convert (ScVal.u32 n) (TypeDef.udt name)
  unfolding convert_with scval_to_json error_enum_to_scval
  Back-error_enum name e n no_struct no_union no_enum found fits =
      rw (no_struct, udt_to_scval)
        (rw (no_union, udt_to_scval)
          (rw (no_enum, enum_udt_to_scval) (rw (found, enum_udt_to_scval) (ground arith))))
