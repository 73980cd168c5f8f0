-- ===== src/Scval/Typing/Enums.antt =====
-- `enum_to_scval` and `error_enum_to_scval` of src/scval.rs give values of the type.
use orcusapi.Base.{
  false, ℕ, ◌≡◌, ◌==◌, refl, sym, true, Option, none, some, String, str_eq, Option-cases, inl, inr,
  any, Ensures, holds, failed, Ensures-bind, Ensures-ok_or, Ensures-weaken, Ensures-ensure,
}
use mathlib.Core.Path.{subst}
use orcusapi.Std.HashMap
use orcusapi.Std.Words.{max_u32, try_unsigned, IsU32}
use orcusapi.Json.{Json, as_u64, as_str}
use orcusapi.Xdr.{Bytes, ScVal}
use orcusapi.Xdr.Spec.{TypeDef, UdtEnum}
use orcusapi.Sdk.{Sdk, IsLawful}
use orcusapi.Spec.{ContractSpec}
use orcusapi.Scval.Scalars.{symbol_from_str}
use orcusapi.Scval.Enums.{
  enum_of_number, enum_of_text, enum_to_scval, error_enum_of_number, error_enum_of_text,
  error_enum_to_scval, find_case,
}
use orcusapi.Scval.Typing.{HasType, IsStringOf}
use orcusapi.Scval.Typing.Leaves.{try_unsigned-le, find-any}

module _ (sdk : Sdk) where
  pub symbol_from_str-Ensures : (s : String) → Ensures (IsStringOf sdk 32 s) (symbol_from_str sdk s)
  unfolding symbol_from_str
  symbol_from_str-Ensures s = Ensures-ok_or _ (sdk.to_string_m 32 s)

  enum_of_number-Ensures :
      (e : UdtEnum) (big : ℕ)
      → Ensures
          (λ r. (n : ℕ) × (r ≡ ScVal.u32 n) × (any (λ c. c.value == n) e.cases ≡ true))
          (enum_of_number sdk e big)
  unfolding enum_of_number
  enum_of_number-Ensures e big = Ensures-bind (Ensures-ok_or _ (try_unsigned max_u32 big)) λ n _.
      Ensures-bind (Ensures-ensure (any (λ c. c.value == n) e.cases) _)
        λ _ known. holds (n, refl, known)

  enum_of_text-Ensures :
      (e : UdtEnum) (s : Option String)
      → Ensures
          (λ r. (n : ℕ) × (r ≡ ScVal.u32 n) × (any (λ c. c.value == n) e.cases ≡ true))
          (enum_of_text sdk e s)
  unfolding enum_of_text
  enum_of_text-Ensures e none = failed
  enum_of_text-Ensures e (some s) =
      Ensures-bind (Ensures-ok_or _ (find_case sdk s e.cases)) λ c found. holds (
        c.value,
        refl,
        find-any (λ c. str_eq (sdk.to_text c.name) s) (λ c. c.value) e.cases c found,
      )

  -- an enum's value is the number of one of its cases
  enum_to_scval-Ensures :
      (e : UdtEnum) (v : Json)
      → Ensures
          (λ r. (n : ℕ) × (r ≡ ScVal.u32 n) × (any (λ c. c.value == n) e.cases ≡ true))
          (enum_to_scval sdk e v)
  unfolding enum_to_scval
  enum_to_scval-Ensures e v = elim (Option-cases (as_u64 v)) [
    | inl text ↦ rw (text, enum_to_scval) (enum_of_text-Ensures e (as_str v))
    | inr (big, given) ↦ rw (given, enum_to_scval) (enum_of_number-Ensures e big)
  ]

  error_enum_of_number-Ensures :
      (big : ℕ)
      → Ensures (λ r. (n : ℕ) × (r ≡ ScVal.u32 n) × IsU32 n) (error_enum_of_number sdk big)
  unfolding error_enum_of_number
  error_enum_of_number-Ensures big =
      Ensures-bind (Ensures-ok_or _ (try_unsigned max_u32 big))
        λ n fits. holds (n, refl, try_unsigned-le max_u32 big n fits)

  error_enum_of_text-Ensures :
      (e : UdtEnum) (s : Option String)
      → Ensures
          (λ r. (n : ℕ) × (r ≡ ScVal.u32 n) × (any (λ c. c.value == n) e.cases ≡ true))
          (error_enum_of_text sdk e s)
  unfolding error_enum_of_text
  error_enum_of_text-Ensures e none = failed
  error_enum_of_text-Ensures e (some s) =
      Ensures-bind (Ensures-ok_or _ (find_case sdk s e.cases)) λ c found. holds (
        c.value,
        refl,
        find-any (λ c. str_eq (sdk.to_text c.name) s) (λ c. c.value) e.cases c found,
      )

module _ (sdk : Sdk) (law : IsLawful sdk) (hatch : ScVal → Type 0) (spec : ContractSpec) where
  pub enum-HasType :
      (name : Bytes) (e : UdtEnum) (v : Json)
      → HashMap.get (sdk.to_text name) spec.structs ≡ none
      → HashMap.contains_key (sdk.to_text name) spec.unions ≡ false
      → HashMap.get (sdk.to_text name) spec.enums ≡ some e
      → Ensures (HasType sdk hatch spec (TypeDef.udt name)) (enum_to_scval sdk e v)
  enum-HasType name e v no_struct no_union known =
      Ensures-weaken (enum_to_scval-Ensures sdk e v) λ r (n, same, is_case).
        subst (HasType sdk hatch spec (TypeDef.udt name)) (sym same)
          (HasType.enum no_struct no_union known is_case)

  pub error_enum-HasType :
      (name : Bytes) (e : UdtEnum) (v : Json)
      → HashMap.get (sdk.to_text name) spec.structs ≡ none
      → HashMap.contains_key (sdk.to_text name) spec.unions ≡ false
      → HashMap.get (sdk.to_text name) spec.error_enums ≡ some e
      → Ensures (HasType sdk hatch spec (TypeDef.udt name)) (error_enum_to_scval sdk e v)
  unfolding error_enum_to_scval
  error_enum-HasType name e v no_struct no_union known = elim (Option-cases (as_u64 v)) [
    | inl text ↦
        rw (text, error_enum_to_scval)
          (Ensures-weaken (error_enum_of_text-Ensures sdk e (as_str v)) λ r (n, same, is_case).
            subst (HasType sdk hatch spec (TypeDef.udt name)) (sym same)
              (HasType.error_case no_struct no_union known is_case))
    | inr (big, given) ↦
        rw (given, error_enum_to_scval)
          (Ensures-weaken (error_enum_of_number-Ensures sdk big) λ r (n, same, fits).
            subst (HasType sdk hatch spec (TypeDef.udt name)) (sym same)
              (HasType.error_number no_struct no_union known fits))
  ]
