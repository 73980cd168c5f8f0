-- ===== src/Scval/Enums.antt =====
-- `enum_to_scval`, `error_enum_to_scval` and `json_key_to_scval` of src/scval.rs.
use orcusapi.Base.{
  ℕ, ◌==◌, Option, none, some, List, [], ◌∷◌, String, str_eq, ok, err, ◌>>=◌, ◌>>◌, ok_or, map_err,
  ensure, any, find,
}
use orcusapi.Base.Text.{format}
use orcusapi.Std.Parse.{parse_unsigned, parse_signed, parse_bool}
use orcusapi.Std.Print.{show}
use orcusapi.Std.Words.{max_u32, max_u64, max_i32, max_i64, try_unsigned}
use orcusapi.Json.{Json, as_u64, as_str}
use orcusapi.Xdr.{ScVal}
use orcusapi.Xdr.Spec.{TypeDef, UdtEnum, EnumCase}
use orcusapi.Sdk.{Sdk}
use orcusapi.Scval.Scalars.{Fallible, symbol_from_str, address_from_str}

module _ (sdk : Sdk) where
  abbrev pub find_case : String → List EnumCase → Option EnumCase
  find_case s cases = find (λ c. str_eq (sdk.to_text c.name) s) cases

  unfoldable pub enum_of_number : UdtEnum → ℕ → Fallible ScVal
  enum_of_number e big = do
    n ← ok_or "enum value out of range" (try_unsigned max_u32 big)
    ensure (any (λ c. c.value == n) e.cases)
        (format ("enum `" ∷ sdk.to_text e.name ∷ "` has no case with value " ∷ show n ∷ []))
    ok (ScVal.u32 n)

  unfoldable pub enum_of_text : UdtEnum → Option String → Fallible ScVal
  enum_of_text e (some s) = do
    case ←
        ok_or (format ("enum `" ∷ sdk.to_text e.name ∷ "` has no case `" ∷ s ∷ "`" ∷ []))
          (find_case s e.cases)
    ok (ScVal.u32 case.value)
  enum_of_text e none =
      err (
        format
          ("expected a case name string or integer for enum `" ∷ sdk.to_text e.name ∷ "`" ∷ []))

  unfoldable pub enum_to_scval : UdtEnum → Json → Fallible ScVal
  unfolding enum_of_number enum_of_text
  enum_to_scval e value = elim (as_u64 value) [
    | some big ↦ enum_of_number e big
    | none ↦ enum_of_text e (as_str value)
  ]

  -- a number is taken without a look at the cases
  unfoldable pub error_enum_of_number : ℕ → Fallible ScVal
  error_enum_of_number big = do
    n ← ok_or "error enum value out of range" (try_unsigned max_u32 big)
    ok (ScVal.u32 n)

  unfoldable pub error_enum_of_text : UdtEnum → Option String → Fallible ScVal
  error_enum_of_text e (some s) = do
    case ←
        ok_or (format ("error enum `" ∷ sdk.to_text e.name ∷ "` has no case `" ∷ s ∷ "`" ∷ []))
          (find_case s e.cases)
    ok (ScVal.u32 case.value)
  error_enum_of_text e none = err (
      format
        ("expected a case name string or integer for error enum `" ∷ sdk.to_text e.name ∷ "`" ∷ []))

  unfoldable pub error_enum_to_scval : UdtEnum → Json → Fallible ScVal
  unfolding error_enum_of_number error_enum_of_text
  error_enum_to_scval e value = elim (as_u64 value) [
    | some big ↦ error_enum_of_number big
    | none ↦ error_enum_of_text e (as_str value)
  ]

  abbrev bad_key {ℓ} : {E : Type ℓ} → String → String → E → String
  bad_key what key e = format ("invalid " ∷ what ∷ " map key `" ∷ key ∷ "`" ∷ [])

  unfoldable pub json_key_to_scval : String → TypeDef → Fallible ScVal
  json_key_to_scval key TypeDef.symbol = do s ← symbol_from_str sdk key; ok (ScVal.symbol s)
  json_key_to_scval key TypeDef.string = do
    s ← ok_or "map key string too long" (sdk.to_string_m max_u32 key)
    ok (ScVal.string s)
  json_key_to_scval key TypeDef.address = do a ← address_from_str sdk key; ok (ScVal.address a)
  json_key_to_scval key TypeDef.muxed_address = do
    a ← address_from_str sdk key
    ok (ScVal.address a)
  json_key_to_scval key TypeDef.bool = do
    b ← ok_or (format ("invalid boolean map key `" ∷ key ∷ "`" ∷ [])) (parse_bool key)
    ok (ScVal.bool b)
  json_key_to_scval key TypeDef.u32 = do
    n ← map_err (bad_key "u32" key) (parse_unsigned max_u32 key)
    ok (ScVal.u32 n)
  json_key_to_scval key TypeDef.i32 = do
    n ← map_err (bad_key "i32" key) (parse_signed max_i32 key)
    ok (ScVal.i32 n)
  json_key_to_scval key TypeDef.u64 = do
    n ← map_err (bad_key "u64" key) (parse_unsigned max_u64 key)
    ok (ScVal.u64 n)
  json_key_to_scval key TypeDef.i64 = do
    n ← map_err (bad_key "i64" key) (parse_signed max_i64 key)
    ok (ScVal.i64 n)
  json_key_to_scval key t = err (
      format (
        "map keys of type "
        ∷ sdk.debug_type t
        ∷ " must be supplied via a whole-argument {\"__xdr\": ...} map"
        ∷ []))
