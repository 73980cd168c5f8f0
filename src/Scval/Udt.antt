-- ===== src/Scval/Udt.antt =====
-- `udt_to_scval` of src/scval.rs and what it calls. Each function takes the recursive call of
-- `json_to_scval` as an argument.
use orcusapi.Base.{
  ℕ, suc, ◌==◌, not, Bool, true, ◌&&◌, none, some, List, [], ◌∷◌, String, str_eq, ok, err, ◌>>=◌,
  ◌>>◌, ok_or, ensure, traverse, length, zip, is_empty, if◌then◌else◌,
}
use orcusapi.Base.Text.{format}
use orcusapi.Std.HashMap
use orcusapi.Std.Print.{show}
use orcusapi.Std.Sort.{sort_by}
use orcusapi.Std.Words.{max_u32}
use orcusapi.Json.{
  Json, null, string, array, object, end, field, items, as_array, as_object, lookup,
}
use orcusapi.Xdr.{Bytes, ScVal, to_vec, to_map}
use orcusapi.Xdr.Spec.{TypeDef, Field, UdtStruct, UnionCase, void_v0, tuple_v0}
use orcusapi.Sdk.{Sdk}
use orcusapi.Spec.{ContractSpec, union_case}
use orcusapi.Scval.Scalars.{Fallible, symbol_from_str}
use orcusapi.Scval.Enums.{enum_to_scval, error_enum_to_scval}

-- the type of `json_to_scval` with the spec at hand
abbrev pub Converter : Type 0
Converter = Json → TypeDef → Fallible ScVal

-- the arguments of a case, from the value behind its name
unfoldable pub case_args : Json → List Json
case_args (array xs) = items xs
case_args null = []
case_args other = other ∷ []

abbrev pub bad_case : String → String
bad_case union_name = format (
    "expected a case name string, or a single-key object of {\"CaseName\": [args...]}, for union `"
    ∷ union_name ∷ "`" ∷ [])

-- the case name and its arguments
unfoldable pub split_case : String → Json → Fallible (String × List Json)
unfolding case_args
split_case union_name (string s) = ok (s, [])
split_case union_name (object (field k v end)) = ok (k, case_args v)
split_case union_name _ = err (bad_case union_name)

-- the arguments of the chosen case, converted
unfoldable pub case_items :
    Converter → String → String → List Json → UnionCase → Fallible (List ScVal)
case_items convert union_name name args (void_v0 _ _) = do
  ensure (is_empty args)
      (format ("case `" ∷ name ∷ "` of union `" ∷ union_name ∷ "` takes no arguments" ∷ []))
  ok []
case_items convert union_name name args (tuple_v0 _ _ types) = do
  ensure (length args == length types) (
      format (
        "case `"
        ∷ name
        ∷ "` of union `"
        ∷ union_name
        ∷ "` expects "
        ∷ show (length types)
        ∷ " argument(s), got "
        ∷ show (length args)
        ∷ []))
  traverse (λ p. convert p.0 p.1) (zip args types)

module _ (sdk : Sdk) where
  -- `items.try_into()` for an `ScVec`
  unfoldable pub to_sc_vec : String → List ScVal → Fallible ScVal
  to_sc_vec message vs = do
    ensure (sdk.fits max_u32 (length vs)) message
    ok (ScVal.vec (to_vec vs))

  -- `entries.sort_by(…)`, then `entries.try_into()` for an `ScMap`
  unfoldable pub to_sc_map : String → List (ScVal × ScVal) → Fallible ScVal
  to_sc_map message es =
      let sorted = sort_by (λ a b. sdk.compare a.0 b.0) es in
      do ensure (sdk.fits max_u32 (length sorted)) message; ok (ScVal.map (to_map sorted))

  unfoldable pub to_sc_bytes : String → Bytes → Fallible ScVal
  to_sc_bytes message b = do ensure (sdk.fits max_u32 (length b)) message; ok (ScVal.bytes b)

  -- every field is named by its position, from `i` on
  unfoldable pub is_numbered : ℕ → List Field → Bool
  is_numbered i [] = true
  is_numbered i (f ∷ fs) = str_eq (sdk.to_text f.name) (show i) && is_numbered (suc i) fs

  -- one round of the loop over the fields of a struct
  unfoldable pub struct_entry :
      Converter → String → List (String × Json) → Field → Fallible (ScVal × ScVal)
  struct_entry convert name given f =
      let fname = sdk.to_text f.name in
      do
        fv ←
            ok_or (format ("struct `" ∷ name ∷ "` is missing field `" ∷ fname ∷ "`" ∷ []))
              (lookup fname given)
        key ← symbol_from_str sdk fname
        val ← convert fv f.type_
        ok (ScVal.symbol key, val)

  unfoldable pub tuple_struct_to_scval : Converter → String → List Field → Json → Fallible ScVal
  unfolding to_sc_vec
  tuple_struct_to_scval convert name fs value = do
    arr ← ok_or (format ("expected an array for tuple struct `" ∷ name ∷ "`" ∷ [])) (as_array value)
    ensure (length arr == length fs) (
        format (
          "struct `"
          ∷ name
          ∷ "` expects "
          ∷ show (length fs)
          ∷ " field(s), got "
          ∷ show (length arr)
          ∷ []))
    vs ← traverse (λ p. convert p.0 p.1.type_) (zip arr fs)
    to_sc_vec (format ("struct `" ∷ name ∷ "` has too many fields" ∷ [])) vs

  unfoldable pub named_struct_to_scval : Converter → String → List Field → Json → Fallible ScVal
  unfolding to_sc_map struct_entry
  named_struct_to_scval convert name fs value = do
    given ← ok_or (format ("expected an object for struct `" ∷ name ∷ "`" ∷ [])) (as_object value)
    es ← traverse (struct_entry convert name given) fs
    to_sc_map (format ("struct `" ∷ name ∷ "` has too many fields" ∷ [])) es

  -- `is_tuple_struct && !s.fields.is_empty()`
  unfoldable pub is_tuple_struct : UdtStruct → Bool
  unfolding is_numbered
  is_tuple_struct s = is_numbered 0 s.fields && not (is_empty s.fields)

  unfoldable pub struct_to_scval : Converter → UdtStruct → Json → Fallible ScVal
  unfolding tuple_struct_to_scval named_struct_to_scval is_tuple_struct
  struct_to_scval convert s value =
      let name = sdk.to_text s.name in
      if is_tuple_struct s
      then tuple_struct_to_scval convert name s.fields value
      else named_struct_to_scval convert name s.fields value

  module _ (spec : ContractSpec) where
    unfoldable pub union_to_scval : Converter → String → Json → Fallible ScVal
    unfolding split_case case_items to_sc_vec
    union_to_scval convert union_name value = do
      chosen ← split_case union_name value
      case ←
          ok_or (format ("union `" ∷ union_name ∷ "` has no case `" ∷ chosen.0 ∷ "`" ∷ []))
            (union_case sdk spec union_name chosen.0)
      tag ← symbol_from_str sdk chosen.0
      rest ← case_items convert union_name chosen.0 chosen.1 case
      to_sc_vec "union value too large" (ScVal.symbol tag ∷ rest)

    -- what is neither a struct nor a union, by name
    unfoldable pub enum_udt_to_scval : String → Json → Fallible ScVal
    enum_udt_to_scval name value = elim (HashMap.get name spec.enums) [
      | some e ↦ enum_to_scval sdk e value
      | none ↦ elim (HashMap.get name spec.error_enums) [
        | some e ↦ error_enum_to_scval sdk e value
        | none ↦
            err (format ("contract spec does not define user-defined type `" ∷ name ∷ "`" ∷ []))
      ]
    ]

    -- structs, then unions, then enums, then error enums
    unfoldable pub udt_to_scval : Converter → String → Json → Fallible ScVal
    unfolding struct_to_scval union_to_scval enum_udt_to_scval
    udt_to_scval convert name value = elim (HashMap.get name spec.structs) [
      | some s ↦ struct_to_scval convert s value
      | none ↦
          if HashMap.contains_key name spec.unions
          then union_to_scval convert name value
          else enum_udt_to_scval name value
    ]
