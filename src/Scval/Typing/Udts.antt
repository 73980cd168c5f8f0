-- ===== src/Scval/Typing/Udts.antt =====
-- `udt_to_scval` of src/scval.rs and what it calls give values of the type, if the recursive calls do.
use orcusapi.Base.{
  false, ◌≡◌, ◌==◌, refl, sym, ap, ◌∙◌, none, some, List, [], ◌∷◌, String, length, All,
  Option-cases, inl, inr, is_empty, Ensures, holds, failed, Ensures-bind, Ensures-ok_or,
  Ensures-weaken, Ensures-if, Ensures-ensure, Ensures-traverse,
}
use mathlib.Core.Path.{subst}
use orcusapi.Std.HashMap
use orcusapi.Json.{Json, Fields, lookup}
use orcusapi.Xdr.{Bytes, ScVal, to_vec}
use orcusapi.Xdr.Spec.{TypeDef, Field, UdtStruct, UnionCase, void_v0, tuple_v0}
use orcusapi.Sdk.{Sdk, IsLawful}
use orcusapi.Spec.{ContractSpec, union_case}
use orcusapi.Scval.Udt.{
  Converter, struct_entry, tuple_struct_to_scval, named_struct_to_scval, struct_to_scval,
  is_tuple_struct, case_args, split_case, case_items, union_to_scval, enum_udt_to_scval,
  udt_to_scval,
}
use orcusapi.Scval.Typing.{IsJson, HasType, HaveTypes, IsStringOf, array, object, field}
use orcusapi.Scval.Typing.Nodes.{
  IsSound, items-All, as_array-All, as_object-All, lookup-IsJson, All-any, to_sc_vec-Ensures,
  to_sc_map-Ensures, elements-to_vec, HaveTypes-Pointwise, AreComponents-Pointwise,
  AreNamed-Pointwise, IsEntryOf, zip-HaveTypes,
}
use orcusapi.Scval.Typing.Enums.{symbol_from_str-Ensures, enum-HasType, error_enum-HasType}

case_args-All :
    {sdk : Sdk} {hatch : ScVal → Type 0} (v : Json)
    → IsJson sdk hatch v
    → All (IsJson sdk hatch) (case_args v)
unfolding case_args
case_args-All (Json.array xs) (array h) = items-All h
case_args-All Json.null h = tt
case_args-All (Json.bool b) h = (h, tt)
case_args-All (Json.number n) h = (h, tt)
case_args-All (Json.string s) h = (h, tt)
case_args-All (Json.object fs) h = (h, tt)

split_case-All :
    {sdk : Sdk} {hatch : ScVal → Type 0} (name : String) (v : Json)
    → IsJson sdk hatch v
    → Ensures (λ c. All (IsJson sdk hatch) c.1) (split_case name v)
unfolding split_case
split_case-All name (Json.string s) h = holds tt
split_case-All name (Json.object (Fields.field k v Fields.end)) (object (field _ h _)) =
    holds (case_args-All v h)
split_case-All name _ h = failed

module _ (sdk : Sdk) (law : IsLawful sdk) (hatch : ScVal → Type 0) (spec : ContractSpec) where
  module _ (convert : Converter) (sound : IsSound sdk law hatch spec convert) where
    struct_entry-Ensures :
        (name : String) (given : List (String × Json)) (f : Field)
        → All (λ x. IsJson sdk hatch x.1) given
        → Ensures (IsEntryOf sdk law hatch spec f) (struct_entry sdk convert name given f)
    unfolding struct_entry
    struct_entry-Ensures name given f hs =
        Ensures-bind (Ensures-ok_or _ (lookup (sdk.to_text f.name) given)) λ fv found.
          Ensures-bind (symbol_from_str-Ensures sdk (sdk.to_text f.name)) λ b text.
            Ensures-bind (sound fv f.type_ (lookup-IsJson (sdk.to_text f.name) given fv hs found))
              λ val h. holds (b, refl, text, h)

    struct-HasType :
        (name : Bytes) (s : UdtStruct) (v : Json)
        → IsJson sdk hatch v
        → HashMap.get (sdk.to_text name) spec.structs ≡ some s
        → Ensures (HasType sdk hatch spec (TypeDef.udt name)) (struct_to_scval sdk convert s v)
    unfolding struct_to_scval tuple_struct_to_scval named_struct_to_scval
    struct-HasType name s v h known =
        Ensures-if (is_tuple_struct sdk s)
          (λ numbered. Ensures-bind (as_array-All _ v h) λ arr hs.
            Ensures-bind (Ensures-ensure (length arr == length s.fields) _) λ _ same.
              Ensures-bind
                (zip-HaveTypes sdk law hatch spec convert sound (λ f. f.type_) arr s.fields hs same)
                λ vs ps. to_sc_vec-Ensures sdk _ vs (
                  HasType.tuple_struct known numbered
                    (rw (elements-to_vec vs) (AreComponents-Pointwise sdk law hatch spec ps))))
          (λ named. Ensures-bind (as_object-All _ v h) λ given hs.
            Ensures-bind
              (Ensures-traverse (IsEntryOf sdk law hatch spec)
                (struct_entry sdk convert (sdk.to_text s.name) given) s.fields
                (All-any s.fields (λ f. struct_entry-Ensures (sdk.to_text s.name) given f hs)))
              λ es ps. Ensures-weaken (to_sc_map-Ensures sdk law _ es) λ r (m, same, sorted).
                subst (HasType sdk hatch spec (TypeDef.udt name)) (sym same) (
                  HasType.named_struct known named (AreNamed-Pointwise sdk law hatch spec ps)
                    sorted))

    -- the arguments of a case
    abbrev IsCase : String → UnionCase → List ScVal → Type 0
    IsCase name (void_v0 _ _) rest = rest ≡ []
    IsCase name (tuple_v0 _ _ types) rest = HaveTypes sdk hatch spec types rest

    case_items-Ensures :
        (union name : String) (args : List Json) (c : UnionCase)
        → All (IsJson sdk hatch) args
        → Ensures (IsCase name c) (case_items convert union name args c)
    unfolding case_items
    case_items-Ensures union name args (void_v0 doc n) hs =
        Ensures-bind (Ensures-ensure (is_empty args) _) λ _ _. holds refl
    case_items-Ensures union name args (tuple_v0 doc n types) hs =
        Ensures-bind (Ensures-ensure (length args == length types) _) λ _ same.
          Ensures-weaken
            (zip-HaveTypes sdk law hatch spec convert sound (λ t. t) args types hs same)
            λ vs ps. HaveTypes-Pointwise sdk law hatch spec ps

    case-HasType :
        (name : Bytes) (chosen : String) (c : UnionCase) (tag : Bytes) (rest : List ScVal)
        → HashMap.get (sdk.to_text name) spec.structs ≡ none
        → union_case sdk spec (sdk.to_text name) chosen ≡ some c
        → IsStringOf sdk 32 chosen tag
        → IsCase chosen c rest
        → HasType sdk hatch spec (TypeDef.udt name) (ScVal.vec (to_vec (ScVal.symbol tag ∷ rest)))
    case-HasType name chosen (void_v0 _ _) tag rest no_struct known text none_left =
        HasType.void_case no_struct known text
          (elements-to_vec (ScVal.symbol tag ∷ rest) ∙ ap (λ r. ScVal.symbol tag ∷ r) none_left)
    case-HasType name chosen (tuple_v0 _ _ types) tag rest no_struct known text hs =
        HasType.tuple_case no_struct known text hs (elements-to_vec (ScVal.symbol tag ∷ rest))

    union-HasType :
        (name : Bytes) (v : Json)
        → IsJson sdk hatch v
        → HashMap.get (sdk.to_text name) spec.structs ≡ none
        → Ensures
            (HasType sdk hatch spec (TypeDef.udt name))
            (union_to_scval sdk spec convert (sdk.to_text name) v)
    unfolding union_to_scval
    union-HasType name v h no_struct =
        Ensures-bind (split_case-All (sdk.to_text name) v h) λ chosen hs.
          Ensures-bind (Ensures-ok_or _ (union_case sdk spec (sdk.to_text name) chosen.0))
            λ c known. Ensures-bind (symbol_from_str-Ensures sdk chosen.0) λ tag text.
              Ensures-bind (case_items-Ensures (sdk.to_text name) chosen.0 chosen.1 c hs) λ rest ps.
                to_sc_vec-Ensures sdk _ (ScVal.symbol tag ∷ rest)
                  (case-HasType name chosen.0 c tag rest no_struct known text ps)

    enum_udt-HasType :
        (name : Bytes) (v : Json)
        → HashMap.get (sdk.to_text name) spec.structs ≡ none
        → HashMap.contains_key (sdk.to_text name) spec.unions ≡ false
        → Ensures
            (HasType sdk hatch spec (TypeDef.udt name))
            (enum_udt_to_scval sdk spec (sdk.to_text name) v)
    unfolding enum_udt_to_scval
    enum_udt-HasType name v no_struct no_union =
        elim (Option-cases (HashMap.get (sdk.to_text name) spec.enums)) [
          | inr (e, known) ↦
              rw (known, enum_udt_to_scval)
                (enum-HasType sdk law hatch spec name e v no_struct no_union known)
          | inl no_enum ↦ elim (Option-cases (HashMap.get (sdk.to_text name) spec.error_enums)) [
            | inr (e, known) ↦
                rw (no_enum, enum_udt_to_scval)
                  (rw known
                    (error_enum-HasType sdk law hatch spec name e v no_struct no_union known))
            | inl no_error ↦ rw (no_enum, enum_udt_to_scval) (rw no_error failed)
          ]
        ]

    pub udt-HasType :
        (name : Bytes) (v : Json)
        → IsJson sdk hatch v
        → Ensures
            (HasType sdk hatch spec (TypeDef.udt name))
            (udt_to_scval sdk spec convert (sdk.to_text name) v)
    unfolding udt_to_scval
    udt-HasType name v h = elim (Option-cases (HashMap.get (sdk.to_text name) spec.structs)) [
      | inr (s, known) ↦ rw (known, udt_to_scval) (struct-HasType name s v h known)
      | inl no_struct ↦
          rw (no_struct, udt_to_scval)
            (Ensures-if (HashMap.contains_key (sdk.to_text name) spec.unions)
              (λ _. union-HasType name v h no_struct)
              (λ no_union. enum_udt-HasType name v no_struct no_union))
    ]
