-- ===== src/Scval/RoundTrip.antt =====
-- Rendering a value and converting the rendering back.
pub mod Canonical
mod Objects
mod Leaves
mod Nodes
mod Enums
pub mod Refused
use orcusapi.Base.{
  ℕ, ◌==◌, ◌≡◌, refl, ap, sym, ◌∙◌, Bool, true, false, none, some, List, [], ◌∷◌, String, ok, err,
  ◌>>=◌, ◌>>◌, arith, length, zip, traverse, all, Option-cases, inl, inr, if◌then◌else◌,
}
use orcusapi.Std.HashMap
use orcusapi.Std.Sort.{sort_by, sort_by_of_IsSorted}
use orcusapi.Json.{Json, items, fields, to_fields, get, lookup, object, array}
use orcusapi.Xdr.{ScVal, ScVec, ScMap, entry, entries, elements, to_map, to_vec}
use orcusapi.Xdr.Spec.{TypeDef, TypeDefs, type_defs, Field}
use orcusapi.Sdk.{Sdk, IsLawful}
use orcusapi.Spec.{ContractSpec}
use orcusapi.Scval.Scalars.{symbol_from_str}
use orcusapi.Scval.Enums.{json_key_to_scval, enum_to_scval, error_enum_to_scval}
use orcusapi.Scval.Udt.{
  Converter, to_sc_vec, to_sc_map, udt_to_scval, struct_to_scval, enum_udt_to_scval,
  tuple_struct_to_scval, named_struct_to_scval, struct_entry,
}
use orcusapi.Scval.Convert.{by_type, convert_with, json_to_scval, map_entry}
use orcusapi.Scval.Fuel.{json_to_scval-eq}
use orcusapi.Scval.Render.{scval_to_json, is_text, vec_to_json}
use Canonical.{
  IsCanonical, AreCanonical, IsCanonicalTuple, IsCanonicalMap, IsCanonicalStruct, IsKeyOf,
  HasGoodKeys, symbol_key, string_key, bool, void, u32, i32, u64, i64, timepoint, duration, u128,
  i128, bytes, bytes_n, string, symbol, account_address, contract_address, absent, present, vec,
  tuple, map, named_struct, tuple_struct, enum, error_enum, none_left, and_then, no_component,
  component, no_entry, an_entry, no_field, a_field, field_types,
}
use Objects.{
  to_vec-elements, to_map-entries, fields-to_fields, rendered, map_to_object-ascending,
  lookup-rendered_absent, FindsAll, rendered-FindsAll,
}
use Leaves.{
  Back-u32, Back-i32, Back-u64, Back-i64, Back-timepoint, Back-duration, Back-u128, Back-i128,
  Back-bytes, Back-bytes_n, Back-account, Back-contract,
}
use Enums.{Back-enum, Back-error_enum}
use Nodes.{
  Back-key, map_has_texts, struct_has_texts, tuple_length, Back-vec, Back-tuple, Back-map,
  Back-named_struct, Back-tuple_struct, Back-present,
}

module _ (sdk : Sdk) (law : IsLawful sdk) (spec : ContractSpec) where
  mutual
    unfolding convert_with scval_to_json map_entry struct_entry symbol_from_str

    back :
        {t : TypeDef} {v : ScVal}
        → IsCanonical sdk spec t v
        → json_to_scval sdk spec (scval_to_json sdk v) t ≡ ok v
    back bool = json_to_scval-eq sdk spec _ _
    back void = json_to_scval-eq sdk spec _ _
    back (u32 {n} h) =
        json_to_scval-eq sdk spec _ _ ∙ Back-u32 sdk law spec (json_to_scval sdk spec) n h
    back (i32 {z} h) =
        json_to_scval-eq sdk spec _ _ ∙ Back-i32 sdk law spec (json_to_scval sdk spec) z h
    back (u64 {n} h) =
        json_to_scval-eq sdk spec _ _ ∙ Back-u64 sdk law spec (json_to_scval sdk spec) n h
    back (i64 {z} h) =
        json_to_scval-eq sdk spec _ _ ∙ Back-i64 sdk law spec (json_to_scval sdk spec) z h
    back (timepoint {n} h) =
        json_to_scval-eq sdk spec _ _ ∙ Back-timepoint sdk law spec (json_to_scval sdk spec) n h
    back (duration {n} h) =
        json_to_scval-eq sdk spec _ _ ∙ Back-duration sdk law spec (json_to_scval sdk spec) n h
    back (u128 {p} h l) =
        json_to_scval-eq sdk spec _ _ ∙ Back-u128 sdk law spec (json_to_scval sdk spec) p h l
    back (i128 {p} h l) =
        json_to_scval-eq sdk spec _ _ ∙ Back-i128 sdk law spec (json_to_scval sdk spec) p h l
    back (bytes {b} fits) =
        json_to_scval-eq sdk spec _ _ ∙ Back-bytes sdk law spec (json_to_scval sdk spec) b fits
    back (bytes_n {n} {b} e fits) =
        json_to_scval-eq sdk spec _ _
        ∙ Back-bytes_n sdk law spec (json_to_scval sdk spec) n b e fits
    back (string h) = json_to_scval-eq sdk spec _ _ ∙ rw (law.plain_text _ _ h.0 h.1)
    back (symbol h) = json_to_scval-eq sdk spec _ _ ∙ rw (law.plain_text _ _ h.0 h.1)
    back (account_address {b} h) =
        json_to_scval-eq sdk spec _ _ ∙ Back-account sdk law spec (json_to_scval sdk spec) b h
    back (contract_address {b} h) =
        json_to_scval-eq sdk spec _ _ ∙ Back-contract sdk law spec (json_to_scval sdk spec) b h
    back absent = json_to_scval-eq sdk spec _ _
    back (present {t} {v} c not_null) =
        json_to_scval-eq sdk spec _ _
        ∙ Back-present sdk spec (json_to_scval sdk spec) t v not_null (back c)
            (sym (json_to_scval-eq sdk spec _ _) ∙ back c)
    back (vec {t} {vs} cs fits) =
        json_to_scval-eq sdk spec _ _
        ∙ Back-vec sdk spec (json_to_scval sdk spec) t vs (Back-all cs) fits
    back (tuple {ts} {vs} cs fits) =
        json_to_scval-eq sdk spec _ _
        ∙ Back-tuple sdk spec (json_to_scval sdk spec) ts vs (tuple_length sdk spec cs)
            (Back-components cs) fits
    back (map {t} {u} {es} cs good) =
        json_to_scval-eq sdk spec _ _
        ∙ Back-map sdk spec (json_to_scval sdk spec) t u es (map_has_texts sdk spec cs) good
            (Back-entries cs)
    back (named_struct {name} {s} {es} e plain cs good) =
        json_to_scval-eq sdk spec _ _
        ∙ Back-named_struct sdk spec (json_to_scval sdk spec) name s es e plain
            (struct_has_texts sdk spec cs) good
            (Back-fields (sdk.to_text s.name) (rendered sdk es) cs
              (rendered-FindsAll sdk es good.ascending))
    back (tuple_struct {name} {s} {vs} e positional cs fits) =
        json_to_scval-eq sdk spec _ _
        ∙ Back-tuple_struct sdk spec (json_to_scval sdk spec) name s vs e positional
            (tuple_length sdk spec cs) (Back-components cs) fits
    back (enum {name} {e = en} {n} no_struct no_union found listed fits) =
        json_to_scval-eq sdk spec _ _
        ∙ Back-enum sdk spec (json_to_scval sdk spec) name en n no_struct no_union found listed fits
    back (error_enum {name} {e = en} {n} no_struct no_union no_enum found fits) =
        json_to_scval-eq sdk spec _ _
        ∙ Back-error_enum sdk spec (json_to_scval sdk spec) name en n no_struct no_union no_enum
            found fits

    Back-all :
        {t : TypeDef} {vs : ScVec}
        → AreCanonical sdk spec t vs
        → traverse (λ x. json_to_scval sdk spec x t) (items (vec_to_json sdk vs)) ≡ ok (elements vs)
    Back-all none_left = refl
    Back-all (and_then c cs) = rw (back c) (rw (Back-all cs))

    Back-components :
        {ts : TypeDefs} {vs : ScVec}
        → IsCanonicalTuple sdk spec ts vs
        → traverse
            (λ p. json_to_scval sdk spec p.0 p.1)
            (zip (items (vec_to_json sdk vs)) (type_defs ts))
          ≡ ok (elements vs)
    Back-components no_component = refl
    Back-components (component c cs) = rw (back c) (rw (Back-components cs))

    Back-entries :
        {t u : TypeDef} {es : ScMap}
        → IsCanonicalMap sdk spec t u es
        → traverse (map_entry sdk (json_to_scval sdk spec) t u) (rendered sdk es) ≡ ok (entries es)
    Back-entries no_entry = refl
    Back-entries (an_entry k c cs) = rw (Back-key sdk law k) (rw (back c) (rw (Back-entries cs)))

    Back-fields :
        (name : String) (given : List (String × Json)) {fs : List Field} {es : ScMap}
        → IsCanonicalStruct sdk spec fs es
        → FindsAll sdk given es
        → traverse (struct_entry sdk (json_to_scval sdk spec) name given) fs ≡ ok (entries es)
    Back-fields name given no_field found = refl
    Back-fields name given (a_field {b} same text c cs) found = rw (← same) (
        rw found.0 (
          rw (law.plain_text _ _ text.0 text.1)
            (rw (back c) (rw (Back-fields name given cs found.1)))))
