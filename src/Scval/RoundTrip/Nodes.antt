-- ===== src/Scval/RoundTrip/Nodes.antt =====
-- One round of the conversion back at the types with parts, once the parts are converted.
use orcusapi.Base.{
  ==_iff, ◌≡◌, refl, ap, ◌∙◌, true, false, none, some, List, [], ◌∷◌, String, ok, length, zip,
  traverse, all, Option-cases, inl, inr,
}
use orcusapi.Std.HashMap
use orcusapi.Std.Sort.{sort_by_of_IsSorted}
use orcusapi.Std.Words.{max_u32}
use orcusapi.Json.{is_null, Json, items, to_fields, get, object}
use orcusapi.Xdr.{ScVal, ScVec, ScMap, entries, elements}
use orcusapi.Xdr.{Bytes}
use orcusapi.Xdr.Spec.{TypeDef, TypeDefs, type_defs, Field, UdtStruct}
use orcusapi.Sdk.{Sdk, IsLawful}
use orcusapi.Spec.{ContractSpec}
use orcusapi.Scval.Scalars.{symbol_from_str}
use orcusapi.Scval.Enums.{json_key_to_scval}
use orcusapi.Scval.Udt.{
  Converter, to_sc_vec, to_sc_map, udt_to_scval, struct_entry, is_tuple_struct,
}
use orcusapi.Scval.Convert.{convert_with, map_entry}
use orcusapi.Scval.Render.{scval_to_json, is_text, vec_to_json, key_text}
use orcusapi.Scval.RoundTrip.Canonical.{
  IsCanonicalTuple, IsCanonicalMap, IsCanonicalStruct, IsKeyOf, HasGoodKeys, symbol_key, string_key,
  no_component, component, no_entry, an_entry, no_field, a_field, field_types,
}
use orcusapi.Scval.RoundTrip.Objects.{
  to_vec-elements, to_map-entries, fields-to_fields, rendered, map_to_object-ascending,
  lookup-rendered_absent,
}

module _ (sdk : Sdk) where
  is_text-IsKeyOf : {t : TypeDef} {k : ScVal} → IsKeyOf sdk t k → is_text k ≡ true
  is_text-IsKeyOf (symbol_key h) = refl
  is_text-IsKeyOf (string_key h) = refl

  pub Back-key :
      (law : IsLawful sdk) {t : TypeDef} {k : ScVal}
      → IsKeyOf sdk t k
      → json_key_to_scval sdk (key_text sdk k) t ≡ ok k
  unfolding json_key_to_scval symbol_from_str
  Back-key law (symbol_key h) = rw (law.plain_text _ _ h.0 h.1)
  Back-key law (string_key h) = rw (law.plain_text _ _ h.0 h.1)

  pub map_has_texts :
      (spec : ContractSpec) {t u : TypeDef} {es : ScMap}
      → IsCanonicalMap sdk spec t u es
      → all (λ e. is_text e.0) (entries es) ≡ true
  map_has_texts spec no_entry = refl
  map_has_texts spec (an_entry k c es) = rw (is_text-IsKeyOf k) (map_has_texts spec es)

  pub struct_has_texts :
      (spec : ContractSpec) {fs : List Field} {es : ScMap}
      → IsCanonicalStruct sdk spec fs es
      → all (λ e. is_text e.0) (entries es) ≡ true
  struct_has_texts spec no_field = refl
  struct_has_texts spec (a_field n b c es) = struct_has_texts spec es

  -- The object for a map with good keys, and no escape hatch in it.
  map_rendering :
      (es : ScMap)
      → all (λ e. is_text e.0) (entries es) ≡ true
      → HasGoodKeys sdk es
      → scval_to_json sdk (ScVal.map es) ≡ object (to_fields (rendered sdk es))
  unfolding scval_to_json
  map_rendering es texts good = rw texts (rw (map_to_object-ascending sdk es good.ascending))

  no_escape_hatch :
      (es : ScMap) → HasGoodKeys sdk es → get "__xdr" (object (to_fields (rendered sdk es))) ≡ none
  no_escape_hatch es good =
      rw (fields-to_fields (rendered sdk es)) (lookup-rendered_absent sdk "__xdr" es good.no_escape)

  -- Sorted entries make the map that they come from.
  Back-to_sc_map :
      (message : String) (es : ScMap)
      → HasGoodKeys sdk es
      → to_sc_map sdk message (entries es) ≡ ok (ScVal.map es)
  unfolding to_sc_map
  Back-to_sc_map message es good =
      rw (sort_by_of_IsSorted (λ a b. sdk.compare a.0 b.0) (entries es) good.sorted)
        (rw good.fits (rw (to_map-entries es)))

  Back-to_sc_vec :
      (message : String) (vs : ScVec)
      → sdk.fits max_u32 (length (elements vs)) ≡ true
      → to_sc_vec sdk message (elements vs) ≡ ok (ScVal.vec vs)
  unfolding to_sc_vec
  Back-to_sc_vec message vs fits = rw fits (rw (to_vec-elements vs))

  pub tuple_length :
      (spec : ContractSpec) {ts : TypeDefs} {vs : ScVec}
      → IsCanonicalTuple sdk spec ts vs
      → length (items (vec_to_json sdk vs)) ≡ length (type_defs ts)
  unfolding vec_to_json
  tuple_length spec no_component = refl
  tuple_length spec (component c cs) = ap Prim.Native.Nat.suc (tuple_length spec cs)

-- a tuple struct is converted as the tuple of its fields' types
field_types-length : (fs : List Field) → length (type_defs (field_types fs)) ≡ length fs
field_types-length [] = refl
field_types-length (f ∷ fs) = ap Prim.Native.Nat.suc (field_types-length fs)

traverse-field_types :
    (convert : Converter) (xs : List Json) (fs : List Field)
    → traverse (λ p. convert p.0 p.1.type_) (zip xs fs)
      ≡ traverse (λ p. convert p.0 p.1) (zip xs (type_defs (field_types fs)))
traverse-field_types convert [] fs = refl
traverse-field_types convert (x ∷ xs) [] = refl
traverse-field_types convert (x ∷ xs) (f ∷ fs) = rw (traverse-field_types convert xs fs)

module _ (sdk : Sdk) (spec : ContractSpec) (convert : Converter) where
  -- one round on the rendering of `v`
  abbrev pub Back : ScVal → TypeDef → Type 0
  Back v t = convert_with sdk spec convert (scval_to_json sdk v) t ≡ ok v

  -- what `convert` makes of the rendered elements
  abbrev pub Elementwise : TypeDef → ScVec → Type 0
  Elementwise t vs = traverse (λ x. convert x t) (items (vec_to_json sdk vs)) ≡ ok (elements vs)

  abbrev pub Positional : TypeDefs → ScVec → Type 0
  Positional ts vs =
      traverse (λ p. convert p.0 p.1) (zip (items (vec_to_json sdk vs)) (type_defs ts))
      ≡ ok (elements vs)

  abbrev Fits : ScVec → Type 0
  Fits vs = sdk.fits max_u32 (length (elements vs)) ≡ true

  pub Back-vec :
      (t : TypeDef) (vs : ScVec) → Elementwise t vs → Fits vs → Back (ScVal.vec vs) (TypeDef.vec t)
  unfolding convert_with scval_to_json
  Back-vec t vs parts fits = rw parts (Back-to_sc_vec sdk "vec value too long" vs fits)

  pub Back-tuple :
      (ts : TypeDefs) (vs : ScVec)
      → length (items (vec_to_json sdk vs)) ≡ length (type_defs ts)
      → Positional ts vs
      → Fits vs
      → Back (ScVal.vec vs) (TypeDef.tuple ts)
  unfolding convert_with scval_to_json
  Back-tuple ts vs same parts fits =
      rw ((==_iff _ _).1 same) (rw parts (Back-to_sc_vec sdk "tuple value too long" vs fits))

  pub Back-map :
      (t u : TypeDef) (es : ScMap)
      → all (λ e. is_text e.0) (entries es) ≡ true
      → HasGoodKeys sdk es
      → traverse (map_entry sdk convert t u) (rendered sdk es) ≡ ok (entries es)
      → Back (ScVal.map es) (TypeDef.map t u)
  Back-map t u es texts good parts = rw (map_rendering sdk es texts good) (
      unfold convert_with in
      rw (no_escape_hatch sdk es good, convert_with)
        (rw (fields-to_fields (rendered sdk es))
          (rw parts (Back-to_sc_map sdk "map value too large" es good))))

  pub Back-named_struct :
      (name : Bytes) (s : UdtStruct) (es : ScMap)
      → HashMap.get (sdk.to_text name) spec.structs ≡ some s
      → is_tuple_struct sdk s ≡ false
      → all (λ e. is_text e.0) (entries es) ≡ true
      → HasGoodKeys sdk es
      → traverse (struct_entry sdk convert (sdk.to_text s.name) (rendered sdk es)) s.fields
        ≡ ok (entries es)
      → Back (ScVal.map es) (TypeDef.udt name)
  Back-named_struct name s es e plain texts good parts = rw (map_rendering sdk es texts good) (
      unfold convert_with in
      rw (no_escape_hatch sdk es good, convert_with)
        (rw (e, udt_to_scval)
          (rw plain
            (rw (fields-to_fields (rendered sdk es)) (rw parts (Back-to_sc_map sdk _ es good))))))

  pub Back-tuple_struct :
      (name : Bytes) (s : UdtStruct) (vs : ScVec)
      → HashMap.get (sdk.to_text name) spec.structs ≡ some s
      → is_tuple_struct sdk s ≡ true
      → length (items (vec_to_json sdk vs)) ≡ length (type_defs (field_types s.fields))
      → Positional (field_types s.fields) vs
      → Fits vs
      → Back (ScVal.vec vs) (TypeDef.udt name)
  unfolding convert_with scval_to_json
  Back-tuple_struct name s vs e positional same parts fits =
      rw (e, udt_to_scval)
        (rw positional (
          rw ((==_iff _ _).1 (same ∙ field_types-length s.fields)) (
            rw (traverse-field_types convert (items (vec_to_json sdk vs)) s.fields)
              (rw parts (Back-to_sc_vec sdk _ vs fits)))))

  pub Back-present :
      (t : TypeDef) (v : ScVal)
      → is_null (scval_to_json sdk v) ≡ false
      → convert (scval_to_json sdk v) t ≡ ok v
      → Back v t
      → Back v (TypeDef.option t)
  unfolding convert_with
  Back-present t v not_null inner direct = elim (Option-cases (get "__xdr" (scval_to_json sdk v))) [
    | inl plain ↦ rw (plain, convert_with) (rw not_null inner)
    | inr (x, escaped) ↦ rw (escaped, convert_with) (rw (escaped, convert_with) at direct)
  ]
