-- ===== src/Scval/RoundTrip/Refused.antt =====
-- Renderings that the conversion does not read back.
use orcusapi.Base.{◌≡◌, refl, false, true, none, String, err, all, ◌∙◌}
use orcusapi.Std.HashMap
use orcusapi.Json.{Items, array}
use orcusapi.Xdr.{Bytes, ScVal, ScVec, ScMap, entries}
use orcusapi.Xdr.Spec.{TypeDef}
use orcusapi.Sdk.{Sdk}
use orcusapi.Spec.{ContractSpec}
use orcusapi.Scval.Convert.{json_to_scval, convert_with}
use orcusapi.Scval.Udt.{udt_to_scval, union_to_scval, split_case, bad_case}
use orcusapi.Scval.Render.{scval_to_json, is_text}
use orcusapi.Scval.Fuel.{json_to_scval-eq}

module _ (sdk : Sdk) (spec : ContractSpec) where
  union_array :
      (name : Bytes) (xs : Items)
      → HashMap.get (sdk.to_text name) spec.structs ≡ none
      → HashMap.contains_key (sdk.to_text name) spec.unions ≡ true
      → (m : String) × (json_to_scval sdk spec (array xs) (TypeDef.udt name) ≡ err m)
  unfolding convert_with udt_to_scval union_to_scval split_case
  union_array name xs no_struct is_union = (
    bad_case (sdk.to_text name),
    json_to_scval-eq sdk spec (array xs) (TypeDef.udt name)
        ∙ rw (no_struct, udt_to_scval) (rw is_union refl),
  )

  -- The rendering of a vector is refused at a union's type, so that the values of a union, which are
  -- vectors, do not come back from what is shown of them.
  pub json_to_scval-refuses_vec :
      (name : Bytes) (vs : ScVec)
      → HashMap.get (sdk.to_text name) spec.structs ≡ none
      → HashMap.contains_key (sdk.to_text name) spec.unions ≡ true
      → (m : String) × (json_to_scval sdk spec (scval_to_json sdk (ScVal.vec vs)) (TypeDef.udt name)
          ≡ err m)
  unfolding scval_to_json
  json_to_scval-refuses_vec name vs no_struct is_union = union_array name _ no_struct is_union

  -- The rendering of a map with a key that is neither a symbol nor a string is refused at every map
  -- type.
  pub json_to_scval-refuses_map :
      (t u : TypeDef) (es : ScMap)
      → all (λ e. is_text e.0) (entries es) ≡ false
      → (m : String) × (json_to_scval sdk spec (scval_to_json sdk (ScVal.map es)) (TypeDef.map t u)
          ≡ err m)
  unfolding scval_to_json convert_with
  json_to_scval-refuses_map t u es no_text = (
    "expected an object for a map argument",
    json_to_scval-eq sdk spec _ (TypeDef.map t u) ∙ rw no_text refl,
  )
