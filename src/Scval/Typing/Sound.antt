-- ===== src/Scval/Typing/Sound.antt =====
-- `json_to_scval` gives values of the type that it converts at.
use orcusapi.Base.{
  ℕ, zero, suc, max, ◌≡◌, ◌==◌, sym, String, ok, err, arith, length, Option-cases, inl, inr,
  Ensures, holds, failed, Ensures-ok, Ensures-bind, Ensures-map_err, Ensures-result, Ensures-ok_or,
  Ensures-weaken, Ensures-if, Ensures-ensure, Ensures-traverse,
}
use mathlib.Core.Path.{subst}
use orcusapi.Std.Words.{max_u32, max_i32, max_u64, max_i64, try_unsigned, try_signed}
use orcusapi.Std.Parse.{parse_unsigned, parse_unsigned-le, parse_signed-IsSigned, parse_bool}
use orcusapi.Sdk.{Sdk, IsLawful}
use orcusapi.Spec.{ContractSpec}
use orcusapi.Json.{Json, get, as_bool, as_str, is_null}
use orcusapi.Xdr.{ScVal}
use orcusapi.Xdr.Spec.{TypeDef, TypeDefs, type_defs, depth}
use orcusapi.Scval.Scalars.{bytes_from_json}
use orcusapi.Scval.Enums.{json_key_to_scval}
use orcusapi.Scval.Udt.{Converter, to_sc_bytes}
use orcusapi.Scval.Convert.{
  map_entry, by_type, convert_with, run, enough, spec_depth, json_to_scval,
}
use orcusapi.Scval.Typing.{IsJson, HasType, HasKeyType}
use orcusapi.Scval.Typing.Leaves.{
  as_u64_lenient-IsU64, as_u128-le, as_i64_lenient-IsI64, as_i128-IsSigned, try_unsigned-le,
  try_signed-IsI32, u128_to_parts-IsU64, i128_to_parts-IsI64, address_from_str-IsAddress,
  IsSigned→IsI64, IsSigned→IsI32,
}
use orcusapi.Scval.Typing.Nodes.{
  get-hatch, IsSound, as_array-All, as_object-All, All-mono, to_sc_vec-Ensures, to_sc_map-Ensures,
  elements-to_vec, HasType-vec, HaveTypes-Pointwise, AreEntries-Pointwise, zip-HaveTypes,
}
use orcusapi.Scval.Typing.Enums.{symbol_from_str-Ensures}
use orcusapi.Scval.Typing.Udts.{udt-HasType}

module _ (sdk : Sdk) where
  -- the keys of a map argument have the type of its keys
  json_key_to_scval-HasKeyType :
      (key : String) (t : TypeDef) → Ensures (HasKeyType sdk t) (json_key_to_scval sdk key t)
  unfolding json_key_to_scval
  json_key_to_scval-HasKeyType key TypeDef.symbol =
      Ensures-bind (symbol_from_str-Ensures sdk key) λ b h. holds (HasKeyType.symbol (key, h))
  json_key_to_scval-HasKeyType key TypeDef.string =
      Ensures-bind (Ensures-ok_or _ (sdk.to_string_m max_u32 key))
        λ b h. holds (HasKeyType.string (key, h))
  json_key_to_scval-HasKeyType key TypeDef.address =
      Ensures-bind (address_from_str-IsAddress sdk key) λ a h. holds (HasKeyType.address h)
  json_key_to_scval-HasKeyType key TypeDef.muxed_address =
      Ensures-bind (address_from_str-IsAddress sdk key) λ a h. holds (HasKeyType.muxed_address h)
  json_key_to_scval-HasKeyType key TypeDef.bool =
      Ensures-bind (Ensures-ok_or _ (parse_bool key)) λ b _. holds HasKeyType.bool
  json_key_to_scval-HasKeyType key TypeDef.u32 =
      Ensures-bind (Ensures-map_err _ (Ensures-result (parse_unsigned max_u32 key)))
        λ n h. holds (HasKeyType.u32 (parse_unsigned-le max_u32 key n h))
  json_key_to_scval-HasKeyType key TypeDef.i32 =
      Ensures-bind (Ensures-map_err _ (parse_signed-IsSigned max_i32 key))
        λ z h. holds (HasKeyType.i32 (IsSigned→IsI32 z h))
  json_key_to_scval-HasKeyType key TypeDef.u64 =
      Ensures-bind (Ensures-map_err _ (Ensures-result (parse_unsigned max_u64 key)))
        λ n h. holds (HasKeyType.u64 (parse_unsigned-le max_u64 key n h))
  json_key_to_scval-HasKeyType key TypeDef.i64 =
      Ensures-bind (Ensures-map_err _ (parse_signed-IsSigned max_i64 key))
        λ z h. holds (HasKeyType.i64 (IsSigned→IsI64 z h))
  json_key_to_scval-HasKeyType key _ = failed

module _ (sdk : Sdk) (law : IsLawful sdk) (hatch : ScVal → Type 0) (spec : ContractSpec) where
  module _ (convert : Converter) (sound : IsSound sdk law hatch spec convert) where
    tuple-HasType :
        (v : Json) (ts : TypeDefs)
        → IsJson sdk hatch v
        → Ensures
            (HasType sdk hatch spec (TypeDef.tuple ts))
            (by_type sdk spec convert v (TypeDef.tuple ts))
    unfolding by_type
    tuple-HasType v ts h = Ensures-bind (as_array-All _ v h) λ arr hs.
        Ensures-bind (Ensures-ensure (length arr == length (type_defs ts)) _) λ _ same.
          Ensures-bind
            (zip-HaveTypes sdk law hatch spec convert sound (λ t. t) arr (type_defs ts) hs same)
            λ vs ps.
              to_sc_vec-Ensures sdk _ vs (
                HasType.tuple (rw (elements-to_vec vs) (HaveTypes-Pointwise sdk law hatch spec ps)))

    map_entry-Ensures :
        (t u : TypeDef) (x : String × Json)
        → IsJson sdk hatch x.1
        → Ensures
            (λ e. HasKeyType sdk t e.0 × HasType sdk hatch spec u e.1)
            (map_entry sdk convert t u x)
    unfolding map_entry
    map_entry-Ensures t u (k, v) h =
        Ensures-bind (json_key_to_scval-HasKeyType sdk k t)
          λ key p. Ensures-bind (sound v u h) λ val q. holds (p, q)

    map-HasType :
        (v : Json) (t u : TypeDef)
        → IsJson sdk hatch v
        → Ensures
            (HasType sdk hatch spec (TypeDef.map t u))
            (by_type sdk spec convert v (TypeDef.map t u))
    unfolding by_type
    map-HasType v t u h = Ensures-bind (as_object-All _ v h) λ given hs.
        Ensures-bind
          (Ensures-traverse (λ _ e. HasKeyType sdk t e.0 × HasType sdk hatch spec u e.1)
            (map_entry sdk convert t u) given (All-mono given (map_entry-Ensures t u) hs))
          λ es ps. Ensures-weaken (to_sc_map-Ensures sdk law _ es) λ r (m, same, sorted).
            subst (HasType sdk hatch spec (TypeDef.map t u)) (sym same)
              (HasType.map (AreEntries-Pointwise sdk law hatch spec ps) sorted)

    by_type-HasType :
        (v : Json) (t : TypeDef)
        → IsJson sdk hatch v
        → Ensures (HasType sdk hatch spec t) (by_type sdk spec convert v t)
    unfolding by_type to_sc_bytes
    by_type-HasType v TypeDef.bool h =
        Ensures-bind (Ensures-ok_or _ (as_bool v)) λ b _. holds HasType.bool
    by_type-HasType v TypeDef.void h = holds HasType.void
    by_type-HasType v TypeDef.u32 h = Ensures-bind (as_u64_lenient-IsU64 v h) λ big _.
        Ensures-bind (Ensures-ok_or _ (try_unsigned max_u32 big))
          λ n fits. holds (HasType.u32 (try_unsigned-le max_u32 big n fits))
    by_type-HasType v TypeDef.i32 h = Ensures-bind (as_i64_lenient-IsI64 v h) λ big _.
        Ensures-bind (Ensures-ok_or _ (try_signed max_i32 big))
          λ n fits. holds (HasType.i32 (try_signed-IsI32 big n fits))
    by_type-HasType v TypeDef.u64 h =
        Ensures-bind (as_u64_lenient-IsU64 v h) λ n fits. holds (HasType.u64 fits)
    by_type-HasType v TypeDef.i64 h =
        Ensures-bind (as_i64_lenient-IsI64 v h) λ n fits. holds (HasType.i64 fits)
    by_type-HasType v TypeDef.timepoint h =
        Ensures-bind (as_u64_lenient-IsU64 v h) λ n fits. holds (HasType.timepoint fits)
    by_type-HasType v TypeDef.duration h =
        Ensures-bind (as_u64_lenient-IsU64 v h) λ n fits. holds (HasType.duration fits)
    by_type-HasType v TypeDef.u128 h =
        Ensures-bind (as_u128-le v h)
          λ n _. holds (HasType.u128 (u128_to_parts-IsU64 n).0 (u128_to_parts-IsU64 n).1)
    by_type-HasType v TypeDef.i128 h =
        Ensures-bind (as_i128-IsSigned v h)
          λ n _. holds (HasType.i128 (i128_to_parts-IsI64 n).0 (i128_to_parts-IsI64 n).1)
    by_type-HasType v TypeDef.bytes h = Ensures-bind (Ensures-result (bytes_from_json sdk v)) λ b _.
        Ensures-bind (Ensures-ensure (sdk.fits max_u32 (length b)) _) λ _ _. holds HasType.bytes
    by_type-HasType v TypeDef.string h = Ensures-bind (Ensures-ok_or _ (as_str v)) λ s _.
        Ensures-bind (Ensures-ok_or _ (sdk.to_string_m max_u32 s))
          λ b text. holds (HasType.string (s, text))
    by_type-HasType v TypeDef.symbol h = Ensures-bind (Ensures-ok_or _ (as_str v)) λ s _.
        Ensures-bind (symbol_from_str-Ensures sdk s) λ b text. holds (HasType.symbol (s, text))
    by_type-HasType v TypeDef.address h =
        Ensures-bind (Ensures-ok_or _ (as_str v))
          λ s _. Ensures-bind (address_from_str-IsAddress sdk s) λ a p. holds (HasType.address p)
    by_type-HasType v TypeDef.muxed_address h = Ensures-bind (Ensures-ok_or _ (as_str v)) λ s _.
        Ensures-bind (address_from_str-IsAddress sdk s) λ a p. holds (HasType.muxed_address p)
    by_type-HasType v (TypeDef.option t) h =
        Ensures-if (is_null v) (λ _. holds HasType.absent)
          (λ _. Ensures-weaken (sound v t h) (λ r p. HasType.present p))
    by_type-HasType v (TypeDef.vec t) h = HasType-vec sdk law hatch spec convert sound v t _ _ h
    by_type-HasType v (TypeDef.map t u) h = map-HasType v t u h
    by_type-HasType v (TypeDef.tuple ts) h = tuple-HasType v ts h
    by_type-HasType v (TypeDef.bytes_n n) h =
        Ensures-bind (Ensures-result (bytes_from_json sdk v)) λ b _.
          Ensures-bind (Ensures-ensure (length b == n) _) λ _ exact.
            Ensures-bind (Ensures-ensure (sdk.fits max_u32 (length b)) _)
              λ _ _. holds (HasType.bytes_n (ground arith))
    by_type-HasType v (TypeDef.udt name) h = udt-HasType sdk law hatch spec convert sound name v h
    by_type-HasType v _ h = failed

    convert_with-HasType :
        (v : Json) (t : TypeDef)
        → IsJson sdk hatch v
        → Ensures (HasType sdk hatch spec t) (convert_with sdk spec convert v t)
    unfolding convert_with
    convert_with-HasType v t h = elim (Option-cases (get "__xdr" v)) [
      | inl direct ↦ rw (direct, convert_with) (by_type-HasType v t h)
      | inr (x, given) ↦
          rw (given, convert_with)
            (Ensures-map_err _ (
              Ensures-weaken (Ensures-result (sdk.from_value x))
                (λ r read. HasType.escaped (get-hatch v x r h given read))))
    ]

  run-HasType : (fuel : ℕ) → IsSound sdk law hatch spec (run sdk spec (err "out of fuel") fuel)
  unfolding run
  run-HasType zero v t h = failed
  run-HasType (suc fuel) v t h =
      convert_with-HasType (run sdk spec (err "out of fuel") fuel) (run-HasType fuel) v t h

  pub json_to_scval-HasType :
      (v : Json) (t : TypeDef) (r : ScVal)
      → IsJson sdk hatch v
      → json_to_scval sdk spec v t ≡ ok r
      → HasType sdk hatch spec t r
  unfolding json_to_scval
  json_to_scval-HasType v t r h e =
      Ensures-ok (run-HasType (enough (max (depth t) (spec_depth spec)) v t) v t h) e
