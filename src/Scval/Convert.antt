-- ===== src/Scval/Convert.antt =====
-- `json_to_scval` of src/scval.rs: the `match` on the type takes the recursive call as an argument,
-- and `run` closes the recursion on fuel.
use orcusapi.Base.{
  ℕ, zero, suc, ◌+◌, ◌*◌, max, ◌==◌, none, some, List, [], ◌∷◌, String, ok, err, ◌>>=◌, ◌>>◌, ok_or,
  map_err, ensure, traverse, length, zip, if◌then◌else◌,
}
use orcusapi.Base.Text.{format}
use orcusapi.Std.Print.{show}
use orcusapi.Std.Words.{max_u32, max_i32, try_unsigned, try_signed}
use orcusapi.Json.{Json, as_bool, as_str, as_array, as_object, is_null, get, height}
use orcusapi.Xdr.{ScVal}
use orcusapi.Xdr.Spec.{TypeDef, type_defs, depth, UnionCase, void_v0, tuple_v0}
use orcusapi.Sdk.{Sdk}
use orcusapi.Spec.{ContractSpec}
use orcusapi.Scval.Parts.{u128_to_parts, i128_to_parts}
use orcusapi.Scval.Scalars.{
  Fallible, as_u64_lenient, as_i64_lenient, as_u128, as_i128, bytes_from_json, symbol_from_str,
  address_from_str,
}
use orcusapi.Scval.Enums.{json_key_to_scval}
use orcusapi.Scval.Udt.{Converter, to_sc_vec, to_sc_map, to_sc_bytes, udt_to_scval}

-- How deep the types of the spec are nested.
abbrev pub deepest {ℓ} : {A : Type ℓ} → (A → ℕ) → List A → ℕ
deepest f [] = 0
deepest f (x ∷ xs) = max (f x) (deepest f xs)

abbrev pub case_depth : UnionCase → ℕ
case_depth (void_v0 _ _) = 0
case_depth (tuple_v0 _ _ types) = deepest depth types

abbrev pub spec_depth : ContractSpec → ℕ
spec_depth spec =
    max (deepest (λ e. deepest (λ f. depth f.type_) e.1.fields) spec.structs)
      (deepest (λ e. deepest case_depth e.1.cases) spec.unions)

-- A level of the value pays for all the types that can be met at the next one.
unfoldable pub enough : ℕ → Json → TypeDef → ℕ
enough bound value t = suc (height value * suc bound + depth t)

module _ (sdk : Sdk) where
  -- one round of the loop over the entries of an object for a map
  unfoldable pub map_entry :
      Converter → TypeDef → TypeDef → String × Json → Fallible (ScVal × ScVal)
  map_entry convert key_type value_type (k, v) = do
    key ← json_key_to_scval sdk k key_type
    val ← convert v value_type
    ok (key, val)

  module _ (spec : ContractSpec) where
    -- the `match` on the type
    unfoldable pub by_type : Converter → Json → TypeDef → Fallible ScVal
    unfolding to_sc_vec to_sc_map to_sc_bytes map_entry udt_to_scval
    by_type convert value TypeDef.val = err "`val` args must be supplied via {\"__xdr\": ...}"
    by_type convert value TypeDef.bool = do
      b ← ok_or "expected a boolean" (as_bool value)
      ok (ScVal.bool b)
    by_type convert value TypeDef.void = ok ScVal.void
    by_type convert value TypeDef.error = err "`error` values cannot be supplied as arguments"
    by_type convert value TypeDef.u32 = do
      big ← as_u64_lenient value
      n ← ok_or "u32 value out of range" (try_unsigned max_u32 big)
      ok (ScVal.u32 n)
    by_type convert value TypeDef.i32 = do
      big ← as_i64_lenient value
      n ← ok_or "i32 value out of range" (try_signed max_i32 big)
      ok (ScVal.i32 n)
    by_type convert value TypeDef.u64 = do n ← as_u64_lenient value; ok (ScVal.u64 n)
    by_type convert value TypeDef.i64 = do n ← as_i64_lenient value; ok (ScVal.i64 n)
    by_type convert value TypeDef.timepoint = do n ← as_u64_lenient value; ok (ScVal.timepoint n)
    by_type convert value TypeDef.duration = do n ← as_u64_lenient value; ok (ScVal.duration n)
    by_type convert value TypeDef.u128 = do n ← as_u128 value; ok (ScVal.u128 (u128_to_parts n))
    by_type convert value TypeDef.i128 = do n ← as_i128 value; ok (ScVal.i128 (i128_to_parts n))
    by_type convert value TypeDef.u256 = err "u256 args must be supplied via {\"__xdr\": ...}"
    by_type convert value TypeDef.i256 = err "i256 args must be supplied via {\"__xdr\": ...}"
    by_type convert value TypeDef.bytes = do
      b ← bytes_from_json sdk value
      to_sc_bytes sdk "bytes value too long" b
    by_type convert value TypeDef.string = do
      s ← ok_or "expected a string" (as_str value)
      b ← ok_or "string value too long" (sdk.to_string_m max_u32 s)
      ok (ScVal.string b)
    by_type convert value TypeDef.symbol = do
      s ← ok_or "expected a string for symbol" (as_str value)
      b ← symbol_from_str sdk s
      ok (ScVal.symbol b)
    by_type convert value TypeDef.address = do
      s ← ok_or "expected an address string" (as_str value)
      a ← address_from_str sdk s
      ok (ScVal.address a)
    by_type convert value TypeDef.muxed_address = do
      s ← ok_or "expected an address string" (as_str value)
      a ← address_from_str sdk s
      ok (ScVal.address a)
    by_type convert value (TypeDef.option t) =
        if is_null value then ok ScVal.void else convert value t
    by_type convert value (TypeDef.result t u) =
        err "result-typed args must be supplied via {\"__xdr\": ...}"
    by_type convert value (TypeDef.vec t) = do
      arr ← ok_or "expected an array" (as_array value)
      vs ← traverse (λ x. convert x t) arr
      to_sc_vec sdk "vec value too long" vs
    by_type convert value (TypeDef.map t u) = do
      given ← ok_or "expected an object for a map argument" (as_object value)
      es ← traverse (map_entry convert t u) given
      to_sc_map sdk "map value too large" es
    by_type convert value (TypeDef.tuple ts) = do
      arr ← ok_or "expected an array for a tuple argument" (as_array value)
      ensure (length arr == length (type_defs ts)) (
          format (
            "tuple arity mismatch: expected "
            ∷ show (length (type_defs ts))
            ∷ " element(s), got "
            ∷ show (length arr)
            ∷ []))
      vs ← traverse (λ p. convert p.0 p.1) (zip arr (type_defs ts))
      to_sc_vec sdk "tuple value too long" vs
    by_type convert value (TypeDef.bytes_n n) = do
      b ← bytes_from_json sdk value
      ensure (length b == n)
          (format ("expected exactly " ∷ show n ∷ " byte(s), got " ∷ show (length b) ∷ []))
      to_sc_bytes sdk "bytesN conversion failed" b
    by_type convert value (TypeDef.udt name) =
        udt_to_scval sdk spec convert (sdk.to_text name) value

    -- the whole body: the escape hatch, then the type
    unfoldable pub convert_with : Converter → Json → TypeDef → Fallible ScVal
    unfolding by_type
    convert_with convert value t = elim (get "__xdr" value) [
      | some x ↦
          map_err (λ e. format ("invalid `__xdr` escape-hatch value: " ∷ e ∷ [])) (sdk.from_value x)
      | none ↦ by_type convert value t
    ]

    -- `stuck` is the answer where the fuel runs out.
    unfoldable pub run : Fallible ScVal → ℕ → Converter
    unfolding convert_with
    run stuck zero value t = stuck
    run stuck (suc fuel) value t = convert_with (run stuck fuel) value t

  unfoldable pub json_to_scval : ContractSpec → Converter
  unfolding run enough
  json_to_scval spec value t =
      run spec (err "out of fuel") (enough (max (depth t) (spec_depth spec)) value t) value t
