-- ===== src/Tests/Values.antt =====
-- The theorems on values at concrete inputs.
use orcusapi.Base.{◌≡◌, refl, true, none, [], ◌∷◌, String, ok, err, arith}
use orcusapi.Base.Int.{negsuc}
use orcusapi.Std.HashMap
use orcusapi.Std.Parse.{parse_unsigned}
use orcusapi.Std.Sort.{sort_by, insert}
use orcusapi.Scval.Enums.{json_key_to_scval}
use orcusapi.Scval.Scalars.{as_u64_lenient, as_i64_lenient, bytes_from_json}
use orcusapi.Json.{lookup, Json, height, obj, arr, of_unsigned, of_signed}
use orcusapi.Xdr.{ScVal, ScVec, entry, empty}
use orcusapi.Xdr.Spec.{TypeDef, depth}
use orcusapi.Spec.{ContractSpec, from_entries}
use orcusapi.Spec.Laws.{functions_of, last_struct, last_union, from_entries_lem}
use orcusapi.Scval.Parts.{
  u128_to_parts, u128_from_parts, i128_to_parts, i128_from_parts, u128_from_parts-to_parts,
  u128_to_parts-from_parts, i128_from_parts-to_parts, i128_to_parts-from_parts,
}
use orcusapi.Scval.Render.{scval_to_json}
use orcusapi.Scval.Convert.{json_to_scval, convert_with, run, enough}
use orcusapi.Scval.Fuel.{run-json_to_scval, json_to_scval-eq}
use orcusapi.Scval.RoundTrip.Canonical.{u32, vec}
use orcusapi.Scval.RoundTrip.Refused.{json_to_scval-refuses_vec, json_to_scval-refuses_map}
use orcusapi.Scval.Bounds.{IsWithin, json_to_scval-IsWithin}
use orcusapi.Tests.Fixtures.{sdk}
use orcusapi.Tests.Network.{contract_spec, contract_entries}

u128_from_parts-to_parts_example :
    u128_from_parts (u128_to_parts 18446744073709551621) ≡ 18446744073709551621
u128_from_parts-to_parts_example = u128_from_parts-to_parts 18446744073709551621 (omega arith)

u128_to_parts-from_parts_example :
    u128_to_parts (u128_from_parts (record { hi = 1; lo = 5 })) ≡ record { hi = 1; lo = 5 }
u128_to_parts-from_parts_example =
    u128_to_parts-from_parts (record { hi = 1; lo = 5 }) (omega arith) (omega arith)

i128_from_parts-to_parts_example :
    i128_from_parts (i128_to_parts (negsuc 18446744073709551621)) ≡ negsuc 18446744073709551621
i128_from_parts-to_parts_example =
    i128_from_parts-to_parts (negsuc 18446744073709551621) (omega arith)

i128_to_parts-from_parts_example :
    i128_to_parts (i128_from_parts (record { hi = negsuc 1; lo = 5 }))
    ≡ record { hi = negsuc 1; lo = 5 }
i128_to_parts-from_parts_example =
    i128_to_parts-from_parts (record { hi = negsuc 1; lo = 5 }) (omega arith) (omega arith)

-- a point as a value
abbrev point_value : ScVal
point_value = ScVal.map (
    entry (ScVal.symbol (120 ∷ [])) (ScVal.u32 7)
      (entry (ScVal.symbol (121 ∷ [])) (ScVal.vec (ScVec.cons (ScVal.u32 8) ScVec.nil)) empty))

-- and as JSON
abbrev point_json : Json
point_json = obj (("x", of_unsigned 7) ∷ ("y", arr (of_unsigned 8 ∷ [])) ∷ [])

run-json_to_scval_example :
    run sdk contract_spec (err "none") 30 point_json (TypeDef.udt (3 ∷ []))
    ≡ json_to_scval sdk contract_spec point_json (TypeDef.udt (3 ∷ []))
run-json_to_scval_example =
    run-json_to_scval sdk contract_spec (err "none") 30 point_json (TypeDef.udt (3 ∷ []))
      (unfold enough height depth in omega arith)

json_to_scval-eq_example :
    json_to_scval sdk contract_spec point_json (TypeDef.udt (3 ∷ []))
    ≡ convert_with sdk contract_spec
        (json_to_scval sdk contract_spec)
        point_json
        (TypeDef.udt (3 ∷ []))
json_to_scval-eq_example = json_to_scval-eq sdk contract_spec point_json (TypeDef.udt (3 ∷ []))

-- an interface with a union only
abbrev union_spec : ContractSpec
union_spec = record contract_spec {
  structs = [];
  unions = ("x", record { doc = []; name = 120 ∷ []; cases = [] }) ∷ [];
}

no_struct : HashMap.get (sdk.to_text (120 ∷ [])) union_spec.structs ≡ none
unfolding HashMap.get
no_struct = refl

is_union : HashMap.contains_key (sdk.to_text (120 ∷ [])) union_spec.unions ≡ true
unfolding HashMap.get
is_union = refl

json_to_scval-refuses_vec_example :
    (m : String) × (json_to_scval sdk union_spec
        (scval_to_json sdk (ScVal.vec (ScVec.cons (ScVal.symbol (121 ∷ [])) ScVec.nil)))
        (TypeDef.udt (120 ∷ []))
      ≡ err m)
json_to_scval-refuses_vec_example =
    json_to_scval-refuses_vec sdk union_spec (120 ∷ [])
      (ScVec.cons (ScVal.symbol (121 ∷ [])) ScVec.nil) no_struct is_union

json_to_scval-refuses_map_example :
    (m : String) × (json_to_scval sdk contract_spec
        (scval_to_json sdk (ScVal.map (entry (ScVal.u32 1) (ScVal.u32 2) empty)))
        (TypeDef.map TypeDef.u32 TypeDef.u32)
      ≡ err m)
json_to_scval-refuses_map_example =
    json_to_scval-refuses_map sdk contract_spec TypeDef.u32 TypeDef.u32
      (entry (ScVal.u32 1) (ScVal.u32 2) empty) refl

from_entries_lem_example :
    ((from_entries sdk contract_entries).functions ≡ functions_of contract_entries)
    × (HashMap.get "Point" (from_entries sdk contract_entries).structs
        ≡ last_struct sdk "Point" contract_entries)
    × (HashMap.get "Point" (from_entries sdk contract_entries).unions
        ≡ last_union sdk "Point" contract_entries)
from_entries_lem_example = from_entries_lem sdk contract_entries "Point"

u32_run : json_to_scval sdk contract_spec (of_unsigned 7) TypeDef.u32 ≡ ok (ScVal.u32 7)
unfolding json_to_scval height depth as_u64_lenient
u32_run = refl

i32_run :
    json_to_scval sdk contract_spec (of_signed (negsuc 6)) TypeDef.i32 ≡ ok (ScVal.i32 (negsuc 6))
unfolding json_to_scval height depth as_i64_lenient
i32_run = refl

abbrev two_bytes : Json
two_bytes = arr (of_unsigned 8 ∷ of_unsigned 9 ∷ [])

bytes_run :
    json_to_scval sdk contract_spec two_bytes (TypeDef.bytes_n 2) ≡ ok (ScVal.bytes (8 ∷ 9 ∷ []))
unfolding json_to_scval height depth bytes_from_json
bytes_run = refl

json_to_scval-IsWithin_example : IsWithin (TypeDef.bytes_n 2) (ScVal.bytes (8 ∷ 9 ∷ []))
json_to_scval-IsWithin_example =
    json_to_scval-IsWithin sdk contract_spec two_bytes (TypeDef.bytes_n 2)
      (ScVal.bytes (8 ∷ 9 ∷ [])) refl bytes_run

-- Two texts of one key: the map has the key 1 twice.
duplicate_keys :
    json_to_scval sdk contract_spec
      (obj (("1", of_unsigned 5) ∷ ("01", of_unsigned 6) ∷ []))
      (TypeDef.map TypeDef.u32 TypeDef.u32)
    ≡ ok (ScVal.map (entry (ScVal.u32 1) (ScVal.u32 5) (entry (ScVal.u32 1) (ScVal.u32 6) empty)))
unfolding json_to_scval height depth as_u64_lenient json_key_to_scval parse_unsigned sort_by insert
    lookup
duplicate_keys = refl
