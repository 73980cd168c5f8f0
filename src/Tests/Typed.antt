-- ===== src/Tests/Typed.antt =====
-- The theorems on the types of converted values at concrete inputs.
use orcusapi.Base.{◌≡◌, refl, [], ◌∷◌, ok, arith}
use orcusapi.Std.HashMap
use orcusapi.Json.{Json, lookup, height, obj, arr, of_unsigned}
use orcusapi.Xdr.{ScVal, ScVec, entry, empty}
use orcusapi.Xdr.Spec.{TypeDef, Field, depth}
use orcusapi.Scval.Scalars.{as_u64_lenient}
use orcusapi.Scval.Convert.{json_to_scval}
use orcusapi.Scval.Typing.{IsJson, AreComponents}
use orcusapi.Handlers.Invoke.{convert_args}
use orcusapi.Handlers.Invoke.Typed.{convert_args-AreComponents}
use orcusapi.Tests.Fixtures.{sdk, sdk-IsLawful}
use orcusapi.Tests.Network.{contract_spec}

abbrev point_json : Json
point_json = obj (("x", of_unsigned 7) ∷ ("y", arr (of_unsigned 8 ∷ [])) ∷ [])

abbrev point_value : ScVal
point_value = ScVal.map (
    entry (ScVal.symbol (120 ∷ [])) (ScVal.u32 7)
      (entry (ScVal.symbol (121 ∷ [])) (ScVal.vec (ScVec.cons (ScVal.u32 8) ScVec.nil)) empty))

seven : IsJson sdk (λ _. ⊥) (of_unsigned 7)
seven = IsJson.number (record { unsigned = λ m h. ground arith; signed = λ z h. ground arith })

abbrev input : Field
input = record { doc = []; name = 120 ∷ []; type_ = TypeDef.u32 }

args_run :
    convert_args sdk contract_spec (("x", of_unsigned 7) ∷ []) (input ∷ []) ≡ ok (ScVal.u32 7 ∷ [])
unfolding convert_args json_to_scval height depth as_u64_lenient lookup
args_run = refl

convert_args-AreComponents_example :
    AreComponents sdk (λ _. ⊥) contract_spec (input ∷ []) (ScVal.u32 7 ∷ [])
convert_args-AreComponents_example =
    convert_args-AreComponents sdk sdk-IsLawful (λ _. ⊥) contract_spec (("x", of_unsigned 7) ∷ [])
      (input ∷ []) (ScVal.u32 7 ∷ []) (seven, tt) args_run
