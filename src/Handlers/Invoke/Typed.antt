-- ===== src/Handlers/Invoke/Typed.antt =====
-- The arguments of a call have the types of the function's inputs.
use orcusapi.Base.{
  ◌≡◌, List, String, ok, unwrap_or, All, Option-cases, inl, inr, Ensures, Ensures-ok,
  Ensures-result, Ensures-weaken, Ensures-map_err, Ensures-traverse,
}
use orcusapi.Json.{Json, null, lookup}
use orcusapi.Xdr.{ScVal}
use orcusapi.Xdr.Spec.{Field}
use orcusapi.Sdk.{Sdk, IsLawful}
use orcusapi.Spec.{ContractSpec}
use orcusapi.Scval.Convert.{json_to_scval}
use orcusapi.Scval.Typing.{IsJson, HasType, AreComponents}
use orcusapi.Scval.Typing.Nodes.{lookup-IsJson, All-any, AreComponents-Pointwise}
use orcusapi.Scval.Typing.Sound.{json_to_scval-HasType}
use orcusapi.Handlers.Invoke.{convert_arg, convert_args}

module _ (sdk : Sdk) (law : IsLawful sdk) (hatch : ScVal → Type 0) (spec : ContractSpec) where
  argument-IsJson :
      (name : String) (args : List (String × Json))
      → All (λ x. IsJson sdk hatch x.1) args
      → IsJson sdk hatch (unwrap_or null (lookup name args))
  argument-IsJson name args hs = elim (Option-cases (lookup name args)) [
    | inl missing ↦ rw missing IsJson.null
    | inr (v, found) ↦ rw found (lookup-IsJson name args v hs found)
  ]

  convert_arg-HasType :
      (args : List (String × Json)) (input : Field)
      → All (λ x. IsJson sdk hatch x.1) args
      → Ensures (HasType sdk hatch spec input.type_) (convert_arg sdk spec args input)
  unfolding convert_arg
  convert_arg-HasType args input hs =
      let name = sdk.to_text input.name in
      let given = unwrap_or null (lookup name args) in
      Ensures-map_err _ (
        Ensures-weaken (Ensures-result (json_to_scval sdk spec given input.type_)) (λ r converted.
          json_to_scval-HasType sdk law hatch spec given input.type_ r
            (argument-IsJson name args hs) converted))

  -- The arguments that a call passes on are as many as the function's inputs, in their order, and each
  -- has the type of its input, if the numbers of the request have the widths of their views; exempt
  -- are only the values of `hatch`, which has to hold of what serde_json reads under a key of the escape
  -- hatch somewhere in the request, and of nothing else.
  pub convert_args-AreComponents :
      (args : List (String × Json)) (inputs : List Field) (vs : List ScVal)
      → All (λ x. IsJson sdk hatch x.1) args
      → convert_args sdk spec args inputs ≡ ok vs
      → AreComponents sdk hatch spec inputs vs
  unfolding convert_args
  convert_args-AreComponents args inputs vs hs e = AreComponents-Pointwise sdk law hatch spec (
      Ensures-ok
        (Ensures-traverse (λ f. HasType sdk hatch spec f.type_) (convert_arg sdk spec args) inputs
          (All-any inputs (λ f. convert_arg-HasType args f hs)))
        e)
