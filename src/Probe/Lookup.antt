-- ===== src/Probe/Lookup.antt =====
-- Which probe decides the method of a name.
use orcusapi.Base.{
  or_else, or_else_assoc, or_else-if, or_else-none, ◌≡◌, refl, ◌∙◌, ap, Bool, Option, some, none,
  List, [], ◌∷◌, String, str_eq, if◌then◌else◌,
}
use orcusapi.Std.HashMap.{get, insert, get-insert}
use orcusapi.Xdr.Spec.{Function}
use orcusapi.Sdk.{Sdk}
use orcusapi.Chain.{Chain}
use orcusapi.Spec.{ContractSpec}
use orcusapi.World.{Network, World}
use orcusapi.Probe.{classify, classify_from, classify_functions}

module _ (sdk : Sdk) (chain : Chain) (net : Network) (contract_id : String) where
  -- The last function of the name, and what it is classified as at its turn.
  abbrev pub last_classified : String → List Function → World → Option Bool
  last_classified name [] w = none
  last_classified name (f ∷ fs) w =
      let (use_get, w') = classify sdk chain net contract_id f w in
      or_else (last_classified name fs w')
        (if str_eq (sdk.to_text f.name) name then some use_get else none)

  or_else-insert :
      (k name : String) (b : Bool) (m : List (String × Bool)) (late : Option Bool)
      → or_else late (get name (insert k b m))
        ≡ or_else (or_else late (if str_eq k name then some b else none)) (get name m)
  or_else-insert k name b m late =
      ap (or_else late) (get-insert k name b m ∙ or_else-if (str_eq k name) b (get name m))
      ∙ or_else_assoc late (if str_eq k name then some b else none) (get name m)

  classify_from_lem :
      (name : String) (methods : List (String × Bool)) (fs : List Function) (w : World)
      → get name (classify_from sdk chain net contract_id methods fs w).0
        ≡ or_else (last_classified name fs w) (get name methods)
  unfolding classify_from
  classify_from_lem name methods [] w = refl
  classify_from_lem name methods (f ∷ fs) w =
      let r = classify sdk chain net contract_id f w in
      classify_from_lem name (insert (sdk.to_text f.name) r.0 methods) fs r.1
      ∙ or_else-insert (sdk.to_text f.name) name r.0 methods (last_classified name fs r.1)

  -- Startup puts a name to what the last function of the interface with this name is classified as at
  -- its turn, and leaves out the names that no function has.
  pub get-classify_functions :
      (spec : ContractSpec) (name : String) (w : World)
      → get name (classify_functions sdk chain net contract_id spec w).0
        ≡ last_classified name spec.functions w
  unfolding classify_functions get
  get-classify_functions spec name w = classify_from_lem name [] spec.functions w ∙ or_else-none _
