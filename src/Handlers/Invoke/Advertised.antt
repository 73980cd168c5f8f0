-- ===== src/Handlers/Invoke/Advertised.antt =====
-- The method that `get_functions` lists for a function, and the one that `invoke_inner` accepts.
use orcusapi.Base.{◌≡◌, ◌↔◌, refl, Bool, true, false, some, List, String, ok, if◌then◌else◌}
use orcusapi.Json.{string, get, lookup, insert}
use orcusapi.Xdr.Spec.{Function}
use orcusapi.Sdk.{Sdk}
use orcusapi.Chain.{Chain}
use orcusapi.World.{Network, Settings}
use orcusapi.Handlers.{should_use_get, function_with_method}
use orcusapi.Handlers.Invoke.{check_method}

-- as `http_method` spells it
abbrev pub method_text : Bool → String
method_text is_get = if is_get then "GET" else "POST"

accepts_lem :
    (name : String) (has_inputs is_get use_get : Bool)
    → (some (string (method_text use_get)) ≡ some (string (method_text is_get)))
      ↔ (check_method name has_inputs is_get use_get ≡ ok tt)
unfolding check_method
accepts_lem name has_inputs true true = (λ h. refl, λ h. refl)
accepts_lem name has_inputs true false = (λ h. cc, λ h. cc)
accepts_lem name has_inputs false true = (λ h. cc, λ h. cc)
accepts_lem name has_inputs false false = (λ h. refl, λ h. refl)

module _ (sdk : Sdk) (chain : Chain) (net : Network) (settings : Settings) where
  -- Under the same map of methods, a function is listed with a method exactly if a call by that method
  -- passes the test on the method.
  pub check_method-function_with_method :
      (methods : List (String × Bool)) (f : Function) (has_inputs is_get : Bool)
      → (get "http_method" (function_with_method sdk chain net settings methods f)
          ≡ some (string (method_text is_get)))
        ↔ (check_method
              (sdk.to_text f.name)
              has_inputs
              is_get
              (should_use_get (sdk.to_text f.name) methods)
            ≡ ok tt)
  unfolding function_with_method lookup insert
  check_method-function_with_method methods f has_inputs is_get =
      accepts_lem (sdk.to_text f.name) has_inputs is_get
        (should_use_get (sdk.to_text f.name) methods)
