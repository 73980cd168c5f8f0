-- ===== src/Server/ReadOnly.antt =====
-- What a client can reach by GET.
use orcusapi.Base.{◌≡◌, refl, ap, sym, ◌∙◌, Bool, true, false, not, is_empty, List, String, ok}
use mathlib.Core.Path.{subst}
use orcusapi.Json.{Json}
use orcusapi.Sdk.{Sdk}
use orcusapi.Chain.{Chain}
use orcusapi.Spec.{ContractSpec}
use orcusapi.World.{bind_inv, lift_inv, read_methods_inv, Network, World, Settings}
use orcusapi.Source.{get_or_fetch_spec}
use orcusapi.Probe.Methods.{HasReadOnly, Steps-HasReadOnly}
use orcusapi.Handlers.{lookup_spec, should_use_get}
use orcusapi.Handlers.Headers.{HeaderMap, CommonHeaders, read_common_headers, query_args}
use orcusapi.Handlers.Invoke.{check_method, invoke_inner, invoke_get}
use orcusapi.Server.Traced.{lookup_spec-IsTraced}
use orcusapi.Server.Reach.{IsReachable, after, Steps-methods}
use orcusapi.Startup.{initial}
use orcusapi.Startup.Served.{start-should_use_get}

-- by GET only what is for GET
check_method-get :
    (name : String) (has_inputs use_get : Bool)
    → check_method name has_inputs true use_get ≡ ok tt
    → use_get ≡ true
unfolding check_method
check_method-get name has_inputs true h = refl
check_method-get name has_inputs false h = cc

module _ (sdk : Sdk) (chain : Chain) (net : Network) (settings : Settings) where
  -- a call by GET that succeeds found the function to be for GET
  invoke_inner-should_use_get :
      (name : String) (args : List (String × Json)) (headers : CommonHeaders) (body : Json)
      (w w' : World)
      → invoke_inner sdk chain net settings name args headers true w ≡ (ok body, w')
      → should_use_get name w.function_methods ≡ true
  unfolding invoke_inner
  invoke_inner-should_use_get name args headers body w w' h =
      let (spec, w₁, looked_up, h₁) = bind_inv (lookup_spec sdk chain net settings) _ h in
      let (f, _, h₂) = lift_inv _ _ h₁ in
      let (_, allowed, _) = lift_inv _ _ (read_methods_inv _ h₂) in
      let same : w₁.function_methods ≡ w.function_methods =
        ap (λ r. r.1.function_methods) (sym looked_up)
        ∙ Steps-methods sdk chain net ((lookup_spec-IsTraced sdk chain net settings).at w) in
      let get_it =
        check_method-get name (not (is_empty f.inputs)) (should_use_get name w₁.function_methods)
          allowed in
      rw same at get_it

  -- From every state of the running server, a GET of a function that succeeds is a call of a function
  -- without inputs of the interface fetched at the start for which, among the requests sent, is the
  -- simulation of a call from the probe's account, and the footprint that the network answered has no
  -- entry to be written.
  pub invoke_get-HasReadOnly :
      (name : String) (query : List (String × String)) (headers : HeaderMap) (body : Json)
      (w w' : World)
      → IsReachable sdk chain net settings w
      → invoke_get sdk chain net settings name query headers w ≡ (ok body, w')
      → (spec : ContractSpec) × (w₁ : World) × (get_or_fetch_spec sdk chain net
            settings.contract_wasm_hash initial
          ≡ (ok spec, w₁))
        × HasReadOnly sdk chain net settings.contract_id name w.sent spec.functions
  unfolding invoke_get
  invoke_get-HasReadOnly name query headers body w w' (after {started} ran steps) h =
      let (common, _, inner) = lift_inv (read_common_headers headers) _ h in
      let get_it =
        invoke_inner-should_use_get name (query_args chain query) common body w w' inner in
      let (spec, w₁, fetched, read_only) =
        start-should_use_get sdk chain net settings name started ran
          (subst (λ m. should_use_get name m ≡ true) (Steps-methods sdk chain net steps) get_it) in
      (spec, w₁, fetched, Steps-HasReadOnly sdk chain net settings.contract_id steps read_only)
