-- ===== src/Server/Methods.antt =====
-- By which method the running server takes a call.
use orcusapi.Base.{◌≡◌, ap, sym, ◌∙◌, String, ok, unwrap_or, false}
use orcusapi.Std.HashMap
use orcusapi.Sdk.{Sdk}
use orcusapi.Chain.{Chain}
use orcusapi.Spec.{ContractSpec}
use orcusapi.World.{Network, World, Settings, bind_inv}
use orcusapi.Source.{get_or_fetch_spec}
use orcusapi.Probe.Lookup.{last_classified, get-classify_functions}
use orcusapi.Handlers.{should_use_get}
use orcusapi.Startup.{start, probe_all, initial}
use orcusapi.Server.Reach.{IsReachable, after, Steps-methods}

module _ (sdk : Sdk) (chain : Chain) (net : Network) (settings : Settings) where
  -- In every state of the running server, a name is for GET exactly if the start has classified the last
  -- function of the interface with this name so, at its turn; other names are for POST.
  pub should_use_get-last_classified :
      (name : String) (w : World)
      → IsReachable sdk chain net settings w
      → (spec : ContractSpec) × (w₁ : World) × (get_or_fetch_spec sdk chain net
            settings.contract_wasm_hash initial
          ≡ (ok spec, w₁))
        × (should_use_get name w.function_methods
            ≡ unwrap_or false
                (last_classified sdk chain net settings.contract_id name spec.functions w₁))
  unfolding start probe_all should_use_get
  should_use_get-last_classified name w (after ran steps) =
      let (spec, w₁, fetched, probed) =
        bind_inv (get_or_fetch_spec sdk chain net settings.contract_wasm_hash)
          (probe_all sdk chain net settings) ran in
      (
        spec,
        w₁,
        fetched,
        ap (should_use_get name) (Steps-methods sdk chain net steps)
            ∙ ap (λ p. unwrap_or false (HashMap.get name p.1.function_methods)) (sym probed)
            ∙ ap (unwrap_or false)
                (get-classify_functions sdk chain net settings.contract_id spec name w₁),
      )
