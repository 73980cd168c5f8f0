-- ===== src/Startup/Served.antt =====
-- What the server shows once it has started.
use mathlib.Core.Path.{subst}
use orcusapi.Base.{◌≡◌, Bool, true, false, Option, some, none, String, ok, ap, ◌∙◌, unwrap_or}
use orcusapi.Std.HashMap
use orcusapi.Sdk.{Sdk}
use orcusapi.Chain.{Chain}
use orcusapi.Spec.{ContractSpec}
use orcusapi.World.{continue_inv, Network, World, Settings, ◌>>=◌}
use orcusapi.Source.{get_or_fetch_spec}
use orcusapi.Probe.{classify_functions}
use orcusapi.Probe.Methods.{HasReadOnly, classify_functions_sound}
use orcusapi.Handlers.{should_use_get}
use orcusapi.Startup.{start, probe_all, initial}

module _ (sdk : Sdk) (chain : Chain) (net : Network) (settings : Settings) where
  unwrap_or-true : (o : Option Bool) → unwrap_or false o ≡ true → o ≡ some true
  unwrap_or-true none h = cc
  unwrap_or-true (some b) h = ap some h

  -- Once the server has started, it serves by GET only functions without inputs of the contract's
  -- interface, as it was fetched, for which, among the requests sent, is the simulation of a call from
  -- the probe's account, and the footprint that the network answered has no entry to be written.
  pub start-should_use_get :
      (name : String) (w : World)
      → start sdk chain net settings initial ≡ (ok tt, w)
      → should_use_get name w.function_methods ≡ true
      → (spec : ContractSpec) × (w₁ : World) × (get_or_fetch_spec sdk chain net
            settings.contract_wasm_hash initial
          ≡ (ok spec, w₁))
        × HasReadOnly sdk chain net settings.contract_id name w.sent spec.functions
  unfolding start probe_all should_use_get ◌>>=◌
  start-should_use_get name w started get_it =
      let (spec, w₁, fetched, probed) =
        continue_inv (get_or_fetch_spec sdk chain net settings.contract_wasm_hash initial)
          (probe_all sdk chain net settings) started in
      let methods = (classify_functions sdk chain net settings.contract_id spec w₁).0 in
      (
        spec,
        w₁,
        fetched,
        subst
            (λ (u : World).
              HasReadOnly sdk chain net settings.contract_id name u.sent spec.functions)
            (ap (λ r. r.1) probed)
            (classify_functions_sound sdk chain net settings.contract_id spec name w₁
              (ap (λ p. HashMap.get name p.1.function_methods) probed ∙ unwrap_or-true _ get_it)),
      )
