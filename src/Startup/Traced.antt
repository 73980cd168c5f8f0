-- ===== src/Startup/Traced.antt =====
-- The start of the server changes the shared state by the steps of its requests, and by the store of
-- the methods at its end.
use orcusapi.Base.{
  ◌≡◌, refl, ap, sym, ◌∙◌, Bool, true, false, not, is_empty, List, [], ◌∷◌, String, Result, ok, err,
  if◌then◌else◌,
}
use orcusapi.Std.HashMap
use orcusapi.Xdr.Spec.{Function}
use orcusapi.Sdk.{Sdk}
use orcusapi.Chain.{Chain}
use orcusapi.Spec.{ContractSpec}
use orcusapi.World.{continue_inv, Network, World, Settings, ◌>>=◌}
use orcusapi.World.Steps.{Steps, done, Steps-trans, IsTraced, traced_rules}
use orcusapi.Source.{get_or_fetch_spec}
use orcusapi.Server.Traced.{get_or_fetch_spec-IsTraced, simulate_transaction-IsTraced}
use orcusapi.Probe.{
  probe_source_account, probe_no_arg_function, read_only_or_post, classify, classify_from,
  classify_functions,
}
use orcusapi.Startup.{start, probe_all, initial}

module _ (sdk : Sdk) (chain : Chain) (net : Network) (contract_id : String) where
  probe-IsTraced :
      (account name : String)
      → IsTraced sdk chain net (probe_no_arg_function sdk chain net contract_id account name)
  unfolding probe_no_arg_function
  probe-IsTraced account name = search (traced_rules, simulate_transaction-IsTraced) depth 8

  read_only_or_post-world :
      (r : Result String Bool × World) → (read_only_or_post sdk chain net contract_id r).1 ≡ r.1
  read_only_or_post-world (ok b, w) = refl
  read_only_or_post-world (err e, w) = refl

  if-Steps :
      (b : Bool) (w : World) (r : Bool × World)
      → Steps sdk chain net w r.1
      → Steps sdk chain net w (if b then (false, w) else r).1
  if-Steps true w r h = done
  if-Steps false w r h = h

  classify-Steps :
      (f : Function) (w : World) → Steps sdk chain net w (classify sdk chain net contract_id f w).1
  unfolding classify
  classify-Steps f w =
      let name = sdk.to_text f.name in
      let account = probe_source_account sdk chain in
      if-Steps (not (is_empty f.inputs)) w _ (
        rw
          (read_only_or_post-world (probe_no_arg_function sdk chain net contract_id account name w))
          ((probe-IsTraced account name).at w))

  pub classify_from-Steps :
      (methods : List (String × Bool)) (fs : List Function) (w : World)
      → Steps sdk chain net w (classify_from sdk chain net contract_id methods fs w).1
  unfolding classify_from
  classify_from-Steps methods [] w = done
  classify_from-Steps methods (f ∷ fs) w =
      let r = classify sdk chain net contract_id f w in
      Steps-trans sdk chain net (classify-Steps f w)
        (classify_from-Steps (HashMap.insert (sdk.to_text f.name) r.0 methods) fs r.1)

  pub classify_functions-Steps :
      (spec : ContractSpec) (w : World)
      → Steps sdk chain net w (classify_functions sdk chain net contract_id spec w).1
  unfolding classify_functions
  classify_functions-Steps spec w = classify_from-Steps [] spec.functions w

module _ (sdk : Sdk) (chain : Chain) (net : Network) (settings : Settings) where
  -- the world after the start, but for the methods
  pub start-Steps :
      (w : World)
      → start sdk chain net settings initial ≡ (ok tt, w)
      → (u : World) × Steps sdk chain net initial u
        × (w ≡ record u { function_methods = w.function_methods })
  unfolding start probe_all ◌>>=◌
  start-Steps w started =
      let (spec, w₁, fetched, probed) =
        continue_inv (get_or_fetch_spec sdk chain net settings.contract_wasm_hash initial)
          (probe_all sdk chain net settings) started in
      let p = classify_functions sdk chain net settings.contract_id spec w₁ in
      let same = ap (λ r. r.1) probed in
      (
        p.1,
        Steps-trans sdk chain net
            (rw (← ap (λ r. r.1) fetched)
              ((get_or_fetch_spec-IsTraced sdk chain net settings.contract_wasm_hash).at initial))
            (classify_functions-Steps sdk chain net settings.contract_id spec w₁),
        sym same ∙ ap (λ v. record p.1 { function_methods = v.function_methods }) same,
      )
