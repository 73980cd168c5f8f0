-- ===== src/Probe/Traffic.antt =====
-- What the probes send.
use orcusapi.Base.{
  ◌≤◌, ◌≡◌, refl, Bool, true, false, not, is_empty, List, [], ◌∷◌, String, Result, ok, err, arith,
  if◌then◌else◌,
}
use orcusapi.Std.HashMap
use orcusapi.Xdr.Spec.{Function}
use orcusapi.Sdk.{Sdk}
use orcusapi.Chain.{Chain}
use orcusapi.Spec.{ContractSpec}
use orcusapi.World.{Network, World}
use orcusapi.Rpc.{simulate_transaction}
use orcusapi.Rpc.Traffic.{count_of, AtMost, AtMost-call_other, quiet_rules}
use orcusapi.Probe.{
  probe_source_account, probe_no_arg_function, read_only_or_post, classify, classify_from,
  classify_functions,
}

module _ (sdk : Sdk) (chain : Chain) (net : Network) (contract_id : String) where
  simulate_transaction-no_submission :
      (envelope : String) → AtMost "sendTransaction" 0 (simulate_transaction chain net envelope)
  unfolding simulate_transaction
  simulate_transaction-no_submission envelope =
      AtMost-call_other chain net "sendTransaction" "simulateTransaction" _ refl

  probe-no_submission :
      (account name : String)
      → AtMost "sendTransaction" 0 (probe_no_arg_function sdk chain net contract_id account name)
  unfolding probe_no_arg_function
  probe-no_submission account name =
      search (quiet_rules, simulate_transaction-no_submission) depth 8

  read_only_or_post-sent :
      (r : Result String Bool × World) → (read_only_or_post sdk chain net contract_id r).1 ≡ r.1
  read_only_or_post-sent (ok b, w) = refl
  read_only_or_post-sent (err e, w) = refl

  if-no_submission :
      (b : Bool) (w : World) (r : Bool × World)
      → count_of "sendTransaction" r.1.sent ≤ count_of "sendTransaction" w.sent
      → count_of "sendTransaction" (if b then (false, w) else r).1.sent
        ≤ count_of "sendTransaction" w.sent
  if-no_submission true w r h = omega arith
  if-no_submission false w r h = h

  classify-no_submission :
      (f : Function) (w : World)
      → count_of "sendTransaction" (classify sdk chain net contract_id f w).1.sent
        ≤ count_of "sendTransaction" w.sent
  unfolding classify
  classify-no_submission f w =
      let name = sdk.to_text f.name in
      let account = probe_source_account sdk chain in
      if-no_submission (not (is_empty f.inputs)) w _ (
        rw (read_only_or_post-sent (probe_no_arg_function sdk chain net contract_id account name w))
          (omega (arith, (probe-no_submission account name).at w)))

  classify_from-no_submission :
      (methods : List (String × Bool)) (fs : List Function) (w : World)
      → count_of "sendTransaction" (classify_from sdk chain net contract_id methods fs w).1.sent
        ≤ count_of "sendTransaction" w.sent
  unfolding classify_from
  classify_from-no_submission methods [] w = omega arith
  classify_from-no_submission methods (f ∷ fs) w =
      let r = classify sdk chain net contract_id f w in
      omega (
        arith,
        classify-no_submission f w,
        classify_from-no_submission (HashMap.insert (sdk.to_text f.name) r.0 methods) fs r.1,
      )

  -- Startup submits no transaction while it probes the functions, whatever the network answers.
  pub classify_functions-no_submission :
      (spec : ContractSpec) (w : World)
      → count_of "sendTransaction" (classify_functions sdk chain net contract_id spec w).1.sent
        ≤ count_of "sendTransaction" w.sent
  unfolding classify_functions
  classify_functions-no_submission spec w = classify_from-no_submission [] spec.functions w
