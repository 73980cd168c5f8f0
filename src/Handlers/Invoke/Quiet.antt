-- ===== src/Handlers/Invoke/Quiet.antt =====
-- What `invoke_inner` sends before its end: lookups and one simulation.
use orcusapi.Base.{
  ℕ, ◌≤◌, ◌≡◌, refl, Bool, false, List, String, str_eq, arith, Option-cases, inl, inr,
}
use orcusapi.Std.HashMap
use orcusapi.Json.{Json}
use orcusapi.Xdr.{ScVal}
use orcusapi.Xdr.Tx.{Envelope}
use orcusapi.Sdk.{Sdk}
use orcusapi.Chain.{Chain}
use orcusapi.Spec.{ContractSpec}
use orcusapi.World.{Network, World, Settings}
use orcusapi.Rpc.{get_ledger_entries, simulate_transaction}
use orcusapi.Rpc.Traffic.{
  count_of, AtMost, AtMost-call_other, AtMost-weaken, AtMost-if, AtMost-lift, AtMost-read_methods,
  Quiet-bind, Quiet-then, quiet_rules,
}
use orcusapi.Source.{fetch_wasm_by_hash, store_spec, fetch_spec, cached_or_fetch, get_or_fetch_spec}
use orcusapi.Account.{fetch_next_sequence_number}
use orcusapi.Txbuild.{SimulationOutcome}
use orcusapi.Handlers.{lookup_spec}
use orcusapi.Handlers.Headers.{CommonHeaders}
use orcusapi.Handlers.Invoke.{sign_and_submit, reply_unsigned, simulate, invoke_inner}

module _ (sdk : Sdk) (chain : Chain) (net : Network) (method : String)
    (ledger : str_eq "getLedgerEntries" method ≡ false) where
  get_ledger_entries-quiet :
      (keys : List String) → AtMost method 0 (get_ledger_entries chain net keys)
  unfolding get_ledger_entries
  get_ledger_entries-quiet keys = AtMost-call_other chain net method "getLedgerEntries" _ ledger

  fetch_wasm-quiet : (hash : String) → AtMost method 0 (fetch_wasm_by_hash sdk chain net hash)
  unfolding fetch_wasm_by_hash
  fetch_wasm-quiet hash = search (quiet_rules, get_ledger_entries-quiet) depth 8

  store_spec-quiet :
      (key : String) (spec : ContractSpec) → AtMost method 0 (store_spec sdk chain net key spec)
  unfolding store_spec
  store_spec-quiet key spec = record { at = λ w. omega arith }

  fetch_spec-quiet : (key : String) → AtMost method 0 (fetch_spec sdk chain net key)
  unfolding fetch_spec
  fetch_spec-quiet key = search (quiet_rules, fetch_wasm-quiet, store_spec-quiet)

  cached_or_fetch-quiet : (key : String) → AtMost method 0 (cached_or_fetch sdk chain net key)
  unfolding cached_or_fetch
  cached_or_fetch-quiet key = record {
    at = λ w. elim (Option-cases (HashMap.get key w.spec_cache)) [
      | inl missing ↦ rw (missing, cached_or_fetch) ((fetch_spec-quiet key).at w)
      | inr (spec, found) ↦ rw (found, cached_or_fetch) (omega arith)
    ];
  }

  pub get_or_fetch_spec-quiet :
      (hash : String) → AtMost method 0 (get_or_fetch_spec sdk chain net hash)
  unfolding get_or_fetch_spec
  get_or_fetch_spec-quiet hash = search (quiet_rules, cached_or_fetch-quiet)

  sequence-quiet :
      (account : String) → AtMost method 0 (fetch_next_sequence_number chain sdk net account)
  unfolding fetch_next_sequence_number
  sequence-quiet account = search (quiet_rules, get_ledger_entries-quiet) depth 8

  module _ (settings : Settings) (simulating : str_eq "simulateTransaction" method ≡ false) where
    simulate_transaction-quiet :
        (envelope : String) → AtMost method 0 (simulate_transaction chain net envelope)
    unfolding simulate_transaction
    simulate_transaction-quiet envelope =
        AtMost-call_other chain net method "simulateTransaction" _ simulating

    pub lookup_spec-quiet : AtMost method 0 (lookup_spec sdk chain net settings)
    unfolding lookup_spec
    lookup_spec-quiet = search (quiet_rules, get_or_fetch_spec-quiet)

    simulate-quiet :
        (name account : String) (args : List ScVal)
        → AtMost method 0 (simulate sdk chain net settings name account args)
    unfolding simulate
    simulate-quiet name account args =
        search (quiet_rules, sequence-quiet, simulate_transaction-quiet) depth 9

    reply_unsigned-quiet :
        (sim : SimulationOutcome) (e : Envelope)
        → AtMost method 0 (reply_unsigned sdk chain net settings sim e)
    unfolding reply_unsigned
    reply_unsigned-quiet sim e = search quiet_rules

    -- The end of `invoke_inner` sends what the whole sends.
    pub invoke_inner-AtMost :
        (n : ℕ) (name : String) (args : List (String × Json)) (headers : CommonHeaders)
        (is_get : Bool)
        → ((e : Envelope)
            → AtMost method n (sign_and_submit sdk chain net settings e headers.secret_key))
        → AtMost method n (invoke_inner sdk chain net settings name args headers is_get)
    unfolding invoke_inner
    invoke_inner-AtMost n name args headers is_get signed =
        Quiet-then method n _ _ lookup_spec-quiet λ spec.
          Quiet-then method n _ _ (AtMost-lift method _) λ f.
            Quiet-then method n _ _ (AtMost-read_methods method) λ methods.
              Quiet-then method n _ _ (AtMost-lift method _) λ allowed.
                Quiet-then method n _ _ (AtMost-lift method _) λ scvals.
                  Quiet-then method n _ _ (simulate-quiet name headers.source_account scvals)
                    λ simulated. AtMost-if method headers.sign n _ _ (signed simulated.1) (
                      AtMost-weaken method 0 n _ (reply_unsigned-quiet simulated.0 simulated.1)
                        (omega arith))

    pub invoke_inner-unsigned :
        (name : String) (args : List (String × Json)) (headers : CommonHeaders) (is_get : Bool)
        → headers.sign ≡ false
        → AtMost method 0 (invoke_inner sdk chain net settings name args headers is_get)
    unfolding invoke_inner
    invoke_inner-unsigned name args headers is_get unsigned =
        Quiet-bind method _ _ lookup_spec-quiet λ spec.
          Quiet-bind method _ _ (AtMost-lift method _) λ f.
            Quiet-bind method _ _ (AtMost-read_methods method) λ methods.
              Quiet-bind method _ _ (AtMost-lift method _) λ allowed.
                Quiet-bind method _ _ (AtMost-lift method _) λ scvals.
                  Quiet-bind method _ _ (simulate-quiet name headers.source_account scvals)
                    λ simulated. rw unsigned (reply_unsigned-quiet simulated.0 simulated.1)

module _ (sdk : Sdk) (chain : Chain) (net : Network) (settings : Settings) where
  -- Without the header that asks for a signature a call never submits a transaction, whatever the
  -- network answers: the number of `sendTransaction` requests does not grow.
  pub invoke_inner-no_submission :
      (name : String) (args : List (String × Json)) (headers : CommonHeaders) (is_get : Bool)
      (w : World)
      → headers.sign ≡ false
      → count_of "sendTransaction"
          (invoke_inner sdk chain net settings name args headers is_get w).1.sent
        ≤ count_of "sendTransaction" w.sent
  invoke_inner-no_submission name args headers is_get w unsigned = omega (
    arith,
    (invoke_inner-unsigned sdk chain net "sendTransaction" refl settings refl name args headers
          is_get unsigned).at
        w,
  )
