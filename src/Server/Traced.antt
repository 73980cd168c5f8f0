-- ===== src/Server/Traced.antt =====
-- Every handler changes the shared state by steps only.
use orcusapi.Base.{Bool, zero, suc, ap, Option-cases, inl, inr, List, String, ℕ, Option}
use orcusapi.Std.HashMap
use orcusapi.Json.{Json}
use orcusapi.Xdr.{ScVal}
use orcusapi.Xdr.Tx.{Envelope}
use orcusapi.Sdk.{Sdk}
use orcusapi.Chain.{Chain}
use orcusapi.World.{Network, Settings, ◌>>=◌, lift}
use orcusapi.World.Steps.{done, next, stores, IsTraced, traced_rules, call-IsTraced, continue_lem}
use orcusapi.Rpc
use orcusapi.Rpc.{get_ledger_entries, simulate_transaction, send_transaction, get_transaction}
use orcusapi.Source.{
  fetch_wasm_by_hash, read_spec_entries_from_wasm, store_spec, fetch_spec, cached_or_fetch,
  get_or_fetch_spec,
}
use orcusapi.Account.{fetch_next_sequence_number}
use orcusapi.Txbuild.{SimulationOutcome}
use orcusapi.Handlers
use orcusapi.Handlers.{lookup_spec, get_spec, get_functions}
use orcusapi.Handlers.Headers.{HeaderMap, CommonHeaders}
use orcusapi.Handlers.Invoke.{
  poll, sign_and_submit, reply_unsigned, simulate, invoke_inner, invoke_get, invoke_post,
}
use orcusapi.Server.{Call, api_get, api_post, handle}

module _ (sdk : Sdk) (chain : Chain) (net : Network) where
  get_ledger_entries-IsTraced :
      (keys : List String) → IsTraced sdk chain net (get_ledger_entries chain net keys)
  unfolding get_ledger_entries
  get_ledger_entries-IsTraced keys = call-IsTraced sdk chain net "getLedgerEntries" _

  pub simulate_transaction-IsTraced :
      (envelope : String) → IsTraced sdk chain net (simulate_transaction chain net envelope)
  unfolding simulate_transaction
  simulate_transaction-IsTraced envelope = call-IsTraced sdk chain net "simulateTransaction" _

  pub send_transaction-IsTraced :
      (envelope : String) → IsTraced sdk chain net (send_transaction chain net envelope)
  unfolding send_transaction
  send_transaction-IsTraced envelope = call-IsTraced sdk chain net "sendTransaction" _

  get_transaction-IsTraced :
      (hash : String) → IsTraced sdk chain net (get_transaction chain net hash)
  unfolding get_transaction
  get_transaction-IsTraced hash = call-IsTraced sdk chain net "getTransaction" _

  fetch_wasm-IsTraced :
      (hash : String) → IsTraced sdk chain net (fetch_wasm_by_hash sdk chain net hash)
  unfolding fetch_wasm_by_hash
  fetch_wasm-IsTraced hash = search (traced_rules, get_ledger_entries-IsTraced) depth 8

  -- what a miss stores is what it fetched
  fetch_spec-IsTraced : (key : String) → IsTraced sdk chain net (fetch_spec sdk chain net key)
  unfolding fetch_spec ◌>>=◌ lift store_spec
  fetch_spec-IsTraced key = record {
    at = λ w.
        let p = fetch_wasm_by_hash sdk chain net key w in
        continue_lem sdk chain net p _ ((fetch_wasm-IsTraced key).at w) λ wasm fetched. record {
          at = λ u.
              continue_lem sdk chain net (read_spec_entries_from_wasm sdk chain wasm, u) _ done
                λ entries read. record {
                  at = λ v. next done (
                      stores key entries (record {
                        before = w;
                        after = p.1;
                        wasm = wasm;
                        fetched = ap (λ r. (r, p.1)) fetched;
                        read = read;
                      }));
                };
        };
  }

  cached_or_fetch-IsTraced :
      (key : String) → IsTraced sdk chain net (cached_or_fetch sdk chain net key)
  unfolding cached_or_fetch
  cached_or_fetch-IsTraced key = record {
    at = λ w. elim (Option-cases (HashMap.get key w.spec_cache)) [
      | inl missing ↦ rw (missing, cached_or_fetch) ((fetch_spec-IsTraced key).at w)
      | inr (spec, found) ↦ rw (found, cached_or_fetch) done
    ];
  }

  pub get_or_fetch_spec-IsTraced :
      (hash : String) → IsTraced sdk chain net (get_or_fetch_spec sdk chain net hash)
  unfolding get_or_fetch_spec
  get_or_fetch_spec-IsTraced hash = search (traced_rules, cached_or_fetch-IsTraced)

  sequence-IsTraced :
      (account : String) → IsTraced sdk chain net (fetch_next_sequence_number chain sdk net account)
  unfolding fetch_next_sequence_number
  sequence-IsTraced account = search (traced_rules, get_ledger_entries-IsTraced) depth 8

  module _ (settings : Settings) where
    pub lookup_spec-IsTraced : IsTraced sdk chain net (lookup_spec sdk chain net settings)
    unfolding lookup_spec
    lookup_spec-IsTraced = search (traced_rules, get_or_fetch_spec-IsTraced)

    pub poll-IsTraced :
        (rounds : ℕ) (hash : String)
        → IsTraced sdk chain net (poll sdk chain net settings rounds hash)
    unfolding poll
    poll-IsTraced zero hash = search traced_rules
    poll-IsTraced (suc rounds) hash =
        search (traced_rules, get_transaction-IsTraced, poll-IsTraced rounds)

    sign_and_submit-IsTraced :
        (e : Envelope) (secret : Option String)
        → IsTraced sdk chain net (sign_and_submit sdk chain net settings e secret)
    unfolding sign_and_submit
    sign_and_submit-IsTraced e secret =
        search (traced_rules, send_transaction-IsTraced, poll-IsTraced) depth 8

    reply_unsigned-IsTraced :
        (sim : SimulationOutcome) (e : Envelope)
        → IsTraced sdk chain net (reply_unsigned sdk chain net settings sim e)
    unfolding reply_unsigned
    reply_unsigned-IsTraced sim e = search traced_rules

    simulate-IsTraced :
        (name account : String) (args : List ScVal)
        → IsTraced sdk chain net (simulate sdk chain net settings name account args)
    unfolding simulate
    simulate-IsTraced name account args =
        search (traced_rules, sequence-IsTraced, simulate_transaction-IsTraced) depth 9

    invoke_inner-IsTraced :
        (name : String) (args : List (String × Json)) (headers : CommonHeaders) (is_get : Bool)
        → IsTraced sdk chain net (invoke_inner sdk chain net settings name args headers is_get)
    unfolding invoke_inner
    invoke_inner-IsTraced name args headers is_get =
        search
          (
            traced_rules, lookup_spec-IsTraced, simulate-IsTraced, sign_and_submit-IsTraced,
            reply_unsigned-IsTraced,
          )
          depth 10

    invoke_get-IsTraced :
        (name : String) (query : List (String × String)) (headers : HeaderMap)
        → IsTraced sdk chain net (invoke_get sdk chain net settings name query headers)
    unfolding invoke_get
    invoke_get-IsTraced name query headers = search (traced_rules, invoke_inner-IsTraced)

    invoke_post-IsTraced :
        (name : String) (headers : HeaderMap) (args : List (String × Json))
        → IsTraced sdk chain net (invoke_post sdk chain net settings name headers args)
    unfolding invoke_post
    invoke_post-IsTraced name headers args = search (traced_rules, invoke_inner-IsTraced)

    get_network-IsTraced : IsTraced sdk chain net (Handlers.get_network sdk chain net settings)
    unfolding Handlers.get_network Rpc.get_network
    get_network-IsTraced = search traced_rules

    get_spec-IsTraced : IsTraced sdk chain net (get_spec sdk chain net settings)
    unfolding get_spec
    get_spec-IsTraced = search (traced_rules, lookup_spec-IsTraced)

    get_functions-IsTraced : IsTraced sdk chain net (get_functions sdk chain net settings)
    unfolding get_functions
    get_functions-IsTraced = search (traced_rules, lookup_spec-IsTraced)

    -- Whatever is called and whatever the network answers, a handler changes the shared state only by
    -- steps: requests under the next number, and interfaces of fetched code stored under its hash.
    pub handle-IsTraced :
        (call : Call) → IsTraced sdk chain net (handle sdk chain net settings call)
    unfolding handle
    handle-IsTraced Call.health = search traced_rules
    handle-IsTraced Call.network = get_network-IsTraced
    handle-IsTraced Call.spec = get_spec-IsTraced
    handle-IsTraced Call.functions = get_functions-IsTraced
    handle-IsTraced (api_get name query headers) = invoke_get-IsTraced name query headers
    handle-IsTraced (api_post name headers args) = invoke_post-IsTraced name headers args
