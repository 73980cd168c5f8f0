-- ===== src/Tests/Calls.antt =====
-- Runs of the handlers against the server of Tests/Network, and the theorems on calls at them.
use orcusapi.Base.{
  arith, ℕ, ◌+◌, ◌≡◌, ◌≢◌, ◌↔◌, ◌≤◌, ◌<◌, refl, true, false, none, some, List, [], ◌∷◌, String, ok,
  err,
}
use orcusapi.Std.HashMap
use orcusapi.Std.Parse.{parse_signed}
use orcusapi.Json.{Json, obj, lookup, get, string}
use orcusapi.Xdr.Tx.{V1Envelope, Envelope, TransactionExt}
use orcusapi.Errors.{method_not_allowed}
use orcusapi.World.{World, ◌>>=◌}
use orcusapi.Handlers.Invoke.Polling.{
  IsAnsweredAfter, now, poll-IsAnsweredAfter, IsAnsweredAfter-poll,
}
use orcusapi.Rpc.{get_transaction, call, get_ledger_entries, simulate_transaction}
use orcusapi.Rpc.Traffic.{count_of}
use orcusapi.Spec.{function, from_entries}
use orcusapi.Source.{get_or_fetch_spec, parse_wasm_hash, cache_key}
use orcusapi.Source.Cache.{get_or_fetch_spec-again}
use orcusapi.Txbuild.{
  assemble_transaction, sign_transaction, as_str_field, build_unsigned_invoke_tx,
  envelope_to_base64, parse_simulation,
}
use orcusapi.Txbuild.Authorized.{IsAuthorized}
use orcusapi.Txbuild.Assemble.{IsAssembled, assemble_transaction-IsAssembled}
use orcusapi.Txbuild.Sign.{IsSignedBy, sign_transaction-IsSignedBy}
use orcusapi.Handlers.{should_use_get, function_with_method}
use orcusapi.Handlers.Invoke.Advertised.{method_text, check_method-function_with_method}
use orcusapi.Probe.Traffic.{classify_functions-no_submission}
use orcusapi.Handlers.Invoke.{invoke_inner, check_method, poll}
use orcusapi.Handlers.Headers.{CommonHeaders}
use orcusapi.Handlers.Invoke.Guards.{invoke_inner-wrong_method}
use orcusapi.Handlers.Invoke.Submits.{invoke_inner-submits_once, invoke_inner-no_key}
use orcusapi.Handlers.Invoke.Quiet.{invoke_inner-no_submission}
use orcusapi.Probe.{classify_functions}
use orcusapi.Probe.Methods.{HasReadOnly, classify_functions_sound}
use orcusapi.Tests.Fixtures.{sdk}
use orcusapi.Tests.Network.{
  chain, net, hash, settings, fresh, warm, unsigned_headers, signed_headers, unsigned, simulated,
  footprint, contract_spec, get_function, verify, sign-verifies,
}

abbrev assembled : V1Envelope
assembled = record unsigned {
  tx = record unsigned.tx { fee = 1000; ext = TransactionExt.v1 footprint };
}

assemble_run :
    assemble_transaction sdk chain (Envelope.tx unsigned) simulated ≡ ok (Envelope.tx assembled)
unfolding assemble_transaction
assemble_run = refl

assemble_transaction-IsAssembled_example :
    IsAssembled simulated unsigned.tx assembled.tx
    × IsAuthorized chain simulated.auth_b64 unsigned.tx.operations assembled.tx.operations
    × (assembled.signatures ≡ unsigned.signatures)
assemble_transaction-IsAssembled_example =
    assemble_transaction-IsAssembled sdk chain unsigned assembled simulated assemble_run

abbrev signed : V1Envelope
signed = record assembled {
  signatures = record { hint = 0 ∷ 0 ∷ 0 ∷ 0 ∷ []; signature = 1 ∷ 1000 ∷ [] } ∷ [];
}

sign_run : sign_transaction sdk chain (Envelope.tx assembled) "net" "S" ≡ ok (Envelope.tx signed)
unfolding sign_transaction
sign_run = refl

sign_transaction-IsSignedBy_example :
    (signed.tx ≡ assembled.tx) × IsSignedBy sdk chain verify "net" "S" signed
sign_transaction-IsSignedBy_example =
    sign_transaction-IsSignedBy sdk chain verify sign-verifies assembled signed "net" "S" sign_run

hash_run : (b : List ℕ) × (parse_wasm_hash sdk chain (cache_key sdk chain net hash) ≡ ok b)
unfolding parse_wasm_hash cache_key
hash_run = (_, refl)

abbrev fetched : World
fetched = (get_or_fetch_spec sdk chain net hash fresh).1

fetch_run : get_or_fetch_spec sdk chain net hash fresh ≡ (ok contract_spec, fetched)
unfolding get_or_fetch_spec ◌>>=◌ call HashMap.get HashMap.insert lookup get_ledger_entries
    as_str_field from_entries
fetch_run = refl

get_or_fetch_spec-again_example :
    get_or_fetch_spec sdk chain net hash fetched ≡ (ok contract_spec, fetched)
get_or_fetch_spec-again_example =
    get_or_fetch_spec-again sdk chain net hash contract_spec fresh fetched fetch_run

wrong : false ≢ should_use_get "get" warm.function_methods
unfolding should_use_get HashMap.get
wrong h = cc

found : function sdk contract_spec "get" ≡ some get_function
unfolding function
found = refl

cached : HashMap.get (cache_key sdk chain net hash) warm.spec_cache ≡ some contract_spec
unfolding HashMap.get cache_key
cached = refl

-- POST of what is to be called by GET
invoke_inner-wrong_method_example :
    (m : String) × (invoke_inner sdk chain net settings "get" [] unsigned_headers false warm
      ≡ (err (method_not_allowed m), warm))
invoke_inner-wrong_method_example =
    invoke_inner-wrong_method sdk chain net settings "get" [] unsigned_headers false hash_run.0
      contract_spec get_function warm hash_run.1 cached found wrong

invoke_inner-no_submission_example :
    count_of "sendTransaction"
      (invoke_inner sdk chain net settings "get" [] unsigned_headers true warm).1.sent
    ≤ count_of "sendTransaction" warm.sent
invoke_inner-no_submission_example =
    invoke_inner-no_submission sdk chain net settings "get" [] unsigned_headers true warm refl

invoke_inner-submits_once_example :
    (count_of "sendTransaction"
        (invoke_inner sdk chain net settings "get" [] signed_headers true warm).1.sent
      ≤ 1 + count_of "sendTransaction" warm.sent)
    × (count_of "getTransaction"
          (invoke_inner sdk chain net settings "get" [] signed_headers true warm).1.sent
        ≤ 30 + count_of "getTransaction" warm.sent)
invoke_inner-submits_once_example =
    invoke_inner-submits_once sdk chain net settings "get" [] signed_headers true warm

probe_run :
    HashMap.get "get" (classify_functions sdk chain net "C00" contract_spec fresh).0 ≡ some true
unfolding classify_functions HashMap.get HashMap.insert ◌>>=◌ simulate_transaction
    build_unsigned_invoke_tx envelope_to_base64 parse_simulation lookup call parse_signed
probe_run = refl

classify_functions_sound_example :
    HasReadOnly sdk chain net "C00" "get"
      (classify_functions sdk chain net "C00" contract_spec fresh).1.sent
      contract_spec.functions
classify_functions_sound_example =
    classify_functions_sound sdk chain net "C00" contract_spec "get" fresh probe_run

check_method-function_with_method_example :
    (get "http_method"
        (function_with_method sdk chain net settings warm.function_methods get_function)
      ≡ some (string (method_text true)))
    ↔ (check_method
          (sdk.to_text get_function.name)
          false
          true
          (should_use_get (sdk.to_text get_function.name) warm.function_methods)
        ≡ ok tt)
check_method-function_with_method_example =
    check_method-function_with_method sdk chain net settings warm.function_methods get_function
      false true

classify_functions-no_submission_example :
    count_of "sendTransaction" (classify_functions sdk chain net "C00" contract_spec fresh).1.sent
    ≤ count_of "sendTransaction" fresh.sent
classify_functions-no_submission_example =
    classify_functions-no_submission sdk chain net "C00" contract_spec fresh

abbrev success : Json
success = obj (("status", string "SUCCESS") ∷ [])

abbrev polled : World
polled = (get_transaction chain net "h" fresh).1

answered : IsAnsweredAfter sdk chain net settings "h" 0 fresh success polled
unfolding get_transaction call lookup
answered = now refl refl

poll-IsAnsweredAfter_example : poll sdk chain net settings 30 "h" fresh ≡ (ok success, polled)
poll-IsAnsweredAfter_example =
    poll-IsAnsweredAfter sdk chain net settings 30 0 "h" fresh polled success (omega arith) answered

poll_run : poll sdk chain net settings 30 "h" fresh ≡ (ok success, polled)
unfolding poll get_transaction call lookup ◌>>=◌
poll_run = refl

IsAnsweredAfter-poll_example :
    (n : ℕ) × (n < 30) × IsAnsweredAfter sdk chain net settings "h" n fresh success polled
IsAnsweredAfter-poll_example =
    IsAnsweredAfter-poll sdk chain net settings 30 "h" fresh polled success poll_run

-- asks for a signature without a key
abbrev keyless : CommonHeaders
keyless = record { source_account = "G00"; sign = true; secret_key = none }

invoke_inner-no_key_example :
    count_of "sendTransaction"
      (invoke_inner sdk chain net settings "get" [] keyless true warm).1.sent
    ≤ count_of "sendTransaction" warm.sent
invoke_inner-no_key_example =
    invoke_inner-no_key sdk chain net settings "get" [] keyless true warm refl
