-- ===== src/Tests/Served.antt =====
-- Runs of the server against the server of Tests/Network, and the theorems on them.
use orcusapi.Base.{
  Pointwise, Result, ◌↔◌, unwrap_or, false, ◌+◌, ◌≤◌, ◌≡◌, refl, some, List, [], ◌∷◌, String, ok,
  err, arith, length, ap, sym, ok-injective,
}
use orcusapi.Std.HashMap
use orcusapi.Std.Parse.{parse_signed}
use orcusapi.Json.{Json, lookup, arr}
use orcusapi.Xdr.{Bytes}
use orcusapi.World.{World, ◌>>=◌, continue_inv, lift, read_methods}
use orcusapi.Account.{fetch_next_sequence_number}
use orcusapi.World.Steps.{done, IsTraced}
use orcusapi.World.Steps.Numbering.{IsNumbered, AreDistinct}
use orcusapi.Spec.{ContractSpec, from_entries, function}
use orcusapi.Rpc.{call, get_ledger_entries, simulate_transaction}
use orcusapi.Rpc.Traffic.{count_of}
use orcusapi.Source.{
  get_or_fetch_spec, parse_wasm_hash, fetch_wasm_by_hash, cache_key, spec_section,
  read_spec_entries_from_wasm,
}
use orcusapi.Source.Shared.{IsImmutable, IsInterfaceOf, get_or_fetch_spec-IsInterfaceOf}
use orcusapi.Txbuild.{
  as_str_field, build_unsigned_invoke_tx, envelope_to_base64, parse_simulation,
  assemble_transaction,
}
use orcusapi.Probe.Methods.{HasReadOnly}
use orcusapi.Handlers.{should_use_get, get_functions}
use orcusapi.Probe.{classify_functions}
use orcusapi.Probe.Lookup.{last_classified, get-classify_functions}
use orcusapi.Source.Failed.{get_or_fetch_spec-failed}
use orcusapi.Server.Methods.{should_use_get-last_classified}
use orcusapi.Chain.{Payload, custom_section, other_payload}
use orcusapi.Source.Section.{IsFirstSection, spec_section-IsFirstSection}
use orcusapi.Server.Listing.{IsListed, get_functions-functions_of}
use orcusapi.Spec.Laws.{functions_of}
use orcusapi.Xdr.Spec.{SpecEntry}
use orcusapi.Handlers.Headers.{HeaderMap}
use orcusapi.Handlers.Invoke.{invoke_get}
use orcusapi.Server.{Call, api_get, handle, serve_all}
use orcusapi.Server.Traced.{handle-IsTraced}
use orcusapi.Server.Reach.{
  IsReachable, after, serve_all-Steps, IsReachable-IsNumbered, IsReachable-AreDistinct,
}
use orcusapi.Server.ReadOnly.{invoke_get-HasReadOnly}
use orcusapi.Server.Submissions.{count_signs, serve_all-signs}
use orcusapi.Startup.{start, initial}
use orcusapi.Tests.Fixtures.{sdk}
use orcusapi.Tests.Network.{chain, net, hash, settings, contract_spec}
use orcusapi.Tests.Start.{started, start_run}

abbrev headers : HeaderMap
headers = ("x-source-account", some "G00") ∷ []

abbrev signing : HeaderMap
signing =
    ("x-source-account", some "G00") ∷ ("x-sign", some "true") ∷ ("x-secret-key", some "S") ∷ []

abbrev calls : List Call
calls = Call.health ∷ Call.functions ∷ api_get "get" [] headers ∷ api_get "get" [] signing ∷ []

abbrev served : World
served = (serve_all sdk chain net settings calls started).1

handle-IsTraced_example :
    IsTraced sdk chain net (handle sdk chain net settings (api_get "get" [] signing))
handle-IsTraced_example = handle-IsTraced sdk chain net settings (api_get "get" [] signing)

served-IsReachable : IsReachable sdk chain net settings served
served-IsReachable = after start_run (serve_all-Steps sdk chain net settings calls started)

started-IsReachable : IsReachable sdk chain net settings started
started-IsReachable = after start_run done

IsReachable-IsNumbered_example : IsNumbered served
IsReachable-IsNumbered_example = IsReachable-IsNumbered sdk chain net settings served-IsReachable

two_requests : length started.sent ≡ 2
unfolding start ◌>>=◌ call HashMap.get HashMap.insert lookup get_ledger_entries as_str_field
    from_entries simulate_transaction build_unsigned_invoke_tx envelope_to_base64 parse_simulation
    parse_signed
two_requests = refl

IsReachable-AreDistinct_example : AreDistinct started.sent
IsReachable-AreDistinct_example =
    IsReachable-AreDistinct sdk chain net settings started-IsReachable (omega (arith, two_requests))

serve_all-signs_example :
    count_of "sendTransaction" (serve_all sdk chain net settings calls started).1.sent
    ≤ count_signs calls + count_of "sendTransaction" started.sent
serve_all-signs_example = serve_all-signs sdk chain net settings calls started

abbrev replied : World
replied = (invoke_get sdk chain net settings "get" [] headers started).1

reply :
    (body : Json) × (invoke_get sdk chain net settings "get" [] headers started
      ≡ (ok body, replied))
unfolding invoke_get start ◌>>=◌ call HashMap.get HashMap.insert lookup get_ledger_entries
    as_str_field from_entries simulate_transaction build_unsigned_invoke_tx envelope_to_base64
    parse_simulation parse_signed should_use_get assemble_transaction function read_methods
    fetch_next_sequence_number
reply = (_, refl)

invoke_get-HasReadOnly_example :
    (spec : ContractSpec) × (w : World) × (get_or_fetch_spec sdk chain net
        settings.contract_wasm_hash initial
      ≡ (ok spec, w))
    × HasReadOnly sdk chain net settings.contract_id "get" started.sent spec.functions
invoke_get-HasReadOnly_example =
    invoke_get-HasReadOnly sdk chain net settings "get" [] headers reply.0 started replied
      started-IsReachable reply.1

abbrev code : String → Bytes
code key = 1 ∷ []

immutable_lem :
    (key : String) (wasm : Bytes) (w w' : World)
    → fetch_wasm_by_hash sdk chain net key w ≡ (ok wasm, w')
    → wasm ≡ code key
unfolding fetch_wasm_by_hash ◌>>=◌ lift get_ledger_entries call as_str_field lookup
immutable_lem key wasm w w' h =
    let (hash, u, _, rest) = continue_inv (lift (parse_wasm_hash sdk chain key) w) _ h in
    sym (ok-injective (ap (λ p. p.0) rest))

net-IsImmutable : IsImmutable sdk chain net code
net-IsImmutable = record { same = immutable_lem }

abbrev looked_up : World
looked_up = (get_or_fetch_spec sdk chain net hash started).1

lookup_run : get_or_fetch_spec sdk chain net hash started ≡ (ok contract_spec, looked_up)
unfolding get_or_fetch_spec start ◌>>=◌ call HashMap.get HashMap.insert lookup get_ledger_entries
    as_str_field from_entries simulate_transaction build_unsigned_invoke_tx envelope_to_base64
    parse_simulation parse_signed
lookup_run = refl

get_or_fetch_spec-IsInterfaceOf_example :
    IsInterfaceOf sdk chain net (code (cache_key sdk chain net hash)) contract_spec
get_or_fetch_spec-IsInterfaceOf_example =
    get_or_fetch_spec-IsInterfaceOf sdk chain net settings code hash contract_spec started looked_up
      net-IsImmutable started-IsReachable lookup_run

get_functions_run :
    (body : Json) × (get_functions sdk chain net settings started ≡ (ok body, looked_up))
unfolding get_functions start ◌>>=◌ call HashMap.get HashMap.insert lookup get_ledger_entries
    as_str_field from_entries simulate_transaction build_unsigned_invoke_tx envelope_to_base64
    parse_simulation parse_signed read_methods
get_functions_run = (_, refl)

get_functions-functions_of_example :
    (entries : List SpecEntry) × (read_spec_entries_from_wasm sdk chain
        (code (cache_key sdk chain net settings.contract_wasm_hash))
      ≡ ok entries)
    × (listed : List Json) × (get_functions_run.0 ≡ arr listed)
    × Pointwise (IsListed sdk started.function_methods) (functions_of entries) listed
get_functions-functions_of_example =
    get_functions-functions_of sdk chain net settings code get_functions_run.0 started looked_up
      net-IsImmutable started-IsReachable get_functions_run.1

get-classify_functions_example :
    HashMap.get "get" (classify_functions sdk chain net "C00" contract_spec started).0
    ≡ last_classified sdk chain net "C00" "get" contract_spec.functions started
get-classify_functions_example =
    get-classify_functions sdk chain net "C00" contract_spec "get" started

-- a hash of two bytes
abbrev refused : World
refused = (get_or_fetch_spec sdk chain net "00" started).1

refused_run : (m : String) × (get_or_fetch_spec sdk chain net "00" started ≡ (err m, refused))
unfolding get_or_fetch_spec start ◌>>=◌
refused_run = (_, refl)

get_or_fetch_spec-failed_example : refused.spec_cache ≡ started.spec_cache
get_or_fetch_spec-failed_example =
    get_or_fetch_spec-failed sdk chain net "00" refused_run.0 started refused refused_run.1

should_use_get-last_classified_example :
    (spec : ContractSpec) × (w : World) × (get_or_fetch_spec sdk chain net
        settings.contract_wasm_hash initial
      ≡ (ok spec, w))
    × (should_use_get "get" served.function_methods
        ≡ unwrap_or false
            (last_classified sdk chain net settings.contract_id "get" spec.functions w))
should_use_get-last_classified_example =
    should_use_get-last_classified sdk chain net settings "get" served served-IsReachable

-- a module with a section behind another payload, and a failure behind the section
abbrev payloads : List (Result String Payload)
payloads = ok other_payload ∷ ok (custom_section "contractspecv0" (1 ∷ [])) ∷ err "cut" ∷ []

spec_section-IsFirstSection_example :
    (spec_section payloads ≡ ok (some (1 ∷ []))) ↔ IsFirstSection (1 ∷ []) payloads
spec_section-IsFirstSection_example = spec_section-IsFirstSection payloads (1 ∷ [])
