-- ===== src/Tests/Start.antt =====
-- The start of the server against the server of Tests/Network.
use orcusapi.Base.{ℕ, ◌≡◌, refl, true, none, some, List, str_eq, ok, if◌then◌else◌, length}
use orcusapi.Std.HashMap
use orcusapi.Std.Parse.{parse_signed, parse_unsigned}
use orcusapi.Json.{lookup}
use orcusapi.World.{World, ◌>>=◌}
use orcusapi.Spec.{ContractSpec, from_entries}
use orcusapi.Rpc.{call, get_ledger_entries, simulate_transaction}
use orcusapi.Source.{get_or_fetch_spec, trim}
use orcusapi.Txbuild.{as_str_field, build_unsigned_invoke_tx, envelope_to_base64, parse_simulation}
use orcusapi.Probe.Methods.{HasReadOnly}
use orcusapi.Handlers.{should_use_get}
use orcusapi.Config.{Config, Environment, from_env}
use orcusapi.Config.Checked.{from_env_checked}
use orcusapi.Startup.{start, initial}
use orcusapi.Startup.Served.{start-should_use_get}
use orcusapi.Tests.Fixtures.{sdk}
use orcusapi.Tests.Network.{chain, net, hash, settings}

abbrev pub started : World
started = (start sdk chain net settings initial).1

pub start_run : start sdk chain net settings initial ≡ (ok tt, started)
unfolding start ◌>>=◌ call HashMap.get HashMap.insert lookup get_ledger_entries as_str_field
    from_entries simulate_transaction build_unsigned_invoke_tx envelope_to_base64 parse_simulation
    parse_signed
start_run = refl

get_run : should_use_get "get" started.function_methods ≡ true
unfolding start ◌>>=◌ call HashMap.get HashMap.insert lookup get_ledger_entries as_str_field
    from_entries simulate_transaction build_unsigned_invoke_tx envelope_to_base64 parse_simulation
    parse_signed should_use_get
get_run = refl

start-should_use_get_example :
    (spec : ContractSpec) × (w : World) × (get_or_fetch_spec sdk chain net
        settings.contract_wasm_hash initial
      ≡ (ok spec, w))
    × HasReadOnly sdk chain net settings.contract_id "get" started.sent spec.functions
start-should_use_get_example =
    start-should_use_get sdk chain net settings "get" started start_run get_run

abbrev environment : Environment
environment name =
    if str_eq name "CONTRACT_WASM_HASH"
    then some hash
    else if str_eq name "CONTRACT_ID"
    then some "C00"
    else if str_eq name "BIND_ADDR"
    then none
    else some "5"

abbrev config : Config
config = record {
  rpc_url = "5";
  network_passphrase = "5";
  bind_addr = "0.0.0.0:8080";
  request_timeout_secs = 5;
  contract_wasm_hash = hash;
  contract_id = "C00";
}

env_run : from_env sdk chain environment ≡ ok config
unfolding from_env parse_unsigned
env_run = refl

from_env_checked_example :
    ((b : List ℕ) × (sdk.hex_decode (trim config.contract_wasm_hash) ≡ ok b) × (length b ≡ 32))
    × ((id : List ℕ) × (sdk.contract config.contract_id ≡ some id))
from_env_checked_example = from_env_checked sdk chain environment config env_run
