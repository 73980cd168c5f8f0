-- ===== src/Startup.antt =====
-- The start of the server in src/main.rs, up to the router: the interface is looked up and its
-- functions are probed. Logging, the HTTP client and the listener are not modelled.
pub mod Served
pub mod Traced
use orcusapi.Base.{ℕ, Bool, List, [], ◌∷◌, String, Result, ok, err}
use orcusapi.Sdk.{Sdk}
use orcusapi.Chain.{Chain}
use orcusapi.Spec.{ContractSpec}
use orcusapi.World.{Network, World, Settings, Action, ◌>>=◌}
use orcusapi.Source.{get_or_fetch_spec}
use orcusapi.Probe.{classify_functions}

-- `AppState::new`, with the counter of `RpcClient::new`
abbrev pub initial : World
initial = record { next_id = 1; sent = []; spec_cache = []; function_methods = [] }

module _ (sdk : Sdk) (chain : Chain) (net : Network) (settings : Settings) where
  -- `*state.function_methods.write().await = methods`
  abbrev pub set_methods : List (String × Bool) × World → Result String (Unit {0}) × World
  set_methods (methods, w) = (ok tt, record w { function_methods = methods })

  unfoldable pub probe_all : ContractSpec → Action String (Unit {0})
  unfolding classify_functions
  probe_all spec w = set_methods (classify_functions sdk chain net settings.contract_id spec w)

  unfoldable pub start : Action String (Unit {0})
  unfolding get_or_fetch_spec probe_all
  start = do spec ← get_or_fetch_spec sdk chain net settings.contract_wasm_hash; probe_all spec
