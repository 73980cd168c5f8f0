-- ===== src/Config.antt =====
-- src/config.rs: the configuration from the environment.
pub mod Checked
use orcusapi.Base.{
  ℕ, ◌≡◌, Option, none, some, List, [], ◌∷◌, String, Result, ok, err, ◌>>=◌, ◌>>◌, ok_or, map_err,
  to_option, unwrap_or, and_then, >>=-eq-ok, ok-injective, ap, sym, ◌∙◌,
}
use orcusapi.Std.Parse.{parse_unsigned}
use orcusapi.Std.Words.{max_u64}
use orcusapi.Xdr.{Bytes}
use orcusapi.Sdk.{Sdk}
use orcusapi.Chain.{Chain}
use orcusapi.Scval.Scalars.{Fallible}
use orcusapi.Source.{trim, parse_wasm_hash}
use orcusapi.World.{Settings}

-- `std::env::var`, behind the loading of a local `.env`; `none` where it fails
abbrev pub Environment : Type 0
Environment = String → Option String

pub record Config : Type 0 where
  pub rpc_url : String
  pub network_passphrase : String
  pub bind_addr : String
  pub request_timeout_secs : ℕ
  pub contract_wasm_hash : String
  pub contract_id : String

module _ (sdk : Sdk) (chain : Chain) where
  unfoldable pub from_env : Environment → Fallible Config
  unfolding trim parse_wasm_hash
  from_env var = do
    rpc_url ←
        ok_or "SOROBAN_RPC_URL must be set (e.g. https://soroban-testnet.stellar.org)"
          (var "SOROBAN_RPC_URL")
    network_passphrase ←
        ok_or "SOROBAN_NETWORK_PASSPHRASE must be set (e.g. 'Test SDF Network ; September 2015')"
          (var "SOROBAN_NETWORK_PASSPHRASE")
    hash ←
        ok_or "CONTRACT_WASM_HASH must be set to the hex-encoded WASM hash to serve"
          (var "CONTRACT_WASM_HASH")
    let contract_wasm_hash = chain.to_lowercase (trim hash)
    checked ←
        map_err (λ _. "CONTRACT_WASM_HASH is invalid")
          (parse_wasm_hash sdk chain contract_wasm_hash)
    id ← ok_or "CONTRACT_ID must be set to the deployed contract's C... address" (var "CONTRACT_ID")
    let contract_id = trim id
    parsed ← ok_or "CONTRACT_ID is invalid: expected a C... strkey" (sdk.contract contract_id)
    ok (record {
      rpc_url = rpc_url;
      network_passphrase = network_passphrase;
      bind_addr = unwrap_or "0.0.0.0:8080" (var "BIND_ADDR");
      request_timeout_secs =
          unwrap_or 30
            (and_then (var "REQUEST_TIMEOUT_SECS") (λ v. to_option (parse_unsigned max_u64 v)));
      contract_wasm_hash = contract_wasm_hash;
      contract_id = contract_id;
    })

-- what `AppState::new` copies from the configuration
abbrev pub settings_of : Config → Settings
settings_of config = record {
  network_passphrase = config.network_passphrase;
  contract_wasm_hash = config.contract_wasm_hash;
  contract_id = config.contract_id;
}
