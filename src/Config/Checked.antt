-- ===== src/Config/Checked.antt =====
-- What a configuration that was read has been checked for.
use orcusapi.Base.{
  Ensures, holds, failed, Ensures-ok, Ensures-if, Result-cases, inl, inr, length, ◌==◌, arith, refl,
  ◌≡◌, Option, none, some, String, Result, ok, ◌>>=◌, ok_or, map_err, >>=-eq-ok, ok-injective,
  ok_or-eq-ok, map_err-eq-ok, ap, sym, ◌∙◌, unwrap_or, and_then, to_option,
}
use orcusapi.Std.Parse.{parse_unsigned}
use orcusapi.Std.Words.{max_u64}
use orcusapi.Xdr.{Bytes}
use orcusapi.Sdk.{Sdk}
use orcusapi.Chain.{Chain}
use orcusapi.Source.{trim, parse_wasm_hash}
use orcusapi.Config.{Config, Environment, from_env}

-- the chain of `from_env` taken apart
chain_inv :
    (e₁ e₂ e₃ e₄ e₅ e₆ : String) (url pass hash id : Option String)
    (f : String → Result String Bytes) (g : String → Option Bytes)
    (mk : String → String → String → String → Config) (config : Config)
    → (ok_or e₁ url >>= λ u. ok_or e₂ pass >>= λ p. ok_or e₃ hash >>= λ h.
        map_err (λ _. e₄) (f h) >>= λ _.
        ok_or e₅ id >>= λ i. ok_or e₆ (g i) >>= λ _. ok (mk u p h i))
      ≡ ok config
    → (u : String) × (p : String) × (h : String) × (i : String) × (b : Bytes) × (c : Bytes) × (f h
        ≡ ok b)
      × (g i ≡ some c)
      × (mk u p h i ≡ config)
chain_inv e₁ e₂ e₃ e₄ e₅ e₆ none pass hash id f g mk config h = cc
chain_inv e₁ e₂ e₃ e₄ e₅ e₆ (some u) none hash id f g mk config h = cc
chain_inv e₁ e₂ e₃ e₄ e₅ e₆ (some u) (some p) none id f g mk config h = cc
chain_inv e₁ e₂ e₃ e₄ e₅ e₆ (some u) (some p) (some s) id f g mk config h =
    let (b, checked, h₁) =
      >>=-eq-ok (map_err (λ _. e₄) (f s))
        (λ _. ok_or e₅ id >>= λ i. ok_or e₆ (g i) >>= λ _. ok (mk u p s i)) h in
    let (i, given, h₂) =
      >>=-eq-ok (ok_or e₅ id) (λ i. ok_or e₆ (g i) >>= λ _. ok (mk u p s i)) h₁ in
    let (c, parsed, h₃) = >>=-eq-ok (ok_or e₆ (g i)) (λ _. ok (mk u p s i)) h₂ in
    (u, p, s, i, b, c, map_err-eq-ok e₄ (f s) checked, ok_or-eq-ok e₆ (g i) parsed, ok-injective h₃)

module _ (sdk : Sdk) (chain : Chain) where
  -- the record at the end of `from_env`
  abbrev built : Environment → String → String → String → String → Config
  built var url pass hash id = record {
    rpc_url = url;
    network_passphrase = pass;
    bind_addr = unwrap_or "0.0.0.0:8080" (var "BIND_ADDR");
    request_timeout_secs =
        unwrap_or 30
          (and_then (var "REQUEST_TIMEOUT_SECS") (λ v. to_option (parse_unsigned max_u64 v)));
    contract_wasm_hash = chain.to_lowercase (trim hash);
    contract_id = trim id;
  }

  -- what passes for a hash
  parse_wasm_hash-32 :
      (text : String)
      → Ensures
          (λ hash. (sdk.hex_decode (trim text) ≡ ok hash) × (length hash ≡ 32))
          (parse_wasm_hash sdk chain text)
  unfolding parse_wasm_hash
  parse_wasm_hash-32 text = elim (Result-cases (sdk.hex_decode (trim text))) [
    | inr (e, undecoded) ↦ rw (undecoded, parse_wasm_hash) failed
    | inl (hash, decoded) ↦
        rw (decoded, parse_wasm_hash)
          (Ensures-if (length hash == 32) (λ exact. holds (refl, ground arith)) (λ _. failed))
  ]

  -- A configuration that was read from the environment has a hash that is 32 bytes in hex, and a
  -- contract id that is a strkey of a contract.
  pub from_env_checked :
      (var : Environment) (config : Config)
      → from_env sdk chain var ≡ ok config
      → ((hash : Bytes) × (sdk.hex_decode (trim config.contract_wasm_hash) ≡ ok hash)
          × (length hash ≡ 32))
        × ((id : Bytes) × (sdk.contract config.contract_id ≡ some id))
  unfolding from_env
  from_env_checked var config h =
      let (u, p, s, i, b, c, checked, parsed, same) =
        chain_inv "SOROBAN_RPC_URL must be set (e.g. https://soroban-testnet.stellar.org)"
          "SOROBAN_NETWORK_PASSPHRASE must be set (e.g. 'Test SDF Network ; September 2015')"
          "CONTRACT_WASM_HASH must be set to the hex-encoded WASM hash to serve"
          "CONTRACT_WASM_HASH is invalid"
          "CONTRACT_ID must be set to the deployed contract's C... address"
          "CONTRACT_ID is invalid: expected a C... strkey" (var "SOROBAN_RPC_URL")
          (var "SOROBAN_NETWORK_PASSPHRASE") (var "CONTRACT_WASM_HASH") (var "CONTRACT_ID")
          (λ s. parse_wasm_hash sdk chain (chain.to_lowercase (trim s)))
          (λ i. sdk.contract (trim i)) (built var) config h in
      let (decoded, exact) =
        Ensures-ok (parse_wasm_hash-32 config.contract_wasm_hash)
          (ap (λ k. parse_wasm_hash sdk chain k.contract_wasm_hash) (sym same) ∙ checked) in
      ((b, decoded, exact), (c, ap (λ k. sdk.contract k.contract_id) (sym same) ∙ parsed))
