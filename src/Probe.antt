-- ===== src/Probe.antt =====
-- src/probe.rs: at startup each function is put to GET or POST. Logging is left out.
pub mod Methods
pub mod Traffic
pub mod Lookup
use orcusapi.Base.{
  ℕ, Bool, true, false, not, List, [], ◌∷◌, String, Result, ok, err, if◌then◌else◌, is_empty,
}
use orcusapi.Base.Int.{ℤ, pos}
use orcusapi.Std.HashMap
use orcusapi.Xdr.Spec.{Function}
use orcusapi.Sdk.{Sdk}
use orcusapi.Chain.{Chain}
use orcusapi.Spec.{ContractSpec}
use orcusapi.World.{Network, World, Action, ◌>>=◌, ◌>>◌, pure, lift}
use orcusapi.Rpc.{simulate_transaction}
use orcusapi.Txbuild.{build_unsigned_invoke_tx, envelope_to_base64, parse_simulation}

abbrev pub probe_seq_num : ℤ
probe_seq_num = pos 1

module _ (sdk : Sdk) (chain : Chain) where
  unfoldable pub probe_source_account : String
  probe_source_account =
      sdk.show_public_key (chain.sha256 (chain.as_bytes "soroban-api-proxy:startup-probe-account"))

  module _ (net : Network) (contract_id : String) where
    unfoldable pub probe_no_arg_function : String → String → Action String Bool
    probe_no_arg_function probe_account name = do
      unsigned ← lift (build_unsigned_invoke_tx sdk probe_account probe_seq_num contract_id name [])
      unsigned_b64 ← lift (envelope_to_base64 sdk chain unsigned)
      sim_resp ← simulate_transaction chain net unsigned_b64
      sim ← lift (parse_simulation sdk chain sim_resp)
      pure (is_empty sim.soroban_data.read_write)

    -- a failed probe counts as POST
    abbrev pub read_only_or_post : Result String Bool × World → Bool × World
    read_only_or_post (ok read_only, w) = (read_only, w)
    read_only_or_post (err e, w) = (false, w)

    -- what one function is classified as
    unfoldable pub classify : Function → World → Bool × World
    unfolding probe_no_arg_function probe_source_account
    classify f w =
        if not (is_empty f.inputs)
        then (false, w)
        else read_only_or_post (probe_no_arg_function probe_source_account (sdk.to_text f.name) w)

    -- the loop over the functions
    unfoldable pub classify_from :
        List (String × Bool) → List Function → World → List (String × Bool) × World
    unfolding classify
    classify_from methods [] w = (methods, w)
    classify_from methods (f ∷ fs) w =
        let (use_get, w') = classify f w in
        classify_from (HashMap.insert (sdk.to_text f.name) use_get methods) fs w'

    unfoldable pub classify_functions : ContractSpec → World → List (String × Bool) × World
    unfolding classify_from
    classify_functions spec w = classify_from [] spec.functions w
