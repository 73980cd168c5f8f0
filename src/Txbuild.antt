-- ===== src/Txbuild.antt =====
-- src/txbuild.rs, but for `fetch_next_sequence_number`, which asks the network (Account).
pub mod Assemble
pub mod Sign
pub mod Invocation
pub mod Authorized
pub mod Simulation
use orcusapi.Base.{
  ℕ, ◌+◌, ◌≡◌, Bool, true, false, Option, none, some, List, [], ◌∷◌, String, Result, ok, err, ◌>>=◌,
  ◌>>◌, ok_or, map_err, ensure, traverse, first, length, ltb, leb, if◌then◌else◌, is_empty,
  and_then, unwrap_or,
}
use mathlib.Core.Option
use orcusapi.Base.Int.{ℤ, pos, negsuc}
use orcusapi.Base.Text.{format}
use orcusapi.Std.Parse.{parse_signed}
use orcusapi.Std.Words.{max_u32, max_i64, try_unsigned_of_signed}
use orcusapi.Json.{Json, get, as_str, as_array}
use orcusapi.Xdr.{Bytes, Opaque, Address, ScVal}
use orcusapi.Xdr.Tx.{
  SorobanData, InvokeContractArgs, HostFunction, invoke_contract, OperationBody,
  invoke_host_function, Operation, TransactionExt, v0, v1, Preconditions, none_set, Memo, no_memo,
  Transaction, DecoratedSignature, V1Envelope, Envelope, TransactionMeta,
}
use orcusapi.Sdk.{Sdk}
use orcusapi.Chain.{Chain}
use orcusapi.Scval.Scalars.{Fallible}
use orcusapi.Scval.Render.{scval_to_json}

abbrev pub inclusion_fee_stroops : ℕ
inclusion_fee_stroops = 100

-- `ValueExt::field` and `ValueExt::as_str_field` of src/rpc.rs
module _ (chain : Chain) where
  unfoldable pub field : String → Json → Fallible Json
  field name v =
      ok_or (format ("expected field `" ∷ name ∷ "` in rpc response: " ∷ chain.show_json v ∷ []))
        (get name v)

  unfoldable pub as_str_field : String → Json → Fallible String
  unfolding field
  as_str_field name v = do
    x ← field name v
    ok_or (format ("expected field `" ∷ name ∷ "` to be a string in: " ∷ chain.show_json v ∷ []))
        (as_str x)

-- an array under a name, empty if there is none
abbrev pub array_field : String → Json → List Json
array_field name v = unwrap_or [] (and_then (get name v) as_array)

module _ (sdk : Sdk) where
  unfoldable pub build_unsigned_invoke_tx :
      String → ℤ → String → String → List ScVal → Fallible Envelope
  build_unsigned_invoke_tx source_account next_seq contract_id function_name args = do
    source_pk ←
        ok_or
          (format ("invalid source_account `" ∷ source_account ∷ "`: expected a G... strkey" ∷ []))
          (sdk.public_key source_account)
    contract ←
        ok_or (format ("invalid contract_id `" ∷ contract_id ∷ "`: expected a C... strkey" ∷ []))
          (sdk.contract contract_id)
    name ←
        ok_or (format ("function name `" ∷ function_name ∷ "` is invalid or too long" ∷ []))
          (sdk.to_string_m 32 function_name)
    ensure (sdk.fits max_u32 (length args)) "too many arguments"
    ensure (sdk.fits 100 1) "too many operations"
    ok (
        Envelope.tx (record {
          tx = record {
            source_account = source_pk;
            fee = inclusion_fee_stroops;
            seq_num = next_seq;
            cond = none_set;
            memo = no_memo;
            operations =
                record {
                  source_account = none;
                  body =
                      invoke_host_function
                        (invoke_contract (record {
                          contract_address = Address.contract contract;
                          function_name = name;
                          args = args;
                        }))
                        [];
                }
                ∷ [];
            ext = v0;
          };
          signatures = [];
        }))

pub record SimulationOutcome : Type 0 where
  pub soroban_data : SorobanData
  pub min_resource_fee : ℤ
  pub result_json : Option Json
  pub auth_b64 : List String
  pub raw : Json

-- `filter_map(|x| x.as_str())`
unfoldable pub texts : List Json → List String
texts [] = []
texts (x ∷ xs) = elim (as_str x) [ some s ↦ s ∷ texts xs | none ↦ texts xs ]

module _ (sdk : Sdk) (chain : Chain) where
  -- the simulated return value: absent, undecodable, or rendered
  unfoldable pub result_of : Option String → Fallible (Option Json)
  result_of none = ok none
  result_of (some b64) = do
    v ← ok_or "failed decoding simulated return value" (chain.decode_scval b64)
    ok (some (scval_to_json sdk v))

  -- behind the two checks for failure
  unfoldable pub parse_success : Json → Fallible SimulationOutcome
  unfolding result_of texts as_str_field
  parse_success resp = do
    encoded ← as_str_field chain "transactionData" resp
    soroban_data ←
        ok_or "failed decoding simulated SorobanTransactionData" (chain.decode_soroban_data encoded)
    fee ← as_str_field chain "minResourceFee" resp
    min_resource_fee ←
        map_err (λ _. "minResourceFee was not a valid integer") (parse_signed max_i64 fee)
    let head = first (array_field "results" resp)
    result_json ← result_of (and_then (and_then head (get "xdr")) as_str)
    ok (record {
      soroban_data = soroban_data;
      min_resource_fee = min_resource_fee;
      result_json = result_json;
      auth_b64 = texts (unwrap_or [] (and_then (and_then head (get "auth")) as_array));
      raw = resp;
    })

  unfoldable pub parse_simulation : Json → Fallible SimulationOutcome
  unfolding parse_success
  parse_simulation resp = elim (get "error" resp) [
    | some e ↦ err (format ("simulation failed: " ∷ unwrap_or (chain.show_json e) (as_str e) ∷ []))
    | none ↦ elim (get "restorePreamble" resp) [
      | some _ ↦
          err
            "this call requires restoring archived contract state before it can run; automatic restore is not implemented by this proxy yet"
      | none ↦ parse_success resp
    ]
  ]

  -- `u32::checked_add`
  abbrev pub checked_add : ℕ → ℕ → Option ℕ
  checked_add a b = if leb (a + b) max_u32 then some (a + b) else none

  -- the first operation takes the entries if it invokes a host function
  unfoldable pub set_auth : List Opaque → List Operation → Fallible (List Operation)
  set_auth auths [] = err "built transaction unexpectedly has no operations"
  set_auth auths (op ∷ ops) = elim op.body [
    | invoke_host_function f _ ↦ do
      ensure (sdk.fits max_u32 (length auths)) "too many auth entries"
      ok (record op { body = invoke_host_function f auths } ∷ ops)
    | OperationBody.other x ↦ ok (op ∷ ops)
  ]

  unfoldable pub with_auth : List String → List Operation → Fallible (List Operation)
  unfolding set_auth
  with_auth [] ops = ok ops
  with_auth (b ∷ bs) ops = do
    auths ←
        traverse
          (λ b64. ok_or "failed decoding simulated authorization entry" (chain.decode_auth b64))
          (b ∷ bs)
    set_auth auths ops

  unfoldable pub assemble_transaction : Envelope → SimulationOutcome → Fallible Envelope
  unfolding with_auth
  assemble_transaction (Envelope.other x) sim = err "expected a v1 transaction envelope"
  assemble_transaction (Envelope.tx e) sim = do
    resource_fee ←
        ok_or "simulated resource fee out of range"
          (try_unsigned_of_signed max_u32 sim.min_resource_fee)
    fee ← ok_or "computed fee overflowed" (checked_add resource_fee inclusion_fee_stroops)
    operations ← with_auth sim.auth_b64 e.tx.operations
    ok (
        Envelope.tx (record e {
          tx = record e.tx { fee = fee; ext = v1 sim.soroban_data; operations = operations };
        }))

  -- `verifying_key_bytes[28..32]`, byte by byte; the key has 32 bytes
  abbrev pub byte_at : ℕ → Bytes → ℕ
  byte_at i [] = 0
  byte_at Prim.Native.Nat.zero (b ∷ bs) = b
  byte_at (Prim.Native.Nat.suc i) (b ∷ bs) = byte_at i bs

  abbrev pub hint_of : Bytes → Bytes
  hint_of key = byte_at 28 key ∷ byte_at 29 key ∷ byte_at 30 key ∷ byte_at 31 key ∷ []

  unfoldable pub sign_transaction : Envelope → String → String → Fallible Envelope
  sign_transaction (Envelope.other x) network_passphrase secret_key =
      err "expected a v1 transaction envelope"
  sign_transaction (Envelope.tx e) network_passphrase secret_key = do
    seed ← ok_or "invalid secret_key: expected an S... strkey" (chain.private_key secret_key)
    let network_id = chain.sha256 (chain.as_bytes network_passphrase)
    payload ←
        ok_or "failed encoding transaction signature payload" (chain.encode_payload network_id e.tx)
    let signature = chain.sign seed (chain.sha256 payload)
    ensure (sdk.fits 64 (length signature)) "signature encoding failed"
    ensure (sdk.fits 20 1) "too many signatures"
    ok (
        Envelope.tx (record e {
          signatures =
              record { hint = hint_of (chain.verifying_key seed); signature = signature } ∷ [];
        }))

  unfoldable pub envelope_to_base64 : Envelope → Fallible String
  envelope_to_base64 e = ok_or "failed encoding transaction envelope" (chain.encode_envelope e)

  unfoldable pub return_value : TransactionMeta → Option ScVal
  return_value (TransactionMeta.v3 v) = v
  return_value (TransactionMeta.v4 v) = and_then v (λ w. w)
  return_value (TransactionMeta.other x) = none

  unfoldable pub extract_return_value : String → Fallible (Option ScVal)
  unfolding return_value
  extract_return_value b64 = do
    meta ← ok_or "failed decoding resultMetaXdr" (chain.decode_meta b64)
    ok (return_value meta)
