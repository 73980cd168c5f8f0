-- ===== src/Handlers/Invoke.antt =====
-- `invoke_get`, `invoke_post` and `invoke_inner` of src/handlers.rs. The pause between two polls is
-- not modelled.
pub mod Advertised
pub mod Guards
pub mod Quiet
pub mod Polling
pub mod Submits
pub mod Typed
pub mod Prepared
pub mod Answered
pub mod Replies
pub mod Submitted
use orcusapi.Base.{
  ℕ, zero, suc, Bool, true, false, not, ◌&&◌, Option, none, some, List, [], ◌∷◌, map, String,
  str_eq, Result, ok, err, ok_or, map_err, to_option, traverse, if◌then◌else◌, unwrap_or, and_then,
  is_empty,
}
use mathlib.Core.Option
use orcusapi.Base.Int.{ℤ}
use orcusapi.Base.Text.{format}
use orcusapi.Std.Print.{show_ℤ}
use orcusapi.Json.{Json, null, string, obj, arr, get, lookup, as_str}
use orcusapi.Xdr.{ScVal}
use orcusapi.Xdr.Spec.{Function, Field}
use orcusapi.Xdr.Tx.{Envelope}
use orcusapi.Sdk.{Sdk}
use orcusapi.Chain.{Chain}
use orcusapi.Errors.{AppError, bad_request, not_found, method_not_allowed, upstream, internal}
use orcusapi.Spec.{ContractSpec, function}
use orcusapi.World.{
  Network, World, Settings, Action, ◌>>=◌, ◌>>◌, pure, lift, fail, on_error, read_methods,
}
use orcusapi.Rpc.{simulate_transaction, send_transaction, get_transaction}
use orcusapi.Scval.Convert.{json_to_scval}
use orcusapi.Scval.Render.{scval_to_json, ledger_key_to_json}
use orcusapi.Txbuild.{
  SimulationOutcome, build_unsigned_invoke_tx, envelope_to_base64, parse_simulation,
  assemble_transaction, sign_transaction, extract_return_value,
}
use orcusapi.Account.{fetch_next_sequence_number}
use orcusapi.Handlers.{should_use_get, lookup_spec}
use orcusapi.Handlers.Headers.{HeaderMap, CommonHeaders, read_common_headers, query_args}

-- `Option<Value>` in `json!`
abbrev pub nullable : Option Json → Json
nullable none = null
nullable (some v) = v

-- The two refusals of the wrong method.
unfoldable pub check_method :
    String → (has_inputs is_get use_get : Bool) → Result AppError (Unit {0})
check_method name has_inputs is_get use_get =
    if is_get && not use_get
    then err (
        method_not_allowed (
          format (
            "function `"
            ∷ name
            ∷ "` must be called with POST ("
            ∷ (if has_inputs then "it takes arguments" else "it changes contract state")
            ∷ "); use POST instead of GET"
            ∷ [])))
    else if not is_get && use_get
    then err (
        method_not_allowed (
          format (
            "function `" ∷ name
            ∷ "` takes no arguments and is read-only; call it with GET instead of POST" ∷ [])))
    else ok tt

module _ (sdk : Sdk) where
  -- one round of the loop over the inputs: a missing argument is null
  unfoldable pub convert_arg : ContractSpec → List (String × Json) → Field → Result AppError ScVal
  convert_arg spec args input =
      let pname = sdk.to_text input.name in
      map_err (λ e. bad_request (format ("argument `" ∷ pname ∷ "`: " ∷ e ∷ [])))
        (json_to_scval sdk spec (unwrap_or null (lookup pname args)) input.type_)

  unfoldable pub convert_args :
      ContractSpec → List (String × Json) → List Field → Result AppError (List ScVal)
  unfolding convert_arg
  convert_args spec args inputs = traverse (convert_arg spec args) inputs

  abbrev sign_note : String
  sign_note =
      "Sign this XDR yourself and submit it (e.g. via sendTransaction), or resend this request with a `x-sign: true` header and a `x-secret-key` header to have the proxy sign and submit it on your behalf."

  unfoldable pub simulated_reply : Settings → SimulationOutcome → String → Json
  simulated_reply settings sim transaction_xdr = obj (
      ("status", string "simulated")
      ∷ ("network_passphrase", string settings.network_passphrase)
      ∷ ("simulated_result", nullable sim.result_json)
      ∷ ("min_resource_fee", string (show_ℤ sim.min_resource_fee))
      ∷ ("read_write", arr (map (ledger_key_to_json sdk) sim.soroban_data.read_write))
      ∷ ("transaction_xdr", string transaction_xdr)
      ∷ ("note", string sign_note)
      ∷ ("simulation", sim.raw)
      ∷ [])

  module _ (chain : Chain) where
    -- the return value: the field `returnValue` if it decodes, else that of the result meta
    unfoldable pub from_result_meta : Json → Option ScVal
    from_result_meta resp =
        and_then (and_then (get "resultMetaXdr" resp) as_str)
          (λ b64. and_then (to_option (extract_return_value sdk chain b64)) (λ v. v))

    unfoldable pub final_value : Json → Option ScVal
    unfolding from_result_meta
    final_value resp =
        elim (and_then (and_then (get "returnValue" resp) as_str) chain.decode_scval) [
          | some v ↦ some v
          | none ↦ from_result_meta resp
        ]

    unfoldable pub final_reply : String → Json → Json
    unfolding final_value
    final_reply hash resp = obj (
        ("status", string (unwrap_or "UNKNOWN" (and_then (get "status" resp) as_str)))
        ∷ ("hash", string hash)
        ∷ ("return_value", nullable (Option.map (scval_to_json sdk) (final_value resp)))
        ∷ ("raw", resp)
        ∷ [])

    -- the status of a poll
    abbrev pub poll_status : Json → String
    poll_status resp = unwrap_or "NOT_FOUND" (and_then (get "status" resp) as_str)

    -- the hash of a submission that was not rejected
    unfoldable pub submitted_hash : Json → Result AppError String
    submitted_hash resp =
        if str_eq (unwrap_or "UNKNOWN" (and_then (get "status" resp) as_str)) "ERROR"
        then err (
            bad_request (format ("network rejected the transaction: " ∷ chain.show_json resp ∷ [])))
        else ok_or (upstream "sendTransaction response had no hash")
            (and_then (get "hash" resp) as_str)

    abbrev timed_out : String → AppError
    timed_out hash = upstream (
        format (
          "timed out waiting for transaction " ∷ hash
          ∷ " to be included in a ledger; it may still confirm later, check getTransaction manually"
          ∷ []))

    module _ (net : Network) (settings : Settings) where
      -- the rounds that are left of `for _ in 0..30`
      unfoldable pub poll : ℕ → String → Action AppError Json
      poll zero hash = fail (timed_out hash)
      poll (suc rounds) hash = do
        resp ← on_error upstream (get_transaction chain net hash)
        (let again = poll rounds hash in
            if str_eq (poll_status resp) "NOT_FOUND" then again else pure resp)

      unfoldable pub sign_and_submit : Envelope → Option String → Action AppError Json
      unfolding poll submitted_hash final_reply
      sign_and_submit assembled secret_key = do
        secret ←
            lift (
              ok_or (bad_request "header `x-secret-key` is required when `x-sign: true`")
                secret_key)
        signed ← lift (
            map_err bad_request
              (sign_transaction sdk chain assembled settings.network_passphrase secret))
        signed_b64 ← lift (map_err internal (envelope_to_base64 sdk chain signed))
        send_resp ← on_error upstream (send_transaction chain net signed_b64)
        hash ← lift (submitted_hash send_resp)
        get_resp ← poll 30 hash
        pure (final_reply hash get_resp)

      unfoldable pub reply_unsigned : SimulationOutcome → Envelope → Action AppError Json
      unfolding simulated_reply
      reply_unsigned sim assembled = do
        transaction_xdr ← lift (map_err internal (envelope_to_base64 sdk chain assembled))
        pure (simulated_reply settings sim transaction_xdr)

      -- build the transaction, simulate it and put the simulation's results into it
      unfoldable pub simulate :
          String → String → List ScVal → Action AppError (SimulationOutcome × Envelope)
      simulate function_name source_account scvals = do
        next_seq ← on_error bad_request (fetch_next_sequence_number chain sdk net source_account)
        unsigned ← lift (
            map_err bad_request (
              build_unsigned_invoke_tx sdk source_account next_seq settings.contract_id
                function_name scvals))
        unsigned_b64 ← lift (map_err internal (envelope_to_base64 sdk chain unsigned))
        sim_resp ← on_error upstream (simulate_transaction chain net unsigned_b64)
        sim ← lift (map_err bad_request (parse_simulation sdk chain sim_resp))
        assembled ← lift (map_err internal (assemble_transaction sdk chain unsigned sim))
        pure (sim, assembled)

      unfoldable pub invoke_inner :
          String → List (String × Json) → CommonHeaders → (is_get : Bool) → Action AppError Json
      unfolding lookup_spec check_method convert_args simulate reply_unsigned sign_and_submit
      invoke_inner function_name args headers is_get = do
        spec ← lookup_spec sdk chain net settings
        func_spec ← lift (
            ok_or (not_found (format ("contract has no function `" ∷ function_name ∷ "`" ∷ [])))
              (function sdk spec function_name))
        methods ← read_methods
        lift (
            check_method function_name (not (is_empty func_spec.inputs)) is_get
              (should_use_get function_name methods))
        scvals ← lift (convert_args spec args func_spec.inputs)
        simulated ← simulate function_name headers.source_account scvals
        (if headers.sign
            then sign_and_submit simulated.1 headers.secret_key
            else reply_unsigned simulated.0 simulated.1)

      unfoldable pub invoke_get : String → List (String × String) → HeaderMap → Action AppError Json
      unfolding invoke_inner read_common_headers query_args
      invoke_get function_name query headers = do
        common ← lift (read_common_headers headers)
        invoke_inner function_name (query_args chain query) common true

      unfoldable pub invoke_post : String → HeaderMap → List (String × Json) → Action AppError Json
      unfolding invoke_inner read_common_headers
      invoke_post function_name headers args = do
        common ← lift (read_common_headers headers)
        invoke_inner function_name args common false
