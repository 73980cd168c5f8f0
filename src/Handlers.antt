-- ===== src/Handlers.antt =====
-- src/handlers.rs: the requests of the HTTP interface.
pub mod Headers
pub mod Invoke
use orcusapi.Base.{
  ℕ, Bool, true, false, not, Option, none, some, List, [], ◌∷◌, ◌++◌, map, String, Result, ok, err,
  if◌then◌else◌, unwrap_or,
}
use orcusapi.Base.Text.{contains}
use orcusapi.Std.HashMap
use orcusapi.Json.{Json, string, object, to_fields, arr, obj, insert}
use orcusapi.Xdr.Spec.{Function}
use orcusapi.Sdk.{Sdk}
use orcusapi.Chain.{Chain}
use orcusapi.Errors.{AppError, bad_request, not_found, upstream}
use orcusapi.Spec.{ContractSpec}
use orcusapi.Spec.Render.{function_entries, to_json}
use orcusapi.World.{Network, World, Settings, Action, ◌>>=◌, ◌>>◌, pure, on_error, read_methods}
use orcusapi.Rpc
use orcusapi.Source.{get_or_fetch_spec}

-- the status for a failed lookup, by the words of its message
unfoldable pub classify_lookup_err : String → AppError
classify_lookup_err msg =
    if contains "must be exactly 32 bytes" msg
    then bad_request msg
    else if contains "must be hex-encoded" msg
    then bad_request msg
    else if contains "no contract WASM found" msg
    then not_found msg
    else if contains "no `contractspecv0`" msg
    then bad_request msg
    else upstream msg

unfoldable pub health : Json
health = obj (("status", string "ok") ∷ [])

-- `AppState::should_use_get`: POST where nothing is known
unfoldable pub should_use_get : String → List (String × Bool) → Bool
should_use_get name methods = unwrap_or false (HashMap.get name methods)

module _ (sdk : Sdk) (chain : Chain) (net : Network) (settings : Settings) where
  unfoldable pub get_network : Action AppError Json
  get_network = on_error upstream (Rpc.get_network chain net)

  -- the lookup that `get_spec`, `get_functions` and `invoke_inner` begin with
  unfoldable pub lookup_spec : Action AppError ContractSpec
  unfolding get_or_fetch_spec classify_lookup_err
  lookup_spec =
      on_error classify_lookup_err (get_or_fetch_spec sdk chain net settings.contract_wasm_hash)

  unfoldable pub get_spec : Action AppError Json
  unfolding lookup_spec
  get_spec = do spec ← lookup_spec; pure (to_json sdk spec)

  -- one function of the list, with the method to call it by
  unfoldable pub function_with_method : List (String × Bool) → Function → Json
  unfolding function_entries should_use_get
  function_with_method methods f = object (
      to_fields (
        insert "http_method"
          (string (if should_use_get (sdk.to_text f.name) methods then "GET" else "POST"))
          (function_entries sdk f)))

  unfoldable pub get_functions : Action AppError Json
  unfolding lookup_spec function_with_method
  get_functions = do
    spec ← lookup_spec
    methods ← read_methods
    pure (arr (map (function_with_method methods) spec.functions))
