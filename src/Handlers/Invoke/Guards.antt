-- ===== src/Handlers/Invoke/Guards.antt =====
-- The refusals of `invoke_inner` before anything is sent.
use orcusapi.Base.{◌≡◌, ◌≢◌, refl, Bool, true, false, some, List, String, ok, err, not, is_empty}
use orcusapi.Std.HashMap
use orcusapi.Json.{Json}
use orcusapi.Xdr.{Bytes}
use orcusapi.Xdr.Spec.{Function}
use orcusapi.Sdk.{Sdk}
use orcusapi.Chain.{Chain}
use orcusapi.Errors.{method_not_allowed}
use orcusapi.Spec.{ContractSpec, function}
use orcusapi.World.{Network, World, Settings, ◌>>=◌, on_error, read_methods}
use orcusapi.Source.{parse_wasm_hash, cache_key}
use orcusapi.Source.Cache.{get_or_fetch_spec-hit}
use orcusapi.Handlers.{lookup_spec, should_use_get}
use orcusapi.Handlers.Headers.{CommonHeaders}
use orcusapi.Handlers.Invoke.{invoke_inner, check_method}

-- Both refusals are by the wrong method.
check_method-refuses :
    (name : String) (has_inputs is_get use_get : Bool)
    → is_get ≢ use_get
    → (m : String) × (check_method name has_inputs is_get use_get ≡ err (method_not_allowed m))
unfolding check_method
check_method-refuses name has_inputs true true h = elim (h refl) [ ]
check_method-refuses name has_inputs true false h = (_, refl)
check_method-refuses name has_inputs false true h = (_, refl)
check_method-refuses name has_inputs false false h = elim (h refl) [ ]

module _ (sdk : Sdk) (chain : Chain) (net : Network) (settings : Settings) where
  lookup_spec-hit :
      (bytes : Bytes) (spec : ContractSpec) (w : World)
      → parse_wasm_hash sdk chain (cache_key sdk chain net settings.contract_wasm_hash) ≡ ok bytes
      → HashMap.get (cache_key sdk chain net settings.contract_wasm_hash) w.spec_cache ≡ some spec
      → lookup_spec sdk chain net settings w ≡ (ok spec, w)
  unfolding lookup_spec on_error
  lookup_spec-hit bytes spec w valid cached =
      rw (get_or_fetch_spec-hit sdk chain net settings.contract_wasm_hash bytes spec w valid cached)
        refl

  -- A function of the cached interface that is called by the wrong method, GET where startup put it to
  -- POST or the other way round, is refused with `method_not_allowed`; no request goes out and nothing
  -- changes, whatever the arguments and headers.
  pub invoke_inner-wrong_method :
      (name : String) (args : List (String × Json)) (headers : CommonHeaders) (is_get : Bool)
      (bytes : Bytes) (spec : ContractSpec) (f : Function) (w : World)
      → parse_wasm_hash sdk chain (cache_key sdk chain net settings.contract_wasm_hash) ≡ ok bytes
      → HashMap.get (cache_key sdk chain net settings.contract_wasm_hash) w.spec_cache ≡ some spec
      → function sdk spec name ≡ some f
      → is_get ≢ should_use_get name w.function_methods
      → (m : String) × (invoke_inner sdk chain net settings name args headers is_get w
          ≡ (err (method_not_allowed m), w))
  unfolding invoke_inner read_methods ◌>>=◌
  invoke_inner-wrong_method name args headers is_get bytes spec f w valid cached found wrong =
      let (m, refused) =
        check_method-refuses name (not (is_empty f.inputs)) is_get
          (should_use_get name w.function_methods) wrong in
      (m, rw (lookup_spec-hit bytes spec w valid cached) (rw found (rw refused refl)))
