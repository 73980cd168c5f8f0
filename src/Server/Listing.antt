-- ===== src/Server/Listing.antt =====
-- What `GET /functions` lists.
use orcusapi.Base.{
  ◌≡◌, ◌≢◌, refl, ap, sym, ◌∙◌, Bool, true, false, Option, some, none, List, [], ◌∷◌, map, String,
  ok, unwrap_or, if◌then◌else◌, Pointwise, no_pair, a_pair,
}
use orcusapi.Std.HashMap
use orcusapi.Spec.Render.{function_entries, field_to_json}
use orcusapi.Json.{Json, string, arr, get, lookup, insert}
use orcusapi.Xdr.{Bytes}
use orcusapi.Xdr.Spec.{SpecEntry, Function}
use orcusapi.Sdk.{Sdk}
use orcusapi.Chain.{Chain}
use orcusapi.Errors.{AppError}
use orcusapi.Spec.{ContractSpec}
use orcusapi.Spec.Laws.{functions_of, from_entries_lem}
use orcusapi.World.{Network, World, Settings, pure, bind_inv, on_error_inv, read_methods_inv}
use orcusapi.Source.{read_spec_entries_from_wasm, cache_key, get_or_fetch_spec}
use orcusapi.Source.Shared.{IsImmutable, get_or_fetch_spec-IsInterfaceOf}
use orcusapi.Handlers.{
  should_use_get, lookup_spec, classify_lookup_err, function_with_method, get_functions,
}
use orcusapi.Server.Traced.{lookup_spec-IsTraced}
use orcusapi.Server.Reach.{IsReachable, Steps-methods}

-- What the list says of a function: its name, its inputs in order, and GET only if it was put to GET.
pub record IsListed (sdk : Sdk) (methods : List (String × Bool)) (f : Function) (entry : Json)
    : Type 0 where
  pub named : get "name" entry ≡ some (string (sdk.to_text f.name))
  pub documented : get "doc" entry ≡ some (string (sdk.to_text f.doc))
  pub inputs : get "inputs" entry ≡ some (arr (map (field_to_json sdk) f.inputs))
  pub by_get :
      HashMap.get (sdk.to_text f.name) methods ≡ some true
      → get "http_method" entry ≡ some (string "GET")
  pub by_post :
      HashMap.get (sdk.to_text f.name) methods ≢ some true
      → get "http_method" entry ≡ some (string "POST")

method_lem :
    (known : Option Bool)
    → ((known ≡ some true)
        → string (if unwrap_or false known then "GET" else "POST") ≡ string "GET")
      × ((known ≢ some true)
          → string (if unwrap_or false known then "GET" else "POST") ≡ string "POST")
method_lem none = (λ h. cc, λ h. refl)
method_lem (some false) = (λ h. cc, λ h. refl)
method_lem (some true) = (λ h. refl, λ h. elim (h refl) [ ])

module _ (sdk : Sdk) (chain : Chain) (net : Network) (settings : Settings) where
  lookup_spec_inv :
      (spec : ContractSpec) (w w' : World)
      → lookup_spec sdk chain net settings w ≡ (ok spec, w')
      → get_or_fetch_spec sdk chain net settings.contract_wasm_hash w ≡ (ok spec, w')
  unfolding lookup_spec
  lookup_spec_inv spec w w' h =
      on_error_inv classify_lookup_err (get_or_fetch_spec sdk chain net settings.contract_wasm_hash)
        h

  pure_inv : (a b : Json) (w w' : World) → pure {E = AppError} a w ≡ (ok b, w') → b ≡ a
  unfolding pure
  pure_inv a b w w' h = cc

  function_with_method-IsListed :
      (methods : List (String × Bool)) (f : Function)
      → IsListed sdk methods f (function_with_method sdk chain net settings methods f)
  unfolding function_with_method function_entries lookup insert should_use_get
  function_with_method-IsListed methods f =
      let method = method_lem (HashMap.get (sdk.to_text f.name) methods) in
      record {
        named = refl;
        documented = refl;
        inputs = refl;
        by_get = λ h. ap some (method.0 h);
        by_post = λ h. ap some (method.1 h);
      }

  all-IsListed :
      (methods : List (String × Bool)) (fs : List Function)
      → Pointwise
          (IsListed sdk methods)
          fs
          (map (function_with_method sdk chain net settings methods) fs)
  all-IsListed methods [] = no_pair
  all-IsListed methods (f ∷ fs) =
      a_pair (function_with_method-IsListed methods f) (all-IsListed methods fs)

  -- In every state of the running server, the list of functions, if there is an answer, has one entry for
  -- each function that the code on the chain declares, in their order, with its name, documentation and
  -- inputs, and with GET as its method if the server has the function's name under GET, else with POST,
  -- if the network serves one code under a hash.
  pub get_functions-functions_of :
      (code : String → Bytes) (body : Json) (w w' : World)
      → IsImmutable sdk chain net code
      → IsReachable sdk chain net settings w
      → get_functions sdk chain net settings w ≡ (ok body, w')
      → (entries : List SpecEntry) × (read_spec_entries_from_wasm sdk chain
            (code (cache_key sdk chain net settings.contract_wasm_hash))
          ≡ ok entries)
        × (listed : List Json) × (body ≡ arr listed)
        × Pointwise (IsListed sdk w.function_methods) (functions_of entries) listed
  unfolding get_functions
  get_functions-functions_of code body w w' immutable reached h =
      let (spec, w₁, looked_up, rest) = bind_inv (lookup_spec sdk chain net settings) _ h in
      let (entries, read, same) =
        get_or_fetch_spec-IsInterfaceOf sdk chain net settings code settings.contract_wasm_hash spec
          w w₁ immutable reached (lookup_spec_inv spec w w₁ looked_up) in
      let methods : w₁.function_methods ≡ w.function_methods =
        ap (λ r. r.1.function_methods) (sym looked_up)
        ∙ Steps-methods sdk chain net ((lookup_spec-IsTraced sdk chain net settings).at w) in
      let functions : spec.functions ≡ functions_of entries =
        ap (λ s. s.functions) same ∙ (from_entries_lem sdk entries "").0 in
      (
        entries,
        read,
        map (function_with_method sdk chain net settings w.function_methods) (functions_of entries),
        pure_inv _ body w₁ w' (read_methods_inv _ rest)
            ∙ ap (λ m. arr (map (function_with_method sdk chain net settings m) spec.functions))
                methods
            ∙ ap
                (λ fs.
                  arr (map (function_with_method sdk chain net settings w.function_methods) fs))
                functions,
        all-IsListed w.function_methods (functions_of entries),
      )
