-- ===== src/Server/Submissions.antt =====
-- What a run of calls submits.
use orcusapi.Base.{
  ℕ, ◌+◌, ◌≤◌, ◌≡◌, refl, Bool, true, false, Result, ok, err, List, [], ◌∷◌, String, arith,
  if◌then◌else◌,
}
use orcusapi.Json.{Json}
use orcusapi.Sdk.{Sdk}
use orcusapi.Chain.{Chain}
use orcusapi.Errors.{AppError}
use orcusapi.World.{Network, World, Settings, Action, ◌>>=◌, lift}
use orcusapi.Rpc
use orcusapi.Rpc.Traffic.{
  count_of, AtMost, AtMost-pure, AtMost-read_methods, AtMost-call_other, Quiet-bind, quiet_rules,
}
use orcusapi.Handlers
use orcusapi.Handlers.{get_spec, get_functions}
use orcusapi.Handlers.Headers.{CommonHeaders, read_common_headers}
use orcusapi.Handlers.Invoke.{invoke_inner, invoke_get, invoke_post}
use orcusapi.Handlers.Invoke.Quiet.{lookup_spec-quiet, invoke_inner-unsigned}
use orcusapi.Handlers.Invoke.Submits.{invoke_inner-submits_once}
use orcusapi.Server.{Call, api_get, api_post, handle, serve, serve_all}

-- the headers ask for a signature
abbrev pub wants_signature : Result AppError CommonHeaders → Bool
wants_signature (ok headers) = headers.sign
wants_signature (err e) = false

abbrev pub signs : Call → ℕ
signs (api_get _ _ headers) = if wants_signature (read_common_headers headers) then 1 else 0
signs (api_post _ headers _) = if wants_signature (read_common_headers headers) then 1 else 0
signs _ = 0

abbrev pub count_signs : List Call → ℕ
count_signs [] = 0
count_signs (call ∷ calls) = signs call + count_signs calls

module _ (sdk : Sdk) (chain : Chain) (net : Network) (settings : Settings) where
  AtMost-one :
      {m : Action AppError Json} (signed : Bool)
      → (signed ≡ true → AtMost "sendTransaction" 1 m)
      → (signed ≡ false → AtMost "sendTransaction" 0 m)
      → AtMost "sendTransaction" (if signed then 1 else 0) m
  AtMost-one true p q = p refl
  AtMost-one false p q = q refl

  invoke_inner-signs :
      (name : String) (args : List (String × Json)) (headers : CommonHeaders) (is_get : Bool)
      → AtMost "sendTransaction"
          (if headers.sign then 1 else 0)
          (invoke_inner sdk chain net settings name args headers is_get)
  invoke_inner-signs name args headers is_get =
      AtMost-one headers.sign
        (λ _. record {
          at = λ w. (invoke_inner-submits_once sdk chain net settings name args headers is_get w).0;
        })
        (invoke_inner-unsigned sdk chain net "sendTransaction" refl settings refl name args headers
          is_get)

  -- a call of a function, from its headers on
  from_headers :
      (r : Result AppError CommonHeaders) (name : String) (args : List (String × Json))
      (is_get : Bool)
      → AtMost "sendTransaction"
          (if wants_signature r then 1 else 0)
          (lift r >>= λ headers. invoke_inner sdk chain net settings name args headers is_get)
  unfolding ◌>>=◌
  from_headers (ok headers) name args is_get = record {
    at = (invoke_inner-signs name args headers is_get).at;
  }
  from_headers (err e) name args is_get = record { at = λ w. omega arith }

  handle-signs :
      (call : Call) → AtMost "sendTransaction" (signs call) (handle sdk chain net settings call)
  unfolding handle Handlers.get_network Rpc.get_network get_spec get_functions invoke_get
      invoke_post
  handle-signs Call.health = search quiet_rules
  handle-signs Call.network =
      search (quiet_rules, AtMost-call_other chain net "sendTransaction" "getNetwork" _ refl)
  handle-signs Call.spec =
      search (quiet_rules, lookup_spec-quiet sdk chain net "sendTransaction" refl settings refl)
  handle-signs Call.functions =
      Quiet-bind "sendTransaction" _ _
        (lookup_spec-quiet sdk chain net "sendTransaction" refl settings refl)
        λ spec.
          Quiet-bind "sendTransaction" _ _ (AtMost-read_methods "sendTransaction")
            λ methods. AtMost-pure "sendTransaction" _
  handle-signs (api_get name query headers) = from_headers (read_common_headers headers) name _ true
  handle-signs (api_post name headers args) =
      from_headers (read_common_headers headers) name args false

  -- Over any run of calls, whatever the network answers, the server submits at most as many
  -- transactions as there are calls whose headers ask for a signature.
  pub serve_all-signs :
      (calls : List Call) (w : World)
      → count_of "sendTransaction" (serve_all sdk chain net settings calls w).1.sent
        ≤ count_signs calls + count_of "sendTransaction" w.sent
  unfolding serve_all serve
  serve_all-signs [] w = omega arith
  serve_all-signs (call ∷ calls) w = omega (
    arith,
    (handle-signs call).at w,
    serve_all-signs calls (serve sdk chain net settings call w).1,
  )
