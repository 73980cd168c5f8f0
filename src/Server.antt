-- ===== src/Server.antt =====
-- The router of src/main.rs: the requests that reach a handler. What axum answers on its own, a path
-- that is not routed or a body that is not a JSON object, is not modelled.
pub mod Traced
pub mod Reach
pub mod Methods
pub mod Listing
pub mod Submissions
pub mod ReadOnly
use orcusapi.Base.{ℕ, List, [], ◌∷◌, String, Result, ok, err}
use orcusapi.Json.{Json}
use orcusapi.Sdk.{Sdk}
use orcusapi.Chain.{Chain}
use orcusapi.Errors.{AppError, into_response}
use orcusapi.World.{Network, World, Settings, Action, pure}
use orcusapi.Handlers
use orcusapi.Handlers.Headers.{HeaderMap}
use orcusapi.Handlers.Invoke.{invoke_get, invoke_post}

pub data Call : Type 0 where
  health network spec functions : Call
  -- GET and POST of `/api/{function_name}`
  api_get : String → List (String × String) → HeaderMap → Call
  api_post : String → HeaderMap → List (String × Json) → Call

-- the response to a handler's result
unfoldable pub respond : Result AppError Json → ℕ × Json
unfolding into_response
respond (ok body) = (200, body)
respond (err e) = into_response e

module _ (sdk : Sdk) (chain : Chain) (net : Network) (settings : Settings) where
  unfoldable pub handle : Call → Action AppError Json
  unfolding Handlers.health Handlers.get_network Handlers.get_spec Handlers.get_functions invoke_get
      invoke_post
  handle health = pure Handlers.health
  handle network = Handlers.get_network sdk chain net settings
  handle spec = Handlers.get_spec sdk chain net settings
  handle functions = Handlers.get_functions sdk chain net settings
  handle (api_get name query headers) = invoke_get sdk chain net settings name query headers
  handle (api_post name headers args) = invoke_post sdk chain net settings name headers args

  abbrev pub response_of : Result AppError Json × World → (ℕ × Json) × World
  response_of (r, w) = (respond r, w)

  unfoldable pub serve : Call → World → (ℕ × Json) × World
  unfolding handle respond
  serve call w = response_of (handle call w)

  -- one call after the other: the responses, and the world after them
  unfoldable pub serve_all : List Call → World → List (ℕ × Json) × World
  unfolding serve
  serve_all [] w = ([], w)
  serve_all (call ∷ calls) w =
      let (response, w₁) = serve call w in
      let (rest, w₂) = serve_all calls w₁ in (response ∷ rest, w₂)
