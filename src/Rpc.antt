-- ===== src/Rpc.antt =====
-- src/rpc.rs: the JSON-RPC client.
pub mod Traffic
use orcusapi.Base.{
  ℕ, ◌+◌, ◌%◌, ◌^◌, Option, none, some, List, [], ◌∷◌, map, String, Bool, true, false, Result, ok,
  err, ok_or,
}
use orcusapi.Base.Text.{format}
use orcusapi.Std.Print.{show_ℤ}
use orcusapi.Json.{Json, string, obj, arr}
use orcusapi.Chain.{Chain, RpcResponse, RpcError}
use orcusapi.World.{Request, Reply, no_response, no_body, response, Network, World, Action}
use orcusapi.Scval.Scalars.{Fallible}

module _ (chain : Chain) where
  -- the parsed body: an error wins over a result
  unfoldable pub outcome : String → RpcResponse → Fallible Json
  outcome method r = elim r.error [
    | some e ↦ err (
        format (
          "rpc error calling "
          ∷ method
          ∷ ": code="
          ∷ show_ℤ e.code
          ∷ " message="
          ∷ e.message
          ∷ " data="
          ∷ chain.debug_details e.details
          ∷ []))
    | none ↦
        ok_or (format ("rpc response for " ∷ method ∷ " had neither result nor error" ∷ []))
          r.result
  ]

  unfoldable pub read_reply : String → Reply → Fallible Json
  unfolding outcome
  read_reply method (no_response e) =
      err (format ("rpc transport error calling " ∷ method ∷ ": " ∷ e ∷ []))
  read_reply method (no_body e) =
      err (format ("failed reading rpc response body for " ∷ method ∷ ": " ∷ e ∷ []))
  read_reply method (response false status body) =
      err
        (format ("rpc http error calling " ∷ method ∷ ": status=" ∷ status ∷ " body=" ∷ body ∷ []))
  read_reply method (response true status body) = elim (chain.parse_response body) [
    | ok r ↦ outcome method r
    | err e ↦
        err (format ("failed parsing rpc response for " ∷ method ∷ ": " ∷ e ∷ " body=" ∷ body ∷ []))
  ]

  module _ (net : Network) where
    -- `fetch_add` on the counter wraps around; then the request goes out.
    unfoldable pub call : String → Json → Action String Json
    unfolding read_reply
    call method params w =
        let request : Request = record { id = w.next_id; method = method; params = params } in
        (
          read_reply method (net w.sent request),
          record w { next_id = (w.next_id + 1) % 2 ^ 64; sent = request ∷ w.sent },
        )

    unfoldable pub get_network : Action String Json
    unfolding call
    get_network = call "getNetwork" (obj [])

    unfoldable pub get_ledger_entries : List String → Action String Json
    unfolding call
    get_ledger_entries keys = call "getLedgerEntries" (obj (("keys", arr (map string keys)) ∷ []))

    unfoldable pub simulate_transaction : String → Action String Json
    unfolding call
    simulate_transaction envelope =
        call "simulateTransaction" (obj (("transaction", string envelope) ∷ []))

    unfoldable pub send_transaction : String → Action String Json
    unfolding call
    send_transaction envelope = call "sendTransaction" (obj (("transaction", string envelope) ∷ []))

    unfoldable pub get_transaction : String → Action String Json
    unfolding call
    get_transaction hash = call "getTransaction" (obj (("hash", string hash) ∷ []))
