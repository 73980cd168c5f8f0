-- ===== src/World/Answers.antt =====
-- What the network has answered, told from the requests that have gone out and not from what the code
-- makes of the replies.
use mathlib.Core.Path.{subst}
use orcusapi.Base.{
  ◌≡◌, refl, ap, true, false, none, some, List, ◌∷◌, String, Result, ok, Result-cases, Option-cases,
  inl, inr, Ensures, holds, failed, Ensures-ok_or, Ensures-weaken,
}
use orcusapi.Json.{Json}
use orcusapi.Sdk.{Sdk}
use orcusapi.Chain.{Chain, RpcResponse}
use orcusapi.World.{Request, Reply, no_response, no_body, response, Network, World, Action}
use orcusapi.World.Returns.{Returns, returns, stops, Returns-weaken}
use orcusapi.World.Steps.{Steps, done, next, sends, stores, IsTraced}
use orcusapi.Rpc.{outcome, read_reply, call}

module _ (chain : Chain) (net : Network) where
  -- The server replied to the request, behind these earlier ones, with a success, and the body holds this
  -- result and no error.
  pub record WasAnswered (earlier : List Request) (r : Request) (resp : Json) : Type 0 where
    pub status : String
    pub body : String
    pub parsed : RpcResponse
    pub replied : net earlier r ≡ response true status body
    pub read : chain.parse_response body ≡ ok parsed
    pub no_error : parsed.error ≡ none
    pub result : parsed.result ≡ some resp

  -- Among the requests, latest first, is one for this method with these parameters that had this answer.
  pub data HasAnswer (method : String) (params resp : Json) : List Request → Type 0 where
    here :
        {r : Request} {rs : List Request}
        → r.method ≡ method
        → r.params ≡ params
        → WasAnswered rs r resp
        → HasAnswer method params resp (r ∷ rs)
    there :
        {r : Request} {rs : List Request}
        → HasAnswer method params resp rs
        → HasAnswer method params resp (r ∷ rs)

  outcome-result :
      (method : String) (p : RpcResponse)
      → Ensures (λ resp. (p.error ≡ none) × (p.result ≡ some resp)) (outcome chain method p)
  unfolding outcome
  outcome-result method p = elim (Option-cases p.error) [
    | inl none_there ↦
        rw (none_there, outcome)
          (Ensures-weaken (Ensures-ok_or _ p.result) (λ resp given. (refl, given)))
    | inr (e, there_is) ↦ rw (there_is, outcome) failed
  ]

  read_reply-WasAnswered :
      (method : String) (earlier : List Request) (r : Request) (reply : Reply)
      → net earlier r ≡ reply
      → Ensures (WasAnswered earlier r) (read_reply chain method reply)
  unfolding read_reply
  read_reply-WasAnswered method earlier r (no_response e) h = failed
  read_reply-WasAnswered method earlier r (no_body e) h = failed
  read_reply-WasAnswered method earlier r (response false status body) h = failed
  read_reply-WasAnswered method earlier r (response true status body) h =
      elim (Result-cases (chain.parse_response body)) [
        | inl (p, read) ↦
            rw (read, read_reply)
              (Ensures-weaken (outcome-result method p) (λ resp (no_error, result). record {
                status = status;
                body = body;
                parsed = p;
                replied = h;
                read = read;
                no_error = no_error;
                result = result;
              }))
        | inr (e, unread) ↦ rw (unread, read_reply) failed
      ]

  pub call-HasAnswer :
      (method : String) (params : Json) (w : World)
      → Returns (λ resp v. HasAnswer method params resp v.sent) (call chain net method params w)
  unfolding call
  call-HasAnswer method params w =
      answered _ refl (read_reply-WasAnswered method w.sent request (net w.sent request) refl)
    where
      request : Request
      request = record { id = w.next_id; method = method; params = params }

      answered :
          {v : World} (r : Result String Json)
          → v.sent ≡ request ∷ w.sent
          → Ensures (WasAnswered w.sent request) r
          → Returns (λ resp u. HasAnswer method params resp u.sent) (r, v)
      answered _ same (holds h) = returns (rw same (here refl refl h))
      answered _ same failed = stops

module _ (sdk : Sdk) (chain : Chain) (net : Network) where
  -- answers are not forgotten
  pub Steps-HasAnswer :
      {method : String} {params resp : Json} {v w : World}
      → Steps sdk chain net v w
      → HasAnswer chain net method params resp v.sent
      → HasAnswer chain net method params resp w.sent
  Steps-HasAnswer done h = h
  Steps-HasAnswer (next steps (sends _ _)) h = there (Steps-HasAnswer steps h)
  Steps-HasAnswer (next steps (stores _ _ _)) h = Steps-HasAnswer steps h

  pub Returns-Steps {ℓ κ} :
      {E : Type 0} {A : Type ℓ} {P : A → World → Type κ} {m : Action E A} (w : World)
      → IsTraced sdk chain net m
      → Returns P (m w)
      → Returns (λ a v. P a v × Steps sdk chain net w v) (m w)
  Returns-Steps w traced h =
      Returns-weaken h
        (λ a v same p. (p, subst (Steps sdk chain net w) (ap (λ r. r.1) same) (traced.at w)))
