-- ===== src/Handlers/Invoke/Submitted.antt =====
-- What a call that signs has submitted when it succeeds.
use orcusapi.Base.{
  ◌≡◌, refl, ap, Bool, true, some, Option, List, [], ◌∷◌, String, ok, All, map_err, Ensures-ok_or,
  Ensures-map_err,
}
use orcusapi.Json.{Json, string, obj, get, lookup}
use orcusapi.Xdr.{Bytes, ScVal}
use orcusapi.Xdr.Tx.{V1Envelope, Envelope, Transaction}
use orcusapi.Sdk.{Sdk, IsLawful}
use orcusapi.Chain.{Chain}
use orcusapi.Errors.{upstream, internal, bad_request}
use orcusapi.World.{Network, World, Settings, ◌>>=◌, lift, pure, on_error}
use orcusapi.World.Returns.{
  Returns, Returns-ok, Returns-if, Returns-bind, Returns-bind_lift, Returns-on_error, Returns-pure,
}
use orcusapi.World.Steps.{Steps}
use orcusapi.World.Answers.{HasAnswer, Steps-HasAnswer, Returns-Steps, call-HasAnswer}
use orcusapi.Rpc.{send_transaction}
use orcusapi.Txbuild.{SimulationOutcome, envelope_to_base64}
use orcusapi.Txbuild.Sign.{IsSignedBy, IsSignedFrom, signed, sign_transaction-IsSignedFrom}
use orcusapi.Txbuild.Invocation.{IsUnsigned, unsigned}
use orcusapi.Scval.Typing.{IsJson}
use orcusapi.Handlers.Headers.{CommonHeaders}
use orcusapi.Handlers.Invoke.{poll, sign_and_submit, submitted_hash, final_reply, invoke_inner}
use orcusapi.Handlers.Invoke.Answered.{
  IsKnown, IsTaken, text_or, poll-IsKnown, submitted_hash-given,
}
use orcusapi.Handlers.Invoke.Prepared.{IsPrepared, Steps-IsPrepared, invoke_inner-Returns}
use orcusapi.Server.Traced.{send_transaction-IsTraced, poll-IsTraced}

module _ (sdk : Sdk) (chain : Chain) (net : Network) (settings : Settings)
    (verify : Bytes → Bytes → Bytes → Bool)
    (sign-verifies : (seed message : Bytes)
      → verify (chain.verifying_key seed) message (chain.sign seed message) ≡ true) where
  -- The simulated transaction was signed by the given key alone and taken by the network, and the reply
  -- is what the network says of it.
  pub record HasSubmitted (hatch : ScVal → Type 0) (name account : String) (secret : Option String)
      (start : World) (body : Json) (end : World) : Type 0 where
    pub sim : SimulationOutcome
    pub before : V1Envelope
    pub after : V1Envelope
    pub key : String
    pub text : String
    pub send_resp : Json
    pub hash : String
    pub status : String
    pub resp : Json
    pub prepared :
        IsPrepared sdk chain net settings hatch name account start sim (Envelope.tx before) end.sent
    pub given : secret ≡ some key
    pub kept : after.tx ≡ before.tx
    pub by_key : IsSignedBy sdk chain verify settings.network_passphrase key after
    pub encoded : chain.encode_envelope (Envelope.tx after) ≡ some text
    pub taken : IsTaken sdk chain net settings text hash send_resp end.sent
    pub known : IsKnown sdk chain net settings hash status resp end.sent
    pub shows_status : get "status" body ≡ some (string status)
    pub shows_hash : get "hash" body ≡ some (string hash)
    pub shows_answer : get "raw" body ≡ some resp

  final_reply-shows :
      (hash status : String) (resp : Json)
      → get "status" resp ≡ some (string status)
      → (get "status" (final_reply sdk chain hash resp) ≡ some (string status))
        × (get "hash" (final_reply sdk chain hash resp) ≡ some (string hash))
        × (get "raw" (final_reply sdk chain hash resp) ≡ some resp)
  unfolding final_reply lookup
  final_reply-shows hash status resp h =
      (ap (λ s. some (string s)) (text_or "status" status resp h "UNKNOWN"), refl, refl)

  -- what the submission of a transaction of this text is answered
  sending-Returns :
      (text : String) (w : World)
      → Returns
          (λ resp v.
            HasAnswer chain net "sendTransaction"
              (obj (("transaction", string text) ∷ []))
              resp
              v.sent
            × Steps sdk chain net w v)
          (on_error upstream (send_transaction chain net text) w)
  unfolding send_transaction
  sending-Returns text w = Returns-on_error upstream (send_transaction chain net text) w (
      Returns-Steps sdk chain net w (send_transaction-IsTraced sdk chain net text)
        (call-HasAnswer chain net "sendTransaction" _ w))

  polling-Returns :
      (hash : String) (w : World)
      → Returns
          (λ resp v.
            ((status : String) × IsKnown sdk chain net settings hash status resp v.sent)
            × Steps sdk chain net w v)
          (poll sdk chain net settings 30 hash w)
  polling-Returns hash w =
      Returns-Steps sdk chain net w (poll-IsTraced sdk chain net settings 30 hash)
        (poll-IsKnown sdk chain net settings 30 hash w)

  submit-Returns :
      (hatch : ScVal → Type 0) (name account key : String) (secret : Option String)
      (start w : World) (sim : SimulationOutcome) (before : V1Envelope) (e : Envelope)
      → IsPrepared sdk chain net settings hatch name account start sim (Envelope.tx before) w.sent
      → secret ≡ some key
      → IsSignedFrom sdk chain verify sign-verifies before settings.network_passphrase key e
      → Returns (HasSubmitted hatch name account secret start) (
          (lift (map_err internal (envelope_to_base64 sdk chain e)) >>= λ signed_b64.
          on_error upstream (send_transaction chain net signed_b64) >>= λ send_resp.
          lift (submitted_hash sdk chain send_resp) >>= λ hash.
          poll sdk chain net settings 30 hash >>= λ get_resp.
          pure (final_reply sdk chain hash get_resp))
            w)
  unfolding envelope_to_base64
  submit-Returns hatch name account key secret start w sim before _ prepared given
        (signed {after} kept by_key) =
      Returns-bind_lift _ w
        (Ensures-map_err internal (Ensures-ok_or _ (chain.encode_envelope (Envelope.tx after))))
        λ text encoded. Returns-bind _ _ (sending-Returns text w) λ send_resp u (sent, to_u).
          Returns-bind_lift _ u (submitted_hash-given sdk chain net settings send_resp)
            λ hash (not_rejected, hash_given).
              Returns-bind _ _ (polling-Returns hash u) λ resp v ((status, known), to_v).
                let (shows_status, shows_hash, shows_answer) =
                  final_reply-shows hash status resp known.given in
                Returns-pure _ v (record {
                  sim = sim;
                  before = before;
                  after = after;
                  key = key;
                  text = text;
                  send_resp = send_resp;
                  hash = hash;
                  status = status;
                  resp = resp;
                  prepared =
                      Steps-IsPrepared sdk chain net settings to_v
                        (Steps-IsPrepared sdk chain net settings to_u prepared);
                  given = given;
                  kept = kept;
                  by_key = by_key;
                  encoded = encoded;
                  taken = record {
                    answered = Steps-HasAnswer sdk chain net to_v sent;
                    not_rejected = not_rejected;
                    given = hash_given;
                  };
                  known = known;
                  shows_status = shows_status;
                  shows_hash = shows_hash;
                  shows_answer = shows_answer;
                })

  sign_and_submit-Returns :
      {P : Transaction → Type 0} (hatch : ScVal → Type 0) (name account : String)
      (secret : Option String) (start w : World) (sim : SimulationOutcome) (e : Envelope)
      → IsUnsigned P e
      → IsPrepared sdk chain net settings hatch name account start sim e w.sent
      → Returns
          (HasSubmitted hatch name account secret start)
          (sign_and_submit sdk chain net settings e secret w)
  unfolding sign_and_submit
  sign_and_submit-Returns hatch name account secret start w sim _ (unsigned {e = before} _ _)
        prepared =
      Returns-bind_lift _ w (Ensures-ok_or _ secret) λ key given.
        Returns-bind_lift _ w
          (Ensures-map_err bad_request (
            sign_transaction-IsSignedFrom sdk chain verify sign-verifies before
              settings.network_passphrase key))
          λ e by_key.
            submit-Returns hatch name account key secret start w sim before e prepared given by_key

  -- A call with the header that asks for a signature, if it succeeds, has submitted a transaction that
  -- calls the function that the interface has under the name with arguments of its inputs' types. The
  -- transaction is from the given account and follows the sequence number that the network gave for
  -- it; it has the fee, plus 100 stroops, the footprint and the authorization of the network's answer to
  -- its simulation; it carries one signature, by the given key, which verifies. The network did not
  -- reject it and gave the hash that the reply shows, and the reply shows the network's answer for this
  -- hash, with its status, which is not that of an unknown transaction. All of these requests were sent.
  -- A value that the escape hatch gave is exempt from the types.
  pub invoke_inner-HasSubmitted :
      (hatch : ScVal → Type 0) (name : String) (args : List (String × Json))
      (headers : CommonHeaders) (is_get : Bool) (body : Json) (w w' : World)
      → IsLawful sdk
      → All (λ x. IsJson sdk hatch x.1) args
      → headers.sign ≡ true
      → invoke_inner sdk chain net settings name args headers is_get w ≡ (ok body, w')
      → HasSubmitted hatch name headers.source_account headers.secret_key w body w'
  invoke_inner-HasSubmitted hatch name args headers is_get body w w' law hs signs h =
      Returns-ok {P = HasSubmitted hatch name headers.source_account headers.secret_key w}
        (invoke_inner-Returns sdk chain net settings law hatch name args headers is_get w hs
          λ sim e u prepared.
            Returns-if headers.sign _ _ u
              (λ _.
                sign_and_submit-Returns hatch name headers.source_account headers.secret_key w u sim
                  e prepared.simulated.assembled prepared)
              (λ no_signature. cc))
        h
