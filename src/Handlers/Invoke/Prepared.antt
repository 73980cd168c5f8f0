-- ===== src/Handlers/Invoke/Prepared.antt =====
-- What `invoke_inner` has prepared when it decides whether to sign.
use orcusapi.Base.{
  ◌≡◌, Bool, some, List, [], ◌∷◌, String, ok, if◌then◌else◌, All, Ensures-result, Ensures-ok_or,
  Ensures-map_err,
}
use orcusapi.Base.Int.{ℤ}
use orcusapi.Json.{Json, string, obj}
use orcusapi.Xdr.{ScVal}
use orcusapi.Xdr.Spec.{Function}
use orcusapi.Xdr.Tx.{Envelope}
use orcusapi.Sdk.{Sdk, IsLawful}
use orcusapi.Chain.{Chain}
use orcusapi.Errors.{bad_request, internal, upstream}
use orcusapi.Spec.{ContractSpec, function}
use orcusapi.Spec.Named.{IsFirstNamed, function-IsFirstNamed}
use orcusapi.World.{Request, Network, World, Settings, read_methods, on_error}
use orcusapi.World.Returns.{
  Returns, Returns-bind, Returns-bind_lift, Returns-on_error, Returns-result, Returns-pure,
}
use orcusapi.World.Steps.{Steps}
use orcusapi.World.Answers.{HasAnswer, Steps-HasAnswer, Returns-Steps, call-HasAnswer}
use orcusapi.Rpc.{simulate_transaction}
use orcusapi.Account.{fetch_next_sequence_number}
use orcusapi.Account.Next.{IsNextOf, Steps-IsNextOf, fetch-IsNextOf}
use orcusapi.Txbuild.{SimulationOutcome, envelope_to_base64}
use orcusapi.Txbuild.Invocation.{
  IsInvocation, IsUnsigned, IsFunded, IsAuthorizedCall, build-IsInvocation, assemble-IsFunded,
}
use orcusapi.Txbuild.Simulation.{IsSimulationOf, parse_simulation-IsSimulationOf}
use orcusapi.Server.Traced.{simulate_transaction-IsTraced}
use orcusapi.Scval.Typing.{IsJson, AreComponents}
use orcusapi.Handlers.{lookup_spec}
use orcusapi.Handlers.Headers.{CommonHeaders}
use orcusapi.Handlers.Invoke.{convert_args, simulate, reply_unsigned, sign_and_submit, invoke_inner}
use orcusapi.Handlers.Invoke.Typed.{convert_args-AreComponents}

module _ (sdk : Sdk) (chain : Chain) (net : Network) (settings : Settings) where
  -- The transaction was built for the account's next sequence number, the network simulated it, and it has
  -- become the given one by the simulation's fee, footprint and authorization.
  pub record WasSimulated (name account : String) (args : List ScVal) (sim : SimulationOutcome)
      (e : Envelope) (sent : List Request) : Type 0 where
    pub seq : ℤ
    pub built : Envelope
    pub text : String
    pub resp : Json
    pub was_next : IsNextOf sdk chain net account seq sent
    pub unsimulated :
        IsUnsigned (IsInvocation sdk settings.contract_id name account seq args []) built
    pub encoded : chain.encode_envelope built ≡ some text
    pub answered :
        HasAnswer chain net "simulateTransaction"
          (obj (("transaction", string text) ∷ []))
          resp
          sent
    pub simulation : IsSimulationOf chain resp sim
    pub assembled :
        IsUnsigned
          (IsFunded sim
            (IsAuthorizedCall sdk settings.contract_id name account seq args chain sim.auth_b64))
          e

  -- The transaction calls the function that the interface has under the name, with arguments of its
  -- inputs' types, and was simulated.
  pub record IsPrepared (hatch : ScVal → Type 0) (name account : String) (start : World)
      (sim : SimulationOutcome) (e : Envelope) (sent : List Request) : Type 0 where
    pub spec : ContractSpec
    pub world : World
    pub f : Function
    pub args : List ScVal
    pub looked_up : lookup_spec sdk chain net settings start ≡ (ok spec, world)
    pub named : IsFirstNamed sdk name f spec.functions
    pub typed : AreComponents sdk hatch spec f.inputs args
    pub simulated : WasSimulated name account args sim e sent

  -- what was answered stays answered
  pub Steps-IsPrepared :
      {hatch : ScVal → Type 0} {name account : String} {start v w : World} {sim : SimulationOutcome}
      {e : Envelope}
      → Steps sdk chain net v w
      → IsPrepared hatch name account start sim e v.sent
      → IsPrepared hatch name account start sim e w.sent
  Steps-IsPrepared steps h = record {
    spec = h.spec;
    world = h.world;
    f = h.f;
    args = h.args;
    looked_up = h.looked_up;
    named = h.named;
    typed = h.typed;
    simulated = record {
      seq = h.simulated.seq;
      built = h.simulated.built;
      text = h.simulated.text;
      resp = h.simulated.resp;
      was_next = Steps-IsNextOf sdk chain net steps h.simulated.was_next;
      unsimulated = h.simulated.unsimulated;
      encoded = h.simulated.encoded;
      answered = Steps-HasAnswer sdk chain net steps h.simulated.answered;
      simulation = h.simulated.simulation;
      assembled = h.simulated.assembled;
    };
  }

  -- what the network makes of a transaction of this text
  simulation-Returns :
      (text : String) (w : World)
      → Returns
          (λ resp v.
            HasAnswer chain net "simulateTransaction"
              (obj (("transaction", string text) ∷ []))
              resp
              v.sent
            × Steps sdk chain net w v)
          (on_error upstream (simulate_transaction chain net text) w)
  unfolding simulate_transaction
  simulation-Returns text w = Returns-on_error upstream (simulate_transaction chain net text) w (
      Returns-Steps sdk chain net w (simulate_transaction-IsTraced sdk chain net text)
        (call-HasAnswer chain net "simulateTransaction" _ w))

  simulate-WasSimulated :
      (name account : String) (args : List ScVal) (w : World)
      → Returns
          (λ p v. WasSimulated name account args p.0 p.1 v.sent)
          (simulate sdk chain net settings name account args w)
  unfolding simulate envelope_to_base64
  simulate-WasSimulated name account args w =
      Returns-bind _ _
        (Returns-on_error bad_request (fetch_next_sequence_number chain sdk net account) w
          (fetch-IsNextOf sdk chain net account w))
        λ seq w₁ was_next.
          Returns-bind_lift _ w₁
            (Ensures-map_err bad_request
              (build-IsInvocation sdk settings.contract_id name account seq args))
            λ tx built.
              Returns-bind_lift _ w₁
                (Ensures-map_err internal (Ensures-ok_or _ (chain.encode_envelope tx)))
                λ text encoded.
                  Returns-bind _ _ (simulation-Returns text w₁) λ resp w₂ (answered, steps).
                    Returns-bind_lift _ w₂
                      (Ensures-map_err bad_request (parse_simulation-IsSimulationOf chain sdk resp))
                      λ sim simulation.
                        Returns-bind_lift _ w₂
                          (Ensures-map_err internal (
                            assemble-IsFunded sdk settings.contract_id name account seq args chain
                              tx sim built))
                          λ e assembled.
                            Returns-pure (sim, e) w₂
                              (record {
                                seq = seq;
                                built = tx;
                                text = text;
                                resp = resp;
                                was_next = Steps-IsNextOf sdk chain net steps was_next;
                                unsimulated = built;
                                encoded = encoded;
                                answered = answered;
                                simulation = simulation;
                                assembled = assembled;
                              })

  module _ (law : IsLawful sdk) (hatch : ScVal → Type 0) where
    -- What holds behind the preparation, whichever way the call ends, holds of the call.
    pub invoke_inner-Returns :
        {Q : Json → World → Type 0} (name : String) (args : List (String × Json))
        (headers : CommonHeaders) (is_get : Bool) (w : World)
        → All (λ x. IsJson sdk hatch x.1) args
        → ((sim : SimulationOutcome) (e : Envelope) (u : World)
            → IsPrepared hatch name headers.source_account w sim e u.sent
            → Returns Q (
                (if headers.sign
                    then sign_and_submit sdk chain net settings e headers.secret_key
                    else reply_unsigned sdk chain net settings sim e)
                  u))
        → Returns Q (invoke_inner sdk chain net settings name args headers is_get w)
    unfolding invoke_inner
    invoke_inner-Returns name args headers is_get w hs last =
        Returns-bind _ _ (Returns-result (lookup_spec sdk chain net settings w))
          λ spec w₁ looked_up.
            Returns-bind_lift _ w₁ (Ensures-ok_or _ (function sdk spec name)) λ f named.
              Returns-bind _ _ (Returns-result (read_methods w₁)) λ methods w₂ _.
                Returns-bind_lift _ w₂ (Ensures-result _) λ _ _.
                  Returns-bind_lift _ w₂ (Ensures-result (convert_args sdk spec args f.inputs))
                    λ vs converted.
                      Returns-bind _ _ (simulate-WasSimulated name headers.source_account vs w₂)
                        λ p w₃ simulated. last p.0 p.1 w₃ (record {
                          spec = spec;
                          world = w₁;
                          f = f;
                          args = vs;
                          looked_up = looked_up;
                          named = function-IsFirstNamed sdk name spec f named;
                          typed =
                              convert_args-AreComponents sdk law hatch spec args f.inputs vs hs
                                converted;
                          simulated = simulated;
                        })
