-- ===== src/Handlers/Invoke/Replies.antt =====
-- What a call that succeeds has replied, or submitted.
use mathlib.Core.Path.{subst}
use orcusapi.Base.{
  ◌≡◌, refl, ap, sym, ◌∙◌, Bool, false, some, List, String, ok, All, Ensures-ok_or, Ensures-map_err,
}
use orcusapi.Json.{Json, string, get, lookup}
use orcusapi.Xdr.Tx.{Envelope}
use orcusapi.Xdr.{ScVal}
use orcusapi.Sdk.{Sdk, IsLawful}
use orcusapi.Chain.{Chain}
use orcusapi.Errors.{internal}
use orcusapi.World.{Network, World, Settings}
use orcusapi.World.Returns.{
  Returns, Returns-ok, Returns-if, Returns-bind_lift, Returns-weaken, Returns-pure,
}
use orcusapi.Txbuild.{SimulationOutcome, envelope_to_base64}
use orcusapi.Scval.Typing.{IsJson}
use orcusapi.Handlers.Headers.{CommonHeaders}
use orcusapi.Handlers.Invoke.{reply_unsigned, simulated_reply, invoke_inner}
use orcusapi.Handlers.Invoke.Prepared.{IsPrepared, invoke_inner-Returns}

module _ (sdk : Sdk) (chain : Chain) (net : Network) (settings : Settings) where
  -- The reply shows the simulated transaction, which nobody has signed, and its simulation.
  pub record ShowsUnsigned (hatch : ScVal → Type 0) (name account : String) (start : World)
      (body : Json) (end : World) : Type 0 where
    pub sim : SimulationOutcome
    pub e : Envelope
    pub text : String
    pub prepared : IsPrepared sdk chain net settings hatch name account start sim e end.sent
    pub encoded : chain.encode_envelope e ≡ some text
    pub shown : get "transaction_xdr" body ≡ some (string text)
    pub shows_simulation : get "simulation" body ≡ some prepared.simulated.resp

  reply_unsigned-Returns :
      (sim : SimulationOutcome) (e : Envelope) (w : World)
      → Returns
          (λ body v.
            (v ≡ w)
            × (text : String) × (chain.encode_envelope e ≡ some text)
            × (get "transaction_xdr" body ≡ some (string text))
            × (get "simulation" body ≡ some sim.raw))
          (reply_unsigned sdk chain net settings sim e w)
  unfolding reply_unsigned simulated_reply envelope_to_base64 lookup
  reply_unsigned-Returns sim e w =
      Returns-bind_lift _ w (Ensures-map_err internal (Ensures-ok_or _ (chain.encode_envelope e)))
        λ text encoded. Returns-pure _ w (refl, text, encoded, refl, refl)

  -- A call without the header that asks for a signature, if it succeeds, replies with a transaction that
  -- is not signed and calls the function that the interface has under the name with arguments of its
  -- inputs' types. The transaction is from the given account and follows the sequence number that the
  -- network gave for it; it has the fee, plus 100 stroops, the footprint and the authorization of the
  -- network's answer to its simulation, which the reply shows, too. Both requests were sent. A value
  -- that the escape hatch gave is exempt from the types.
  pub invoke_inner-ShowsUnsigned :
      (hatch : ScVal → Type 0) (name : String) (args : List (String × Json))
      (headers : CommonHeaders) (is_get : Bool) (body : Json) (w w' : World)
      → IsLawful sdk
      → All (λ x. IsJson sdk hatch x.1) args
      → headers.sign ≡ false
      → invoke_inner sdk chain net settings name args headers is_get w ≡ (ok body, w')
      → ShowsUnsigned hatch name headers.source_account w body w'
  invoke_inner-ShowsUnsigned hatch name args headers is_get body w w' law hs no_signature h =
      Returns-ok {P = ShowsUnsigned hatch name headers.source_account w}
        (invoke_inner-Returns sdk chain net settings law hatch name args headers is_get w hs
          λ sim e u prepared.
            Returns-if headers.sign _ _ u (λ signs. cc)
              (λ _.
                Returns-weaken (reply_unsigned-Returns sim e u)
                  (λ b v _ (same, text, encoded, shown, shows).
                    subst (λ x. ShowsUnsigned hatch name headers.source_account w b x) (sym same)
                      (record {
                        sim = sim;
                        e = e;
                        text = text;
                        prepared = prepared;
                        encoded = encoded;
                        shown = shown;
                        shows_simulation = shows ∙ ap some prepared.simulated.simulation.whole;
                      }))))
        h
