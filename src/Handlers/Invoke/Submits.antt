-- ===== src/Handlers/Invoke/Submits.antt =====
-- What a call that signs sends: one submission and thirty polls at most.
use orcusapi.Base.{
  ℕ, zero, suc, ◌+◌, ◌≤◌, ◌≡◌, none, refl, Bool, Option, List, String, str_eq, arith,
}
use orcusapi.Json.{Json}
use orcusapi.Xdr.Tx.{Envelope}
use orcusapi.Sdk.{Sdk}
use orcusapi.Chain.{Chain}
use orcusapi.Errors.{upstream}
use orcusapi.World.{Network, World, Settings, ◌>>=◌, lift}
use orcusapi.Rpc.{send_transaction, get_transaction}
use orcusapi.Rpc.Traffic.{
  count_of, AtMost, AtMost-call, AtMost-call_other, AtMost-bind, AtMost-weaken, AtMost-if,
  AtMost-lift, AtMost-pure, AtMost-fail, AtMost-on_error, Quiet-bind, Quiet-then, Quiet-after,
  quiet_rules,
}
use orcusapi.Handlers.Headers.{CommonHeaders}
use orcusapi.Handlers.Invoke.{poll, poll_status, sign_and_submit, invoke_inner}
use orcusapi.Handlers.Invoke.Quiet.{invoke_inner-AtMost}

module _ (sdk : Sdk) (chain : Chain) (net : Network) (settings : Settings) where
  send-once : (envelope : String) → AtMost "sendTransaction" 1 (send_transaction chain net envelope)
  unfolding send_transaction
  send-once envelope = AtMost-call chain net "sendTransaction" "sendTransaction" _

  send-no_poll :
      (envelope : String) → AtMost "getTransaction" 0 (send_transaction chain net envelope)
  unfolding send_transaction
  send-no_poll envelope = AtMost-call_other chain net "getTransaction" "sendTransaction" _ refl

  poll-no_submission :
      (rounds : ℕ) (hash : String)
      → AtMost "sendTransaction" 0 (poll sdk chain net settings rounds hash)
  unfolding poll get_transaction
  poll-no_submission zero hash = AtMost-fail "sendTransaction" _
  poll-no_submission (suc rounds) hash =
      Quiet-bind "sendTransaction" _ _
        (AtMost-on_error "sendTransaction" upstream 0 _
          (AtMost-call_other chain net "sendTransaction" "getTransaction" _ refl))
        λ resp.
          AtMost-if "sendTransaction" (str_eq (poll_status sdk chain resp) "NOT_FOUND") 0 _ _
            (poll-no_submission rounds hash) (AtMost-pure "sendTransaction" resp)

  -- one request in each round
  poll-AtMost :
      (rounds : ℕ) (hash : String)
      → AtMost "getTransaction" rounds (poll sdk chain net settings rounds hash)
  unfolding poll get_transaction
  poll-AtMost zero hash = AtMost-fail "getTransaction" _
  poll-AtMost (suc rounds) hash =
      AtMost-weaken "getTransaction" (1 + rounds) (suc rounds) _
        (AtMost-bind "getTransaction" 1 rounds _ _
          (AtMost-on_error "getTransaction" upstream 1 _
            (AtMost-call chain net "getTransaction" "getTransaction" _))
          λ resp.
            AtMost-if "getTransaction" (str_eq (poll_status sdk chain resp) "NOT_FOUND") rounds _ _
              (poll-AtMost rounds hash)
              (AtMost-weaken "getTransaction" 0 rounds _ (AtMost-pure "getTransaction" resp)
                (omega arith)))
        (omega arith)

  submit-once :
      (e : Envelope) (secret : Option String)
      → AtMost "sendTransaction" 1 (sign_and_submit sdk chain net settings e secret)
  unfolding sign_and_submit
  submit-once e secret = Quiet-then "sendTransaction" 1 _ _ (AtMost-lift "sendTransaction" _) λ key.
      Quiet-then "sendTransaction" 1 _ _ (AtMost-lift "sendTransaction" _) λ signed.
        Quiet-then "sendTransaction" 1 _ _ (AtMost-lift "sendTransaction" _) λ b64.
          Quiet-after "sendTransaction" 1 _ _
            (AtMost-on_error "sendTransaction" upstream 1 _ (send-once b64))
            λ resp. search (quiet_rules, poll-no_submission)

  submit-polls :
      (e : Envelope) (secret : Option String)
      → AtMost "getTransaction" 30 (sign_and_submit sdk chain net settings e secret)
  unfolding sign_and_submit
  submit-polls e secret = Quiet-then "getTransaction" 30 _ _ (AtMost-lift "getTransaction" _) λ key.
      Quiet-then "getTransaction" 30 _ _ (AtMost-lift "getTransaction" _) λ signed.
        Quiet-then "getTransaction" 30 _ _ (AtMost-lift "getTransaction" _) λ b64.
          Quiet-then "getTransaction" 30 _ _
            (AtMost-on_error "getTransaction" upstream 0 _ (send-no_poll b64))
            λ resp. Quiet-then "getTransaction" 30 _ _ (AtMost-lift "getTransaction" _) λ hash.
              Quiet-after "getTransaction" 30 _ _ (poll-AtMost 30 hash)
                λ done. AtMost-pure "getTransaction" _

  -- A call submits at most one transaction and polls for it at most thirty times, whatever the
  -- network answers.
  pub invoke_inner-submits_once :
      (name : String) (args : List (String × Json)) (headers : CommonHeaders) (is_get : Bool)
      (w : World)
      → (count_of "sendTransaction"
            (invoke_inner sdk chain net settings name args headers is_get w).1.sent
          ≤ 1 + count_of "sendTransaction" w.sent)
        × (count_of "getTransaction"
              (invoke_inner sdk chain net settings name args headers is_get w).1.sent
            ≤ 30 + count_of "getTransaction" w.sent)
  invoke_inner-submits_once name args headers is_get w = (
    (invoke_inner-AtMost sdk chain net "sendTransaction" refl settings refl 1 name args headers
          is_get (λ e. submit-once e headers.secret_key)).at
        w,
    (invoke_inner-AtMost sdk chain net "getTransaction" refl settings refl 30 name args headers
          is_get (λ e. submit-polls e headers.secret_key)).at
        w,
  )

  keyless-quiet :
      (e : Envelope) → AtMost "sendTransaction" 0 (sign_and_submit sdk chain net settings e none)
  unfolding sign_and_submit ◌>>=◌ lift
  keyless-quiet e = record { at = λ w. omega arith }

  -- A call without a secret key submits no transaction, even if its headers ask for a signature, whatever
  -- the network answers.
  pub invoke_inner-no_key :
      (name : String) (args : List (String × Json)) (headers : CommonHeaders) (is_get : Bool)
      (w : World)
      → headers.secret_key ≡ none
      → count_of "sendTransaction"
          (invoke_inner sdk chain net settings name args headers is_get w).1.sent
        ≤ count_of "sendTransaction" w.sent
  invoke_inner-no_key name args headers is_get w keyless = omega (
    arith,
    (invoke_inner-AtMost sdk chain net "sendTransaction" refl settings refl 0 name args headers
          is_get (λ e. rw keyless (keyless-quiet e))).at
        w,
  )
