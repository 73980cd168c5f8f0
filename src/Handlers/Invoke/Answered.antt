-- ===== src/Handlers/Invoke/Answered.antt =====
-- What the network has answered to a submission and to the polls for it.
use orcusapi.Base.{
  ℕ, zero, suc, ◌≡◌, ◌≢◌, refl, ap, ◌∙◌, false, some, Option-cases, inl, inr, List, [], ◌∷◌, String,
  str_eq, eq_iff, arith, unwrap_or, and_then, Ensures, failed, Ensures-ok_or, Ensures-if,
  Ensures-weaken,
}
use orcusapi.Json.{Json, string, obj, get, as_str}
use orcusapi.Sdk.{Sdk}
use orcusapi.Chain.{Chain}
use orcusapi.Errors.{upstream}
use orcusapi.World.{Request, Network, World, Settings}
use orcusapi.World.Returns.{
  Returns, Returns-if, Returns-bind, Returns-on_error, Returns-pure, Returns-fail,
}
use orcusapi.World.Answers.{HasAnswer, call-HasAnswer}
use orcusapi.Rpc.{get_transaction}
use orcusapi.Txbuild.Simulation.{as_str-string}
use orcusapi.Handlers.Invoke.{poll, poll_status, submitted_hash}

get-text :
    (name s : String) (v : Json)
    → and_then (get name v) as_str ≡ some s
    → get name v ≡ some (string s)
get-text name s v h = elim (Option-cases (get name v)) [
  | inl missing ↦ let e = rw missing at h in cc
  | inr (x, found) ↦ found ∙ ap some (as_str-string x s (rw found at h))
]

pub text_or :
    (name s : String) (v : Json)
    → get name v ≡ some (string s)
    → (d : String) → unwrap_or d (and_then (get name v) as_str) ≡ s
text_or name s v h d = rw h refl

module _ (sdk : Sdk) (chain : Chain) (net : Network) (settings : Settings) where
  -- The network knows the transaction of this hash, with this status.
  pub record IsKnown (hash status : String) (resp : Json) (sent : List Request) : Type 0 where
    pub answered : HasAnswer chain net "getTransaction" (obj (("hash", string hash) ∷ [])) resp sent
    pub given : get "status" resp ≡ some (string status)
    pub known : status ≢ "NOT_FOUND"

  -- The network took the transaction of this text, under this hash.
  pub record IsTaken (text hash : String) (resp : Json) (sent : List Request) : Type 0 where
    pub answered :
        HasAnswer chain net "sendTransaction" (obj (("transaction", string text) ∷ [])) resp sent
    pub not_rejected : get "status" resp ≢ some (string "ERROR")
    pub given : get "hash" resp ≡ some (string hash)

  status_of :
      (resp : Json)
      → str_eq (poll_status sdk chain resp) "NOT_FOUND" ≡ false
      → (status : String) × (get "status" resp ≡ some (string status)) × (status ≢ "NOT_FOUND")
  status_of resp h = elim (Option-cases (and_then (get "status" resp) as_str)) [
    | inl missing ↦ let e = rw missing at h in cc
    | inr (status, found) ↦
        let e : str_eq status "NOT_FOUND" ≡ false = rw found at h in
        (
          status,
          get-text "status" status resp found,
          λ same. ground (arith, eq_iff status "NOT_FOUND"),
        )
  ]

  pub poll-IsKnown :
      (rounds : ℕ) (hash : String) (w : World)
      → Returns
          (λ resp v. (status : String) × IsKnown hash status resp v.sent)
          (poll sdk chain net settings rounds hash w)
  unfolding poll get_transaction
  poll-IsKnown zero hash w = Returns-fail _ w
  poll-IsKnown (suc rounds) hash w =
      Returns-bind _ _
        (Returns-on_error upstream (get_transaction chain net hash) w
          (call-HasAnswer chain net "getTransaction" _ w))
        λ resp u answered.
          Returns-if (str_eq (poll_status sdk chain resp) "NOT_FOUND") _ _ u
            (λ _. poll-IsKnown rounds hash u)
            λ done.
              let (status, given, known) = status_of resp done in
              Returns-pure resp u
                (status, record { answered = answered; given = given; known = known })

  pub submitted_hash-given :
      (resp : Json)
      → Ensures
          (λ hash.
            (get "status" resp ≢ some (string "ERROR")) × (get "hash" resp ≡ some (string hash)))
          (submitted_hash sdk chain resp)
  unfolding submitted_hash
  submitted_hash-given resp =
      Ensures-if (str_eq (unwrap_or "UNKNOWN" (and_then (get "status" resp) as_str)) "ERROR")
        (λ _. failed)
        λ accepted.
          Ensures-weaken (Ensures-ok_or _ (and_then (get "hash" resp) as_str)) λ hash found. (
            λ rejected.
                let same = text_or "status" "ERROR" resp rejected "UNKNOWN" in
                let e : str_eq "ERROR" "ERROR" ≡ false = rw same at accepted in ground arith,
            get-text "hash" hash resp found,
          )
