-- ===== src/Handlers/Invoke/Polling.antt =====
-- Whether the polls for a transaction find what they wait for.
use orcusapi.Base.{
  ℕ, zero, suc, ◌<◌, ◌≡◌, ◌≢◌, refl, true, false, String, str_eq, Bool-cases, inl, inr, ok, arith,
}
use mathlib.Core.Path.{subst}
use orcusapi.Json.{Json}
use orcusapi.Sdk.{Sdk}
use orcusapi.Chain.{Chain}
use orcusapi.Errors.{AppError, upstream}
use orcusapi.World.{bind_inv, on_error_inv, Network, World, Settings, ◌>>=◌, fail, pure, on_error}
use orcusapi.Rpc.{get_transaction}
use orcusapi.Handlers.Invoke.{poll, poll_status}

module _ (sdk : Sdk) (chain : Chain) (net : Network) (settings : Settings) where
  abbrev pub IsPending : Json → Type 0
  IsPending resp = str_eq (poll_status sdk chain resp) "NOT_FOUND" ≡ true

  abbrev pub IsDone : Json → Type 0
  IsDone resp = str_eq (poll_status sdk chain resp) "NOT_FOUND" ≡ false

  -- From the world `before`, so many polls are answered that the transaction is not known yet, and the
  -- next one is answered by `resp`, which has another status.
  pub data IsAnsweredAfter (hash : String) : ℕ → World → Json → World → Type 0 where
    now :
        {before after : World} {resp : Json}
        → get_transaction chain net hash before ≡ (ok resp, after)
        → IsDone resp
        → IsAnsweredAfter hash zero before resp after
    later :
        {n : ℕ} {before between after : World} {pending resp : Json}
        → get_transaction chain net hash before ≡ (ok pending, between)
        → IsPending pending
        → IsAnsweredAfter hash n between resp after
        → IsAnsweredAfter hash (suc n) before resp after

  -- If the transaction gets a status while there are rounds left, `poll` returns the response with this
  -- status, in the world right behind it.
  pub poll-IsAnsweredAfter :
      (rounds n : ℕ) (hash : String) (before after : World) (resp : Json)
      → n < rounds
      → IsAnsweredAfter hash n before resp after
      → poll sdk chain net settings rounds hash before ≡ (ok resp, after)
  unfolding poll ◌>>=◌ on_error pure
  poll-IsAnsweredAfter zero n hash before after resp lt answered = elim (absurd n lt) [ ]
    where
      absurd : (n : ℕ) → n < 0 → ⊥
      absurd n lt = omega arith
  poll-IsAnsweredAfter (suc rounds) zero hash before after resp lt (now answer done) =
      rw answer (rw done refl)
  poll-IsAnsweredAfter (suc rounds) (suc n) hash before after resp lt (later answer pending rest) =
      rw answer (rw pending (poll-IsAnsweredAfter rounds n hash _ after resp (omega arith) rest))

  answered_now :
      (hash : String) (before between after : World) (answer resp : Json)
      → get_transaction chain net hash before ≡ (ok answer, between)
      → IsDone answer
      → pure {E = AppError} answer between ≡ (ok resp, after)
      → IsAnsweredAfter hash 0 before resp after
  unfolding pure
  answered_now hash before between after answer resp asked done same =
      subst {A = Json × World} (λ p. IsAnsweredAfter hash 0 before p.0 p.1) (cc) (now asked done)

  gave_up : (e : AppError) (before after : World) (resp : Json) → fail e before ≢ (ok resp, after)
  unfolding fail
  gave_up e before after resp h = cc

  -- A response that `poll` returns is the first one with a status, and came within the rounds.
  pub IsAnsweredAfter-poll :
      (rounds : ℕ) (hash : String) (before after : World) (resp : Json)
      → poll sdk chain net settings rounds hash before ≡ (ok resp, after)
      → (n : ℕ) × (n < rounds) × IsAnsweredAfter hash n before resp after
  unfolding poll
  IsAnsweredAfter-poll zero hash before after resp h = elim (gave_up _ before after resp h) [ ]
  IsAnsweredAfter-poll (suc rounds) hash before after resp h =
      let (answer, between, polled, rest) =
        bind_inv (on_error upstream (get_transaction chain net hash)) _ h in
      let asked = on_error_inv upstream (get_transaction chain net hash) polled in
      elim (Bool-cases (str_eq (poll_status sdk chain answer) "NOT_FOUND")) [
        | inl pending ↦
            let (n, lt, answered) =
              IsAnsweredAfter-poll rounds hash between after resp (rw pending at rest) in
            (suc n, omega arith, later asked pending answered)
        | inr done ↦ (
          0,
          omega arith,
          answered_now hash before between after answer resp asked done (rw done at rest),
        )
      ]
