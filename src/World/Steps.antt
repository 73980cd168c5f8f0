-- ===== src/World/Steps.antt =====
-- How the shared state changes, one atomic step at a time: a request goes out, or an interface that was
-- fetched under a valid hash is put into the cache. Handlers that run at the same time mix their
-- steps; what holds along any steps holds for every such mixture.
pub mod Numbering
use mathlib.Core.Path.{subst}
use orcusapi.Base.{
  ℕ, ◌+◌, ◌%◌, ◌^◌, ◌≡◌, refl, ap, Bool, true, false, Option-cases, inl, inr, List, ◌∷◌, String,
  Result, ok, err, if◌then◌else◌,
}
use orcusapi.Std.HashMap
use orcusapi.Json.{Json}
use orcusapi.Xdr.{Bytes}
use orcusapi.Xdr.Spec.{SpecEntry}
use orcusapi.Sdk.{Sdk}
use orcusapi.Chain.{Chain}
use orcusapi.Spec.{ContractSpec, from_entries}
use orcusapi.World.{
  Request, Network, World, Action, continue, map_outcome, ◌>>=◌, pure, lift, fail, on_error,
  read_methods,
}
use orcusapi.Rpc.{call}
use orcusapi.Source.{fetch_wasm_by_hash, read_spec_entries_from_wasm}

-- the world after a request
abbrev pub with_request : String → Json → World → World
with_request method params w = record w {
  next_id = (w.next_id + 1) % 2 ^ 64;
  sent = record { id = w.next_id; method = method; params = params } ∷ w.sent;
}

-- the world with an interface in the cache
abbrev pub with_spec : String → ContractSpec → World → World
with_spec key spec w = record w { spec_cache = HashMap.insert key spec w.spec_cache }

module _ (sdk : Sdk) (chain : Chain) (net : Network) where
  -- the code behind a hash was fetched, in some world, and these are its entries
  pub record WasFetched (key : String) (entries : List SpecEntry) : Type 0 where
    pub before : World
    pub after : World
    pub wasm : Bytes
    pub fetched : fetch_wasm_by_hash sdk chain net key before ≡ (ok wasm, after)
    pub read : read_spec_entries_from_wasm sdk chain wasm ≡ ok entries

  pub data Step (w : World) : World → Type 0 where
    sends : (method : String) (params : Json) → Step w (with_request method params w)
    stores :
        (key : String) (entries : List SpecEntry)
        → WasFetched key entries
        → Step w (with_spec key (from_entries sdk entries) w)

  pub data Steps (w : World) : World → Type 0 where
    done : Steps w w
    next : {u v : World} → Steps w u → Step u v → Steps w v

  pub Steps-trans : {u v w : World} → Steps u v → Steps v w → Steps u w
  Steps-trans p done = p
  Steps-trans p (next q s) = next (Steps-trans p q) s

  -- Whatever comes of it, the action changes the world by steps.
  pub record IsTraced {ℓ} {E : Type 0} {A : Type ℓ} (m : Action E A) : Type 0 where
    pub at : (w : World) → Steps w (m w).1

  module _ {ℓ} {E : Type 0} {A : Type ℓ} where
    pub lift-IsTraced : (r : Result E A) → IsTraced (lift r)
    unfolding lift
    lift-IsTraced r = record { at = λ w. done }

    pub pure-IsTraced : (a : A) → IsTraced {E = E} (pure a)
    unfolding pure
    pure-IsTraced a = record { at = λ w. done }

    pub fail-IsTraced : (e : E) → IsTraced {A = A} (fail e)
    unfolding fail
    fail-IsTraced e = record { at = λ w. done }

    pub if-IsTraced :
        (b : Bool) (m k : Action E A) → IsTraced m → IsTraced k → IsTraced (if b then m else k)
    if-IsTraced true m k p q = p
    if-IsTraced false m k p q = q

    map_outcome_lem : {F : Type 0} (f : E → F) (p : Result E A × World) → (map_outcome f p).1 ≡ p.1
    map_outcome_lem f (ok a, w) = refl
    map_outcome_lem f (err e, w) = refl

    pub on_error-IsTraced :
        {F : Type 0} (f : E → F) (m : Action E A) → IsTraced m → IsTraced (on_error f m)
    unfolding on_error
    on_error-IsTraced f m p = record { at = λ w. rw (map_outcome_lem f (m w)) (p.at w) }

  module _ {ℓ κ} {E : Type 0} {A : Type ℓ} {B : Type κ} where
    pub continue_lem :
        {w : World} (p : Result E A × World) (f : A → Action E B)
        → Steps w p.1
        → ((a : A) → p.0 ≡ ok a → IsTraced (f a))
        → Steps w (continue p f).1
    continue_lem (ok a, u) f h k = Steps-trans h ((k a refl).at u)
    continue_lem (err e, u) f h k = h

    pub bind-IsTraced :
        (m : Action E A) (f : A → Action E B)
        → IsTraced m
        → ((a : A) → IsTraced (f a))
        → IsTraced (m >>= f)
    unfolding ◌>>=◌
    bind-IsTraced m f p q = record { at = λ w. continue_lem (m w) f (p.at w) (λ a _. q a) }

  pub read_methods-IsTraced : {E : Type 0} → IsTraced {E = E} read_methods
  unfolding read_methods
  read_methods-IsTraced = record { at = λ w. done }

  pub call-IsTraced : (method : String) (params : Json) → IsTraced (call chain net method params)
  unfolding call
  call-IsTraced method params = record { at = λ w. next done (sends method params) }

pub ruleset traced_rules = (
  lift-IsTraced, pure-IsTraced, fail-IsTraced, if-IsTraced, on_error-IsTraced, bind-IsTraced,
  read_methods-IsTraced, call-IsTraced,
)
