-- ===== src/World/Returns.antt =====
-- Postconditions of actions: what holds of the result and the world behind a success.
use mathlib.Core.Path.{subst}
use orcusapi.Base.{
  ◌≡◌, refl, Bool, true, false, Result, ok, err, if◌then◌else◌, Ensures, holds, failed,
}
use orcusapi.World.{World, Action, continue, map_outcome, ◌>>=◌, pure, lift, fail, on_error}

pub data Returns {ℓ κ} {E : Type 0} {A : Type ℓ} (P : A → World → Type κ)
    : Result E A × World → Type (ℓ ⊔ κ) where
  returns : {a : A} {w : World} → P a w → Returns P (ok a, w)
  stops : {e : E} {w : World} → Returns P (err e, w)

module _ {ℓ κ} {E : Type 0} {A : Type ℓ} {P : A → World → Type κ} where
  pub Returns-ok :
      {p : Result E A × World} {a : A} {w : World} → Returns P p → p ≡ (ok a, w) → P a w
  Returns-ok (returns {a} {w} h) e = subst {A = A × World} (λ q. P q.0 q.1) (cc) h
  Returns-ok stops e = cc

  pub Returns-if :
      (b : Bool) (m k : Action E A) (w : World)
      → (b ≡ true → Returns P (m w))
      → (b ≡ false → Returns P (k w))
      → Returns P ((if b then m else k) w)
  Returns-if true m k w p q = p refl
  Returns-if false m k w p q = q refl

  pub Returns-on_error :
      {F : Type 0} (f : E → F) (m : Action E A) (w : World)
      → Returns P (m w)
      → Returns P (on_error f m w)
  unfolding on_error
  Returns-on_error f m w h = mapped (m w) h
    where
      mapped : (p : Result E A × World) → Returns P p → Returns P (map_outcome f p)
      mapped _ (returns h) = returns h
      mapped _ stops = stops

  pub Returns-weaken {μ} :
      {Q : A → World → Type μ} {p : Result E A × World}
      → Returns P p
      → ((a : A) (w : World) → p ≡ (ok a, w) → P a w → Q a w)
      → Returns Q p
  Returns-weaken (returns h) k = returns (k _ _ refl h)
  Returns-weaken stops k = stops

  pub Returns-bind {μ ν} :
      {B : Type μ} {Q : B → World → Type ν} (m : Action E A) (f : A → Action E B) {w : World}
      → Returns P (m w)
      → ((a : A) (u : World) → P a u → Returns Q (f a u))
      → Returns Q ((m >>= f) w)
  unfolding ◌>>=◌
  Returns-bind {Q = Q} m f {w} h k = continued (m w) h
    where
      continued : (p : Result E A × World) → Returns P p → Returns Q (continue p f)
      continued _ (returns {a} {w} h) = k a w h
      continued _ stops = stops

module _ {ℓ κ} {E : Type 0} {A : Type ℓ} {P : A → Type κ} where
  pub Returns-lift : {r : Result E A} (w : World) → Ensures P r → Returns (λ a _. P a) (lift r w)
  unfolding lift
  Returns-lift w (holds h) = returns h
  Returns-lift w failed = stops

module _ {ℓ κ μ ν} {E : Type 0} {A : Type ℓ} {B : Type κ} {P : A → Type μ}
    {Q : B → World → Type ν} where
  -- what does not act leaves the world as it is
  pub Returns-bind_lift :
      {r : Result E A} (f : A → Action E B) (w : World)
      → Ensures P r
      → ((a : A) → P a → Returns Q (f a w))
      → Returns Q ((lift r >>= f) w)
  unfolding lift ◌>>=◌
  Returns-bind_lift f w (holds {a} h) k = k a h
  Returns-bind_lift f w failed k = stops

module _ {ℓ κ μ} {E : Type 0} {A : Type ℓ} {P : A → Type κ} {Q : A → World → Type μ} where
  pub Returns-lift_same :
      {r : Result E A} (w : World) → Ensures P r → ((a : A) → P a → Q a w) → Returns Q (lift r w)
  unfolding lift
  Returns-lift_same w (holds h) k = returns (k _ h)
  Returns-lift_same w failed k = stops

-- what held of the world still holds
pub Returns-lift_at {ℓ κ} :
    {E : Type 0} {A : Type ℓ} {R : World → Type κ} (w : World)
    → R w
    → (r : Result E A) → Returns (λ _ v. R v) (lift r w)
unfolding lift
Returns-lift_at w h (ok a) = returns h
Returns-lift_at w h (err e) = stops

module _ {ℓ κ} {E : Type 0} {A : Type ℓ} {P : A → World → Type κ} where
  pub Returns-pure : (a : A) (w : World) → P a w → Returns {E = E} P (pure a w)
  unfolding pure
  Returns-pure a w h = returns h

  pub Returns-fail : (e : E) (w : World) → Returns P (fail {A = A} e w)
  unfolding fail
  Returns-fail e w = stops

module _ {ℓ} {E : Type 0} {A : Type ℓ} where
  -- nothing is known but where the result comes from
  pub Returns-result : (p : Result E A × World) → Returns (λ a w. p ≡ (ok a, w)) p
  Returns-result (ok a, w) = returns refl
  Returns-result (err e, w) = stops
