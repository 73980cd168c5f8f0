-- ===== src/Rpc/Traffic.antt =====
-- How many requests of a method an action sends, rule by rule.
use orcusapi.Base.{
  ℕ, suc, ◌+◌, ◌≤◌, ◌≡◌, refl, Bool, true, false, List, [], ◌∷◌, String, str_eq, Result, ok, err,
  arith, if◌then◌else◌,
}
use orcusapi.Json.{Json}
use orcusapi.Chain.{Chain}
use orcusapi.World.{
  Request, Network, World, Action, continue, map_outcome, ◌>>=◌, pure, lift, fail, on_error,
  read_methods,
}
use orcusapi.Rpc.{call}

abbrev pub count_of : String → List Request → ℕ
count_of method [] = 0
count_of method (r ∷ rs) =
    let rest = count_of method rs in if str_eq r.method method then suc rest else rest

-- Whatever comes of it, `m` sends at most `n` requests of this method.
pub record AtMost {ℓ} {E : Type 0} {A : Type ℓ} (method : String) (n : ℕ) (m : Action E A)
    : Type 0 where
  pub at : (w : World) → count_of method (m w).1.sent ≤ n + count_of method w.sent

module _ {ℓ} {E : Type 0} {A : Type ℓ} (method : String) where
  pub AtMost-lift : (r : Result E A) → AtMost method 0 (lift r)
  unfolding lift
  AtMost-lift r = record { at = λ w. omega arith }

  pub AtMost-pure : (a : A) → AtMost {E = E} method 0 (pure a)
  unfolding pure
  AtMost-pure a = record { at = λ w. omega arith }

  pub AtMost-fail : (e : E) → AtMost {A = A} method 0 (fail e)
  unfolding fail
  AtMost-fail e = record { at = λ w. omega arith }

  pub AtMost-if :
      (b : Bool) (n : ℕ) (m k : Action E A)
      → AtMost method n m
      → AtMost method n k
      → AtMost method n (if b then m else k)
  AtMost-if true n m k p q = p
  AtMost-if false n m k p q = q

  pub AtMost-weaken : (n k : ℕ) (m : Action E A) → AtMost method n m → n ≤ k → AtMost method k m
  AtMost-weaken n k m p h = record { at = λ w. omega (arith, p.at w) }

  AtMost-map_outcome :
      {F : Type 0} (f : E → F) (p : Result E A × World) → (map_outcome f p).1.sent ≡ p.1.sent
  AtMost-map_outcome f (ok a, w) = refl
  AtMost-map_outcome f (err e, w) = refl

  pub AtMost-on_error :
      {F : Type 0} (f : E → F) (n : ℕ) (m : Action E A)
      → AtMost method n m
      → AtMost method n (on_error f m)
  unfolding on_error
  AtMost-on_error f n m p = record { at = λ w. rw (AtMost-map_outcome f (m w)) (p.at w) }

module _ {ℓ κ} {E : Type 0} {A : Type ℓ} {B : Type κ} (method : String) where
  AtMost-continue :
      (n : ℕ) (p : Result E A × World) (f : A → Action E B)
      → ((a : A) → AtMost method n (f a))
      → count_of method (continue p f).1.sent ≤ n + count_of method p.1.sent
  AtMost-continue n (ok a, w) f h = (h a).at w
  AtMost-continue n (err e, w) f h = omega arith

  pub AtMost-bind :
      (n k : ℕ) (m : Action E A) (f : A → Action E B)
      → AtMost method n m
      → ((a : A) → AtMost method k (f a))
      → AtMost method (n + k) (m >>= f)
  unfolding ◌>>=◌
  AtMost-bind n k m f p q = record { at = λ w. omega (arith, p.at w, AtMost-continue k (m w) f q) }

pub AtMost-read_methods : (method : String) {E : Type 0} → AtMost {E = E} method 0 read_methods
unfolding read_methods
AtMost-read_methods method = record { at = λ w. omega arith }

module _ (chain : Chain) (net : Network) (method : String) where
  pub AtMost-call : (name : String) (params : Json) → AtMost method 1 (call chain net name params)
  unfolding call
  AtMost-call name params = record { at = λ w. ground arith }

  pub AtMost-call_other :
      (name : String) (params : Json)
      → str_eq name method ≡ false
      → AtMost method 0 (call chain net name params)
  unfolding call
  AtMost-call_other name params h = record { at = λ w. ground arith }

-- Actions that send nothing of the method.
module _ {ℓ κ} {E : Type 0} {A : Type ℓ} {B : Type κ} (method : String) where
  pub Quiet-bind :
      (m : Action E A) (f : A → Action E B)
      → AtMost method 0 m
      → ((a : A) → AtMost method 0 (f a))
      → AtMost method 0 (m >>= f)
  Quiet-bind m f p q = AtMost-bind method 0 0 m f p q

  -- a quiet beginning
  pub Quiet-then :
      (n : ℕ) (m : Action E A) (f : A → Action E B)
      → AtMost method 0 m
      → ((a : A) → AtMost method n (f a))
      → AtMost method n (m >>= f)
  Quiet-then n m f p q =
      AtMost-weaken method (0 + n) n (m >>= f) (AtMost-bind method 0 n m f p q) (omega arith)

  -- a quiet end
  pub Quiet-after :
      (n : ℕ) (m : Action E A) (f : A → Action E B)
      → AtMost method n m
      → ((a : A) → AtMost method 0 (f a))
      → AtMost method n (m >>= f)
  Quiet-after n m f p q =
      AtMost-weaken method (n + 0) n (m >>= f) (AtMost-bind method n 0 m f p q) (omega arith)

pub Quiet-on_error {ℓ} :
    {E F : Type 0} {A : Type ℓ} (method : String) (f : E → F) (m : Action E A)
    → AtMost method 0 m
    → AtMost method 0 (on_error f m)
Quiet-on_error method f m p = AtMost-on_error method f 0 m p

pub ruleset quiet_rules = (
  AtMost-lift, AtMost-pure, AtMost-fail, AtMost-if, AtMost-read_methods, Quiet-bind, Quiet-on_error,
)
