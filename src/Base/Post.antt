-- ===== src/Base/Post.antt =====
-- Postconditions of fallible code: what holds of a result if there is one, rule by rule.
use mathlib.Core.Path.{◌≡◌, refl, subst}
use mathlib.Core.Bool.{Bool, true, false}
use mathlib.Core.Option.{Option, none, some}
use mathlib.Core.List.{List, [], ◌∷◌}
use native.Mathlib.Omega.{arith}
use orcusapi.Base.Tests.{if◌then◌else◌}
use orcusapi.Base.Lists.{All, zip, length}
use orcusapi.Base.Fallible.{Result, ok, err, ◌>>=◌, ensure, ok_or, map_err, traverse}

pub data Ensures {ℓ κ} {E : Type 0} {A : Type ℓ} (P : A → Type κ) : Result E A → Type (ℓ ⊔ κ) where
  holds : {a : A} → P a → Ensures P (ok a)
  failed : {e : E} → Ensures P (err e)

-- related one by one, and equally long
pub data Pointwise {ℓ κ μ} {A : Type ℓ} {B : Type κ} (R : A → B → Type μ)
    : List A → List B → Type (ℓ ⊔ κ ⊔ μ) where
  no_pair : Pointwise R [] []
  a_pair :
      {x : A} {y : B} {xs : List A} {ys : List B}
      → R x y
      → Pointwise R xs ys
      → Pointwise R (x ∷ xs) (y ∷ ys)

module _ {ℓ κ} {E : Type 0} {A : Type ℓ} {P : A → Type κ} where
  pub Ensures-ok : {r : Result E A} {a : A} → Ensures P r → r ≡ ok a → P a
  Ensures-ok (holds h) e = subst P (cc) h
  Ensures-ok failed e = cc

  pub Ensures-if :
      (b : Bool) {x y : Result E A}
      → (b ≡ true → Ensures P x)
      → (b ≡ false → Ensures P y)
      → Ensures P (if b then x else y)
  Ensures-if true hx hy = hx refl
  Ensures-if false hx hy = hy refl

  pub Ensures-map_err :
      {F : Type 0} {r : Result E A} (f : E → F) → Ensures P r → Ensures P (map_err f r)
  Ensures-map_err f (holds h) = holds h
  Ensures-map_err f failed = failed

  pub Ensures-weaken {μ} :
      {Q : A → Type μ} {r : Result E A} → Ensures P r → ((a : A) → P a → Q a) → Ensures Q r
  Ensures-weaken (holds h) k = holds (k _ h)
  Ensures-weaken failed k = failed

  pub Ensures-bind {ℓ' κ'} :
      {B : Type ℓ'} {Q : B → Type κ'} {r : Result E A} {f : A → Result E B}
      → Ensures P r
      → ((a : A) → P a → Ensures Q (f a))
      → Ensures Q (r >>= f)
  Ensures-bind (holds {a} h) k = k a h
  Ensures-bind failed k = failed

module _ {ℓ} {E : Type 0} {A : Type ℓ} where
  -- nothing is known but where the value comes from
  pub Ensures-result : (r : Result E A) → Ensures (λ a. r ≡ ok a) r
  Ensures-result (ok a) = holds refl
  Ensures-result (err e) = failed

  pub Ensures-ok_or : (e : E) (o : Option A) → Ensures (λ a. o ≡ some a) (ok_or e o)
  Ensures-ok_or e (some a) = holds refl
  Ensures-ok_or e none = failed

pub Ensures-ensure : {E : Type 0} (b : Bool) (e : E) → Ensures (λ _. b ≡ true) (ensure b e)
Ensures-ensure true e = holds refl
Ensures-ensure false e = failed

module _ {ℓ κ μ} {E : Type 0} {A : Type ℓ} {B : Type κ} (R : A → B → Type μ) where
  pub Ensures-traverse :
      (f : A → Result E B) (xs : List A)
      → All (λ x. Ensures (R x) (f x)) xs
      → Ensures (Pointwise R xs) (traverse f xs)
  Ensures-traverse f [] hs = holds no_pair
  Ensures-traverse f (x ∷ xs) (h, hs) =
      Ensures-bind h λ y p. Ensures-bind (Ensures-traverse f xs hs) λ ys ps. holds (a_pair p ps)

module _ {ℓ κ μ} {A B : Type ℓ} {C : Type κ} (R : B → C → Type μ) where
  -- Two lists of one length, of which only the second is looked at.
  pub Pointwise-zip :
      (xs : List A) (ys : List B) (zs : List C)
      → length xs ≡ length ys
      → Pointwise (λ p. R p.1) (zip xs ys) zs
      → Pointwise R ys zs
  Pointwise-zip [] [] _ h no_pair = no_pair
  Pointwise-zip [] (y ∷ ys) zs h ps = absurd (omega arith)
  Pointwise-zip (x ∷ xs) [] zs h ps = absurd (omega arith)
  Pointwise-zip (x ∷ xs) (y ∷ ys) _ h (a_pair p ps) =
      a_pair p (Pointwise-zip xs ys _ (omega arith) ps)
