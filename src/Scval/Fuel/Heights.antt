-- ===== src/Scval/Fuel/Heights.antt =====
-- What the recursive calls of `json_to_scval` are made on: parts of the value, at types of the spec.
use orcusapi.Base.{
  ℕ, ◌≤◌, ◌<◌, ◌≡◌, refl, Bool, some, List, [], ◌∷◌, String, str_eq, ok-injective, Result, ok,
  arith, All, find, zip, traverse, Bool-cases, inl, inr,
}
use mathlib.Core.Path.{subst}
use orcusapi.Std.HashMap
use orcusapi.Json.{
  Json, Items, Fields, null, string, array, object, nil, cons, end, field, items, fields, lookup,
  height, height_items, height_fields,
}
use orcusapi.Xdr.Spec.{TypeDefs, type_defs, depth, depth_all}
use orcusapi.Scval.Udt.{case_args, split_case}
use orcusapi.Scval.Convert.{deepest}

pub items-lower : (h : ℕ) (xs : Items) → height_items xs < h → All (λ x. height x < h) (items xs)
unfolding height
items-lower h nil p = tt
items-lower h (cons x xs) p = (omega arith, items-lower h xs (omega arith))

pub fields-lower :
    (h : ℕ) (fs : Fields) → height_fields fs < h → All (λ e. height e.1 < h) (fields fs)
unfolding height
fields-lower h end p = tt
fields-lower h (field k v fs) p = (omega arith, fields-lower h fs (omega arith))

pub lookup-lower :
    (h : ℕ) (k : String) (given : List (String × Json)) (v : Json)
    → All (λ e. height e.1 < h) given
    → lookup k given ≡ some v
    → height v < h
unfolding lookup
lookup-lower h k [] v p e = cc
lookup-lower h k ((j, w) ∷ given) v p e = elim (Bool-cases (str_eq j k)) [
  | inl same ↦ ground arith
  | inr other ↦ lookup-lower h k given v p.1 (rw other at e)
]

case_args-lower : (h : ℕ) (v : Json) → height v < h → All (λ x. height x < h) (case_args v)
unfolding case_args height
case_args-lower h (array xs) p = items-lower h xs (omega arith)
case_args-lower h null p = tt
case_args-lower h v p = (p, tt)

-- The arguments of a union case are parts of the value.
pub split_case-lower :
    (name : String) (value : Json) (chosen : String × List Json)
    → split_case name value ≡ ok chosen
    → All (λ x. height x < height value) chosen.1
unfolding split_case
split_case-lower name (string s) chosen e =
    subst (λ c. All (λ x. height x < height (string s)) c.1) (ok-injective e) tt
split_case-lower name (object (field k v end)) chosen e =
    subst (λ c. All (λ x. height x < height (object (field k v end))) c.1) (ok-injective e)
      (case_args-lower (height (object (field k v end))) v (unfold height in omega arith))
split_case-lower name _ chosen e = cc

pub deepest-find {ℓ} :
    {A : Type ℓ} (f : A → ℕ) (p : A → Bool) (xs : List A) (a : A)
    → find p xs ≡ some a
    → f a ≤ deepest f xs
deepest-find f p [] a e = cc
deepest-find f p (x ∷ xs) a e = elim (Bool-cases (p x)) [
  | inl found ↦ ground arith
  | inr other ↦ omega (arith, deepest-find f p xs a (rw other at e))
]

pub deepest-get {ℓ} :
    {V : Type ℓ} (f : V → ℕ) (k : String) (m : List (String × V)) (v : V)
    → HashMap.get k m ≡ some v
    → f v ≤ deepest (λ e. f e.1) m
unfolding HashMap.get
deepest-get f k [] v e = cc
deepest-get f k ((j, w) ∷ m) v e = elim (Bool-cases (str_eq j k)) [
  | inl same ↦ ground arith
  | inr other ↦ omega (arith, deepest-get f k m v (rw other at e))
]

pub depth_all-eq : (ts : TypeDefs) → deepest depth (type_defs ts) ≡ depth_all ts
unfolding depth
depth_all-eq TypeDefs.nil = refl
depth_all-eq (TypeDefs.cons t ts) = rw (depth_all-eq ts)

pub traverse-cong {ℓ κ} :
    {A : Type ℓ} {B : Type κ} (f g : A → Result String B) (xs : List A)
    → All (λ x. f x ≡ g x) xs
    → traverse f xs ≡ traverse g xs
traverse-cong f g [] h = refl
traverse-cong f g (x ∷ xs) h = rw (h.0, traverse-cong f g xs h.1)

pub All-map {ℓ κ μ} :
    {A : Type ℓ} {P : A → Type κ} {Q : A → Type μ} (xs : List A)
    → ((x : A) → P x → Q x)
    → All P xs
    → All Q xs
All-map [] f h = tt
All-map (x ∷ xs) f h = (f x h.0, All-map xs f h.1)

pub All-zip {ℓ κ μ ν} :
    {A : Type ℓ} {B : Type κ} {P : A → Type μ} (d : B → ℕ) (bound : ℕ) (Q : A × B → Type ν)
    (xs : List A) (ys : List B)
    → ((x : A) (y : B) → P x → d y ≤ bound → Q (x, y))
    → All P xs
    → deepest d ys ≤ bound
    → All Q (zip xs ys)
All-zip d bound Q [] ys f h k = tt
All-zip d bound Q (x ∷ xs) [] f h k = tt
All-zip d bound Q (x ∷ xs) (y ∷ ys) f h k =
    (f x y h.0 (omega arith), All-zip d bound Q xs ys f h.1 (omega arith))
