-- ===== src/Scval/Typing/Nodes.antt =====
-- One round of `json_to_scval` gives values of the type, if its recursive calls do.
use orcusapi.Base.{
  ok, eq_iff, arith, ◌≡◌, ◌==◌, refl, sym, ap, true, Bool-cases, some, List, [], ◌∷◌, String,
  str_eq, arith, length, zip, All, inl, inr, traverse, ok_or, ◌>>=◌, Ensures, holds, failed,
  Ensures-bind, Ensures-weaken, Ensures-ensure, Ensures-traverse, Pointwise, no_pair, a_pair,
  Pointwise-zip,
}
use mathlib.Core.Path.{subst}
use orcusapi.Std.Sort.{sort_by, sort_by-perm, sort_by-IsSorted}
use orcusapi.Std.Words.{max_u32}
use orcusapi.Json.{get, Json, Items, Fields, items, fields, lookup, as_array, as_object}
use orcusapi.Xdr.{Bytes, ScVal, ScMap, to_vec, to_map, elements, entries}
use orcusapi.Xdr.Spec.{TypeDef, Field}
use orcusapi.Sdk.{Sdk, IsLawful}
use orcusapi.Spec.{ContractSpec}
use orcusapi.Scval.Udt.{Converter, to_sc_vec, to_sc_map}
use orcusapi.Scval.Typing.{
  IsJson, AreItems, AreFields, HasType, HaveType, HaveTypes, AreComponents, AreNamed, AreEntries,
  HasKeyType, IsMapOf, IsStringOf, array, object, nil, cons, end, field, no_value, a_value,
  no_typed, a_typed, no_component, a_component, no_named, a_named, no_entry, an_entry,
}

pub elements-to_vec : (vs : List ScVal) → elements (to_vec vs) ≡ vs
elements-to_vec [] = refl
elements-to_vec (v ∷ vs) = ap (λ r. v ∷ r) (elements-to_vec vs)

entries-to_map : (es : List (ScVal × ScVal)) → entries (to_map es) ≡ es
entries-to_map [] = refl
entries-to_map ((k, v) ∷ es) = ap (λ r. (k, v) ∷ r) (entries-to_map es)

pub items-All :
    {sdk : Sdk} {hatch : ScVal → Type 0} {xs : Items}
    → AreItems sdk hatch xs
    → All (IsJson sdk hatch) (items xs)
items-All nil = tt
items-All (cons h hs) = (h, items-All hs)

pub fields-All :
    {sdk : Sdk} {hatch : ScVal → Type 0} {fs : Fields}
    → AreFields sdk hatch fs
    → All (λ e. IsJson sdk hatch e.1) (fields fs)
fields-All end = tt
fields-All (field _ h hs) = (h, fields-All hs)

pub as_array-All :
    {sdk : Sdk} {hatch : ScVal → Type 0} (e : String) (v : Json)
    → IsJson sdk hatch v
    → Ensures (All (IsJson sdk hatch)) (ok_or e (as_array v))
as_array-All e (Json.array xs) (array h) = holds (items-All h)
as_array-All e _ h = failed

pub as_object-All :
    {sdk : Sdk} {hatch : ScVal → Type 0} (e : String) (v : Json)
    → IsJson sdk hatch v
    → Ensures (All (λ x. IsJson sdk hatch x.1)) (ok_or e (as_object v))
as_object-All e (Json.object fs) (object h) = holds (fields-All h)
as_object-All e _ h = failed

-- the key of the escape hatch
fields_hatch :
    {sdk : Sdk} {hatch : ScVal → Type 0} {fs : Fields} (x : Json)
    → AreFields sdk hatch fs
    → lookup "__xdr" (fields fs) ≡ some x
    → (r : ScVal) → sdk.from_value x ≡ ok r
    → hatch r
unfolding lookup
fields_hatch x end found r read = cc
fields_hatch {sdk} {fs = Fields.field k v fs} x (field allowed h hs) found r read =
    elim (Bool-cases (str_eq k "__xdr")) [
      | inl hit ↦
          let same : v ≡ x = let e = rw hit at found in cc in
          allowed (ground (arith, eq_iff k "__xdr")) r (rw same read)
      | inr miss ↦ fields_hatch x hs (rw miss at found) r read
    ]

pub get-hatch :
    {sdk : Sdk} {hatch : ScVal → Type 0} (v x : Json) (r : ScVal)
    → IsJson sdk hatch v
    → get "__xdr" v ≡ some x
    → sdk.from_value x ≡ ok r
    → hatch r
get-hatch (Json.object fs) x r (object hs) found read = fields_hatch x hs found r read
get-hatch _ x r h found read = cc

pub lookup-IsJson :
    {sdk : Sdk} {hatch : ScVal → Type 0} (k : String) (kvs : List (String × Json)) (v : Json)
    → All (λ x. IsJson sdk hatch x.1) kvs
    → lookup k kvs ≡ some v
    → IsJson sdk hatch v
unfolding lookup
lookup-IsJson k [] v hs e = cc
lookup-IsJson {sdk} {hatch} k ((j, w) ∷ kvs) v (h, hs) e = elim (Bool-cases (str_eq j k)) [
  | inl hit ↦ let same = rw hit at e in subst (IsJson sdk hatch) (cc) h
  | inr miss ↦ lookup-IsJson k kvs v hs (rw miss at e)
]

pub All-mono {ℓ κ μ} :
    {A : Type ℓ} {P : A → Type κ} {Q : A → Type μ} (xs : List A)
    → ((x : A) → P x → Q x)
    → All P xs
    → All Q xs
All-mono [] k hs = tt
All-mono (x ∷ xs) k (h, hs) = (k x h, All-mono xs k hs)

pub All-zip {ℓ κ} :
    {A B : Type ℓ} {P : A → Type κ} (Q : A × B → Type κ) (xs : List A) (ys : List B)
    → ((x : A) (y : B) → P x → Q (x, y))
    → All P xs
    → All Q (zip xs ys)
All-zip Q [] ys k hs = tt
All-zip Q (x ∷ xs) [] k hs = tt
All-zip Q (x ∷ xs) (y ∷ ys) k (h, hs) = (k x y h, All-zip Q xs ys k hs)

pub All-any {ℓ κ} : {A : Type ℓ} {P : A → Type κ} (xs : List A) → ((x : A) → P x) → All P xs
All-any [] k = tt
All-any (x ∷ xs) k = (k x, All-any xs k)

module _ (sdk : Sdk) where
  pub to_sc_vec-Ensures :
      {P : ScVal → Type 0} (message : String) (vs : List ScVal)
      → P (ScVal.vec (to_vec vs))
      → Ensures P (to_sc_vec sdk message vs)
  unfolding to_sc_vec
  to_sc_vec-Ensures message vs h =
      Ensures-bind (Ensures-ensure (sdk.fits max_u32 (length vs)) message) λ _ _. holds h

  -- what comes out is sorted, and holds what went in
  pub to_sc_map-Ensures :
      (law : IsLawful sdk) (message : String) (given : List (ScVal × ScVal))
      → Ensures
          (λ r. (es : ScMap) × (r ≡ ScVal.map es) × IsMapOf sdk given es)
          (to_sc_map sdk message given)
  unfolding to_sc_map
  to_sc_map-Ensures law message given =
      let cmp = λ (a b : ScVal × ScVal). sdk.compare a.0 b.0 in
      let sorted = sort_by cmp given in
      Ensures-bind (Ensures-ensure (sdk.fits max_u32 (length sorted)) message) λ _ _. holds (
        to_map sorted,
        refl,
        record {
          same = rw (entries-to_map sorted) (sort_by-perm cmp given);
          sorted =
              rw (entries-to_map sorted)
                (sort_by-IsSorted cmp (λ x y. law.compare_total x.0 y.0) given);
        },
      )

module _ (sdk : Sdk) (law : IsLawful sdk) (hatch : ScVal → Type 0) (spec : ContractSpec) where
  abbrev pub IsSound : Converter → Type 0
  IsSound convert =
      (v : Json) (t : TypeDef)
      → IsJson sdk hatch v
      → Ensures (HasType sdk hatch spec t) (convert v t)

  pub HaveType-Pointwise :
      {A : Type 0} {t : TypeDef} {xs : List A} {vs : List ScVal}
      → Pointwise (λ _. HasType sdk hatch spec t) xs vs
      → HaveType sdk hatch spec t vs
  HaveType-Pointwise no_pair = no_value
  HaveType-Pointwise (a_pair h hs) = a_value h (HaveType-Pointwise hs)

  pub HaveTypes-Pointwise :
      {ts : List TypeDef} {vs : List ScVal}
      → Pointwise (λ t. HasType sdk hatch spec t) ts vs
      → HaveTypes sdk hatch spec ts vs
  HaveTypes-Pointwise no_pair = no_typed
  HaveTypes-Pointwise (a_pair h hs) = a_typed h (HaveTypes-Pointwise hs)

  pub AreComponents-Pointwise :
      {fs : List Field} {vs : List ScVal}
      → Pointwise (λ f. HasType sdk hatch spec f.type_) fs vs
      → AreComponents sdk hatch spec fs vs
  AreComponents-Pointwise no_pair = no_component
  AreComponents-Pointwise (a_pair h hs) = a_component h (AreComponents-Pointwise hs)

  -- an entry for a field
  abbrev pub IsEntryOf : Field → ScVal × ScVal → Type 0
  IsEntryOf f e =
      (b : Bytes) × (e.0 ≡ ScVal.symbol b)
      × IsStringOf sdk 32 (sdk.to_text f.name) b
      × HasType sdk hatch spec f.type_ e.1

  pub AreNamed-Pointwise :
      {fs : List Field} {es : List (ScVal × ScVal)}
      → Pointwise IsEntryOf fs es
      → AreNamed sdk hatch spec fs es
  AreNamed-Pointwise no_pair = no_named
  AreNamed-Pointwise (a_pair {x = f} {y = e} {xs = fs} {ys = es} (b, same, text, h) hs) =
      subst (λ k. AreNamed sdk hatch spec (f ∷ fs) ((k, e.1) ∷ es)) (sym same)
        (a_named text h (AreNamed-Pointwise hs))

  pub AreEntries-Pointwise :
      {A : Type 0} {t u : TypeDef} {xs : List A} {es : List (ScVal × ScVal)}
      → Pointwise (λ _ e. HasKeyType sdk t e.0 × HasType sdk hatch spec u e.1) xs es
      → AreEntries sdk hatch spec t u es
  AreEntries-Pointwise no_pair = no_entry
  AreEntries-Pointwise (a_pair (k, h) hs) = an_entry k h (AreEntries-Pointwise hs)

  module _ (convert : Converter) (sound : IsSound convert) where
    pub HasType-vec :
        (v : Json) (t : TypeDef) (e message : String)
        → IsJson sdk hatch v
        → Ensures (HasType sdk hatch spec (TypeDef.vec t)) (
            ok_or e (as_array v) >>= λ arr.
            traverse (λ x. convert x t) arr >>= λ vs. to_sc_vec sdk message vs)
    HasType-vec v t e message h = Ensures-bind (as_array-All e v h) λ arr hs.
        Ensures-bind
          (Ensures-traverse (λ _. HasType sdk hatch spec t) (λ x. convert x t) arr
            (All-mono arr (λ x. sound x t) hs))
          λ vs ps.
            to_sc_vec-Ensures sdk message vs
              (HasType.vec (rw (elements-to_vec vs) (HaveType-Pointwise ps)))

    -- the elements of two lists of one length, converted by the second
    pub zip-HaveTypes :
        {A : Type 0} (type_of : A → TypeDef) (arr : List Json) (ys : List A)
        → All (IsJson sdk hatch) arr
        → (length arr == length ys) ≡ true
        → Ensures
            (Pointwise (λ y. HasType sdk hatch spec (type_of y)) ys)
            (traverse (λ p. convert p.0 (type_of p.1)) (zip arr ys))
    zip-HaveTypes type_of arr ys hs same =
        Ensures-weaken
          (Ensures-traverse (λ p. HasType sdk hatch spec (type_of p.1))
            (λ p. convert p.0 (type_of p.1)) (zip arr ys)
            (All-zip
              (λ p. Ensures (HasType sdk hatch spec (type_of p.1)) (convert p.0 (type_of p.1))) arr
              ys (λ x y. sound x (type_of y)) hs))
          λ vs. Pointwise-zip (λ y. HasType sdk hatch spec (type_of y)) arr ys vs (ground arith)
