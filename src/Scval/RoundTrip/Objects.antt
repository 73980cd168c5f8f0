-- ===== src/Scval/RoundTrip/Objects.antt =====
-- The object that a map with ascending text keys is rendered as, and its conversion back.
use Prim.Native.Nat.{Ordering}
use Prim.Native.String.{compare}
use text.Mathlib.TextPositions.{compare_refl}
use orcusapi.Base.{
  ◌≡◌, ◌≢◌, refl, ap, sym, ◌∙◌, some, none, List, [], ◌∷◌, ◌++◌, String, eq_iff, eq_refl, arith,
  All,
}
use mathlib.Core.List.{append-nil, append_assoc}
use orcusapi.Json.{Json, fields, to_fields, lookup, insert}
use orcusapi.Xdr.{ScVec, nil, cons, ScMap, empty, entry, entries, elements, to_vec, to_map}
use orcusapi.Sdk.{Sdk}
use orcusapi.Scval.Render.{key_text, scval_to_json, map_to_object}
use orcusapi.Scval.RoundTrip.Canonical.{key_texts, AreAscending}

pub to_vec-elements : (vs : ScVec) → to_vec (elements vs) ≡ vs
to_vec-elements nil = refl
to_vec-elements (cons v vs) = ap (cons v) (to_vec-elements vs)

pub to_map-entries : (es : ScMap) → to_map (entries es) ≡ es
to_map-entries empty = refl
to_map-entries (entry k v es) = ap (entry k v) (to_map-entries es)

pub fields-to_fields : (kvs : List (String × Json)) → fields (to_fields kvs) ≡ kvs
fields-to_fields [] = refl
fields-to_fields ((k, v) ∷ kvs) = ap (λ r. (k, v) ∷ r) (fields-to_fields kvs)

-- A key after all that are there goes to the end.
insert_last :
    (k : String) (v : Json) (out : List (String × Json))
    → All (λ e. compare k e.0 ≡ Ordering.gt) out
    → insert k v out ≡ out ++ (k, v) ∷ []
unfolding insert
insert_last k v [] h = refl
insert_last k v ((j, w) ∷ out) h = rw (h.0, insert) (ap (λ r. (j, w) ∷ r) (insert_last k v out h.1))

-- texts that differ pairwise
abbrev AreDistinct : List String → Type 0
AreDistinct [] = Unit
AreDistinct (k ∷ ks) = All (λ j. j ≢ k) ks × AreDistinct ks

is_gt-differs : (j k : String) → compare j k ≡ Ordering.gt → j ≢ k
is_gt-differs j k h same = let r = compare_refl k in let g = rw same at h in cc

All-differs :
    (k : String) (ks : List String) → All (λ j. compare j k ≡ Ordering.gt) ks → All (λ j. j ≢ k) ks
All-differs k [] h = tt
All-differs k (j ∷ ks) h = (is_gt-differs j k h.0, All-differs k ks h.1)

module _ (sdk : Sdk) where
  -- a map with text keys, entry by entry
  abbrev pub rendered : ScMap → List (String × Json)
  rendered empty = []
  rendered (entry k v es) = (key_text sdk k, scval_to_json sdk v) ∷ rendered es

  AreAscending-AreDistinct : (ks : List String) → AreAscending sdk ks → AreDistinct ks
  AreAscending-AreDistinct [] h = tt
  AreAscending-AreDistinct (k ∷ ks) h = (All-differs k ks h.0, AreAscending-AreDistinct ks h.1)

  All-snoc :
      (k : String) (j : String) (v : Json) (out : List (String × Json))
      → All (λ e. compare k e.0 ≡ Ordering.gt) out
      → compare k j ≡ Ordering.gt
      → All (λ e. compare k e.0 ≡ Ordering.gt) (out ++ (j, v) ∷ [])
  All-snoc k j v [] h p = (p, tt)
  All-snoc k j v (e ∷ out) h p = (h.0, All-snoc k j v out h.1 p)

  -- the keys to come are after those that are there
  abbrev AreNew : List (String × Json) → List String → Type 0
  AreNew out ks = All (λ k. All (λ e. compare k e.0 ≡ Ordering.gt) out) ks

  AreNew-snoc :
      (j : String) (v : Json) (out : List (String × Json)) (ks : List String)
      → AreNew out ks
      → All (λ k. compare k j ≡ Ordering.gt) ks
      → AreNew (out ++ (j, v) ∷ []) ks
  AreNew-snoc j v out [] h p = tt
  AreNew-snoc j v out (k ∷ ks) h p = (All-snoc k j v out h.0 p.0, AreNew-snoc j v out ks h.1 p.1)

  map_to_object-rendered :
      (out : List (String × Json)) (es : ScMap)
      → AreNew out (key_texts sdk es)
      → AreAscending sdk (key_texts sdk es)
      → map_to_object sdk out es ≡ out ++ rendered es
  unfolding map_to_object
  map_to_object-rendered out empty new ascending = sym (append-nil out)
  map_to_object-rendered out (entry k v es) new ascending =
      ap (λ o. map_to_object sdk o es)
        (insert_last (key_text sdk k) (scval_to_json sdk v) out new.0)
      ∙ map_to_object-rendered (out ++ (key_text sdk k, scval_to_json sdk v) ∷ []) es
          (AreNew-snoc (key_text sdk k) (scval_to_json sdk v) out (key_texts sdk es) new.1
            ascending.0)
          ascending.1
      ∙ append_assoc out ((key_text sdk k, scval_to_json sdk v) ∷ []) (rendered es)

  AreNew-nil : (ks : List String) → AreNew [] ks
  AreNew-nil [] = tt
  AreNew-nil (k ∷ ks) = (tt, AreNew-nil ks)

  pub map_to_object-ascending :
      (es : ScMap) → AreAscending sdk (key_texts sdk es) → map_to_object sdk [] es ≡ rendered es
  map_to_object-ascending es h = map_to_object-rendered [] es (AreNew-nil (key_texts sdk es)) h

  pub lookup-rendered_absent :
      (j : String) (es : ScMap)
      → All (λ k. k ≢ j) (key_texts sdk es)
      → lookup j (rendered es) ≡ none
  unfolding lookup
  lookup-rendered_absent j empty h = refl
  lookup-rendered_absent j (entry k v es) h =
      ground (arith, eq_iff (key_text sdk k) j, lookup-rendered_absent j es h.1)

  -- every entry of `es` is found under its key's text
  abbrev pub FindsAll : List (String × Json) → ScMap → Type 0
  FindsAll given es =
      All (λ e. lookup (key_text sdk e.0) given ≡ some (scval_to_json sdk e.1)) (entries es)

  FindsAll-cons :
      (k : String) (v : Json) (given : List (String × Json)) (es : ScMap)
      → All (λ j. j ≢ k) (key_texts sdk es)
      → FindsAll given es
      → FindsAll ((k, v) ∷ given) es
  unfolding lookup
  FindsAll-cons k v given empty new h = tt
  FindsAll-cons k v given (entry j w es) new h =
      (ground (arith, eq_iff k (key_text sdk j)), FindsAll-cons k v given es new.1 h.1)

  distinct-FindsAll : (es : ScMap) → AreDistinct (key_texts sdk es) → FindsAll (rendered es) es
  unfolding lookup
  distinct-FindsAll empty h = tt
  distinct-FindsAll (entry k v es) h = (
    rw (eq_refl (key_text sdk k)),
    FindsAll-cons (key_text sdk k) (scval_to_json sdk v) (rendered es) es h.0
        (distinct-FindsAll es h.1),
  )

  pub rendered-FindsAll :
      (es : ScMap) → AreAscending sdk (key_texts sdk es) → FindsAll (rendered es) es
  rendered-FindsAll es h = distinct-FindsAll es (AreAscending-AreDistinct (key_texts sdk es) h)
