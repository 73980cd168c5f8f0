-- ===== src/Scval/Fuel/Congruence.antt =====
-- One round of `json_to_scval` only calls it on parts of the value, or on the same value at a part of
-- the type: two recursive calls that agree there give the same result.
use orcusapi.Base.{
  ℕ, ◌≤◌, ◌<◌, ◌≡◌, refl, some, List, [], ◌∷◌, String, ok, traverse, zip, Option-cases,
  Result-cases, inl, inr, arith, All,
}
use orcusapi.Std.HashMap
use orcusapi.Json.{Json, array, object, items, fields, lookup, height, get}
use orcusapi.Xdr.Spec.{TypeDef, type_defs, depth, Field, UdtStruct, UnionCase, void_v0, tuple_v0}
use orcusapi.Sdk.{Sdk}
use orcusapi.Spec.{ContractSpec, union_case}
use orcusapi.Scval.Udt.{
  Converter, struct_entry, tuple_struct_to_scval, named_struct_to_scval, struct_to_scval,
  split_case, case_items, union_to_scval, udt_to_scval,
}
use orcusapi.Scval.Convert.{map_entry, by_type, convert_with, deepest, case_depth, spec_depth}
use orcusapi.Scval.Fuel.Heights.{
  items-lower, fields-lower, lookup-lower, split_case-lower, deepest-find, deepest-get,
  depth_all-eq, traverse-cong, All-map, All-zip,
}

module _ (sdk : Sdk) (bound : ℕ) (f g : Converter) where
  -- The two calls agree on what is nested less deep than `h`.
  abbrev pub AgreeBelow : ℕ → Type 0
  AgreeBelow h = (v : Json) (t : TypeDef) → height v < h → depth t ≤ bound → f v t ≡ g v t

  array-cong :
      (xs : List Json) (t : TypeDef) (h : ℕ)
      → AgreeBelow h
      → All (λ x. height x < h) xs
      → depth t ≤ bound
      → traverse (λ x. f x t) xs ≡ traverse (λ x. g x t) xs
  array-cong xs t h agree low fits =
      traverse-cong (λ x. f x t) (λ x. g x t) xs (All-map xs (λ x p. agree x t p fits) low)

  tuple-cong :
      (xs : List Json) (ts : List TypeDef) (h : ℕ)
      → AgreeBelow h
      → All (λ x. height x < h) xs
      → deepest depth ts ≤ bound
      → traverse (λ p. f p.0 p.1) (zip xs ts) ≡ traverse (λ p. g p.0 p.1) (zip xs ts)
  tuple-cong xs ts h agree low fits =
      traverse-cong (λ p. f p.0 p.1) (λ p. g p.0 p.1) (zip xs ts)
        (All-zip depth bound (λ p. f p.0 p.1 ≡ g p.0 p.1) xs ts (λ x t p q. agree x t p q) low fits)

  tuple_struct-cong :
      (name : String) (fs : List Field) (v : Json)
      → AgreeBelow (height v)
      → deepest (λ x. depth x.type_) fs ≤ bound
      → tuple_struct_to_scval sdk f name fs v ≡ tuple_struct_to_scval sdk g name fs v
  unfolding tuple_struct_to_scval
  tuple_struct-cong name fs (array xs) agree fits = rw (
      traverse-cong (λ p. f p.0 p.1.type_) (λ p. g p.0 p.1.type_) (zip (items xs) fs)
        (All-zip (λ x. depth x.type_) bound (λ p. f p.0 p.1.type_ ≡ g p.0 p.1.type_) (items xs) fs
          (λ x y p q. agree x y.type_ p q)
          (items-lower (height (array xs)) xs (unfold height in omega arith)) fits))
  tuple_struct-cong name fs _ agree fits = refl

  struct_entry-cong :
      (name : String) (given : List (String × Json)) (x : Field) (h : ℕ)
      → AgreeBelow h
      → All (λ e. height e.1 < h) given
      → depth x.type_ ≤ bound
      → struct_entry sdk f name given x ≡ struct_entry sdk g name given x
  unfolding struct_entry
  struct_entry-cong name given x h agree low fits =
      elim (Option-cases (lookup (sdk.to_text x.name) given)) [
        | inl missing ↦ rw missing
        | inr (v, found) ↦ rw found (rw (agree v x.type_ (lookup-lower h _ given v low found) fits))
      ]

  struct_entries-cong :
      (name : String) (given : List (String × Json)) (xs : List Field) (h : ℕ)
      → AgreeBelow h
      → All (λ e. height e.1 < h) given
      → deepest (λ x. depth x.type_) xs ≤ bound
      → All (λ x. struct_entry sdk f name given x ≡ struct_entry sdk g name given x) xs
  struct_entries-cong name given [] h agree low fits = tt
  struct_entries-cong name given (x ∷ xs) h agree low fits = (
    struct_entry-cong name given x h agree low (omega arith),
    struct_entries-cong name given xs h agree low (omega arith),
  )

  named_struct-cong :
      (name : String) (fs : List Field) (v : Json)
      → AgreeBelow (height v)
      → deepest (λ x. depth x.type_) fs ≤ bound
      → named_struct_to_scval sdk f name fs v ≡ named_struct_to_scval sdk g name fs v
  unfolding named_struct_to_scval
  named_struct-cong name fs (object kvs) agree fits = rw (
      traverse-cong (struct_entry sdk f name (fields kvs)) (struct_entry sdk g name (fields kvs)) fs
        (struct_entries-cong name (fields kvs) fs (height (object kvs)) agree
          (fields-lower (height (object kvs)) kvs (unfold height in omega arith)) fits))
  named_struct-cong name fs _ agree fits = refl

  struct-cong :
      (s : UdtStruct) (v : Json)
      → AgreeBelow (height v)
      → deepest (λ x. depth x.type_) s.fields ≤ bound
      → struct_to_scval sdk f s v ≡ struct_to_scval sdk g s v
  unfolding struct_to_scval
  struct-cong s v agree fits = rw (
    tuple_struct-cong (sdk.to_text s.name) s.fields v agree fits,
    named_struct-cong (sdk.to_text s.name) s.fields v agree fits,
  )

  case_items-cong :
      (union_name name : String) (args : List Json) (case : UnionCase) (h : ℕ)
      → AgreeBelow h
      → All (λ x. height x < h) args
      → case_depth case ≤ bound
      → case_items f union_name name args case ≡ case_items g union_name name args case
  unfolding case_items
  case_items-cong union_name name args (void_v0 _ _) h agree low fits = refl
  case_items-cong union_name name args (tuple_v0 _ _ types) h agree low fits =
      rw (tuple-cong args types h agree low fits)

  map_entries-cong :
      (kvs : List (String × Json)) (t u : TypeDef) (h : ℕ)
      → AgreeBelow h
      → All (λ e. height e.1 < h) kvs
      → depth u ≤ bound
      → All (λ e. map_entry sdk f t u e ≡ map_entry sdk g t u e) kvs
  unfolding map_entry
  map_entries-cong [] t u h agree low fits = tt
  map_entries-cong ((k, v) ∷ kvs) t u h agree low fits =
      (rw (agree v u low.0 fits), map_entries-cong kvs t u h agree low.1 fits)

  module _ (spec : ContractSpec) (covers : spec_depth spec ≤ bound) where
    union_case_depth :
        (union_name name : String) (case : UnionCase)
        → union_case sdk spec union_name name ≡ some case
        → case_depth case ≤ bound
    unfolding union_case
    union_case_depth union_name name case e =
        elim (Option-cases (HashMap.get union_name spec.unions)) [
          | inl missing ↦ cc missing
          | inr (u, found) ↦ omega (
            arith,
            deepest-find case_depth _ u.cases case (rw found at e),
            deepest-get (λ u. deepest case_depth u.cases) union_name spec.unions u found,
          )
        ]

    -- what follows the choice of the case
    union_rest-cong :
        (union_name : String) (v : Json) (chosen : String × List Json)
        → AgreeBelow (height v)
        → split_case union_name v ≡ ok chosen
        → union_to_scval sdk spec f union_name v ≡ union_to_scval sdk spec g union_name v
    unfolding union_to_scval
    union_rest-cong union_name v chosen agree e =
        elim (Option-cases (union_case sdk spec union_name chosen.0)) [
          | inl missing ↦ rw e (rw missing)
          | inr (case, found) ↦ rw e (
              rw found (
                rw (
                  case_items-cong union_name chosen.0 chosen.1 case (height v) agree
                    (split_case-lower union_name v chosen e)
                    (union_case_depth union_name chosen.0 case found))))
        ]

    union-cong :
        (union_name : String) (v : Json)
        → AgreeBelow (height v)
        → union_to_scval sdk spec f union_name v ≡ union_to_scval sdk spec g union_name v
    union-cong union_name v agree = elim (Result-cases (split_case union_name v)) [
      | inl (chosen, e) ↦ union_rest-cong union_name v chosen agree e
      | inr (message, e) ↦ unfold union_to_scval in rw e
    ]

    udt-cong :
        (name : String) (v : Json)
        → AgreeBelow (height v)
        → udt_to_scval sdk spec f name v ≡ udt_to_scval sdk spec g name v
    unfolding udt_to_scval
    udt-cong name v agree = elim (Option-cases (HashMap.get name spec.structs)) [
      | inl missing ↦ rw (missing, udt_to_scval) (rw (union-cong name v agree))
      | inr (s, found) ↦
          rw (found, udt_to_scval)
            (struct-cong s v agree (
              omega (
                arith,
                deepest-get (λ s. deepest (λ x. depth x.type_) s.fields) name spec.structs s found,
              )))
    ]

    by_type-cong :
        (v : Json) (t : TypeDef)
        → AgreeBelow (height v)
        → ((u : TypeDef) → depth u < depth t → f v u ≡ g v u)
        → depth t ≤ bound
        → by_type sdk spec f v t ≡ by_type sdk spec g v t
    unfolding by_type
    by_type-cong v (TypeDef.option t) agree same fits = rw (same t (unfold depth in omega arith))
    by_type-cong (array xs) (TypeDef.vec t) agree same fits = rw (
        array-cong (items xs) t (height (array xs)) agree
          (items-lower (height (array xs)) xs (unfold height in omega arith))
          (unfold depth in omega arith))
    by_type-cong (object kvs) (TypeDef.map t u) agree same fits = rw (
        traverse-cong (map_entry sdk f t u) (map_entry sdk g t u) (fields kvs) (
          map_entries-cong (fields kvs) t u (height (object kvs)) agree
            (fields-lower (height (object kvs)) kvs (unfold height in omega arith))
            (unfold depth in omega arith)))
    by_type-cong (array xs) (TypeDef.tuple ts) agree same fits = rw (
        tuple-cong (items xs) (type_defs ts) (height (array xs)) agree
          (items-lower (height (array xs)) xs (unfold height in omega arith))
          (unfold depth in omega (arith, depth_all-eq ts)))
    by_type-cong v (TypeDef.udt name) agree same fits = udt-cong (sdk.to_text name) v agree
    by_type-cong v t agree same fits = refl

    pub convert_with-cong :
        (v : Json) (t : TypeDef)
        → AgreeBelow (height v)
        → ((u : TypeDef) → depth u < depth t → f v u ≡ g v u)
        → depth t ≤ bound
        → convert_with sdk spec f v t ≡ convert_with sdk spec g v t
    unfolding convert_with
    convert_with-cong v t agree same fits = elim (Option-cases (get "__xdr" v)) [
      | inl plain ↦ rw (plain, convert_with) (by_type-cong v t agree same fits)
      | inr (x, escaped) ↦ rw (escaped, convert_with)
    ]
