-- ===== src/Std/HashMap.antt =====
-- `std::collections::HashMap` with text keys, as an association list with at most one entry for a
-- key. The order in which a `HashMap` is iterated is not specified; here it is that of the first
-- insertions.
use orcusapi.Base.{
  ◌≡◌, refl, Bool, true, false, Option, none, some, List, [], ◌∷◌, map, String, str_eq, eq_iff,
  arith, if◌then◌else◌,
}

module _ {ℓ} {V : Type ℓ} where
  unfoldable pub get : String → List (String × V) → Option V
  get k [] = none
  get k ((j, v) ∷ m) = if str_eq j k then some v else get k m

  unfoldable pub insert : String → V → List (String × V) → List (String × V)
  insert k v [] = (k, v) ∷ []
  insert k v ((j, w) ∷ m) = if str_eq j k then (k, v) ∷ m else (j, w) ∷ insert k v m

  abbrev pub is_some : Option V → Bool
  is_some none = false
  is_some (some v) = true

  abbrev pub contains_key : String → List (String × V) → Bool
  contains_key k m = is_some (get k m)

  abbrev pub values : List (String × V) → List V
  values m = map (λ e. e.1) m

  -- A lookup sees the last insertion at its key, and at other keys what was there before.
  pub get-insert :
      (k j : String) (v : V) (m : List (String × V))
      → get j (insert k v m) ≡ (if str_eq k j then some v else get j m)
  unfolding get insert
  get-insert k j v [] = refl
  get-insert k j v ((i, w) ∷ m) =
      ground (arith, eq_iff k j, eq_iff i k, eq_iff i j, get-insert k j v m)
