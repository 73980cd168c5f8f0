-- ===== src/Json.antt =====
-- `serde_json::Value`, as src/scval.rs, src/spec.rs, src/txbuild.rs and src/handlers.rs take it apart
-- and build it. serde_json is not part of the repository: a number is what its two integer views
-- return, and a map is its entries in the order in which it is iterated.
use Prim.Native.Nat.{Ordering}
use Prim.Native.String.{compare}
use orcusapi.Base.{
  ℕ, suc, max, Bool, true, false, Option, none, some, List, [], ◌∷◌, String, str_eq, if◌then◌else◌,
}
use orcusapi.Base.Int.{ℤ, pos}

-- `as_u64` and `as_i64`; a number with a fraction has neither
pub record Number : Type 0 where
  pub u64 : Option ℕ
  pub i64 : Option ℤ

mutual
  pub data Json : Type 0 where
    null : Json
    bool : Bool → Json
    number : Number → Json
    string : String → Json
    array : Items → Json
    object : Fields → Json

  pub data Items : Type 0 where
    nil : Items
    cons : Json → Items → Items

  pub data Fields : Type 0 where
    end : Fields
    field : String → Json → Fields → Fields

abbrev pub items : Items → List Json
items nil = []
items (cons x xs) = x ∷ items xs

abbrev pub fields : Fields → List (String × Json)
fields end = []
fields (field k v fs) = (k, v) ∷ fields fs

abbrev pub to_items : List Json → Items
to_items [] = nil
to_items (x ∷ xs) = cons x (to_items xs)

abbrev pub to_fields : List (String × Json) → Fields
to_fields [] = end
to_fields ((k, v) ∷ kvs) = field k v (to_fields kvs)

-- `json!({ ... })` and `json!([ ... ])`; the entries stand as they are written, since the code looks what
-- it builds so up by its keys or sends it away
abbrev pub obj : List (String × Json) → Json
obj kvs = object (to_fields kvs)

abbrev pub arr : List Json → Json
arr xs = array (to_items xs)

-- `json!(n)` for an unsigned and a signed 32-bit value
abbrev pub of_unsigned : ℕ → Json
of_unsigned n = number (record { u64 = some n; i64 = some (pos n) })

abbrev pub of_signed : ℤ → Json
of_signed (pos n) = of_unsigned n
of_signed z = number (record { u64 = none; i64 = some z })

abbrev pub as_bool : Json → Option Bool
as_bool (bool b) = some b
as_bool _ = none

abbrev pub as_u64 : Json → Option ℕ
as_u64 (number n) = n.u64
as_u64 _ = none

abbrev pub as_i64 : Json → Option ℤ
as_i64 (number n) = n.i64
as_i64 _ = none

abbrev pub as_str : Json → Option String
as_str (string s) = some s
as_str _ = none

abbrev pub as_array : Json → Option (List Json)
as_array (array xs) = some (items xs)
as_array _ = none

abbrev pub as_object : Json → Option (List (String × Json))
as_object (object fs) = some (fields fs)
as_object _ = none

abbrev pub is_null : Json → Bool
is_null null = true
is_null _ = false

-- `Map::get`
unfoldable pub lookup : String → List (String × Json) → Option Json
lookup k [] = none
lookup k ((j, v) ∷ m) = if str_eq j k then some v else lookup k m

-- `Map::insert`: the map is a `BTreeMap`, which is iterated in the order of its keys' bytes; that of the
-- characters' codes is the same. A key that is there takes the new value.
unfoldable pub insert : String → Json → List (String × Json) → List (String × Json)
insert k v [] = (k, v) ∷ []
insert k v ((j, w) ∷ m) =
    let later = insert k v m in
    elim (compare k j) [
      | Ordering.lt ↦ (k, v) ∷ (j, w) ∷ m
      | Ordering.eq ↦ (j, v) ∷ m
      | Ordering.gt ↦ (j, w) ∷ later
    ]

-- `Value::get` with a text: null off objects and at missing keys
abbrev pub get : String → Json → Option Json
get k (object fs) = lookup k (fields fs)
get k _ = none

-- How deep a value is nested.
unfoldable mutual
  pub height : Json → ℕ
  height (array xs) = suc (height_items xs)
  height (object fs) = suc (height_fields fs)
  height _ = 0

  pub height_items : Items → ℕ
  height_items nil = 0
  height_items (cons x xs) = max (height x) (height_items xs)

  pub height_fields : Fields → ℕ
  height_fields end = 0
  height_fields (field k v fs) = max (height v) (height_fields fs)
