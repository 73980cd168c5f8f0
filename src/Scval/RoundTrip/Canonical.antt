-- ===== src/Scval/RoundTrip/Canonical.antt =====
-- The values that a type of a contract's interface stands for, as far as their JSON rendering is read
-- back: no 256-bit integers, errors or results, and maps with text keys only.
use Prim.Native.Nat.{Ordering}
use Prim.Native.String.{compare}
use orcusapi.Base.{
  ℕ, ◌≡◌, ◌≢◌, ◌≤◌, Bool, true, false, some, List, [], ◌∷◌, map as map_list, String, length, All,
  any, ◌==◌, none,
}
use orcusapi.Base.Int.{ℤ}
use orcusapi.Std.HashMap
use orcusapi.Std.Sort.{IsSorted}
use orcusapi.Std.Words.{max_u32, IsU32, IsU64, IsI32, IsI64}
use orcusapi.Json.{is_null}
use orcusapi.Xdr.{
  Bytes, account, contract, ScVal, ScVec, nil, cons, ScMap, empty, entry, entries, elements,
  UnsignedParts, SignedParts,
}
use orcusapi.Xdr.Spec.{TypeDef, TypeDefs, UdtEnum, UdtStruct, Field}
use orcusapi.Sdk.{Sdk, IsKey, IsPlain}
use orcusapi.Spec.{ContractSpec}
use orcusapi.Scval.Udt.{is_tuple_struct}
use orcusapi.Scval.Render.{key_text, scval_to_json}

abbrev pub field_types : List Field → TypeDefs
field_types [] = TypeDefs.nil
field_types (f ∷ fs) = TypeDefs.cons f.type_ (field_types fs)

module _ (sdk : Sdk) where
  -- printable ASCII without backslashes
  abbrev pub IsText : ℕ → Bytes → Type 0
  IsText max b = All IsPlain b × (length b ≤ max)

  abbrev pub key_texts : ScMap → List String
  key_texts es = map_list (λ e. key_text sdk e.0) (entries es)

  -- each text before all that follow, as an object has its keys
  abbrev pub AreAscending : List String → Type 0
  AreAscending [] = Unit
  AreAscending (k ∷ ks) = All (λ j. compare j k ≡ Ordering.gt) ks × AreAscending ks

  -- Keys in the order of values, whose texts are in the order of texts, and none that is taken for the
  -- escape hatch.
  pub record HasGoodKeys (es : ScMap) : Type 0 where
    pub sorted : IsSorted (λ a b. sdk.compare a.0 b.0) (entries es)
    pub ascending : AreAscending (key_texts es)
    pub no_escape : All (λ j. j ≢ "__xdr") (key_texts es)
    pub fits : sdk.fits max_u32 (length (entries es)) ≡ true

  pub data IsKeyOf : TypeDef → ScVal → Type 0 where
    symbol_key : {b : Bytes} → IsText 32 b → IsKeyOf TypeDef.symbol (ScVal.symbol b)
    string_key : {b : Bytes} → IsText max_u32 b → IsKeyOf TypeDef.string (ScVal.string b)

  module _ (spec : ContractSpec) where
    mutual
      pub data IsCanonical : TypeDef → ScVal → Type 0 where
        bool : {b : Bool} → IsCanonical TypeDef.bool (ScVal.bool b)
        void : IsCanonical TypeDef.void ScVal.void
        u32 : {n : ℕ} → IsU32 n → IsCanonical TypeDef.u32 (ScVal.u32 n)
        i32 : {z : ℤ} → IsI32 z → IsCanonical TypeDef.i32 (ScVal.i32 z)
        u64 : {n : ℕ} → IsU64 n → IsCanonical TypeDef.u64 (ScVal.u64 n)
        i64 : {z : ℤ} → IsI64 z → IsCanonical TypeDef.i64 (ScVal.i64 z)
        timepoint : {n : ℕ} → IsU64 n → IsCanonical TypeDef.timepoint (ScVal.timepoint n)
        duration : {n : ℕ} → IsU64 n → IsCanonical TypeDef.duration (ScVal.duration n)
        u128 :
            {p : UnsignedParts} → IsU64 p.hi → IsU64 p.lo → IsCanonical TypeDef.u128 (ScVal.u128 p)
        i128 : {p : SignedParts} → IsI64 p.hi → IsU64 p.lo → IsCanonical TypeDef.i128 (ScVal.i128 p)
        bytes :
            {b : Bytes}
            → sdk.fits max_u32 (length b) ≡ true
            → IsCanonical TypeDef.bytes (ScVal.bytes b)
        bytes_n :
            {n : ℕ} {b : Bytes}
            → length b ≡ n
            → sdk.fits max_u32 (length b) ≡ true
            → IsCanonical (TypeDef.bytes_n n) (ScVal.bytes b)
        string : {b : Bytes} → IsText max_u32 b → IsCanonical TypeDef.string (ScVal.string b)
        symbol : {b : Bytes} → IsText 32 b → IsCanonical TypeDef.symbol (ScVal.symbol b)
        account_address :
            {b : Bytes} → IsKey b → IsCanonical TypeDef.address (ScVal.address (account b))
        contract_address :
            {b : Bytes} → IsKey b → IsCanonical TypeDef.address (ScVal.address (contract b))
        absent : {t : TypeDef} → IsCanonical (TypeDef.option t) ScVal.void
        present :
            {t : TypeDef} {v : ScVal}
            → IsCanonical t v
            → is_null (scval_to_json sdk v) ≡ false
            → IsCanonical (TypeDef.option t) v
        vec :
            {t : TypeDef} {vs : ScVec}
            → AreCanonical t vs
            → sdk.fits max_u32 (length (elements vs)) ≡ true
            → IsCanonical (TypeDef.vec t) (ScVal.vec vs)
        tuple :
            {ts : TypeDefs} {vs : ScVec}
            → IsCanonicalTuple ts vs
            → sdk.fits max_u32 (length (elements vs)) ≡ true
            → IsCanonical (TypeDef.tuple ts) (ScVal.vec vs)
        map :
            {t u : TypeDef} {es : ScMap}
            → IsCanonicalMap t u es
            → HasGoodKeys es
            → IsCanonical (TypeDef.map t u) (ScVal.map es)
        named_struct :
            {name : Bytes} {s : UdtStruct} {es : ScMap}
            → HashMap.get (sdk.to_text name) spec.structs ≡ some s
            → is_tuple_struct sdk s ≡ false
            → IsCanonicalStruct s.fields es
            → HasGoodKeys es
            → IsCanonical (TypeDef.udt name) (ScVal.map es)
        tuple_struct :
            {name : Bytes} {s : UdtStruct} {vs : ScVec}
            → HashMap.get (sdk.to_text name) spec.structs ≡ some s
            → is_tuple_struct sdk s ≡ true
            → IsCanonicalTuple (field_types s.fields) vs
            → sdk.fits max_u32 (length (elements vs)) ≡ true
            → IsCanonical (TypeDef.udt name) (ScVal.vec vs)
        enum :
            {name : Bytes} {e : UdtEnum} {n : ℕ}
            → HashMap.get (sdk.to_text name) spec.structs ≡ none
            → HashMap.get (sdk.to_text name) spec.unions ≡ none
            → HashMap.get (sdk.to_text name) spec.enums ≡ some e
            → any (λ c. c.value == n) e.cases ≡ true
            → IsU32 n
            → IsCanonical (TypeDef.udt name) (ScVal.u32 n)
        error_enum :
            {name : Bytes} {e : UdtEnum} {n : ℕ}
            → HashMap.get (sdk.to_text name) spec.structs ≡ none
            → HashMap.get (sdk.to_text name) spec.unions ≡ none
            → HashMap.get (sdk.to_text name) spec.enums ≡ none
            → HashMap.get (sdk.to_text name) spec.error_enums ≡ some e
            → IsU32 n
            → IsCanonical (TypeDef.udt name) (ScVal.u32 n)

      pub data AreCanonical : TypeDef → ScVec → Type 0 where
        none_left : {t : TypeDef} → AreCanonical t nil
        and_then :
            {t : TypeDef} {v : ScVal} {vs : ScVec}
            → IsCanonical t v
            → AreCanonical t vs
            → AreCanonical t (cons v vs)

      pub data IsCanonicalTuple : TypeDefs → ScVec → Type 0 where
        no_component : IsCanonicalTuple TypeDefs.nil nil
        component :
            {t : TypeDef} {ts : TypeDefs} {v : ScVal} {vs : ScVec}
            → IsCanonical t v
            → IsCanonicalTuple ts vs
            → IsCanonicalTuple (TypeDefs.cons t ts) (cons v vs)

      pub data IsCanonicalMap : TypeDef → TypeDef → ScMap → Type 0 where
        no_entry : {t u : TypeDef} → IsCanonicalMap t u empty
        an_entry :
            {t u : TypeDef} {k v : ScVal} {es : ScMap}
            → IsKeyOf t k
            → IsCanonical u v
            → IsCanonicalMap t u es
            → IsCanonicalMap t u (entry k v es)

      pub data IsCanonicalStruct : List Field → ScMap → Type 0 where
        no_field : IsCanonicalStruct [] empty
        a_field :
            {f : Field} {fs : List Field} {b : Bytes} {v : ScVal} {es : ScMap}
            → sdk.to_text b ≡ sdk.to_text f.name
            → IsText 32 b
            → IsCanonical f.type_ v
            → IsCanonicalStruct fs es
            → IsCanonicalStruct (f ∷ fs) (entry (ScVal.symbol b) v es)
