-- ===== src/Scval/Typing.antt =====
-- Which values belong to a type of the contract's interface, by the rules of the contract's host and
-- not by the conversion: the specification of `json_to_scval`. Unlike at the host, a key of a map may
-- occur twice, and an error's number need not be that of a case.
pub mod Leaves
pub mod Nodes
pub mod Enums
pub mod Udts
pub mod Sound
use orcusapi.Base.{
  ℕ, ◌≡◌, ◌==◌, Bool, true, false, none, some, List, [], ◌∷◌, String, length, any, ok,
}
use mathlib.Core.List.{Perm}
use orcusapi.Base.Int.{ℤ}
use orcusapi.Std.HashMap
use orcusapi.Std.Sort.{IsSorted}
use orcusapi.Std.Words.{IsU32, IsU64, IsI32, IsI64}
use orcusapi.Json.{Json, Number, Items, Fields}
use orcusapi.Xdr.{
  Bytes, Address, ScVal, ScVec, ScMap, elements, entries, UnsignedParts, SignedParts,
}
use orcusapi.Xdr.Spec.{
  TypeDef, TypeDefs, type_defs, Field, UdtStruct, UdtUnion, UdtEnum, void_v0, tuple_v0,
}
use orcusapi.Sdk.{Sdk}
use orcusapi.Spec.{ContractSpec, union_case}
use orcusapi.Scval.Udt.{is_tuple_struct}

-- The numbers of a JSON value have the widths of serde_json's views.
pub record IsNumber (n : Number) : Type 0 where
  pub unsigned : (m : ℕ) → n.u64 ≡ some m → IsU64 m
  pub signed : (z : ℤ) → n.i64 ≡ some z → IsI64 z

-- JSON whose numbers are such, and where every value that serde_json reads under a key of the escape
-- hatch is one of `hatch`: with the empty predicate the hatch gives nothing.
module _ (sdk : Sdk) (hatch : ScVal → Type 0) where
  mutual
    pub data IsJson : Json → Type 0 where
      null : IsJson Json.null
      bool : {b : Bool} → IsJson (Json.bool b)
      number : {n : Number} → IsNumber n → IsJson (Json.number n)
      string : {s : String} → IsJson (Json.string s)
      array : {xs : Items} → AreItems xs → IsJson (Json.array xs)
      object : {fs : Fields} → AreFields fs → IsJson (Json.object fs)

    pub data AreItems : Items → Type 0 where
      nil : AreItems Items.nil
      cons : {x : Json} {xs : Items} → IsJson x → AreItems xs → AreItems (Items.cons x xs)

    pub data AreFields : Fields → Type 0 where
      end : AreFields Fields.end
      field :
          {k : String} {v : Json} {fs : Fields}
          → (k ≡ "__xdr" → (x : ScVal) → sdk.from_value v ≡ ok x → hatch x)
          → IsJson v
          → AreFields fs
          → AreFields (Fields.field k v fs)

-- an account or a contract
pub data IsAddress : Address → Type 0 where
  account : {b : Bytes} → IsAddress (Address.account b)
  contract : {b : Bytes} → IsAddress (Address.contract b)

module _ (sdk : Sdk) where
  -- a bounded string of the given text
  abbrev pub IsStringOf : ℕ → String → Bytes → Type 0
  IsStringOf max s b = sdk.to_string_m max s ≡ some b

  abbrev pub IsBounded : ℕ → Bytes → Type 0
  IsBounded max b = (s : String) × IsStringOf max s b

  -- the keys of a map argument
  pub data HasKeyType : TypeDef → ScVal → Type 0 where
    symbol : {b : Bytes} → IsBounded 32 b → HasKeyType TypeDef.symbol (ScVal.symbol b)
    string : {b : Bytes} → IsBounded 4294967295 b → HasKeyType TypeDef.string (ScVal.string b)
    address : {a : Address} → IsAddress a → HasKeyType TypeDef.address (ScVal.address a)
    muxed_address : {a : Address} → IsAddress a → HasKeyType TypeDef.muxed_address (ScVal.address a)
    bool : {b : Bool} → HasKeyType TypeDef.bool (ScVal.bool b)
    u32 : {n : ℕ} → IsU32 n → HasKeyType TypeDef.u32 (ScVal.u32 n)
    i32 : {z : ℤ} → IsI32 z → HasKeyType TypeDef.i32 (ScVal.i32 z)
    u64 : {n : ℕ} → IsU64 n → HasKeyType TypeDef.u64 (ScVal.u64 n)
    i64 : {z : ℤ} → IsI64 z → HasKeyType TypeDef.i64 (ScVal.i64 z)

  -- Entries in any order, put in the order of their keys.
  pub record IsMapOf (given : List (ScVal × ScVal)) (es : ScMap) : Type 0 where
    pub same : Perm (entries es) given
    pub sorted : IsSorted (λ a b. sdk.compare a.0 b.0) (entries es)

  module _ (hatch : ScVal → Type 0) (spec : ContractSpec) where
    mutual
      pub data HasType : TypeDef → ScVal → Type 0 where
        -- what the escape hatch gave
        escaped : {t : TypeDef} {v : ScVal} → hatch v → HasType t v
        bool : {b : Bool} → HasType TypeDef.bool (ScVal.bool b)
        void : HasType TypeDef.void ScVal.void
        u32 : {n : ℕ} → IsU32 n → HasType TypeDef.u32 (ScVal.u32 n)
        i32 : {z : ℤ} → IsI32 z → HasType TypeDef.i32 (ScVal.i32 z)
        u64 : {n : ℕ} → IsU64 n → HasType TypeDef.u64 (ScVal.u64 n)
        i64 : {z : ℤ} → IsI64 z → HasType TypeDef.i64 (ScVal.i64 z)
        timepoint : {n : ℕ} → IsU64 n → HasType TypeDef.timepoint (ScVal.timepoint n)
        duration : {n : ℕ} → IsU64 n → HasType TypeDef.duration (ScVal.duration n)
        u128 : {p : UnsignedParts} → IsU64 p.hi → IsU64 p.lo → HasType TypeDef.u128 (ScVal.u128 p)
        i128 : {p : SignedParts} → IsI64 p.hi → IsU64 p.lo → HasType TypeDef.i128 (ScVal.i128 p)
        bytes : {b : Bytes} → HasType TypeDef.bytes (ScVal.bytes b)
        bytes_n : {n : ℕ} {b : Bytes} → length b ≡ n → HasType (TypeDef.bytes_n n) (ScVal.bytes b)
        string : {b : Bytes} → IsBounded 4294967295 b → HasType TypeDef.string (ScVal.string b)
        symbol : {b : Bytes} → IsBounded 32 b → HasType TypeDef.symbol (ScVal.symbol b)
        address : {a : Address} → IsAddress a → HasType TypeDef.address (ScVal.address a)
        muxed_address :
            {a : Address} → IsAddress a → HasType TypeDef.muxed_address (ScVal.address a)
        absent : {t : TypeDef} → HasType (TypeDef.option t) ScVal.void
        present : {t : TypeDef} {v : ScVal} → HasType t v → HasType (TypeDef.option t) v
        vec :
            {t : TypeDef} {vs : ScVec}
            → HaveType t (elements vs)
            → HasType (TypeDef.vec t) (ScVal.vec vs)
        tuple :
            {ts : TypeDefs} {vs : ScVec}
            → HaveTypes (type_defs ts) (elements vs)
            → HasType (TypeDef.tuple ts) (ScVal.vec vs)
        map :
            {t u : TypeDef} {given : List (ScVal × ScVal)} {es : ScMap}
            → AreEntries t u given
            → IsMapOf given es
            → HasType (TypeDef.map t u) (ScVal.map es)
        tuple_struct :
            {name : Bytes} {s : UdtStruct} {vs : ScVec}
            → HashMap.get (sdk.to_text name) spec.structs ≡ some s
            → is_tuple_struct sdk s ≡ true
            → AreComponents s.fields (elements vs)
            → HasType (TypeDef.udt name) (ScVal.vec vs)
        named_struct :
            {name : Bytes} {s : UdtStruct} {given : List (ScVal × ScVal)} {es : ScMap}
            → HashMap.get (sdk.to_text name) spec.structs ≡ some s
            → is_tuple_struct sdk s ≡ false
            → AreNamed s.fields given
            → IsMapOf given es
            → HasType (TypeDef.udt name) (ScVal.map es)
        void_case :
            {name doc case_name tag : Bytes} {case : String} {vs : ScVec}
            → HashMap.get (sdk.to_text name) spec.structs ≡ none
            → union_case sdk spec (sdk.to_text name) case ≡ some (void_v0 doc case_name)
            → IsStringOf 32 case tag
            → elements vs ≡ ScVal.symbol tag ∷ []
            → HasType (TypeDef.udt name) (ScVal.vec vs)
        tuple_case :
            {name doc case_name tag : Bytes} {case : String} {types : List TypeDef}
            {rest : List ScVal} {vs : ScVec}
            → HashMap.get (sdk.to_text name) spec.structs ≡ none
            → union_case sdk spec (sdk.to_text name) case ≡ some (tuple_v0 doc case_name types)
            → IsStringOf 32 case tag
            → HaveTypes types rest
            → elements vs ≡ ScVal.symbol tag ∷ rest
            → HasType (TypeDef.udt name) (ScVal.vec vs)
        enum :
            {name : Bytes} {e : UdtEnum} {n : ℕ}
            → HashMap.get (sdk.to_text name) spec.structs ≡ none
            → HashMap.contains_key (sdk.to_text name) spec.unions ≡ false
            → HashMap.get (sdk.to_text name) spec.enums ≡ some e
            → any (λ c. c.value == n) e.cases ≡ true
            → HasType (TypeDef.udt name) (ScVal.u32 n)
        -- an error's number is not looked up among the cases
        error_number :
            {name : Bytes} {e : UdtEnum} {n : ℕ}
            → HashMap.get (sdk.to_text name) spec.structs ≡ none
            → HashMap.contains_key (sdk.to_text name) spec.unions ≡ false
            → HashMap.get (sdk.to_text name) spec.error_enums ≡ some e
            → IsU32 n
            → HasType (TypeDef.udt name) (ScVal.u32 n)
        error_case :
            {name : Bytes} {e : UdtEnum} {n : ℕ}
            → HashMap.get (sdk.to_text name) spec.structs ≡ none
            → HashMap.contains_key (sdk.to_text name) spec.unions ≡ false
            → HashMap.get (sdk.to_text name) spec.error_enums ≡ some e
            → any (λ c. c.value == n) e.cases ≡ true
            → HasType (TypeDef.udt name) (ScVal.u32 n)

      -- a list of values of one type
      pub data HaveType : TypeDef → List ScVal → Type 0 where
        no_value : {t : TypeDef} → HaveType t []
        a_value :
            {t : TypeDef} {v : ScVal} {vs : List ScVal}
            → HasType t v
            → HaveType t vs
            → HaveType t (v ∷ vs)

      -- values of a list of types, as many as there are types
      pub data HaveTypes : List TypeDef → List ScVal → Type 0 where
        no_typed : HaveTypes [] []
        a_typed :
            {t : TypeDef} {ts : List TypeDef} {v : ScVal} {vs : List ScVal}
            → HasType t v
            → HaveTypes ts vs
            → HaveTypes (t ∷ ts) (v ∷ vs)

      pub data AreComponents : List Field → List ScVal → Type 0 where
        no_component : AreComponents [] []
        a_component :
            {f : Field} {fs : List Field} {v : ScVal} {vs : List ScVal}
            → HasType f.type_ v
            → AreComponents fs vs
            → AreComponents (f ∷ fs) (v ∷ vs)

      -- one entry for each field, under a symbol of its name
      pub data AreNamed : List Field → List (ScVal × ScVal) → Type 0 where
        no_named : AreNamed [] []
        a_named :
            {f : Field} {fs : List Field} {b : Bytes} {v : ScVal} {es : List (ScVal × ScVal)}
            → IsStringOf 32 (sdk.to_text f.name) b
            → HasType f.type_ v
            → AreNamed fs es
            → AreNamed (f ∷ fs) ((ScVal.symbol b, v) ∷ es)

      pub data AreEntries : TypeDef → TypeDef → List (ScVal × ScVal) → Type 0 where
        no_entry : {t u : TypeDef} → AreEntries t u []
        an_entry :
            {t u : TypeDef} {k v : ScVal} {es : List (ScVal × ScVal)}
            → HasKeyType t k
            → HasType u v
            → AreEntries t u es
            → AreEntries t u ((k, v) ∷ es)
