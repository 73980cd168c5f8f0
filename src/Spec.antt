-- ===== src/Spec.antt =====
-- src/spec.rs: the parsed interface of a contract. The search for its entries in a WASM module is in
-- Source.
pub mod Named
pub mod Render
pub mod Laws
use orcusapi.Base.{ℕ, Option, List, [], ◌∷◌, ◌++◌, String, str_eq, find, and_then}
use orcusapi.Std.HashMap
use orcusapi.Xdr.Spec.{
  UdtStruct, UdtUnion, UdtEnum, UnionCase, void_v0, tuple_v0, Function, SpecEntry, function_v0,
  udt_struct_v0, udt_union_v0, udt_enum_v0, udt_error_enum_v0, event_v0,
}
use orcusapi.Sdk.{Sdk}

pub record ContractSpec : Type 0 where
  pub functions : List Function
  pub structs : List (String × UdtStruct)
  pub unions : List (String × UdtUnion)
  pub enums : List (String × UdtEnum)
  pub error_enums : List (String × UdtEnum)

abbrev pub no_entries : ContractSpec
no_entries = record { functions = []; structs = []; unions = []; enums = []; error_enums = [] }

module _ (sdk : Sdk) where
  -- one round of the loop of `from_entries`
  unfoldable pub add_entry : ContractSpec → SpecEntry → ContractSpec
  add_entry spec (function_v0 f) = record spec { functions = spec.functions ++ f ∷ [] }
  add_entry spec (udt_struct_v0 s) = record spec {
    structs = HashMap.insert (sdk.to_text s.name) s spec.structs;
  }
  add_entry spec (udt_union_v0 u) = record spec {
    unions = HashMap.insert (sdk.to_text u.name) u spec.unions;
  }
  add_entry spec (udt_enum_v0 e) = record spec {
    enums = HashMap.insert (sdk.to_text e.name) e spec.enums;
  }
  add_entry spec (udt_error_enum_v0 e) = record spec {
    error_enums = HashMap.insert (sdk.to_text e.name) e spec.error_enums;
  }
  add_entry spec event_v0 = spec

  unfoldable pub add_entries : ContractSpec → List SpecEntry → ContractSpec
  unfolding add_entry
  add_entries spec [] = spec
  add_entries spec (entry ∷ rest) = add_entries (add_entry spec entry) rest

  unfoldable pub from_entries : List SpecEntry → ContractSpec
  unfolding add_entries
  from_entries entries = add_entries no_entries entries

  unfoldable pub function : ContractSpec → String → Option Function
  function spec name = find (λ f. str_eq (sdk.to_text f.name) name) spec.functions

  unfoldable pub case_name : UnionCase → String
  case_name (void_v0 doc name) = sdk.to_text name
  case_name (tuple_v0 doc name types) = sdk.to_text name

  unfoldable pub union_case : ContractSpec → String → String → Option UnionCase
  unfolding case_name
  union_case spec union_name wanted =
      and_then (HashMap.get union_name spec.unions)
        (λ u. find (λ c. str_eq (case_name c) wanted) u.cases)
