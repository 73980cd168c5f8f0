-- ===== src/Xdr/Spec.antt =====
-- The contract interface types of stellar_xdr: `ScSpecTypeDef` and the entries of a contract's spec.
-- Fields that the source never reads (`lib`, events) are left out.
use orcusapi.Base.{ℕ, suc, max, List, [], ◌∷◌}

mutual
  pub data TypeDef : Type 0 where
    val bool void error u32 i32 u64 i64 timepoint duration u128 i128 u256 i256 : TypeDef
    bytes string symbol address muxed_address : TypeDef
    option vec : TypeDef → TypeDef
    result map : TypeDef → TypeDef → TypeDef
    tuple : TypeDefs → TypeDef
    bytes_n : ℕ → TypeDef
    udt : List ℕ → TypeDef

  pub data TypeDefs : Type 0 where
    nil : TypeDefs
    cons : TypeDef → TypeDefs → TypeDefs

abbrev pub type_defs : TypeDefs → List TypeDef
type_defs nil = []
type_defs (cons t ts) = t ∷ type_defs ts

-- How deep a type is nested.
unfoldable mutual
  pub depth : TypeDef → ℕ
  depth (option t) = suc (depth t)
  depth (vec t) = suc (depth t)
  depth (result t u) = suc (max (depth t) (depth u))
  depth (map t u) = suc (max (depth t) (depth u))
  depth (tuple ts) = suc (depth_all ts)
  depth _ = 0

  pub depth_all : TypeDefs → ℕ
  depth_all nil = 0
  depth_all (cons t ts) = max (depth t) (depth_all ts)

-- `ScSpecUdtStructFieldV0`, and `ScSpecFunctionInputV0`, which has the same fields
pub record Field : Type 0 where
  pub doc : List ℕ
  pub name : List ℕ
  pub type_ : TypeDef

pub record UdtStruct : Type 0 where
  pub doc : List ℕ
  pub name : List ℕ
  pub fields : List Field

pub data UnionCase : Type 0 where
  void_v0 : (doc name : List ℕ) → UnionCase
  tuple_v0 : (doc name : List ℕ) → List TypeDef → UnionCase

pub record UdtUnion : Type 0 where
  pub doc : List ℕ
  pub name : List ℕ
  pub cases : List UnionCase

-- `ScSpecUdtEnumCaseV0`, and `ScSpecUdtErrorEnumCaseV0`, which has the same fields
pub record EnumCase : Type 0 where
  pub doc : List ℕ
  pub name : List ℕ
  pub value : ℕ

-- `ScSpecUdtEnumV0`, and `ScSpecUdtErrorEnumV0`, which has the same fields
pub record UdtEnum : Type 0 where
  pub doc : List ℕ
  pub name : List ℕ
  pub cases : List EnumCase

pub record Function : Type 0 where
  pub doc : List ℕ
  pub name : List ℕ
  pub inputs : List Field
  pub outputs : List TypeDef

pub data SpecEntry : Type 0 where
  function_v0 : Function → SpecEntry
  udt_struct_v0 : UdtStruct → SpecEntry
  udt_union_v0 : UdtUnion → SpecEntry
  udt_enum_v0 udt_error_enum_v0 : UdtEnum → SpecEntry
  event_v0 : SpecEntry
