-- ===== src/Spec/Render.antt =====
-- The JSON renderings of src/spec.rs.
use orcusapi.Base.{Option, none, some, List, [], ◌∷◌, map, String, first}
use orcusapi.Std.HashMap
use orcusapi.Json.{Json, Items, nil, cons, null, string, array, obj, arr, of_unsigned}
use orcusapi.Xdr.Spec.{
  TypeDef, TypeDefs, Field, UdtStruct, UdtUnion, UdtEnum, EnumCase, UnionCase, void_v0, tuple_v0,
  Function,
}
use orcusapi.Sdk.{Sdk}
use orcusapi.Spec.{ContractSpec}

abbrev kind : String → Json
kind name = obj (("kind", string name) ∷ [])

module _ (sdk : Sdk) where
  unfoldable mutual
    pub type_def_to_json : TypeDef → Json
    type_def_to_json TypeDef.val = kind "val"
    type_def_to_json TypeDef.bool = kind "bool"
    type_def_to_json TypeDef.void = kind "void"
    type_def_to_json TypeDef.error = kind "error"
    type_def_to_json TypeDef.u32 = kind "u32"
    type_def_to_json TypeDef.i32 = kind "i32"
    type_def_to_json TypeDef.u64 = kind "u64"
    type_def_to_json TypeDef.i64 = kind "i64"
    type_def_to_json TypeDef.timepoint = kind "timepoint"
    type_def_to_json TypeDef.duration = kind "duration"
    type_def_to_json TypeDef.u128 = kind "u128"
    type_def_to_json TypeDef.i128 = kind "i128"
    type_def_to_json TypeDef.u256 = kind "u256"
    type_def_to_json TypeDef.i256 = kind "i256"
    type_def_to_json TypeDef.bytes = kind "bytes"
    type_def_to_json TypeDef.string = kind "string"
    type_def_to_json TypeDef.symbol = kind "symbol"
    type_def_to_json TypeDef.address = kind "address"
    type_def_to_json TypeDef.muxed_address = kind "muxed_address"
    type_def_to_json (TypeDef.option t) =
        obj (("kind", string "option") ∷ ("value", type_def_to_json t) ∷ [])
    type_def_to_json (TypeDef.result t u) = obj (
        ("kind", string "result") ∷ ("ok", type_def_to_json t) ∷ ("error", type_def_to_json u) ∷ [])
    type_def_to_json (TypeDef.vec t) =
        obj (("kind", string "vec") ∷ ("element", type_def_to_json t) ∷ [])
    type_def_to_json (TypeDef.map t u) =
        obj (
          ("kind", string "map") ∷ ("key", type_def_to_json t) ∷ ("value", type_def_to_json u) ∷ [])
    type_def_to_json (TypeDef.tuple ts) =
        obj (("kind", string "tuple") ∷ ("elements", array (type_defs_to_json ts)) ∷ [])
    type_def_to_json (TypeDef.bytes_n n) =
        obj (("kind", string "bytesN") ∷ ("n", of_unsigned n) ∷ [])
    type_def_to_json (TypeDef.udt name) =
        obj (("kind", string "udt") ∷ ("name", string (sdk.to_text name)) ∷ [])

    pub type_defs_to_json : TypeDefs → Items
    type_defs_to_json TypeDefs.nil = nil
    type_defs_to_json (TypeDefs.cons t ts) = cons (type_def_to_json t) (type_defs_to_json ts)

  -- the objects for an input of a function and for a field of a struct
  unfoldable pub field_to_json : Field → Json
  unfolding type_def_to_json
  field_to_json f = obj (
      ("name", string (sdk.to_text f.name))
      ∷ ("doc", string (sdk.to_text f.doc))
      ∷ ("type", type_def_to_json f.type_)
      ∷ [])

  abbrev output_to_json : Option TypeDef → Json
  output_to_json none = null
  output_to_json (some t) = type_def_to_json t

  -- in the order of the keys, as another one is inserted later
  unfoldable pub function_entries : Function → List (String × Json)
  unfolding field_to_json
  function_entries f =
      ("doc", string (sdk.to_text f.doc))
      ∷ ("inputs", arr (map field_to_json f.inputs))
      ∷ ("name", string (sdk.to_text f.name))
      ∷ ("output", output_to_json (first f.outputs))
      ∷ []

  unfoldable pub function_to_json : Function → Json
  unfolding function_entries
  function_to_json f = obj (function_entries f)

  unfoldable pub struct_to_json : UdtStruct → Json
  unfolding field_to_json
  struct_to_json s = obj (
      ("name", string (sdk.to_text s.name))
      ∷ ("doc", string (sdk.to_text s.doc))
      ∷ ("fields", arr (map field_to_json s.fields))
      ∷ [])

  unfoldable pub case_to_json : UnionCase → Json
  unfolding type_def_to_json
  case_to_json (void_v0 doc name) = obj (
      ("name", string (sdk.to_text name))
      ∷ ("doc", string (sdk.to_text doc))
      ∷ ("kind", string "void")
      ∷ ("types", arr [])
      ∷ [])
  case_to_json (tuple_v0 doc name types) = obj (
      ("name", string (sdk.to_text name))
      ∷ ("doc", string (sdk.to_text doc))
      ∷ ("kind", string "tuple")
      ∷ ("types", arr (map type_def_to_json types))
      ∷ [])

  unfoldable pub union_to_json : UdtUnion → Json
  unfolding case_to_json
  union_to_json u = obj (
      ("name", string (sdk.to_text u.name))
      ∷ ("doc", string (sdk.to_text u.doc))
      ∷ ("cases", arr (map case_to_json u.cases))
      ∷ [])

  unfoldable pub enum_case_to_json : EnumCase → Json
  enum_case_to_json c = obj (
      ("name", string (sdk.to_text c.name))
      ∷ ("doc", string (sdk.to_text c.doc))
      ∷ ("value", of_unsigned c.value)
      ∷ [])

  -- `enum_to_json`; `error_enum_to_json` has the same body
  unfoldable pub enum_to_json : UdtEnum → Json
  unfolding enum_case_to_json
  enum_to_json e = obj (
      ("name", string (sdk.to_text e.name))
      ∷ ("doc", string (sdk.to_text e.doc))
      ∷ ("cases", arr (map enum_case_to_json e.cases))
      ∷ [])

  unfoldable pub error_enum_to_json : UdtEnum → Json
  unfolding enum_case_to_json
  error_enum_to_json e = obj (
      ("name", string (sdk.to_text e.name))
      ∷ ("doc", string (sdk.to_text e.doc))
      ∷ ("cases", arr (map enum_case_to_json e.cases))
      ∷ [])

  -- `ContractSpec::to_json`
  unfoldable pub to_json : ContractSpec → Json
  unfolding function_to_json struct_to_json union_to_json enum_to_json error_enum_to_json
  to_json spec = obj (
      ("functions", arr (map function_to_json spec.functions))
      ∷ ("structs", arr (map struct_to_json (HashMap.values spec.structs)))
      ∷ ("unions", arr (map union_to_json (HashMap.values spec.unions)))
      ∷ ("enums", arr (map enum_to_json (HashMap.values spec.enums)))
      ∷ ("error_enums", arr (map error_enum_to_json (HashMap.values spec.error_enums)))
      ∷ [])
