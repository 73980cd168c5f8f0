-- ===== src/Spec/Laws.antt =====
-- What `from_entries` keeps of a contract's entries.
use orcusapi.Base.{
  or_else-none, or_else, or_else_assoc, or_else-if, ◌≡◌, refl, sym, ◌∙◌, Option, none, some, List,
  [], ◌∷◌, ◌++◌, String, str_eq, if◌then◌else◌,
}
use orcusapi.Std.HashMap.{get, get-insert}
use orcusapi.Xdr.Spec.{
  UdtStruct, UdtUnion, Function, SpecEntry, function_v0, udt_struct_v0, udt_union_v0, udt_enum_v0,
  udt_error_enum_v0, event_v0,
}
use orcusapi.Sdk.{Sdk}
use orcusapi.Spec.{ContractSpec, no_entries, add_entry, add_entries, from_entries}

-- the functions among the entries, in their order
abbrev pub functions_of : List SpecEntry → List Function
functions_of [] = []
functions_of (function_v0 f ∷ es) = f ∷ functions_of es
functions_of (_ ∷ es) = functions_of es

++-assoc_one :
    (fs : List Function) (f : Function) (gs : List Function) → (fs ++ f ∷ []) ++ gs ≡ fs ++ f ∷ gs
++-assoc_one [] f gs = refl
++-assoc_one (g ∷ fs) f gs = rw (++-assoc_one fs f gs) refl

++-nil : (fs : List Function) → fs ++ [] ≡ fs
++-nil [] = refl
++-nil (f ∷ fs) = rw (++-nil fs) refl

module _ (sdk : Sdk) where
  abbrev struct_if : String → SpecEntry → Option UdtStruct
  struct_if name (udt_struct_v0 s) = if str_eq (sdk.to_text s.name) name then some s else none
  struct_if name _ = none

  abbrev union_if : String → SpecEntry → Option UdtUnion
  union_if name (udt_union_v0 u) = if str_eq (sdk.to_text u.name) name then some u else none
  union_if name _ = none

  -- the last definition of a name among the entries
  abbrev pub last_struct : String → List SpecEntry → Option UdtStruct
  last_struct name [] = none
  last_struct name (e ∷ es) = or_else (last_struct name es) (struct_if name e)

  abbrev pub last_union : String → List SpecEntry → Option UdtUnion
  last_union name [] = none
  last_union name (e ∷ es) = or_else (last_union name es) (union_if name e)

  add_entry-structs :
      (name : String) (spec : ContractSpec) (e : SpecEntry)
      → get name (add_entry sdk spec e).structs ≡ or_else (struct_if name e) (get name spec.structs)
  unfolding add_entry
  add_entry-structs name spec (function_v0 f) = refl
  add_entry-structs name spec (udt_struct_v0 s) =
      get-insert (sdk.to_text s.name) name s spec.structs
      ∙ or_else-if (str_eq (sdk.to_text s.name) name) s (get name spec.structs)
  add_entry-structs name spec (udt_union_v0 u) = refl
  add_entry-structs name spec (udt_enum_v0 e) = refl
  add_entry-structs name spec (udt_error_enum_v0 e) = refl
  add_entry-structs name spec event_v0 = refl

  add_entry-unions :
      (name : String) (spec : ContractSpec) (e : SpecEntry)
      → get name (add_entry sdk spec e).unions ≡ or_else (union_if name e) (get name spec.unions)
  unfolding add_entry
  add_entry-unions name spec (function_v0 f) = refl
  add_entry-unions name spec (udt_struct_v0 s) = refl
  add_entry-unions name spec (udt_union_v0 u) =
      get-insert (sdk.to_text u.name) name u spec.unions
      ∙ or_else-if (str_eq (sdk.to_text u.name) name) u (get name spec.unions)
  add_entry-unions name spec (udt_enum_v0 e) = refl
  add_entry-unions name spec (udt_error_enum_v0 e) = refl
  add_entry-unions name spec event_v0 = refl

  add_entries-structs :
      (name : String) (spec : ContractSpec) (es : List SpecEntry)
      → get name (add_entries sdk spec es).structs
        ≡ or_else (last_struct name es) (get name spec.structs)
  unfolding add_entries
  add_entries-structs name spec [] = refl
  add_entries-structs name spec (e ∷ es) = rw (add_entries-structs name (add_entry sdk spec e) es) (
      rw (add_entry-structs name spec e)
        (or_else_assoc (last_struct name es) (struct_if name e) (get name spec.structs)))

  add_entries-unions :
      (name : String) (spec : ContractSpec) (es : List SpecEntry)
      → get name (add_entries sdk spec es).unions
        ≡ or_else (last_union name es) (get name spec.unions)
  unfolding add_entries
  add_entries-unions name spec [] = refl
  add_entries-unions name spec (e ∷ es) = rw (add_entries-unions name (add_entry sdk spec e) es) (
      rw (add_entry-unions name spec e)
        (or_else_assoc (last_union name es) (union_if name e) (get name spec.unions)))

  add_entries-functions :
      (spec : ContractSpec) (es : List SpecEntry)
      → (add_entries sdk spec es).functions ≡ spec.functions ++ functions_of es
  unfolding add_entries add_entry
  add_entries-functions spec [] = sym (++-nil spec.functions)
  add_entries-functions spec (function_v0 f ∷ es) =
      add_entries-functions (add_entry sdk spec (function_v0 f)) es
      ∙ ++-assoc_one spec.functions f _
  add_entries-functions spec (udt_struct_v0 s ∷ es) =
      add_entries-functions (add_entry sdk spec (udt_struct_v0 s)) es
  add_entries-functions spec (udt_union_v0 u ∷ es) =
      add_entries-functions (add_entry sdk spec (udt_union_v0 u)) es
  add_entries-functions spec (udt_enum_v0 e ∷ es) =
      add_entries-functions (add_entry sdk spec (udt_enum_v0 e)) es
  add_entries-functions spec (udt_error_enum_v0 e ∷ es) =
      add_entries-functions (add_entry sdk spec (udt_error_enum_v0 e)) es
  add_entries-functions spec (event_v0 ∷ es) =
      add_entries-functions (add_entry sdk spec event_v0) es

  -- The interface has the entries' functions in their order, and under a name of a struct or a union
  -- the last entry that defines it, none if there is none.
  pub from_entries_lem :
      (es : List SpecEntry) (name : String)
      → ((from_entries sdk es).functions ≡ functions_of es)
        × (get name (from_entries sdk es).structs ≡ last_struct name es)
        × (get name (from_entries sdk es).unions ≡ last_union name es)
  unfolding from_entries get
  from_entries_lem es name = (
    add_entries-functions no_entries es,
    add_entries-structs name no_entries es ∙ or_else-none _,
    add_entries-unions name no_entries es ∙ or_else-none _,
  )
