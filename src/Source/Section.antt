-- ===== src/Source/Section.antt =====
-- Which section of a WASM module holds the interface.
use orcusapi.Base.{
  ◌≡◌, ◌≢◌, ◌↔◌, refl, sym, Bool-cases, inl, inr, some, List, [], ◌∷◌, String, str_eq, eq_iff,
  Result, ok, err, arith, false,
}
use mathlib.Core.Path.{subst}
use orcusapi.Xdr.{Bytes}
use orcusapi.Chain.{Payload, custom_section, other_payload}
use orcusapi.Source.{contract_spec_section, spec_section}

-- The first custom section of the name, with no failure before it.
pub data IsFirstSection (contents : Bytes) : List (Result String Payload) → Type 0 where
  here :
      {rest : List (Result String Payload)}
      → IsFirstSection contents (ok (custom_section contract_spec_section contents) ∷ rest)
  behind_section :
      {name : String} {found : Bytes} {rest : List (Result String Payload)}
      → name ≢ contract_spec_section
      → IsFirstSection contents rest
      → IsFirstSection contents (ok (custom_section name found) ∷ rest)
  behind_other :
      {rest : List (Result String Payload)}
      → IsFirstSection contents rest
      → IsFirstSection contents (ok other_payload ∷ rest)

differs : (a b : String) → a ≢ b → str_eq a b ≡ false
differs a b h = elim (Bool-cases (str_eq a b)) [
  | inl same ↦ elim (h (ground (arith, eq_iff a b))) [ ]
  | inr other ↦ other
]

found :
    (b : Bytes) (ps : List (Result String Payload))
    → IsFirstSection b ps
    → spec_section ps ≡ ok (some b)
unfolding spec_section
found b _ here = refl
found b _ (behind_section {name} other rest) =
    rw (differs name contract_spec_section other) (found b _ rest)
found b _ (behind_other rest) = found b _ rest

first :
    (ps : List (Result String Payload)) (b : Bytes)
    → spec_section ps ≡ ok (some b)
    → IsFirstSection b ps
unfolding spec_section
first [] b h = cc
first (err e ∷ rest) b h = cc
first (ok other_payload ∷ rest) b h = behind_other (first rest b h)
first (ok (custom_section name contents) ∷ rest) b h =
    elim (Bool-cases (str_eq name contract_spec_section)) [
      | inl same ↦
          let at_contents : contents ≡ b = (let read = rw same at h in cc) in
          let at_name : name ≡ contract_spec_section =
            ground (arith, eq_iff name contract_spec_section) in
          subst {A = String} (λ n. IsFirstSection b (ok (custom_section n contents) ∷ rest))
            (sym at_name)
            (subst {A = Bytes}
              (λ c. IsFirstSection b (ok (custom_section contract_spec_section c) ∷ rest))
              (sym at_contents) here)
      | inr other ↦
          behind_section (ground (arith, eq_iff name contract_spec_section))
            (first rest b (rw other at h))
    ]

-- The contents that are read as an interface are those of the first custom section named
-- `contractspecv0`, and they are read exactly if the parser does not fail before it.
pub spec_section-IsFirstSection :
    (ps : List (Result String Payload)) (b : Bytes)
    → (spec_section ps ≡ ok (some b)) ↔ IsFirstSection b ps
spec_section-IsFirstSection ps b = (first ps b, found b ps)
