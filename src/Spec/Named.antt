-- ===== src/Spec/Named.antt =====
-- Which function `ContractSpec::function` finds.
use orcusapi.Base.{
  ◌≡◌, ◌≢◌, sym, some, List, [], ◌∷◌, String, str_eq, eq_iff, arith, find, Bool-cases, inl, inr,
}
use mathlib.Core.Path.{subst}
use orcusapi.Xdr.Spec.{Function}
use orcusapi.Sdk.{Sdk}
use orcusapi.Spec.{ContractSpec, function}

module _ (sdk : Sdk) (name : String) where
  -- The function has the name, and none in front of it does.
  pub data IsFirstNamed (f : Function) : List Function → Type 0 where
    here : {fs : List Function} → sdk.to_text f.name ≡ name → IsFirstNamed f (f ∷ fs)
    there :
        {g : Function} {fs : List Function}
        → sdk.to_text g.name ≢ name
        → IsFirstNamed f fs
        → IsFirstNamed f (g ∷ fs)

  find-IsFirstNamed :
      (f : Function) (fs : List Function)
      → find (λ g. str_eq (sdk.to_text g.name) name) fs ≡ some f
      → IsFirstNamed f fs
  find-IsFirstNamed f [] h = cc
  find-IsFirstNamed f (g ∷ fs) h = elim (Bool-cases (str_eq (sdk.to_text g.name) name)) [
    | inl hit ↦
        let same : g ≡ f = let e = rw hit at h in cc in
        subst (λ x. IsFirstNamed f (x ∷ fs)) (sym same)
          (here (
            subst (λ x. sdk.to_text x.name ≡ name) same
              (ground (arith, eq_iff (sdk.to_text g.name) name))))
    | inr miss ↦
        there (λ same. ground (arith, eq_iff (sdk.to_text g.name) name))
          (find-IsFirstNamed f fs (rw miss at h))
  ]

  pub function-IsFirstNamed :
      (spec : ContractSpec) (f : Function)
      → function sdk spec name ≡ some f
      → IsFirstNamed f spec.functions
  unfolding function
  function-IsFirstNamed spec f h = find-IsFirstNamed f spec.functions h
