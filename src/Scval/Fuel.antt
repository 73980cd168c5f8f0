-- ===== src/Scval/Fuel.antt =====
-- The fuel of `json_to_scval` never runs out: it satisfies the equation of the recursive source.
mod Heights
mod Congruence
use orcusapi.Base.{ℕ, zero, suc, ◌+◌, ◌*◌, max, ◌≤◌, ◌<◌, ◌≡◌, refl, sym, ◌∙◌, String, err, arith}
use orcusapi.Json.{Json, height}
use orcusapi.Xdr.{ScVal}
use orcusapi.Xdr.Spec.{TypeDef, depth}
use orcusapi.Sdk.{Sdk}
use orcusapi.Spec.{ContractSpec}
use orcusapi.Scval.Scalars.{Fallible}
use orcusapi.Scval.Convert.{convert_with, run, enough, spec_depth, json_to_scval}
use Congruence.{convert_with-cong}

module _ (sdk : Sdk) (spec : ContractSpec) (bound : ℕ) (covers : spec_depth spec ≤ bound) where
  -- a part of the value costs less than the value, whatever its type
  enough-lower :
      (v w : Json) (t u : TypeDef)
      → height w < height v
      → depth u ≤ bound
      → enough bound w u < enough bound v t
  unfolding enough
  enough-lower v w t u p q = grind arith

  -- Above `enough` neither the fuel nor the answer for its end matters.
  run_stable :
      (stuck stuck' : Fallible ScVal) (n m : ℕ) (v : Json) (t : TypeDef)
      → depth t ≤ bound
      → enough bound v t ≤ n
      → enough bound v t ≤ m
      → run sdk spec stuck n v t ≡ run sdk spec stuck' m v t
  unfolding run
  run_stable stuck stuck' zero m v t fits p q = absurd (unfold enough in omega arith)
  run_stable stuck stuck' (suc n) zero v t fits p q = absurd (unfold enough in omega arith)
  run_stable stuck stuck' (suc n) (suc m) v t fits p q =
      convert_with-cong sdk bound (run sdk spec stuck n) (run sdk spec stuck' m) spec covers v t
        (λ w u lower small.
          run_stable stuck stuck' n m w u small (omega (arith, enough-lower v w t u lower small))
            (omega (arith, enough-lower v w t u lower small)))
        (λ u smaller.
          run_stable stuck stuck' n m v u (omega arith) (unfold enough in omega arith)
            (unfold enough in omega arith))
        fits

module _ (sdk : Sdk) (spec : ContractSpec) where
  -- Any fuel from the bound on, and any answer for the end of the fuel, gives the same conversion.
  pub run-json_to_scval :
      (stuck : Fallible ScVal) (fuel : ℕ) (v : Json) (t : TypeDef)
      → enough (max (depth t) (spec_depth spec)) v t ≤ fuel
      → run sdk spec stuck fuel v t ≡ json_to_scval sdk spec v t
  unfolding json_to_scval
  run-json_to_scval stuck fuel v t p =
      run_stable sdk spec (max (depth t) (spec_depth spec)) (omega arith) stuck (err "out of fuel")
        fuel (enough (max (depth t) (spec_depth spec)) v t) v t (omega arith) p (omega arith)

  enough_mono : (a b : ℕ) (v : Json) (t : TypeDef) → a ≤ b → enough a v t ≤ enough b v t
  unfolding enough
  enough_mono a b v t p = grind arith

  same_value :
      (v : Json) (t u : TypeDef)
      → depth u < depth t
      → enough (max (depth u) (spec_depth spec)) v u
        ≤ height v * suc (max (depth t) (spec_depth spec)) + depth t
  same_value v t u p =
      let bound = max (depth t) (spec_depth spec) in
      let mono = enough_mono (max (depth u) (spec_depth spec)) bound v u (omega arith) in
      unfold enough in omega arith

  part_of_value :
      (v w : Json) (t u : TypeDef)
      → height w < height v
      → depth u ≤ max (depth t) (spec_depth spec)
      → enough (max (depth u) (spec_depth spec)) w u
        ≤ height v * suc (max (depth t) (spec_depth spec)) + depth t
  part_of_value v w t u p q =
      let bound = max (depth t) (spec_depth spec) in
      let mono = enough_mono (max (depth u) (spec_depth spec)) bound w u (omega arith) in
      let lower = enough-lower sdk spec bound (omega arith) v w t u p q in
      unfold enough in omega arith

  -- For every value, type and contract interface, recursive ones included, `json_to_scval` is the body
  -- of the source with `json_to_scval` for its recursive calls.
  pub json_to_scval-eq :
      (v : Json) (t : TypeDef)
      → json_to_scval sdk spec v t ≡ convert_with sdk spec (json_to_scval sdk spec) v t
  json_to_scval-eq v t =
      let bound = max (depth t) (spec_depth spec) in
      let k = height v * suc bound + depth t in
      sym (run-json_to_scval (err "out of fuel") (suc k) v t (unfold enough in omega arith))
      ∙ unfold run in
        convert_with-cong sdk bound (run sdk spec (err "out of fuel") k) (json_to_scval sdk spec)
          spec (omega arith) v t
          (λ w u lower fits.
            run-json_to_scval (err "out of fuel") k w u (part_of_value v w t u lower fits))
          (λ u smaller. run-json_to_scval (err "out of fuel") k v u (same_value v t u smaller))
          (omega arith)
