-- ===== src/Txbuild/Simulation.antt =====
-- What a simulation says, read off the response and not off the parser.
use orcusapi.Base.{
  ◌≡◌, refl, none, some, List, [], ◌∷◌, String, ok, first, unwrap_or, and_then, Option-cases, inl,
  inr, Ensures, holds, failed, Ensures-bind, Ensures-ok_or, Ensures-map_err, Ensures-result,
  Ensures-weaken,
}
use mathlib.Core.Path.{subst}
use orcusapi.Std.Parse.{parse_signed}
use orcusapi.Std.Words.{max_i64}
use orcusapi.Json.{Json, string, get, as_str, as_array}
use orcusapi.Sdk.{Sdk}
use orcusapi.Chain.{Chain}
use orcusapi.Txbuild.{
  field, as_str_field, array_field, texts, result_of, parse_success, parse_simulation,
  SimulationOutcome,
}

pub as_str-string : (x : Json) (s : String) → as_str x ≡ some s → x ≡ string s
as_str-string (Json.string t) s h = cc
as_str-string Json.null s h = cc
as_str-string (Json.bool b) s h = cc
as_str-string (Json.number n) s h = cc
as_str-string (Json.array xs) s h = cc
as_str-string (Json.object fs) s h = cc

-- the texts among the values, in their order
pub data AreTexts : List Json → List String → Type 0 where
  no_value : AreTexts [] []
  a_text :
      {s : String} {xs : List Json} {ss : List String}
      → AreTexts xs ss
      → AreTexts (string s ∷ xs) (s ∷ ss)
  another :
      {x : Json} {xs : List Json} {ss : List String}
      → as_str x ≡ none
      → AreTexts xs ss
      → AreTexts (x ∷ xs) ss

texts-AreTexts : (xs : List Json) → AreTexts xs (texts xs)
unfolding texts
texts-AreTexts [] = no_value
texts-AreTexts (Json.string s ∷ xs) = a_text (texts-AreTexts xs)
texts-AreTexts (Json.null ∷ xs) = another refl (texts-AreTexts xs)
texts-AreTexts (Json.bool b ∷ xs) = another refl (texts-AreTexts xs)
texts-AreTexts (Json.number n ∷ xs) = another refl (texts-AreTexts xs)
texts-AreTexts (Json.array ys ∷ xs) = another refl (texts-AreTexts xs)
texts-AreTexts (Json.object fs ∷ xs) = another refl (texts-AreTexts xs)

module _ (chain : Chain) where
  pub as_str_field-string :
      (name : String) (v : Json)
      → Ensures (λ s. get name v ≡ some (string s)) (as_str_field chain name v)
  unfolding as_str_field field
  as_str_field-string name v = Ensures-bind (Ensures-ok_or _ (get name v)) λ x found.
      Ensures-weaken (Ensures-ok_or _ (as_str x))
        λ s is_text. subst (λ y. get name v ≡ some y) (as_str-string x s is_text) found

  -- The simulation succeeded without a need to restore state first; the footprint, the fee and the
  -- authorization are those of the response.
  pub record IsSimulationOf (resp : Json) (sim : SimulationOutcome) : Type 0 where
    pub data_text : String
    pub fee_text : String
    pub no_error : get "error" resp ≡ none
    pub no_restore : get "restorePreamble" resp ≡ none
    pub data_given : get "transactionData" resp ≡ some (string data_text)
    pub data_read : chain.decode_soroban_data data_text ≡ some sim.soroban_data
    pub fee_given : get "minResourceFee" resp ≡ some (string fee_text)
    pub fee_read : parse_signed max_i64 fee_text ≡ ok sim.min_resource_fee
    pub auth :
        AreTexts
          (unwrap_or []
            (and_then (and_then (first (array_field "results" resp)) (get "auth")) as_array))
          sim.auth_b64
    pub whole : sim.raw ≡ resp

  module _ (sdk : Sdk) where
    parse_success-IsSimulationOf :
        (resp : Json)
        → get "error" resp ≡ none
        → get "restorePreamble" resp ≡ none
        → Ensures (IsSimulationOf resp) (parse_success sdk chain resp)
    unfolding parse_success
    parse_success-IsSimulationOf resp no_error no_restore =
        Ensures-bind (as_str_field-string "transactionData" resp) λ data_text data_given.
          Ensures-bind (Ensures-ok_or _ (chain.decode_soroban_data data_text)) λ d data_read.
            Ensures-bind (as_str_field-string "minResourceFee" resp) λ fee_text fee_given.
              Ensures-bind (Ensures-map_err _ (Ensures-result (parse_signed max_i64 fee_text)))
                λ fee fee_read.
                  Ensures-bind
                    {f = λ result_json. ok (record {
                      soroban_data = d;
                      min_resource_fee = fee;
                      result_json = result_json;
                      auth_b64 = texts (
                          unwrap_or [] (
                            and_then (and_then (first (array_field "results" resp)) (get "auth"))
                              as_array));
                      raw = resp;
                    })}
                    (Ensures-result (result_of sdk chain _))
                    λ _ _. holds (record {
                      data_text = data_text;
                      fee_text = fee_text;
                      no_error = no_error;
                      no_restore = no_restore;
                      data_given = data_given;
                      data_read = data_read;
                      fee_given = fee_given;
                      fee_read = fee_read;
                      auth = texts-AreTexts _;
                      whole = refl;
                    })

    pub parse_simulation-IsSimulationOf :
        (resp : Json) → Ensures (IsSimulationOf resp) (parse_simulation sdk chain resp)
    unfolding parse_simulation
    parse_simulation-IsSimulationOf resp = elim (Option-cases (get "error" resp)) [
      | inr (e, failure) ↦ rw (failure, parse_simulation) failed
      | inl no_error ↦ elim (Option-cases (get "restorePreamble" resp)) [
        | inr (p, restore) ↦ rw (no_error, restore, parse_simulation) failed
        | inl no_restore ↦
            rw (no_error, no_restore, parse_simulation)
              (parse_success-IsSimulationOf resp no_error no_restore)
      ]
    ]
