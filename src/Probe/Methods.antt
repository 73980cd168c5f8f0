-- ===== src/Probe/Methods.antt =====
-- What `classify_functions` puts to GET.
use mathlib.Core.Path.{subst}
use orcusapi.Base.{
  Ensures-ok_or, ◌≡◌, ◌≢◌, ◌⊎◌, refl, Bool, true, false, not, List, [], ◌∷◌, String, Result, eq_iff,
  arith, if◌then◌else◌, some, is_empty, inl, inr,
}
use orcusapi.Std.HashMap.{get, insert, get-insert}
use orcusapi.Xdr.Spec.{Function, Field}
use orcusapi.Sdk.{Sdk}
use orcusapi.Chain.{Chain}
use orcusapi.Spec.{ContractSpec}
use orcusapi.Base.Int.{pos}
use orcusapi.Json.{Json, string, obj}
use orcusapi.Xdr.Tx.{Envelope}
use orcusapi.World.{Request, Network, World}
use orcusapi.World.Returns.{Returns, returns, stops, Returns-bind, Returns-bind_lift, Returns-pure}
use orcusapi.World.Steps.{Steps}
use orcusapi.World.Answers.{HasAnswer, Steps-HasAnswer, call-HasAnswer}
use orcusapi.Rpc.{simulate_transaction}
use orcusapi.Txbuild.{SimulationOutcome, envelope_to_base64}
use orcusapi.Txbuild.Invocation.{IsInvocation, IsUnsigned, build-IsInvocation}
use orcusapi.Txbuild.Simulation.{IsSimulationOf, parse_simulation-IsSimulationOf}
use orcusapi.Startup.Traced.{classify_from-Steps}
use orcusapi.Probe.{
  probe_source_account, probe_no_arg_function, read_only_or_post, classify, classify_from,
  classify_functions,
}

module _ (sdk : Sdk) (chain : Chain) (net : Network) (contract_id : String) where
  -- The function has no inputs, its call was simulated for the probe's account, and the footprint in the
  -- network's answer writes nothing.
  pub record IsReadOnly (name : String) (f : Function) (sent : List Request) : Type 0 where
    pub tx : Envelope
    pub text : String
    pub resp : Json
    pub sim : SimulationOutcome
    pub named : sdk.to_text f.name ≡ name
    pub no_inputs : f.inputs ≡ []
    pub invokes :
        IsUnsigned
          (IsInvocation sdk contract_id name (probe_source_account sdk chain) (pos 1) [] [])
          tx
    pub encoded : chain.encode_envelope tx ≡ some text
    pub answered :
        HasAnswer chain net "simulateTransaction"
          (obj (("transaction", string text) ∷ []))
          resp
          sent
    pub simulation : IsSimulationOf chain resp sim
    pub writes_nothing : sim.soroban_data.read_write ≡ []

  pub data HasReadOnly (name : String) (sent : List Request) : List Function → Type 0 where
    here :
        {f : Function} {fs : List Function}
        → IsReadOnly name f sent
        → HasReadOnly name sent (f ∷ fs)
    there :
        {f : Function} {fs : List Function}
        → HasReadOnly name sent fs
        → HasReadOnly name sent (f ∷ fs)

  -- what was answered stays answered
  Steps-IsReadOnly :
      {name : String} {f : Function} {v w : World}
      → Steps sdk chain net v w
      → IsReadOnly name f v.sent
      → IsReadOnly name f w.sent
  Steps-IsReadOnly steps h = record {
    tx = h.tx;
    text = h.text;
    resp = h.resp;
    sim = h.sim;
    named = h.named;
    no_inputs = h.no_inputs;
    invokes = h.invokes;
    encoded = h.encoded;
    answered = Steps-HasAnswer sdk chain net steps h.answered;
    simulation = h.simulation;
    writes_nothing = h.writes_nothing;
  }

  pub Steps-HasReadOnly :
      {name : String} {v w : World} {fs : List Function}
      → Steps sdk chain net v w
      → HasReadOnly name v.sent fs
      → HasReadOnly name w.sent fs
  Steps-HasReadOnly steps (here h) = here (Steps-IsReadOnly steps h)
  Steps-HasReadOnly steps (there h) = there (Steps-HasReadOnly steps h)

  get-empty : (name : String) → get {V = Bool} name [] ≢ some true
  unfolding get
  get-empty name h = cc

  is_empty-nil : {A : Type 0} (xs : List A) → is_empty xs ≡ true → xs ≡ []
  is_empty-nil [] h = refl
  is_empty-nil (x ∷ xs) h = cc

  probed :
      (text : String) (w : World)
      → Returns
          (λ resp v.
            HasAnswer chain net "simulateTransaction"
              (obj (("transaction", string text) ∷ []))
              resp
              v.sent)
          (simulate_transaction chain net text w)
  unfolding simulate_transaction
  probed text w = call-HasAnswer chain net "simulateTransaction" _ w

  -- a probe that finds nothing written
  probe-IsReadOnly :
      (f : Function) (w : World)
      → f.inputs ≡ []
      → Returns
          (λ read_only v. read_only ≡ true → IsReadOnly (sdk.to_text f.name) f v.sent)
          (probe_no_arg_function sdk chain net contract_id
            (probe_source_account sdk chain)
            (sdk.to_text f.name)
            w)
  unfolding probe_no_arg_function envelope_to_base64
  probe-IsReadOnly f w no_inputs =
      Returns-bind_lift _ w
        (build-IsInvocation sdk contract_id (sdk.to_text f.name) (probe_source_account sdk chain)
          (pos 1) [])
        λ tx invokes.
          Returns-bind_lift _ w (Ensures-ok_or _ (chain.encode_envelope tx)) λ text encoded.
            Returns-bind _ _ (probed text w) λ resp v answered.
              Returns-bind_lift _ v (parse_simulation-IsSimulationOf chain sdk resp)
                λ sim simulation. Returns-pure _ v λ empty. record {
                  tx = tx;
                  text = text;
                  resp = resp;
                  sim = sim;
                  named = refl;
                  no_inputs = no_inputs;
                  invokes = invokes;
                  encoded = encoded;
                  answered = answered;
                  simulation = simulation;
                  writes_nothing = is_empty-nil sim.soroban_data.read_write empty;
                }

  read_only_lem :
      {P : World → Type 0} (r : Result String Bool × World)
      → Returns (λ b v. b ≡ true → P v) r
      → (read_only_or_post sdk chain net contract_id r).0 ≡ true
      → P (read_only_or_post sdk chain net contract_id r).1
  read_only_lem _ (returns h) e = h e
  read_only_lem _ stops e = cc

  empty_lem : (fs : List Field) → not (is_empty fs) ≡ false → fs ≡ []
  empty_lem [] h = refl
  empty_lem (f ∷ fs) h = cc

  if_lem :
      (P : World → Type 0) (b : Bool) (w : World) (r : Bool × World)
      → (b ≡ false → r.0 ≡ true → P r.1)
      → (if b then (false, w) else r).0 ≡ true
      → P (if b then (false, w) else r).1
  if_lem P true w r k h = cc
  if_lem P false w r k h = k refl h

  classify-IsReadOnly :
      (f : Function) (w : World)
      → (classify sdk chain net contract_id f w).0 ≡ true
      → IsReadOnly (sdk.to_text f.name) f (classify sdk chain net contract_id f w).1.sent
  unfolding classify
  classify-IsReadOnly f w h =
      let probe =
        probe_no_arg_function sdk chain net contract_id (probe_source_account sdk chain)
          (sdk.to_text f.name) w in
      if_lem (λ v. IsReadOnly (sdk.to_text f.name) f v.sent) (not (is_empty f.inputs)) w
        (read_only_or_post sdk chain net contract_id probe)
        (λ no_inputs.
          read_only_lem {P = λ v. IsReadOnly (sdk.to_text f.name) f v.sent} probe
            (probe-IsReadOnly f w (empty_lem f.inputs no_inputs)))
        h

  -- after one round, what is read is either that round's or was there
  insert_lem :
      (name k : String) (b : Bool) (m : List (String × Bool))
      → get name (insert k b m) ≡ some true
      → ((k ≡ name) × (b ≡ true)) ⊎ (get name m ≡ some true)
  insert_lem name k b m h = ground (arith, get-insert k name b m, eq_iff k name, h)

  classify_from_sound :
      (name : String) (methods : List (String × Bool)) (fs : List Function) (w : World)
      → get name (classify_from sdk chain net contract_id methods fs w).0 ≡ some true
      → (get name methods ≡ some true)
        ⊎ HasReadOnly name (classify_from sdk chain net contract_id methods fs w).1.sent fs
  unfolding classify_from
  classify_from_sound name methods [] w h = inl h
  classify_from_sound name methods (f ∷ fs) w h =
      let r = classify sdk chain net contract_id f w in
      let later = insert (sdk.to_text f.name) r.0 methods in
      let steps = classify_from-Steps sdk chain net contract_id later fs r.1 in
      elim (classify_from_sound name later fs r.1 h) [
        | inr found ↦ inr (there found)
        | inl found ↦ elim (insert_lem name (sdk.to_text f.name) r.0 methods found) [
          | inr before ↦ inl before
          | inl (same, get_it) ↦ inr (
              here (
                Steps-IsReadOnly steps
                  (subst (λ n. IsReadOnly n f r.1.sent) same (classify-IsReadOnly f w get_it))))
        ]
      ]

  -- A name that startup puts to GET is that of a function of the interface without inputs for which, among
  -- the requests sent, is the simulation of an unsigned call without arguments from the probe's
  -- account, and the footprint that the network answered has no entry to be written.
  pub classify_functions_sound :
      (spec : ContractSpec) (name : String) (w : World)
      → get name (classify_functions sdk chain net contract_id spec w).0 ≡ some true
      → HasReadOnly name (classify_functions sdk chain net contract_id spec w).1.sent spec.functions
  unfolding classify_functions
  classify_functions_sound spec name w h = elim (classify_from_sound name [] spec.functions w h) [
    | inl found ↦ elim (get-empty name found) [ ]
    | inr listed ↦ listed
  ]
