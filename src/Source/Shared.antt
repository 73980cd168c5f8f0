-- ===== src/Source/Shared.antt =====
-- The cache of interfaces as its users see it: as if every lookup read the code on the chain.
use orcusapi.Base.{
  ◌≡◌, ap, sym, ◌∙◌, Bool-cases, inl, inr, some, List, String, str_eq, eq_iff, ok, arith,
}
use mathlib.Core.Path.{subst}
use orcusapi.Std.HashMap
use orcusapi.Xdr.{Bytes}
use orcusapi.Xdr.Spec.{SpecEntry}
use orcusapi.Sdk.{Sdk}
use orcusapi.Chain.{Chain}
use orcusapi.Spec.{ContractSpec, from_entries}
use orcusapi.World.{Network, World, Settings}
use orcusapi.World.Steps.{Step, sends, stores, Steps, done, next, WasFetched, Steps-trans}
use orcusapi.Source.{fetch_wasm_by_hash, read_spec_entries_from_wasm, cache_key, get_or_fetch_spec}
use orcusapi.Source.Cache.{get_or_fetch_spec-stores}
use orcusapi.Server.Traced.{get_or_fetch_spec-IsTraced}
use orcusapi.Server.Reach.{IsReachable, after}
use orcusapi.Startup.{start, initial}
use orcusapi.Startup.Traced.{start-Steps}

module _ (sdk : Sdk) (chain : Chain) (net : Network) where
  -- The network serves one code under a hash, at all times.
  pub record IsImmutable (code : String → Bytes) : Type 0 where
    pub same :
        (key : String) (wasm : Bytes) (w w' : World)
        → fetch_wasm_by_hash sdk chain net key w ≡ (ok wasm, w')
        → wasm ≡ code key

  -- The interface that a module of code declares.
  abbrev pub IsInterfaceOf : Bytes → ContractSpec → Type 0
  IsInterfaceOf wasm spec =
      (entries : List SpecEntry) × (read_spec_entries_from_wasm sdk chain wasm ≡ ok entries)
      × (spec ≡ from_entries sdk entries)

  -- Whatever is cached was read from code that was fetched under its key.
  record IsCoherent (w : World) : Type 0 where
    at :
        (key : String) (spec : ContractSpec)
        → HashMap.get key w.spec_cache ≡ some spec
        → (entries : List SpecEntry) × WasFetched sdk chain net key entries
          × (spec ≡ from_entries sdk entries)

  Step-IsCoherent : {v w : World} → Step sdk chain net v w → IsCoherent v → IsCoherent w
  Step-IsCoherent (sends method params) h = record { at = h.at }
  Step-IsCoherent {v} (stores key entries was) h = record {
    at = λ j spec found.
        let seen = sym (HashMap.get-insert key j (from_entries sdk entries) v.spec_cache) ∙ found in
        elim (Bool-cases (str_eq key j)) [
          | inl here ↦
              let stored = rw here at seen in
              let same_key : key ≡ j = ground (arith, eq_iff key j) in
              (entries, subst (λ k. WasFetched sdk chain net k entries) same_key was, cc)
          | inr elsewhere ↦ h.at j spec (rw elsewhere at seen)
        ];
  }

  Steps-IsCoherent : {v w : World} → Steps sdk chain net v w → IsCoherent v → IsCoherent w
  Steps-IsCoherent done h = h
  Steps-IsCoherent (next steps step) h = Step-IsCoherent step (Steps-IsCoherent steps h)

  module _ (settings : Settings) where
    start-IsCoherent :
        (w : World) → start sdk chain net settings initial ≡ (ok tt, w) → IsCoherent w
    unfolding HashMap.get
    start-IsCoherent w started =
        let (u, steps, same) = start-Steps sdk chain net settings w started in
        let coherent : IsCoherent u =
          Steps-IsCoherent steps (record { at = λ key spec found. cc }) in
        subst IsCoherent (sym same) (record { at = coherent.at })

    IsReachable-IsCoherent : {w : World} → IsReachable sdk chain net settings w → IsCoherent w
    IsReachable-IsCoherent (after started steps) =
        Steps-IsCoherent steps (start-IsCoherent _ started)

    -- In every state of the running server, however its handlers mix their steps, a lookup that succeeds
    -- gives the interface that the code under the hash declares, if the network serves one code under a
    -- hash: a user of the cache cannot tell it from the chain.
    pub get_or_fetch_spec-IsInterfaceOf :
        (code : String → Bytes) (hash : String) (spec : ContractSpec) (w w' : World)
        → IsImmutable code
        → IsReachable sdk chain net settings w
        → get_or_fetch_spec sdk chain net hash w ≡ (ok spec, w')
        → IsInterfaceOf (code (cache_key sdk chain net hash)) spec
    get_or_fetch_spec-IsInterfaceOf code hash spec w w' immutable (after started steps) found =
        let lookup : Steps sdk chain net w w' =
          subst (Steps sdk chain net w) (ap (λ r. r.1) found)
            ((get_or_fetch_spec-IsTraced sdk chain net hash).at w) in
        let later = Steps-trans sdk chain net steps lookup in
        let (entries, was, same) =
          (IsReachable-IsCoherent (after started later)).at (cache_key sdk chain net hash) spec
            (get_or_fetch_spec-stores sdk chain net hash spec w w' found) in
        let wasm =
          immutable.same (cache_key sdk chain net hash) was.wasm was.before was.after was.fetched in
        (entries, rw (← wasm) was.read, same)
