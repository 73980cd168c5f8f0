-- ===== src/Source/Failed.antt =====
-- A lookup that fails leaves the cache as it was.
use orcusapi.Base.{◌≡◌, refl, ap, sym, ◌∙◌, Result, ok, err, Option-cases, inl, inr, List, String}
use orcusapi.Std.HashMap
use orcusapi.Sdk.{Sdk}
use orcusapi.Chain.{Chain}
use orcusapi.Spec.{ContractSpec}
use orcusapi.World.{Network, World, Action, continue, ◌>>=◌, lift}
use orcusapi.Rpc.{call, get_ledger_entries}
use orcusapi.Source.{
  read_spec_entries_from_wasm, parse_wasm_hash, fetch_wasm_by_hash, store_spec, fetch_spec,
  cached_or_fetch, cache_key, get_or_fetch_spec,
}

-- the cache before and after an action
record KeepsCache {ℓ} {E : Type 0} {A : Type ℓ} (m : Action E A) : Type 0 where
  at : (w : World) → (m w).1.spec_cache ≡ w.spec_cache

lift-KeepsCache {ℓ} : {E : Type 0} {A : Type ℓ} (r : Result E A) → KeepsCache (lift r)
unfolding lift
lift-KeepsCache r = record { at = λ w. refl }

module _ {ℓ κ} {E : Type 0} {A : Type ℓ} {B : Type κ} where
  continue_lem :
      (p : Result E A × World) (f : A → Action E B)
      → ((a : A) → KeepsCache (f a))
      → (continue p f).1.spec_cache ≡ p.1.spec_cache
  continue_lem (ok a, w) f h = (h a).at w
  continue_lem (err e, w) f h = refl

  bind-KeepsCache :
      (m : Action E A) (f : A → Action E B)
      → KeepsCache m
      → ((a : A) → KeepsCache (f a))
      → KeepsCache (m >>= f)
  unfolding ◌>>=◌
  bind-KeepsCache m f p q = record { at = λ w. continue_lem (m w) f q ∙ p.at w }

module _ (sdk : Sdk) (chain : Chain) (net : Network) where
  get_ledger_entries-KeepsCache :
      (keys : List String) → KeepsCache (get_ledger_entries chain net keys)
  unfolding get_ledger_entries call
  get_ledger_entries-KeepsCache keys = record { at = λ w. refl }

  fetch_wasm-KeepsCache : (hash : String) → KeepsCache (fetch_wasm_by_hash sdk chain net hash)
  unfolding fetch_wasm_by_hash
  fetch_wasm-KeepsCache hash =
      search (lift-KeepsCache, bind-KeepsCache, get_ledger_entries-KeepsCache) depth 8

  -- a failure behind the fetch is a failure before the store
  continue-failed :
      {A : Type 0} (p : Result String A × World) (f : A → Action String ContractSpec) (m : String)
      (w' : World)
      → ((a : A) (w : World) → f a w ≡ (err m, w') → w'.spec_cache ≡ w.spec_cache)
      → continue p f ≡ (err m, w')
      → w'.spec_cache ≡ p.1.spec_cache
  continue-failed (ok a, w) f m w' h e = h a w e
  continue-failed (err _, w) f m w' h e = ap (λ r. r.1.spec_cache) (sym e)

  fetch_spec-failed :
      (key m : String) (w w' : World)
      → fetch_spec sdk chain net key w ≡ (err m, w')
      → w'.spec_cache ≡ w.spec_cache
  unfolding fetch_spec ◌>>=◌ store_spec lift
  fetch_spec-failed key m w w' h =
      continue-failed (fetch_wasm_by_hash sdk chain net key w) _ m w'
        (λ wasm u h₁.
          continue-failed (lift (read_spec_entries_from_wasm sdk chain wasm) u) _ m w'
            (λ entries v h₂. cc) h₁)
        h
      ∙ (fetch_wasm-KeepsCache key).at w

  cached_or_fetch-failed :
      (key m : String) (w w' : World)
      → cached_or_fetch sdk chain net key w ≡ (err m, w')
      → w'.spec_cache ≡ w.spec_cache
  unfolding cached_or_fetch
  cached_or_fetch-failed key m w w' h = elim (Option-cases (HashMap.get key w.spec_cache)) [
    | inl missing ↦ fetch_spec-failed key m w w' (rw (missing, cached_or_fetch) at h)
    | inr (spec, found) ↦ let hit = rw (found, cached_or_fetch) at h in cc
  ]

  -- A lookup that fails, by a malformed hash, a missing code, a code without an interface or a failure of
  -- the network, leaves the cache as it was.
  pub get_or_fetch_spec-failed :
      (hash m : String) (w w' : World)
      → get_or_fetch_spec sdk chain net hash w ≡ (err m, w')
      → w'.spec_cache ≡ w.spec_cache
  unfolding get_or_fetch_spec ◌>>=◌ lift
  get_or_fetch_spec-failed hash m w w' h =
      continue-failed (lift (parse_wasm_hash sdk chain (cache_key sdk chain net hash)) w) _ m w'
        (λ _ u h₁. cached_or_fetch-failed (cache_key sdk chain net hash) m u w' h₁) h
