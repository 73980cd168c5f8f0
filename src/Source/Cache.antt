-- ===== src/Source/Cache.antt =====
-- The cache of parsed interfaces in `get_or_fetch_spec`.
use orcusapi.Base.{
  ◌≡◌, ap, sym, ◌∙◌, none, some, String, eq_refl, ok, err, ok-injective, Option-cases, inl, inr,
  if◌then◌else◌,
}
use orcusapi.Std.HashMap
use orcusapi.Xdr.{Bytes}
use orcusapi.Sdk.{Sdk}
use orcusapi.Chain.{Chain}
use orcusapi.Spec.{ContractSpec, from_entries}
use orcusapi.World.{continue_inv, Network, World, ◌>>=◌, lift}
use orcusapi.Source.{
  read_spec_entries_from_wasm, parse_wasm_hash, fetch_wasm_by_hash, store_spec, fetch_spec,
  cached_or_fetch, cache_key, get_or_fetch_spec,
}

module _ (sdk : Sdk) (chain : Chain) (net : Network) where
  -- Behind a valid hash everything is up to the cache.
  valid_hash :
      (hash : String) (bytes : Bytes) (w : World)
      → parse_wasm_hash sdk chain (cache_key sdk chain net hash) ≡ ok bytes
      → get_or_fetch_spec sdk chain net hash w
        ≡ cached_or_fetch sdk chain net (cache_key sdk chain net hash) w
  unfolding get_or_fetch_spec ◌>>=◌
  valid_hash hash bytes w e = rw e

  invalid_hash :
      (hash : String) (message : String) (w : World)
      → parse_wasm_hash sdk chain (cache_key sdk chain net hash) ≡ err message
      → get_or_fetch_spec sdk chain net hash w ≡ (err message, w)
  unfolding get_or_fetch_spec ◌>>=◌
  invalid_hash hash message w e = rw e

  hit :
      (key : String) (spec : ContractSpec) (w : World)
      → HashMap.get key w.spec_cache ≡ some spec
      → cached_or_fetch sdk chain net key w ≡ (ok spec, w)
  unfolding cached_or_fetch
  hit key spec w e = rw (e, cached_or_fetch)

  -- A cached interface is returned without a request, and nothing changes.
  pub get_or_fetch_spec-hit :
      (hash : String) (bytes : Bytes) (spec : ContractSpec) (w : World)
      → parse_wasm_hash sdk chain (cache_key sdk chain net hash) ≡ ok bytes
      → HashMap.get (cache_key sdk chain net hash) w.spec_cache ≡ some spec
      → get_or_fetch_spec sdk chain net hash w ≡ (ok spec, w)
  get_or_fetch_spec-hit hash bytes spec w valid cached =
      valid_hash hash bytes w valid ∙ hit (cache_key sdk chain net hash) spec w cached

  store_spec-stores :
      (key : String) (stored spec : ContractSpec) (w w' : World)
      → store_spec sdk chain net key stored w ≡ (ok spec, w')
      → HashMap.get key w'.spec_cache ≡ some spec
  unfolding store_spec
  store_spec-stores key stored spec w w' h =
      ap (λ p. HashMap.get key p.1.spec_cache) (sym h)
      ∙ HashMap.get-insert key key stored w.spec_cache
      ∙ ap (λ b. if b then some stored else HashMap.get key w.spec_cache) (eq_refl key)
      ∙ ap some (ok-injective (ap (λ p. p.0) h))

  miss :
      (key : String) (w : World)
      → HashMap.get key w.spec_cache ≡ none
      → cached_or_fetch sdk chain net key w ≡ fetch_spec sdk chain net key w
  unfolding cached_or_fetch
  miss key w e = rw (e, cached_or_fetch)

  -- what a fetch returns is in the cache after it
  fetch_spec-stores :
      (key : String) (spec : ContractSpec) (w w' : World)
      → fetch_spec sdk chain net key w ≡ (ok spec, w')
      → HashMap.get key w'.spec_cache ≡ some spec
  unfolding fetch_spec ◌>>=◌ store_spec
  fetch_spec-stores key spec w w' h =
      let (wasm, w₁, _, h₁) = continue_inv (fetch_wasm_by_hash sdk chain net key w) _ h in
      let (entries, w₂, _, h₂) =
        continue_inv (lift (read_spec_entries_from_wasm sdk chain wasm) w₁) _ h₁ in
      store_spec-stores key (from_entries sdk entries) spec w₂ w' h₂

  cached_or_fetch-stores :
      (key : String) (spec : ContractSpec) (w w' : World)
      → cached_or_fetch sdk chain net key w ≡ (ok spec, w')
      → HashMap.get key w'.spec_cache ≡ some spec
  cached_or_fetch-stores key spec w w' h = elim (Option-cases (HashMap.get key w.spec_cache)) [
    | inl missing ↦ fetch_spec-stores key spec w w' (sym (miss key w missing) ∙ h)
    | inr (cached, found) ↦
        let same = sym (hit key cached w found) ∙ h in
        ap (λ p. HashMap.get key p.1.spec_cache) (sym same)
        ∙ found
        ∙ ap some (ok-injective (ap (λ p. p.0) same))
  ]

  pub get_or_fetch_spec-stores :
      (hash : String) (spec : ContractSpec) (w w' : World)
      → get_or_fetch_spec sdk chain net hash w ≡ (ok spec, w')
      → HashMap.get (cache_key sdk chain net hash) w'.spec_cache ≡ some spec
  unfolding get_or_fetch_spec ◌>>=◌ lift
  get_or_fetch_spec-stores hash spec w w' h =
      let (_, w₁, _, h₁) =
        continue_inv (lift (parse_wasm_hash sdk chain (cache_key sdk chain net hash)) w)
          (λ _. cached_or_fetch sdk chain net (cache_key sdk chain net hash)) h in
      cached_or_fetch-stores (cache_key sdk chain net hash) spec w₁ w' h₁

  -- A successful lookup leaves its result in the cache: the next lookup of the same hash returns it
  -- without a request and changes nothing.
  pub get_or_fetch_spec-again :
      (hash : String) (spec : ContractSpec) (w w' : World)
      → get_or_fetch_spec sdk chain net hash w ≡ (ok spec, w')
      → get_or_fetch_spec sdk chain net hash w' ≡ (ok spec, w')
  unfolding get_or_fetch_spec ◌>>=◌ lift
  get_or_fetch_spec-again hash spec w w' h =
      let (bytes, w₁, valid, h₁) =
        continue_inv (lift (parse_wasm_hash sdk chain (cache_key sdk chain net hash)) w)
          (λ _. cached_or_fetch sdk chain net (cache_key sdk chain net hash)) h in
      get_or_fetch_spec-hit hash bytes spec w' (ap (λ p. p.0) valid)
        (cached_or_fetch-stores (cache_key sdk chain net hash) spec w₁ w' h₁)
