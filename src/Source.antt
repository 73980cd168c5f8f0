-- ===== src/Source.antt =====
-- src/contract_source.rs, and `read_spec_entries_from_wasm` of src/spec.rs.
pub mod Cache
pub mod Shared
pub mod Failed
pub mod Section
use Prim.Native.Char.{Char, code}
use Prim.Native.String
use orcusapi.Base.{
  ℕ, ◌==◌, leb, ◌≡◌, Bool, true, false, ◌&&◌, ◌||◌, Option, none, some, List, [], ◌∷◌, String,
  str_eq, Result, ok, err, ok_or, map_err, length, first, if◌then◌else◌, any,
}
use orcusapi.Base.Text.{format, reverse_text}
use orcusapi.Std.HashMap
use orcusapi.Json.{Json}
use orcusapi.Xdr.{Bytes, LedgerKey}
use orcusapi.Xdr.Spec.{SpecEntry}
use orcusapi.Xdr.Tx.{LedgerEntry}
use orcusapi.Sdk.{Sdk}
use orcusapi.Chain.{Chain, Payload, custom_section, other_payload}
use orcusapi.Spec.{ContractSpec, from_entries}
use orcusapi.World.{Network, World, Action, ◌>>=◌, ◌>>◌, pure, lift, fail, on_error}
use orcusapi.Rpc.{get_ledger_entries}
use orcusapi.Scval.Scalars.{Fallible}
use orcusapi.Txbuild.{array_field, as_str_field}

-- Unicode `White_Space`, as `char::is_whitespace` tests it
abbrev pub is_whitespace : Char → Bool
is_whitespace c =
    let n = code c in
    (leb 9 n && leb n 13)
    || (leb 8192 n && leb n 8202)
    || any (λ m. m == n) (32 ∷ 133 ∷ 160 ∷ 5760 ∷ 8232 ∷ 8233 ∷ 8239 ∷ 8287 ∷ 12288 ∷ [])

unfoldable pub trim_start : String → String
trim_start String.[] = String.[]
trim_start (String.◌∷◌ c s) =
    let rest = trim_start s in if is_whitespace c then rest else String.◌∷◌ c s

-- `str::trim`
unfoldable pub trim : String → String
unfolding trim_start
trim s = reverse_text (trim_start (reverse_text (trim_start s)))

abbrev pub contract_spec_section : String
contract_spec_section = "contractspecv0"

-- the loop over the payloads, up to the first section of the name
unfoldable pub spec_section : List (Result String Payload) → Fallible (Option Bytes)
spec_section [] = ok none
spec_section (err e ∷ rest) = err "failed parsing WASM module"
spec_section (ok other_payload ∷ rest) = spec_section rest
spec_section (ok (custom_section name contents) ∷ rest) =
    let later = spec_section rest in
    if str_eq name contract_spec_section then ok (some contents) else later

module _ (sdk : Sdk) (chain : Chain) where
  unfoldable pub parse_wasm_hash : String → Fallible Bytes
  unfolding trim
  parse_wasm_hash text = elim (sdk.hex_decode (trim text)) [
    | ok bytes ↦
        if length bytes == 32
        then ok bytes
        else err "wasm hash must be exactly 32 bytes (64 hex characters)"
    | err e ↦ err (format ("wasm hash must be hex-encoded: " ∷ e ∷ []))
  ]

  -- `section_data.ok_or_else(…)`, then the entries
  unfoldable pub entries_of_section : Option Bytes → Fallible (List SpecEntry)
  entries_of_section none =
      err
        "WASM module has no `contractspecv0` custom section; it may not be a Soroban contract, or was built without contract metadata"
  entries_of_section (some section) =
      map_err (λ e. format ("failed decoding contract spec entries: " ∷ e ∷ []))
        (chain.decode_entries section)

  unfoldable pub read_spec_entries_from_wasm : Bytes → Fallible (List SpecEntry)
  unfolding spec_section entries_of_section
  read_spec_entries_from_wasm wasm = elim (spec_section (chain.parse_all wasm)) [
    | ok section ↦ entries_of_section section
    | err e ↦ err e
  ]

  unfoldable pub code_of : LedgerEntry → Fallible Bytes
  code_of (LedgerEntry.contract_code code) = ok code
  code_of (LedgerEntry.account n) = err (
      format (
        "expected a ContractCode ledger entry, got "
        ∷ chain.debug_ledger_entry (LedgerEntry.account n)
        ∷ []))
  code_of (LedgerEntry.other x) = err (
      format (
        "expected a ContractCode ledger entry, got "
        ∷ chain.debug_ledger_entry (LedgerEntry.other x)
        ∷ []))

  module _ (net : Network) where
    unfoldable pub fetch_wasm_by_hash : String → Action String Bytes
    unfolding parse_wasm_hash code_of
    fetch_wasm_by_hash wasm_hash_hex = do
      hash ← lift (parse_wasm_hash wasm_hash_hex)
      key ← lift (
          map_err (λ _. "failed encoding ledger key")
            (chain.encode_ledger_key (LedgerKey.contract_code hash)))
      resp ← get_ledger_entries chain net (key ∷ [])
      entry ← lift (
          ok_or
            (format (
              "no contract WASM found on-chain for hash `" ∷ wasm_hash_hex
              ∷ "` (it may not be uploaded on this network, or the hash is wrong)" ∷ []))
            (first (array_field "entries" resp)))
      xdr ← lift (as_str_field chain "xdr" entry)
      entry_data ←
          lift (ok_or "failed decoding ContractCode ledger entry" (chain.decode_ledger_entry xdr))
      lift (code_of entry_data)

    -- `cache.write().await.insert(key, spec)`
    unfoldable pub store_spec : String → ContractSpec → Action String ContractSpec
    store_spec key spec w =
        (ok spec, record w { spec_cache = HashMap.insert key spec w.spec_cache })

    -- behind a miss
    unfoldable pub fetch_spec : String → Action String ContractSpec
    unfolding fetch_wasm_by_hash read_spec_entries_from_wasm store_spec
    fetch_spec key = do
      wasm ← fetch_wasm_by_hash key
      entries ← lift (read_spec_entries_from_wasm wasm)
      store_spec key (from_entries sdk entries)

    unfoldable pub cached_or_fetch : String → Action String ContractSpec
    unfolding fetch_spec
    cached_or_fetch key w = elim (HashMap.get key w.spec_cache) [
      | some spec ↦ (ok spec, w)
      | none ↦ fetch_spec key w
    ]

    unfoldable pub cache_key : String → String
    unfolding trim
    cache_key wasm_hash_hex = chain.to_lowercase (trim wasm_hash_hex)

    unfoldable pub get_or_fetch_spec : String → Action String ContractSpec
    unfolding cached_or_fetch parse_wasm_hash cache_key
    get_or_fetch_spec wasm_hash_hex = do
      checked ← lift (parse_wasm_hash (cache_key wasm_hash_hex))
      cached_or_fetch (cache_key wasm_hash_hex)
