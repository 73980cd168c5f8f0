-- ===== src/Scval/Render.antt =====
-- `scval_to_json` and `ledger_key_to_json` of src/scval.rs.
use orcusapi.Base.{Bool, true, false, List, [], ◌∷◌, String, if◌then◌else◌, all}
use orcusapi.Base.Text.{append}
use orcusapi.Std.Print.{show, show_ℤ}
use orcusapi.Json.{
  Json, Items, nil, cons, null, bool, string, array, object, to_fields, obj, arr, of_unsigned,
  of_signed, insert,
}
use orcusapi.Xdr.{Bytes, ScVal, ScVec, ScMap, empty, entry, entries, LedgerKey}
use orcusapi.Sdk.{Sdk}
use orcusapi.Scval.Parts.{u128_from_parts, i128_from_parts}
use orcusapi.Scval.Scalars.{address_to_string}

-- `matches!(e.key, ScVal::Symbol(_) | ScVal::String(_))`
abbrev pub is_text : ScVal → Bool
is_text (ScVal.symbol s) = true
is_text (ScVal.string s) = true
is_text _ = false

abbrev note : String → Json
note text = obj (("note", string text) ∷ [])

module _ (sdk : Sdk) where
  -- the text of a key; other keys are `unreachable!` behind the test on all keys
  abbrev pub key_text : ScVal → String
  key_text (ScVal.symbol s) = sdk.to_text s
  key_text (ScVal.string s) = sdk.to_text s
  key_text _ = ""

  unfoldable mutual
    pub scval_to_json : ScVal → Json
    scval_to_json (ScVal.bool b) = bool b
    scval_to_json ScVal.void = null
    scval_to_json (ScVal.error e) = obj (("error", string (sdk.debug_error e)) ∷ [])
    scval_to_json (ScVal.u32 n) = of_unsigned n
    scval_to_json (ScVal.i32 z) = of_signed z
    scval_to_json (ScVal.u64 n) = string (show n)
    scval_to_json (ScVal.i64 z) = string (show_ℤ z)
    scval_to_json (ScVal.timepoint n) = string (show n)
    scval_to_json (ScVal.duration n) = string (show n)
    scval_to_json (ScVal.u128 p) = string (show (u128_from_parts p))
    scval_to_json (ScVal.i128 p) = string (show_ℤ (i128_from_parts p))
    scval_to_json (ScVal.u256 x) = note "256-bit value; refetch with raw XDR for full precision"
    scval_to_json (ScVal.i256 x) = note "256-bit value; refetch with raw XDR for full precision"
    scval_to_json (ScVal.bytes b) = string (append "0x" (sdk.hex_encode b))
    scval_to_json (ScVal.string s) = string (sdk.to_text s)
    scval_to_json (ScVal.symbol s) = string (sdk.to_text s)
    scval_to_json (ScVal.vec vs) = array (vec_to_json vs)
    scval_to_json ScVal.no_vec = arr []
    scval_to_json (ScVal.map es) =
        if all (λ e. is_text e.0) (entries es)
        then object (to_fields (map_to_object [] es))
        else array (map_to_pairs es)
    scval_to_json ScVal.no_map = obj []
    scval_to_json (ScVal.address a) = string (address_to_string sdk a)
    scval_to_json (ScVal.contract_instance x) = note "contract instance value"
    scval_to_json ScVal.ledger_key_contract_instance = null
    scval_to_json (ScVal.ledger_key_nonce z) = obj (("nonce", string (show_ℤ z)) ∷ [])

    pub vec_to_json : ScVec → Items
    vec_to_json ScVec.nil = nil
    vec_to_json (ScVec.cons v vs) = cons (scval_to_json v) (vec_to_json vs)

    -- the loop that fills the object
    pub map_to_object : List (String × Json) → ScMap → List (String × Json)
    map_to_object out empty = out
    map_to_object out (entry k v es) = map_to_object (insert (key_text k) (scval_to_json v) out) es

    pub map_to_pairs : ScMap → Items
    map_to_pairs empty = nil
    map_to_pairs (entry k v es) =
        cons (arr (scval_to_json k ∷ scval_to_json v ∷ [])) (map_to_pairs es)

  -- what is shown as the key of a contract's data
  unfoldable pub data_key_to_json : ScVal → Json
  unfolding scval_to_json
  data_key_to_json ScVal.ledger_key_contract_instance = string "instance"
  data_key_to_json key = scval_to_json key

  abbrev account_id_to_string : Bytes → String
  account_id_to_string bytes = sdk.show_public_key bytes

  unfoldable pub ledger_key_to_json : LedgerKey → Json
  unfolding data_key_to_json
  ledger_key_to_json (LedgerKey.account key) =
      obj (("type", string "account") ∷ ("account_id", string (account_id_to_string key)) ∷ [])
  ledger_key_to_json (LedgerKey.contract_data owner key durability) = obj (
      ("type", string "contract_data")
      ∷ ("contract", string (address_to_string sdk owner))
      ∷ ("key", data_key_to_json key)
      ∷ ("durability", string (sdk.debug_durability durability))
      ∷ [])
  ledger_key_to_json (LedgerKey.contract_code hash) =
      obj (("type", string "contract_code") ∷ ("hash", string (sdk.hex_encode hash)) ∷ [])
  ledger_key_to_json (LedgerKey.other x) =
      obj (("type", string "other") ∷ ("debug", string (sdk.debug_ledger_key x)) ∷ [])
