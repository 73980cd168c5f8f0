-- ===== src/Sdk.antt =====
-- The code outside the repository that the conversions call, as a record of functions: stellar_xdr's
-- strings, bounded vectors and order of values, serde_json's reading of a whole `ScVal`, the crates
-- hex and stellar_strkey, and `Debug` output. `IsLawful` states what their documentation promises and
-- the theorems use.
use Prim.Native.Nat.{Ordering}
use orcusapi.Base.{
  ℕ, ◌≡◌, Bool, true, false, Option, none, some, String, Result, ok, length, All, ◌≤◌, ◌≢◌,
}
use orcusapi.Std.Sort.{is_gt}
use orcusapi.Json.{Json}
use orcusapi.Xdr.{Bytes, Opaque, Address, ScVal, Durability}
use orcusapi.Xdr.Spec.{TypeDef}

pub record Sdk : Type 0 where
  -- `StringM::to_utf8_string_lossy`
  pub to_text : Bytes → String
  -- `StringM::<MAX>::from_str`
  pub to_string_m : (max : ℕ) → String → Option Bytes
  -- whether a `Vec` of so many elements converts to `VecM<_, MAX>` or `BytesM<MAX>`
  pub fits : (max len : ℕ) → Bool
  -- `ScVal::cmp`
  pub compare : ScVal → ScVal → Ordering
  -- `serde_json::from_value::<ScVal>`
  pub from_value : Json → Result String ScVal
  -- `hex::decode` and `hex::encode`
  pub hex_decode : String → Result String Bytes
  pub hex_encode : Bytes → String
  -- `stellar_strkey::ed25519::PublicKey::from_string` and its `Display`
  pub public_key : String → Option Bytes
  pub show_public_key : Bytes → String
  -- `stellar_strkey::Contract::from_string` and its `Display`
  pub contract : String → Option Bytes
  pub show_contract : Bytes → String
  -- `{:?}`
  pub debug_address : Address → String
  pub debug_error : Opaque → String
  pub debug_type : TypeDef → String
  pub debug_durability : Durability → String
  pub debug_ledger_key : Opaque → String

-- A key of an account or a contract has 32 bytes.
abbrev pub IsKey : Bytes → Type 0
IsKey b = length b ≡ 32

-- A byte of printable ASCII that begins no escape sequence.
abbrev pub IsPlain : ℕ → Type 0
IsPlain c = (32 ≤ c) × (c ≤ 126) × (c ≢ 92)

pub record IsLawful (sdk : Sdk) : Type 0 where
  -- printable ASCII without backslashes is kept if it fits; other texts may be escaped
  pub plain_text :
      (max : ℕ) (b : Bytes)
      → All IsPlain b
      → length b ≤ max
      → sdk.to_string_m max (sdk.to_text b) ≡ some b
  -- decoding inverts encoding
  pub decode-encode : (b : Bytes) → sdk.hex_decode (sdk.hex_encode b) ≡ ok b
  -- strkeys parse back, and the two kinds are told apart
  pub public_key-show : (b : Bytes) → IsKey b → sdk.public_key (sdk.show_public_key b) ≡ some b
  pub contract-show : (b : Bytes) → IsKey b → sdk.contract (sdk.show_contract b) ≡ some b
  pub public_key-show_contract : (b : Bytes) → IsKey b → sdk.public_key (sdk.show_contract b) ≡ none
  -- the order is total
  pub compare_total :
      (a b : ScVal) → is_gt (sdk.compare a b) ≡ true → is_gt (sdk.compare b a) ≡ false
