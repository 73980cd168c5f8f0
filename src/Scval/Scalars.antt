-- ===== src/Scval/Scalars.antt =====
-- The conversions of src/scval.rs at the types without parts: integers, bytes, symbols and addresses.
-- An error is its message.
use orcusapi.Base.{
  ℕ, Option, none, some, [], ◌∷◌, String, Result, ok, err, ok_or, map_err, unwrap_or, and_then,
  traverse,
}
use orcusapi.Base.Int.{ℤ}
use orcusapi.Base.Text.{format, strip_prefix}
use orcusapi.Std.Parse.{parse_unsigned, parse_signed, IntErrorKind, show_error}
use orcusapi.Std.Words.{max_u8, max_u64, max_u128, max_i64, max_i128, try_unsigned}
use orcusapi.Json.{Json, string, array, items, as_u64, as_i64, as_str}
use orcusapi.Xdr.{Bytes, Address, account, contract, other}
use orcusapi.Sdk.{Sdk}

-- anyhow's `Result`
abbrev pub Fallible : Type 0 → Type 0
Fallible A = Result String A

-- `s.parse().map_err(…)` behind the four integer readers
abbrev invalid : String → String → IntErrorKind → String
invalid what s e = format ("invalid " ∷ what ∷ " `" ∷ s ∷ "`: " ∷ show_error e ∷ [])

abbrev not_numeric : String
not_numeric = "expected an integer or a numeric string"

-- The second half of `as_u64` and `as_u128`: a numeric text up to the type's limit.
unfoldable pub unsigned_text : ℕ → String → Option String → Fallible ℕ
unsigned_text limit what (some s) = map_err (invalid what s) (parse_unsigned limit s)
unsigned_text limit what none = err not_numeric

unfoldable pub signed_text : ℕ → String → Option String → Fallible ℤ
signed_text limit what (some s) = map_err (invalid what s) (parse_signed limit s)
signed_text limit what none = err not_numeric

unfoldable pub as_u64_lenient : Json → Fallible ℕ
unfolding unsigned_text
as_u64_lenient v = elim (as_u64 v) [
  | some n ↦ ok n
  | none ↦ unsigned_text max_u64 "integer" (as_str v)
]

unfoldable pub as_i64_lenient : Json → Fallible ℤ
unfolding signed_text
as_i64_lenient v = elim (as_i64 v) [
  | some n ↦ ok n
  | none ↦ signed_text max_i64 "integer" (as_str v)
]

unfoldable pub as_u128 : Json → Fallible ℕ
unfolding unsigned_text
as_u128 v = elim (as_u64 v) [ some n ↦ ok n | none ↦ unsigned_text max_u128 "u128" (as_str v) ]

unfoldable pub as_i128 : Json → Fallible ℤ
unfolding signed_text
as_i128 v = elim (as_i64 v) [ some n ↦ ok n | none ↦ signed_text max_i128 "i128" (as_str v) ]

-- one element of a byte array
unfoldable pub byte_of_json : Json → Fallible ℕ
byte_of_json x =
    ok_or "byte array elements must be integers 0-255" (and_then (as_u64 x) (try_unsigned max_u8))

module _ (sdk : Sdk) where
  unfoldable pub symbol_from_str : String → Fallible Bytes
  symbol_from_str s =
      ok_or (format ("symbol `" ∷ s ∷ "` is invalid or too long" ∷ [])) (sdk.to_string_m 32 s)

  unfoldable pub bytes_from_json : Json → Fallible Bytes
  unfolding byte_of_json
  bytes_from_json (string s) =
      map_err (λ e. format ("invalid hex bytes: " ∷ e ∷ []))
        (sdk.hex_decode (unwrap_or s (strip_prefix "0x" s)))
  bytes_from_json (array xs) = traverse byte_of_json (items xs)
  bytes_from_json _ =
      err "expected a hex string (optionally 0x-prefixed) or an array of byte values"

  -- an account first, then a contract
  unfoldable pub address_from_str : String → Fallible Address
  address_from_str s = elim (sdk.public_key s) [
    | some key ↦ ok (account key)
    | none ↦ elim (sdk.contract s) [
      | some id ↦ ok (contract id)
      | none ↦ err (
          format
            ("invalid address `" ∷ s ∷ "`: expected a G... account or C... contract strkey" ∷ []))
    ]
  ]

  unfoldable pub address_to_string : Address → String
  address_to_string (account key) = sdk.show_public_key key
  address_to_string (contract id) = sdk.show_contract id
  address_to_string (other x) = sdk.debug_address (other x)
