-- ===== src/Handlers/Headers.antt =====
-- The headers and query parameters of a call (src/handlers.rs).
use orcusapi.Base.{
  ℕ, ◌+◌, ◌==◌, leb, Bool, true, false, ◌&&◌, ◌||◌, Option, none, some, List, [], ◌∷◌, map, String,
  str_eq, Result, ok, err, ◌>>=◌, ok_or, if◌then◌else◌, unwrap_or,
}
use mathlib.Core.Option
use Prim.Native.Char.{code}
use orcusapi.Base.Text.{format}
use orcusapi.Std.HashMap
use orcusapi.Json.{Json, string}
use orcusapi.Chain.{Chain}
use orcusapi.Errors.{AppError, bad_request}

-- A header's value is its text, or `none` where `to_str` fails.
abbrev pub HeaderMap : Type 0
HeaderMap = List (String × Option String)

abbrev pub ascii_lower : ℕ → ℕ
ascii_lower n = if leb 65 n && leb n 90 then n + 32 else n

-- `str::eq_ignore_ascii_case`
unfoldable pub eq_ignore_ascii_case : String → String → Bool
eq_ignore_ascii_case String.[] String.[] = true
eq_ignore_ascii_case (String.◌∷◌ c s) (String.◌∷◌ d t) =
    (ascii_lower (code c) == ascii_lower (code d)) && eq_ignore_ascii_case s t
eq_ignore_ascii_case _ _ = false

abbrev header_source_account : String
header_source_account = "x-source-account"

abbrev header_sign : String
header_sign = "x-sign"

abbrev header_secret_key : String
header_secret_key = "x-secret-key"

unfoldable pub header_str : HeaderMap → String → Result AppError (Option String)
header_str headers name = elim (HashMap.get name headers) [
  | none ↦ ok none
  | some value ↦ elim value [
    | some s ↦ ok (some s)
    | none ↦ err (bad_request (format ("header `" ∷ name ∷ "` is not valid UTF-8" ∷ [])))
  ]
]

-- the source account, whether to sign, and the secret key
pub record CommonHeaders : Type 0 where
  pub source_account : String
  pub sign : Bool
  pub secret_key : Option String

-- `v.eq_ignore_ascii_case("true") || v == "1"`
abbrev pub asks_to_sign : String → Bool
asks_to_sign v = eq_ignore_ascii_case v "true" || str_eq v "1"

unfoldable pub read_common_headers : HeaderMap → Result AppError CommonHeaders
unfolding header_str
read_common_headers headers = do
  source ← header_str headers header_source_account
  source_account ←
      ok_or (bad_request (format ("missing required header `" ∷ header_source_account ∷ "`" ∷ [])))
        source
  sign ← header_str headers header_sign
  secret_key ← header_str headers header_secret_key
  ok (record {
    source_account = source_account;
    sign = unwrap_or false (Option.map asks_to_sign sign);
    secret_key = secret_key;
  })

module _ (chain : Chain) where
  unfoldable pub query_value_to_json : String → Json
  query_value_to_json raw = unwrap_or (string raw) (chain.parse_json raw)

  -- the arguments of a GET request
  unfoldable pub query_args : List (String × String) → List (String × Json)
  unfolding query_value_to_json
  query_args query = map (λ e. (e.0, query_value_to_json e.1)) query
