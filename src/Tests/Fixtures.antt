-- ===== src/Tests/Fixtures.antt =====
-- Instances of `Sdk` and `Chain` for the tests. Texts come from a table of four names, and are a
-- letter and the bytes otherwise; a byte is written in unary, and a strkey is a letter and the bytes.
use Prim.Native.Nat.{zero, suc, eq}
use Prim.Native.Char.{code}
use orcusapi.Base.{
  ℕ, ◌+◌, ◌≡◌, refl, ◌∙◌, ap, Option, none, some, [], ◌∷◌, String, str_eq, Result, ok, err, arith,
  leb, All, length, Bool-cases, inl, inr, false, ◌≤◌, ◌==◌, if◌then◌else◌, to_option,
}
use orcusapi.Base.Text.{append}
use orcusapi.Xdr.{Bytes}
use orcusapi.Sdk.{Sdk, IsLawful, IsPlain}

-- a byte of so many ones and a zero
abbrev encode_byte : ℕ → String → String
encode_byte zero s = append "0" s
encode_byte (suc n) s = append "1" (encode_byte n s)

abbrev pub encode : Bytes → String
encode [] = ""
encode (b ∷ bs) = encode_byte b (encode bs)

abbrev cons_to : ℕ → Result String Bytes → Result String Bytes
cons_to n (ok bs) = ok (n ∷ bs)
cons_to n (err e) = err e

abbrev decode_from : ℕ → String → Result String Bytes
decode_from n String.[] = if n == 0 then ok [] else err "odd"
decode_from n (String.◌∷◌ c s) =
    let here = cons_to n (decode_from 0 s) in
    let more = decode_from (suc n) s in
    if code c == 48 then here else if code c == 49 then more else err "digit"

abbrev pub decode : String → Result String Bytes
decode s = decode_from 0 s

decode_from-encode :
    (n b : ℕ) (bs : Bytes) (s : String)
    → decode_from 0 s ≡ ok bs
    → decode_from n (encode_byte b s) ≡ ok ((n + b) ∷ bs)
decode_from-encode n zero bs s h = rw h (ap (λ k. ok (k ∷ bs)) (omega arith))
decode_from-encode n (suc b) bs s h =
    decode_from-encode (suc n) b bs s h ∙ ap (λ k. ok (k ∷ bs)) (omega arith)

decode-encode_lem : (bs : Bytes) → decode (encode bs) ≡ ok bs
decode-encode_lem [] = refl
decode-encode_lem (b ∷ bs) =
    decode_from-encode 0 b bs (encode bs) (decode-encode_lem bs)
    ∙ ap (λ k. ok (k ∷ bs)) (omega arith)

-- a letter, by its code, and the bytes
abbrev strkey : ℕ → String → Option Bytes
strkey letter String.[] = none
strkey letter (String.◌∷◌ c s) = if code c == letter then to_option (decode s) else none

abbrev pub to_text : Bytes → String
to_text (b ∷ []) =
    if b == 120
    then "x"
    else if b == 121
    then "y"
    else if b == 3
    then "Point"
    else if b == 4
    then "get"
    else append "b" (encode (b ∷ []))
to_text bs = append "b" (encode bs)

-- a text that fits
abbrev fitting : ℕ → Bytes → Option Bytes
fitting max b = if leb (length b) max then some b else none

abbrev named : ℕ → String → Option Bytes
named max s =
    if str_eq s "x"
    then fitting max (120 ∷ [])
    else if str_eq s "y"
    then fitting max (121 ∷ [])
    else if str_eq s "Point"
    then some (3 ∷ [])
    else if str_eq s "get"
    then some (4 ∷ [])
    else none

abbrev unnamed : ℕ → String → Option Bytes → Option Bytes
unnamed max s (some b) = fitting max b
unnamed max s none = named max s

abbrev pub to_string_m : ℕ → String → Option Bytes
to_string_m max s = unnamed max s (strkey 98 s)

abbrev pub sdk : Sdk
sdk = record {
  to_text = to_text;
  to_string_m = to_string_m;
  fits = λ max len. leb len max;
  compare = λ a b. eq;
  from_value = λ v. err "no value";
  hex_decode = decode;
  hex_encode = encode;
  public_key = strkey 71;
  show_public_key = λ b. append "G" (encode b);
  contract = strkey 67;
  show_contract = λ b. append "C" (encode b);
  debug_address = λ a. "address";
  debug_error = λ e. "error";
  debug_type = λ t. "type";
  debug_durability = λ d. "durability";
  debug_ledger_key = λ k. "key";
}

fitting_lem : (max : ℕ) (b : Bytes) → length b ≤ max → fitting max b ≡ some b
fitting_lem max b h = ground arith

to_string_m-encode :
    (max : ℕ) (b : Bytes) → length b ≤ max → to_string_m max (append "b" (encode b)) ≡ some b
to_string_m-encode max b h = rw (decode-encode_lem b) (fitting_lem max b h)

to_string_m-to_text :
    (max : ℕ) (b : Bytes) → All IsPlain b → length b ≤ max → to_string_m max (to_text b) ≡ some b
to_string_m-to_text max [] h l = to_string_m-encode max [] l
to_string_m-to_text max (b ∷ c ∷ bs) h l = to_string_m-encode max (b ∷ c ∷ bs) l
to_string_m-to_text max (b ∷ []) h l = elim (Bool-cases (b == 120)) [
  | inl hit ↦
      let same : b ≡ 120 = ground arith in rw same (fitting_lem max (120 ∷ []) (omega arith))
  | inr not_x ↦ elim (Bool-cases (b == 121)) [
    | inl hit ↦
        let same : b ≡ 121 = ground arith in rw same (fitting_lem max (121 ∷ []) (omega arith))
    | inr not_y ↦
        let not_3 : (b == 3) ≡ false = ground arith in
        let not_4 : (b == 4) ≡ false = ground arith in
        rw (not_x, not_y, not_3, not_4) (to_string_m-encode max (b ∷ []) l)
  ]
]

pub sdk-IsLawful : IsLawful sdk
sdk-IsLawful = record {
  plain_text = to_string_m-to_text;
  decode-encode = decode-encode_lem;
  public_key-show = λ b _. ap to_option (decode-encode_lem b);
  contract-show = λ b _. ap to_option (decode-encode_lem b);
  public_key-show_contract = λ b _. refl;
  compare_total = λ a b h. refl;
}
