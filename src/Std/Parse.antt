-- ===== src/Std/Parse.antt =====
-- `str::parse` at the integer types and `bool`: what the calls of `.parse()` in src/scval.rs,
-- src/txbuild.rs and src/config.rs run.
use Prim.Native.Char.{Char, code}
use orcusapi.Base.{
  ℕ, zero, suc, ◌+◌, ◌-◌, ◌*◌, ◌≤◌, ◌≡◌, Bool, true, false, ◌&&◌, arith, ltb, leb, ◌==◌,
  if◌then◌else◌, String, Result, ok, err, ◌>>=◌, str_eq, Option, none, some, Ensures, holds, failed,
  Ensures-if, Ensures-bind, Ensures-result,
}
use orcusapi.Base.Int.{ℤ, pos, negsuc}

-- `std::num::IntErrorKind`
pub data IntErrorKind : Type 0 where
  empty invalid_digit pos_overflow neg_overflow : IntErrorKind

-- its `Display`
abbrev pub show_error : IntErrorKind → String
show_error empty = "cannot parse integer from empty string"
show_error invalid_digit = "invalid digit found in string"
show_error pos_overflow = "number too large to fit in target type"
show_error neg_overflow = "number too small to fit in target type"

abbrev pub is_digit : Char → Bool
is_digit c = leb 48 (code c) && leb (code c) 57

-- The loop of `from_str_radix` at radix 10, on the magnitude: a digit that is none is refused first,
-- then a value that passes the limit.
unfoldable pub scan : ℕ → IntErrorKind → ℕ → String → Result IntErrorKind ℕ
scan limit over n String.[] = ok n
scan limit over n (String.◌∷◌ c s) =
    let rest = scan limit over (n * 10 + (code c - 48)) s in
    if is_digit c
    then (if ltb limit (n * 10 + (code c - 48)) then err over else rest)
    else err invalid_digit

-- behind a sign there is at least one digit
unfoldable pub scan_signed : ℕ → IntErrorKind → String → Result IntErrorKind ℕ
unfolding scan
scan_signed limit over String.[] = err invalid_digit
scan_signed limit over (String.◌∷◌ c s) = scan limit over 0 (String.◌∷◌ c s)

-- `parse::<uN>()`, for `limit` the largest value
unfoldable pub parse_unsigned : ℕ → String → Result IntErrorKind ℕ
unfolding scan scan_signed
parse_unsigned limit String.[] = err empty
parse_unsigned limit (String.◌∷◌ c s) =
    if code c == b'+'
    then scan_signed limit pos_overflow s
    else scan limit pos_overflow 0 (String.◌∷◌ c s)

abbrev pub negate : ℕ → ℤ
negate zero = pos 0
negate (suc n) = negsuc n

-- `parse::<iN>()`, for `limit` the largest value; the least is -(limit + 1)
unfoldable pub parse_signed : ℕ → String → Result IntErrorKind ℤ
unfolding scan scan_signed
parse_signed limit String.[] = err empty
parse_signed limit (String.◌∷◌ c s) =
    if code c == b'+'
    then (do n ← scan_signed limit pos_overflow s; ok (pos n))
    else if code c == b'-'
    then (do n ← scan_signed (suc limit) neg_overflow s; ok (negate n))
    else (do n ← scan limit pos_overflow 0 (String.◌∷◌ c s); ok (pos n))

-- `parse::<bool>()`
unfoldable pub parse_bool : String → Option Bool
parse_bool s = if str_eq s "true" then some true else if str_eq s "false" then some false else none

scan-le :
    (limit : ℕ) (over : IntErrorKind) (n : ℕ) (s : String) (r : ℕ)
    → n ≤ limit
    → scan limit over n s ≡ ok r
    → r ≤ limit
unfolding scan
scan-le limit over n String.[] r h e = ground arith
scan-le limit over n (String.◌∷◌ c s) r h e =
    ground (arith, scan-le limit over (n * 10 + (code c - 48)) s r)

scan_signed-le :
    (limit : ℕ) (over : IntErrorKind) (s : String) (r : ℕ)
    → scan_signed limit over s ≡ ok r
    → r ≤ limit
unfolding scan_signed
scan_signed-le limit over String.[] r e = ground arith
scan_signed-le limit over (String.◌∷◌ c s) r e =
    scan-le limit over 0 (String.◌∷◌ c s) r (omega arith) e

-- What parses is in range.
pub parse_unsigned-le : (limit : ℕ) (s : String) (r : ℕ) → parse_unsigned limit s ≡ ok r → r ≤ limit
unfolding parse_unsigned
parse_unsigned-le limit String.[] r e = ground arith
parse_unsigned-le limit (String.◌∷◌ c s) r e =
    ground (
      arith,
      scan_signed-le limit pos_overflow s r,
      scan-le limit pos_overflow 0 (String.◌∷◌ c s) r,
    )

-- the values of a signed type with this largest value
abbrev pub IsSigned : ℕ → ℤ → Type 0
IsSigned limit (pos n) = n ≤ limit
IsSigned limit (negsuc n) = n ≤ limit

negate-IsSigned : (limit n : ℕ) → n ≤ suc limit → IsSigned limit (negate n)
negate-IsSigned limit zero h = omega arith
negate-IsSigned limit (suc n) h = omega arith

pub parse_signed-IsSigned :
    (limit : ℕ) (s : String) → Ensures (IsSigned limit) (parse_signed limit s)
unfolding parse_signed
parse_signed-IsSigned limit String.[] = failed
parse_signed-IsSigned limit (String.◌∷◌ c s) =
    Ensures-if (code c == b'+')
      (λ _.
        Ensures-bind (Ensures-result (scan_signed limit pos_overflow s))
          λ n e. holds (scan_signed-le limit pos_overflow s n e))
      λ _.
        Ensures-if (code c == b'-')
          (λ _.
            Ensures-bind (Ensures-result (scan_signed (suc limit) neg_overflow s)) λ n e.
              holds (negate-IsSigned limit n (scan_signed-le (suc limit) neg_overflow s n e)))
          λ _.
            Ensures-bind (Ensures-result (scan limit pos_overflow 0 (String.◌∷◌ c s)))
              λ n e. holds (scan-le limit pos_overflow 0 (String.◌∷◌ c s) n (omega arith) e)
