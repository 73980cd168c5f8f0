-- ===== src/Std/Print.antt =====
-- `to_string` of integers, and that `parse` reads it back.
use Prim.Native.Char.{Char, code}
use orcusapi.Base.{
  ℕ, zero, suc, ◌+◌, ◌-◌, ◌/◌, ◌%◌, ◌≤◌, ◌<◌, ◌≡◌, refl, true, false, arith, ◌==◌, if◌then◌else◌,
  String, ok, ◌>>=◌, Bool-cases, inl, inr, ◌∙◌, ◌^◌,
}
use orcusapi.Base.Int.{ℤ, pos, negsuc, ◌≤ℤ◌}
use orcusapi.Std.Parse.{
  IntErrorKind, scan, scan_signed, parse_unsigned, parse_signed, is_digit, pos_overflow,
  neg_overflow,
}

abbrev pick : ℕ → String → Char
pick n String.[] = Prim.Native.Char.nul
pick zero (String.◌∷◌ c s) = c
pick (suc n) (String.◌∷◌ c s) = pick n s

digit : ℕ → Char
digit n = pick n "0123456789"

-- Digits from the last one on, until nothing is left; `n` rounds are enough for `n`.
emit : ℕ → ℕ → String → String
emit zero n out = out
emit (suc fuel) n out =
    let rest = emit fuel (n / 10) (String.◌∷◌ (digit (n % 10)) out) in if n == 0 then out else rest

unfoldable pub show : ℕ → String
unfolding emit digit
show n = if n == 0 then "0" else emit n n ""

unfoldable pub show_ℤ : ℤ → String
show_ℤ (pos n) = show n
show_ℤ (negsuc n) = String.◌∷◌ (digit_minus) (show (suc n))
  where
    digit_minus : Char
    digit_minus = pick 0 "-"

code-digit : (n : ℕ) → n < 10 → code (digit n) ≡ 48 + n
unfolding digit
code-digit zero h = refl
code-digit (suc zero) h = refl
code-digit (suc (suc zero)) h = refl
code-digit (suc (suc (suc zero))) h = refl
code-digit (suc (suc (suc (suc zero)))) h = refl
code-digit (suc (suc (suc (suc (suc zero))))) h = refl
code-digit (suc (suc (suc (suc (suc (suc zero)))))) h = refl
code-digit (suc (suc (suc (suc (suc (suc (suc zero))))))) h = refl
code-digit (suc (suc (suc (suc (suc (suc (suc (suc zero)))))))) h = refl
code-digit (suc (suc (suc (suc (suc (suc (suc (suc (suc zero))))))))) h = refl
code-digit (suc (suc (suc (suc (suc (suc (suc (suc (suc (suc n)))))))))) h = absurd (omega arith)

-- one digit more
scan_last :
    (limit : ℕ) (over : IntErrorKind) (n : ℕ) (out : String)
    → n ≤ limit
    → scan limit over (n / 10) (String.◌∷◌ (digit (n % 10)) out) ≡ scan limit over n out
unfolding scan
scan_last limit over n out h = ground (arith, code-digit (n % 10) (omega arith))

scan-emit :
    (limit : ℕ) (over : IntErrorKind) (fuel n : ℕ) (out : String)
    → n ≤ fuel
    → n ≤ limit
    → scan limit over 0 (emit fuel n out) ≡ scan limit over n out
unfolding emit
scan-emit limit over zero n out h k = ground arith
scan-emit limit over (suc fuel) n out h k = ground (
  arith,
  scan-emit limit over fuel (n / 10) (String.◌∷◌ (digit (n % 10)) out),
  scan_last limit over n out,
)

abbrev StartsWithDigit : String → Type 0
StartsWithDigit String.[] = ⊥
StartsWithDigit (String.◌∷◌ c s) = is_digit c ≡ true

is_digit-digit : (n : ℕ) → n < 10 → is_digit (digit n) ≡ true
is_digit-digit n h = ground (arith, code-digit n h)

emit-StartsWithDigit :
    (fuel n : ℕ) (out : String) → StartsWithDigit out → StartsWithDigit (emit fuel n out)
unfolding emit
emit-StartsWithDigit zero n out h = h
emit-StartsWithDigit (suc fuel) n out h = elim (Bool-cases (n == 0)) [
  | inl done ↦ rw done h
  | inr more ↦ rw more (
      emit-StartsWithDigit fuel (n / 10) (String.◌∷◌ (digit (n % 10)) out)
        (is_digit-digit (n % 10) (omega arith)))
]

emit_self-StartsWithDigit : (n : ℕ) → (n == 0) ≡ false → StartsWithDigit (emit n n "")
unfolding emit
emit_self-StartsWithDigit zero h = cc
emit_self-StartsWithDigit (suc n) h = rw h (
    emit-StartsWithDigit n (suc n / 10) (String.◌∷◌ (digit (suc n % 10)) "")
      (is_digit-digit (suc n % 10) (omega arith)))

show-StartsWithDigit : (n : ℕ) → StartsWithDigit (show n)
unfolding show
show-StartsWithDigit n = elim (Bool-cases (n == 0)) [
  | inl done ↦ rw done refl
  | inr more ↦ rw more (emit_self-StartsWithDigit n more)
]

scan-show :
    (limit : ℕ) (over : IntErrorKind) (n : ℕ) → n ≤ limit → scan limit over 0 (show n) ≡ ok n
unfolding show scan
scan-show limit over n h = elim (Bool-cases (n == 0)) [
  | inl done ↦ rw done (ground arith)
  | inr more ↦ rw more (scan-emit limit over n n "" (omega arith) h)
]

-- A number without a sign is scanned whole.
parse_unsigned-digits :
    (limit : ℕ) (s : String)
    → StartsWithDigit s
    → parse_unsigned limit s ≡ scan limit pos_overflow 0 s
unfolding parse_unsigned
parse_unsigned-digits limit String.[] h = elim h [ ]
parse_unsigned-digits limit (String.◌∷◌ c s) h = ground arith

parse_signed-digits :
    (limit : ℕ) (s : String)
    → StartsWithDigit s
    → parse_signed limit s ≡ (do n ← scan limit pos_overflow 0 s; ok (pos n))
unfolding parse_signed
parse_signed-digits limit String.[] h = elim h [ ]
parse_signed-digits limit (String.◌∷◌ c s) h = ground arith

scan_signed-digits :
    (limit : ℕ) (over : IntErrorKind) (s : String)
    → StartsWithDigit s
    → scan_signed limit over s ≡ scan limit over 0 s
unfolding scan_signed
scan_signed-digits limit over String.[] h = elim h [ ]
scan_signed-digits limit over (String.◌∷◌ c s) h = refl

-- Every value of an unsigned type is read back from its print.
pub parse_unsigned-show : (limit n : ℕ) → n ≤ limit → parse_unsigned limit (show n) ≡ ok n
parse_unsigned-show limit n h =
    parse_unsigned-digits limit (show n) (show-StartsWithDigit n) ∙ scan-show limit pos_overflow n h

-- So is every value of a signed type.
pub parse_signed-show :
    (limit : ℕ) (z : ℤ) → z ≤ℤ pos limit → negsuc limit ≤ℤ z → parse_signed limit (show_ℤ z) ≡ ok z
unfolding show_ℤ
parse_signed-show limit (pos n) h k = rw (
  parse_signed-digits limit (show n) (show-StartsWithDigit n),
  scan-show limit pos_overflow n (omega arith),
)
parse_signed-show limit (negsuc n) h k =
    unfold parse_signed in
    rw (
      scan_signed-digits (suc limit) neg_overflow (show (suc n)) (show-StartsWithDigit (suc n)),
      scan-show (suc limit) neg_overflow (suc n) (omega arith),
    )

show_max : show (2 ^ 64 - 1) ≡ "18446744073709551615"
unfolding show
show_max = refl

show_negative : show_ℤ (negsuc 41) ≡ "-42"
unfolding show_ℤ show
show_negative = refl
