-- ===== src/Base/Text.antt =====
-- Rust's `str` as the native text, a list of characters by its own constructors, with the operations
-- of the standard library that the source uses. All clauses compute on a literal in front.
use Prim.Native.Char.{code}
use Prim.Native.String.{String}
use mathlib.Core.Bool.{Bool, true, false, ◌||◌}
use mathlib.Core.Option.{Option, none, some}
use mathlib.Core.List.{List, [], ◌∷◌}
use orcusapi.Base.Tests.{◌==◌, if◌then◌else◌}

abbrev pub append : String → String → String
append String.[] t = t
append (String.◌∷◌ c s) t = String.◌∷◌ c (append s t)

-- `format!`: the pieces of the literal and the printed arguments, in order
abbrev pub format : List String → String
format [] = ""
format (s ∷ ss) = append s (format ss)

-- `str::strip_prefix`
abbrev pub strip_prefix : String → String → Option String
strip_prefix String.[] s = some s
strip_prefix (String.◌∷◌ c p) String.[] = none
strip_prefix (String.◌∷◌ c p) (String.◌∷◌ d s) = if code c == code d then strip_prefix p s else none

abbrev is_some {ℓ} : {A : Type ℓ} → Option A → Bool
is_some none = false
is_some (some a) = true

-- `str::contains`
abbrev pub contains : String → String → Bool
contains pattern String.[] = is_some (strip_prefix pattern "")
contains pattern (String.◌∷◌ c s) =
    is_some (strip_prefix pattern (String.◌∷◌ c s)) || contains pattern s

abbrev reverse_onto : String → String → String
reverse_onto String.[] t = t
reverse_onto (String.◌∷◌ c s) t = reverse_onto s (String.◌∷◌ c t)

abbrev pub reverse_text : String → String
reverse_text s = reverse_onto s ""
