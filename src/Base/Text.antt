-- ===== src/Base/Text.antt =====
-- What the program uses of Go's strconv and strings, on lists of code points.
use Prim.Native.Nat.{ℕ, zero, suc, ◌+◌, ◌-◌, ◌*◌, ◌^◌}
use Prim.Native.Char.{code}
use Prim.Native.String.{String, ◌++◌}
use mathlib.Core.Bool.{Bool, true, false, ◌&&◌}
use mathlib.Core.Option.{Option, none, some}
use mathlib.Core.List.{List, [], ◌∷◌}
use packetd.Base.Tests.{leb, ◌==◌, if◌then◌else◌}
use packetd.Base.Integer.{ℤ, pos, negsuc}

abbrev pub codes : String → List ℕ
codes String.[] = []
codes (String.◌∷◌ c s) = code c ∷ codes s

abbrev pub is_digit : ℕ → Bool
is_digit c = leb b'0' c && leb c b'9'

-- The value of a run of digits that follow a number, if all are digits.
unfoldable pub digits_value : ℕ → List ℕ → Option ℕ
digits_value acc [] = some acc
digits_value acc (c ∷ cs) =
    let rest = digits_value (acc * 10 + (c - b'0')) cs in if is_digit c then rest else none

-- At least one digit.
unfoldable pub digits : List ℕ → Option ℕ
unfolding digits_value
digits [] = none
digits (c ∷ cs) = digits_value 0 (c ∷ cs)

abbrev pub negated : ℕ → ℤ
negated zero = pos 0
negated (suc m) = negsuc m

-- The sign of `strconv.Atoi` and its bounds, those of an `int64`.
abbrev at_most : ℕ → (ℕ → ℤ) → Option ℕ → Option ℤ
at_most bound sign none = none
at_most bound sign (some n) = if leb n bound then some (sign n) else none

unfoldable pub atoi : List ℕ → Option ℤ
unfolding digits
atoi [] = none
atoi (c ∷ cs) =
    if c == b'-'
    then at_most (2 ^ 63) negated (digits cs)
    else if c == b'+'
    then at_most (2 ^ 63 - 1) pos (digits cs)
    else at_most (2 ^ 63 - 1) pos (digits (c ∷ cs))

abbrev pub is_empty_text : String → Bool
is_empty_text String.[] = true
is_empty_text (String.◌∷◌ c s) = false

-- What follows the last character of a code, which `strings.LastIndex` finds
unfoldable pub after_last : ℕ → String → Option String
after_last sep String.[] = none
after_last sep (String.◌∷◌ c s) =
    let here = if code c == sep then some s else none in
    elim (after_last sep s) [ some rest ↦ some rest | none ↦ here ]

-- What stands before the first character of a code, which `strings.Index` finds
unfoldable pub before_first : ℕ → String → Option String
before_first sep String.[] = none
before_first sep (String.◌∷◌ c s) =
    let further : Option String = elim (before_first sep s) [
      | none ↦ none
      | some start ↦ some (String.◌∷◌ c start)
    ] in
    if code c == sep then some String.[] else further

-- The loops that join a list of names with bars.
unfoldable pub join_onto : String → List String → String
join_onto buffer [] = buffer
join_onto buffer (name ∷ names) = join_onto ((buffer ++ "|") ++ name) names

unfoldable pub join : List String → String
unfolding join_onto
join [] = ""
join (name ∷ names) = join_onto name names
