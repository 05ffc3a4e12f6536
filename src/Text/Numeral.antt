-- ===== src/Text/Numeral.antt =====
-- Python's `int(s)` of a text, and `s.split(c)`. Unicode's decimal digits are outside: `decimal`
-- gives the value of a digit.
use overwatch_harness.Prelude.{
  ℕ, zero, suc, ◌+◌, ◌*◌, Bool, true, false, Option, none, some, List, [], ◌∷◌, ◌&&◌, ltb, ◌==◌,
  if◌then◌else◌,
}
use overwatch_harness.Text.{Text, strip}
use overwatch_harness.Text.Int.{ℤ, pos, negsuc}

abbrev pub prepend : ℕ → List Text → List Text
prepend c [] = (c ∷ []) ∷ []
prepend c (p ∷ ps) = (c ∷ p) ∷ ps

-- `s.split(sep)` at each occurrence of one character
unfoldable pub split : ℕ → Text → List Text
split sep [] = [] ∷ []
split sep (c ∷ s) = let rest = split sep s in if c == sep then [] ∷ rest else prepend c rest

-- The digits that `int` takes from a text at most.
abbrev pub max_str_digits : ℕ
max_str_digits = 4300

abbrev pub negate : ℕ → ℤ
negate zero = pos zero
negate (suc n) = negsuc n

abbrev pub signed : Bool → Option ℕ → Option ℤ
signed minus none = none
signed true (some n) = some (negate n)
signed false (some n) = some (pos n)

module _ (decimal : ℕ → Option ℕ) where
  -- The rest of a numeral, behind a digit or not, with the value and the number of the digits before
  -- it. Single underscores may stand between digits.
  unfoldable pub read_digits : Bool → ℕ → ℕ → Text → Option ℕ
  read_digits false n count [] = none
  read_digits true n count [] = if ltb max_str_digits count then none else some n
  read_digits behind_digit n count (c ∷ s) =
      let skip = read_digits false n count s in
      elim (decimal c) [
        | some d ↦ read_digits true (n * 10 + d) (suc count) s
        | none ↦ if behind_digit && c == b'_' then skip else none
      ]

  unfoldable pub int_of : Text → Option ℤ
  unfolding read_digits
  int_of [] = none
  int_of (c ∷ s) =
      if c == b'-'
      then signed true (read_digits false 0 0 s)
      else if c == b'+'
      then signed false (read_digits false 0 0 s)
      else signed false (read_digits false 0 0 (c ∷ s))

  -- `int(s)`; none is ValueError
  unfoldable pub parse_int : Text → Option ℤ
  unfolding int_of strip
  parse_int s = int_of (strip s)
