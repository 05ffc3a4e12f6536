-- ===== src/Text.antt =====
-- Python's str as the list of its code points, with the methods that the program calls: `==`,
-- `strip`, `lstrip("\n")`, `lower` and the decimal of an int. The white space is that of
-- `str.isspace`, which `strip` takes off.
pub mod Int
pub mod Decimal
pub mod Numeral
pub mod RoundTrip
use Prim.Native.Char.{code}
use Prim.Native.String
use Int.{ℤ, pos, negsuc}
use overwatch_harness.Prelude.{
  ℕ, zero, suc, ◌+◌, ◌/◌, ◌%◌, String, Bool, true, false, ◌&&◌, ◌||◌, List, [], ◌∷◌, ◌++◌, ltb, leb,
  ◌==◌, if◌then◌else◌, ◌≡◌, refl, ◌↔◌, arith, any,
}
use mathlib.Core.List.{reverse}

abbrev pub Text : Type 0
Text = List ℕ

-- A literal of the source.
abbrev pub codes : String → Text
codes String.[] = []
codes (String.◌∷◌ c s) = code c ∷ codes s

unfoldable pub text_eq : Text → Text → Bool
text_eq [] [] = true
text_eq [] (d ∷ t) = false
text_eq (c ∷ s) [] = false
text_eq (c ∷ s) (d ∷ t) = c == d && text_eq s t

pub text_eq_iff : (s t : Text) → (text_eq s t ≡ true) ↔ (s ≡ t)
unfolding text_eq
text_eq_iff [] [] = ground arith
text_eq_iff [] (d ∷ t) = ground arith
text_eq_iff (c ∷ s) [] = ground arith
text_eq_iff (c ∷ s) (d ∷ t) = ground (arith, text_eq_iff s t)

-- The code points c with `chr(c).isspace()`.
unfoldable pub is_space : ℕ → Bool
is_space c =
    (leb 0x09 c && leb c 0x0d)
    || (leb 0x1c c && leb c 0x20)
    || c == 0x85
    || c == 0xa0
    || c == 0x1680
    || (leb 0x2000 c && leb c 0x200a)
    || c == 0x2028
    || c == 0x2029
    || c == 0x202f
    || c == 0x205f
    || c == 0x3000

-- Drops the longest prefix whose characters pass the test.
unfoldable pub drop_while : (ℕ → Bool) → Text → Text
drop_while p [] = []
drop_while p (c ∷ s) = let rest = drop_while p s in if p c then rest else c ∷ s

-- The longest prefix whose characters pass the test.
unfoldable pub take_while : (ℕ → Bool) → Text → Text
take_while p [] = []
take_while p (c ∷ s) = let rest = take_while p s in if p c then c ∷ rest else []

-- `s.strip()`
unfoldable pub strip : Text → Text
unfolding is_space drop_while
strip s = reverse (drop_while is_space (reverse (drop_while is_space s)))

-- `s.lstrip("\n")`
unfoldable pub lstrip_newlines : Text → Text
unfolding drop_while
lstrip_newlines = drop_while (λ c. c == b'\n')

-- The decimal digits of `n`, with fuel above the number of digits.
unfoldable pub digits : ℕ → ℕ → Text
digits zero n = []
digits (suc f) n =
    let more = digits f (n / 10) in
    if ltb n 10 then (b'0' + n) ∷ [] else more ++ (b'0' + n % 10) ∷ []

-- `str(n)` of an int that is not negative
unfoldable pub str : ℕ → Text
unfolding digits
str n = digits (suc n) n

-- `str(n)`
unfoldable pub str_ℤ : ℤ → Text
unfolding str
str_ℤ (pos n) = str n
str_ℤ (negsuc n) = b'-' ∷ str (n + 1)

-- A text that is None or "" is falsy.
abbrev pub is_blank : Text → Bool
is_blank [] = true
is_blank (c ∷ s) = false

-- `str.lower` as far as ASCII results go: any other character stands for itself, since no other one
-- has ASCII in its lower case.
unfoldable pub lower_char : ℕ → Text
lower_char c =
    if leb b'A' c && leb c b'Z'
    then (c + 32) ∷ []
    else if c == 0x130
    then 0x69 ∷ 0x307 ∷ []
    else if c == 0x212a
    then b'k' ∷ []
    else c ∷ []

unfoldable pub lower : Text → Text
unfolding lower_char
lower [] = []
lower (c ∷ s) = lower_char c ++ lower s

-- The ASCII letter that a character equals under re.IGNORECASE, if it equals one.
unfoldable pub fold_case : ℕ → ℕ
fold_case c =
    if leb b'A' c && leb c b'Z'
    then c + 32
    else if c == 0x130 || c == 0x131
    then b'i'
    else if c == 0x17f
    then b's'
    else if c == 0x212a
    then b'k'
    else c

-- `s.startswith(p)`
unfoldable pub starts_with : Text → Text → Bool
starts_with [] s = true
starts_with (c ∷ p) [] = false
starts_with (c ∷ p) (d ∷ s) = c == d && starts_with p s

-- `p in s`
unfoldable pub contains : Text → Text → Bool
unfolding starts_with
contains p [] = is_blank p
contains p (c ∷ s) = starts_with p (c ∷ s) || contains p s

-- f"{s:<n}"
unfoldable pub pad_right : ℕ → Text → Text
pad_right zero s = s
pad_right (suc n) [] = b' ' ∷ pad_right n []
pad_right (suc n) (c ∷ s) = c ∷ pad_right n s
