-- ===== src/Text/RoundTrip.antt =====
-- `int(str(n))` is n.
use overwatch_harness.Prelude.{
  ℕ, zero, suc, ◌+◌, ◌/◌, ◌%◌, ◌^◌, ◌≤◌, ◌<◌, Bool, true, false, Option, some, [], ◌∷◌, ◌++◌, All,
  All-map, All-append, ltb, length, length-append, Bool-cases, append_assoc, append-nil, inl, inr,
  ◌≡◌, ◌⊎◌, refl, arith, ◌∙◌,
}
use mathlib.Core.List.{reverse, reverse-cons, reverse-reverse}
use overwatch_harness.Text.{Text, digits, str, str_ℤ, strip, is_space, drop_while}
use overwatch_harness.Text.Int.{ℤ, pos, negsuc}
use overwatch_harness.Text.Decimal.{length-str-le}
use overwatch_harness.Text.Numeral.{read_digits, int_of, parse_int, signed}

abbrev pub IsDigit : ℕ → Type 0
IsDigit c = (48 ≤ c) × (c ≤ 57)

digits-IsDigit : (f n : ℕ) → All IsDigit (digits f n)
unfolding digits
digits-IsDigit zero n = tt
digits-IsDigit (suc f) n = elim (Bool-cases (ltb n 10)) [
  | inl small ↦ rw small (ground arith)
  | inr more ↦
      rw more (All-append IsDigit (digits f (n / 10)) _ (digits-IsDigit f (n / 10)) (omega arith))
]

-- What `str` writes is read back, whatever stands before it.
module _ (decimal : ℕ → Option ℕ)
    (ascii_digits : (d : ℕ) → d < 10 → decimal (b'0' + d) ≡ some d) where
  read_digits-digits :
      (f n : ℕ) (b : Bool) (count : ℕ) (rest : Text)
      → n < f
      → read_digits decimal b 0 count (digits f n ++ rest)
        ≡ read_digits decimal true n (count + length (digits f n)) rest
  unfolding digits read_digits
  read_digits-digits zero n b count rest h = absurd (omega arith)
  read_digits-digits (suc f) n b count rest h = elim (Bool-cases (ltb n 10)) [
    | inl small ↦ ground (arith, ascii_digits n)
    | inr more ↦
        rw (more, append_assoc (digits f (n / 10)))
          (ground (
            arith,
            read_digits-digits f (n / 10) b count ((b'0' + n % 10) ∷ rest),
            ascii_digits (n % 10),
            length-append {0} (digits f (n / 10)) ((b'0' + n % 10) ∷ []),
          ))
  ]

-- A character that `strip` leaves.
abbrev pub Solid : ℕ → Type 0
Solid c = is_space c ≡ false

Solid-IsDigit : (c : ℕ) → IsDigit c → Solid c
unfolding is_space
Solid-IsDigit c h = ground arith

pub drop_while-Solid : (s : Text) → All Solid s → drop_while is_space s ≡ s
unfolding drop_while
drop_while-Solid [] h = refl
drop_while-Solid (c ∷ s) h = rw h.0

pub reverse-Solid : (s : Text) → All Solid s → All Solid (reverse s)
reverse-Solid [] h = tt
reverse-Solid (c ∷ s) h =
    rw (reverse-cons c s) (All-append Solid (reverse s) _ (reverse-Solid s h.1) (h.0, tt))

pub strip-Solid : (s : Text) → All Solid s → strip s ≡ s
unfolding strip
strip-Solid s h =
    rw (drop_while-Solid s h, drop_while-Solid (reverse s) (reverse-Solid s h)) (reverse-reverse s)

abbrev pub MinusOrDigit : ℕ → Type 0
MinusOrDigit c = ((c ≡ b'-') ⊎ IsDigit c)

Solid-minus : (c : ℕ) → MinusOrDigit c → Solid c
Solid-minus c (inl e) = rw e (unfold is_space in refl)
Solid-minus c (inr d) = Solid-IsDigit c d

pub str_ℤ-numeral : (n : ℤ) → All MinusOrDigit (str_ℤ n)
unfolding str_ℤ
str_ℤ-numeral (pos n) = All-map IsDigit MinusOrDigit _ (λ c d. inr d) (digits-IsDigit (suc n) n)
str_ℤ-numeral (negsuc n) =
    (inl refl, All-map IsDigit MinusOrDigit _ (λ c d. inr d) (digits-IsDigit (suc (n + 1)) (n + 1)))

pub str_ℤ-Solid : (n : ℤ) → All Solid (str_ℤ n)
str_ℤ-Solid n = All-map MinusOrDigit Solid _ Solid-minus (str_ℤ-numeral n)

abbrev pub magnitude : ℤ → ℕ
magnitude (pos n) = n
magnitude (negsuc n) = n + 1

module _ (decimal : ℕ → Option ℕ)
    (ascii_digits : (d : ℕ) → d < 10 → decimal (b'0' + d) ≡ some d) where
  read_digits-end : (n count : ℕ) → count ≤ 4300 → read_digits decimal true n count [] ≡ some n
  unfolding read_digits
  read_digits-end n count h = ground arith

  read_digits-str : (n : ℕ) → n < 10 ^ 4300 → read_digits decimal false 0 0 (str n) ≡ some n
  unfolding str
  read_digits-str n small = rw (← append-nil (digits (suc n) n)) (
      read_digits-digits decimal ascii_digits (suc n) n false 0 [] (omega arith)
      ∙ read_digits-end n (0 + length (digits (suc n) n))
          (omega (arith, length-str-le 4299 n small)))

  int_of_unsigned :
      (s : Text) → All IsDigit s → int_of decimal s ≡ signed false (read_digits decimal false 0 0 s)
  unfolding int_of
  int_of_unsigned [] h = refl
  int_of_unsigned (c ∷ s) h = ground arith

  int_of-str_ℤ : (n : ℤ) → magnitude n < 10 ^ 4300 → int_of decimal (str_ℤ n) ≡ some n
  unfolding str_ℤ int_of
  int_of-str_ℤ (pos n) small =
      int_of_unsigned (str n) (digits-IsDigit (suc n) n) ∙ rw (read_digits-str n small)
  int_of-str_ℤ (negsuc n) small = rw (read_digits-str (n + 1) small) (ground arith)

  -- `int(str(n))` is n, for a number of at most 4300 digits.
  pub parse_int-str_ℤ : (n : ℤ) → magnitude n < 10 ^ 4300 → parse_int decimal (str_ℤ n) ≡ some n
  unfolding parse_int
  parse_int-str_ℤ n small = rw (strip-Solid (str_ℤ n) (str_ℤ-Solid n)) (int_of-str_ℤ n small)
