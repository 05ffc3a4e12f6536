-- ===== src/Config/Allowlist.antt =====
-- The allowlist as text, and what it lets through.
use overwatch_harness.Prelude.{
  ℕ, ◌+◌, ◌^◌, ◌<◌, false, Option, some, List, [], ◌∷◌, ◌++◌, All, ◌≡◌, refl, arith,
}
use overwatch_harness.Text.{Text, str_ℤ, is_blank}
use overwatch_harness.Text.Int.{ℤ}
use overwatch_harness.Text.Numeral.{split, int_of, parse_int}
use overwatch_harness.Text.RoundTrip.{
  magnitude, MinusOrDigit, str_ℤ-numeral, str_ℤ-Solid, strip-Solid, parse_int-str_ℤ,
}
use overwatch_harness.Exec.{ok}
use overwatch_harness.Config.{HarnessSettings, ids_of, allowed_chat_ids}

-- The ids as an operator writes them, with commas between them.
unfoldable pub joined : List ℤ → Text
unfolding str_ℤ
joined [] = []
joined (n ∷ []) = str_ℤ n
joined (n ∷ m ∷ ns) = str_ℤ n ++ b',' ∷ joined (m ∷ ns)

split_last : (s : Text) → All MinusOrDigit s → split b',' s ≡ s ∷ []
unfolding split
split_last [] h = refl
split_last (c ∷ s) h = ground (arith, split_last s h.1)

split_part : (s t : Text) → All MinusOrDigit s → split b',' (s ++ b',' ∷ t) ≡ s ∷ split b',' t
unfolding split
split_part [] t h = refl
split_part (c ∷ s) t h = ground (arith, split_part s t h.1)

abbrev texts : List ℤ → List Text
texts [] = []
texts (n ∷ ns) = str_ℤ n ∷ texts ns

split-joined : (n : ℤ) (ns : List ℤ) → split b',' (joined (n ∷ ns)) ≡ texts (n ∷ ns)
unfolding joined
split-joined n [] = split_last (str_ℤ n) (str_ℤ-numeral n)
split-joined n (m ∷ ns) =
    rw (split_part (str_ℤ n) (joined (m ∷ ns)) (str_ℤ-numeral n), split-joined m ns)

blank-append : (s t : Text) → is_blank s ≡ false → is_blank (s ++ t) ≡ false
blank-append [] t h = cc
blank-append (c ∷ s) t h = refl

module _ (decimal : ℕ → Option ℕ)
    (ascii_digits : (d : ℕ) → d < 10 → decimal (b'0' + d) ≡ some d) where
  not_blank : (s : Text) (n : ℤ) → int_of decimal s ≡ some n → is_blank s ≡ false
  unfolding int_of
  not_blank [] n h = cc
  not_blank (c ∷ s) n h = refl

  str_ℤ_not_blank : (n : ℤ) → magnitude n < 10 ^ 4300 → is_blank (str_ℤ n) ≡ false
  unfolding parse_int
  str_ℤ_not_blank n small =
      not_blank (str_ℤ n) n (
        rw (strip-Solid (str_ℤ n) (str_ℤ-Solid n)) at
          (parse_int-str_ℤ decimal ascii_digits n small))

  ids_of-texts :
      (ns : List ℤ) → All (λ n. magnitude n < 10 ^ 4300) ns → ids_of decimal (texts ns) ≡ ok ns
  unfolding ids_of
  ids_of-texts [] h = refl
  ids_of-texts (n ∷ ns) h = rw (
    strip-Solid (str_ℤ n) (str_ℤ-Solid n),
    str_ℤ_not_blank n h.0,
    parse_int-str_ℤ decimal ascii_digits n h.0,
    ids_of-texts ns h.1,
  )

  joined_not_blank :
      (n : ℤ) (ns : List ℤ) → magnitude n < 10 ^ 4300 → is_blank (joined (n ∷ ns)) ≡ false
  unfolding joined
  joined_not_blank n [] small = str_ℤ_not_blank n small
  joined_not_blank n (m ∷ ns) small = blank-append (str_ℤ n) _ (str_ℤ_not_blank n small)

  -- The ids that an operator writes down in decimal, with commas between them, are the ids that
  -- `allowed_chat_ids` gives back, whatever the other settings are; each has fewer than 4301 digits.
  pub allowed_chat_ids-joined :
      (settings : HarnessSettings) (ids : List ℤ)
      → All (λ n. magnitude n < 10 ^ 4300) ids
      → allowed_chat_ids decimal (record settings { telegram_allowlist = joined ids }) ≡ ok ids
  unfolding allowed_chat_ids
  allowed_chat_ids-joined settings [] h = unfold joined in refl
  allowed_chat_ids-joined settings (n ∷ ns) h =
      rw (joined_not_blank n ns h.0, split-joined n ns) (ids_of-texts (n ∷ ns) h)
