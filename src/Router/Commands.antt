-- ===== src/Router/Commands.antt =====
-- A slash command as an operator writes it, and what `parse_slash` makes of it.
use overwatch_harness.Prelude.{
  ℕ, ◌≤◌, true, Bool-cases, inl, inr, Option, none, some, [], ◌∷◌, ◌++◌, All, All-map, length, ◌≡◌,
  ◌≢◌, ◌⊎◌, refl, sym, ap, ◌∙◌, arith, append_assoc, append-nil,
}
use overwatch_harness.Text.{
  Text, is_space, drop_while, take_while, strip, lower, lower_char, fold_case,
}
use overwatch_harness.Text.RoundTrip.{Solid, drop_while-Solid, reverse-Solid}
use overwatch_harness.Router.{
  is_letter, is_bot_char, is_name_char, skip_bot, match_slash, parse_slash,
}
use mathlib.Core.List.{reverse, reverse-cons, reverse-append, reverse-reverse}

-- A lower-case ASCII letter, and a character of a command's name without capitals.
abbrev pub Letter : ℕ → Type 0
Letter c = (b'a' ≤ c) × (c ≤ b'z')

abbrev pub NameChar : ℕ → Type 0
NameChar c = Letter c ⊎ ((b'0' ≤ c) × (c ≤ b'9')) ⊎ (c ≡ b'_') ⊎ (c ≡ b'-')

-- A text with no white space at its ends.
abbrev pub Trimmed : Text → Type 0
Trimmed s = (drop_while is_space s ≡ s) × (drop_while is_space (reverse s) ≡ reverse s)

is_letter-Letter : (c : ℕ) → Letter c → is_letter c ≡ true
unfolding is_letter fold_case
is_letter-Letter c h = ground (arith, h)

is_name_char-NameChar : (c : ℕ) → NameChar c → is_name_char c ≡ true
unfolding is_name_char is_bot_char is_letter fold_case
is_name_char-NameChar c h = ground (arith, h)

lower_char-NameChar : (c : ℕ) → NameChar c → lower_char c ≡ c ∷ []
unfolding lower_char
lower_char-NameChar c h = ground (arith, h)

Solid-NameChar : (c : ℕ) → NameChar c → Solid c
unfolding is_space
Solid-NameChar c h = ground (arith, h)

lower-NameChar : (s : Text) → All NameChar s → lower s ≡ s
unfolding lower
lower-NameChar [] h = refl
lower-NameChar (c ∷ s) h = rw (lower_char-NameChar c h.0, lower-NameChar s h.1) refl

-- Behind the name stands nothing or a space.
abbrev Behind : Text → Type 0
Behind t = (t ≡ []) ⊎ ((u : Text) × (t ≡ b' ' ∷ u))

take_while-name : (s t : Text) → All NameChar s → Behind t → take_while is_name_char (s ++ t) ≡ s
unfolding take_while
take_while-name [] t h (inl e) = rw e refl
take_while-name [] t h (inr (u, e)) =
    rw e (unfold is_name_char is_bot_char is_letter fold_case in refl)
take_while-name (c ∷ s) t h b = rw (is_name_char-NameChar c h.0, take_while-name s t h.1 b) refl

drop_while-name : (s t : Text) → All NameChar s → Behind t → drop_while is_name_char (s ++ t) ≡ t
unfolding drop_while
drop_while-name [] t h (inl e) = rw e refl
drop_while-name [] t h (inr (u, e)) =
    rw e (unfold is_name_char is_bot_char is_letter fold_case in refl)
drop_while-name (c ∷ s) t h b = rw (is_name_char-NameChar c h.0, drop_while-name s t h.1 b) refl

length-drop_while : (s : Text) → length (drop_while is_space s) ≤ length s
unfolding drop_while
length-drop_while [] = omega arith
length-drop_while (c ∷ s) = ground (arith, length-drop_while s)

-- A text that begins with no white space still does with more behind it.
drop_while-append :
    (c : ℕ) (s t : Text)
    → drop_while is_space (c ∷ s) ≡ c ∷ s
    → drop_while is_space ((c ∷ s) ++ t) ≡ (c ∷ s) ++ t
unfolding drop_while
drop_while-append c s t h = elim (Bool-cases (is_space c)) [
  | inl space ↦ absurd (
      let e : drop_while is_space s ≡ c ∷ s = rw space at h in
      omega (arith, ap length e, length-drop_while s))
  | inr solid ↦ rw solid refl
]

drop_while-behind :
    (r t : Text) → r ≢ [] → drop_while is_space r ≡ r → drop_while is_space (r ++ t) ≡ r ++ t
drop_while-behind [] t some_text h = absurd (some_text refl)
drop_while-behind (c ∷ s) t some_text h = drop_while-append c s t h

reverse_not_empty : (s : Text) → s ≢ [] → reverse s ≢ []
reverse_not_empty s h e = h (sym (reverse-reverse s) ∙ ap reverse e)

Solid-head : (c : ℕ) (s : Text) → All NameChar (c ∷ s) → All Solid (b'/' ∷ c ∷ s)
Solid-head c s h = (unfold is_space in refl, All-map NameChar Solid (c ∷ s) Solid-NameChar h)

head_kept :
    (c : ℕ) (s t : Text)
    → All NameChar (c ∷ s)
    → drop_while is_space ((b'/' ∷ c ∷ s) ++ t) ≡ (b'/' ∷ c ∷ s) ++ t
head_kept c s t h =
    drop_while-append b'/' (c ∷ s) t (drop_while-Solid (b'/' ∷ c ∷ s) (Solid-head c s h))

strip-bare :
    (c : ℕ) (s : Text) → All NameChar (c ∷ s) → strip ((b'/' ∷ c ∷ s) ++ b' ' ∷ []) ≡ b'/' ∷ c ∷ s
unfolding strip
strip-bare c s h =
    ap (λ r. reverse (drop_while is_space (reverse r))) (head_kept c s (b' ' ∷ []) h)
    ∙ ap (λ r. reverse (drop_while is_space r)) (reverse-append (b'/' ∷ c ∷ s) (b' ' ∷ []))
    ∙ ap reverse (
        space_dropped
        ∙ drop_while-Solid (reverse (b'/' ∷ c ∷ s))
            (reverse-Solid (b'/' ∷ c ∷ s) (Solid-head c s h)))
    ∙ reverse-reverse (b'/' ∷ c ∷ s)
  where
    space_dropped :
        drop_while is_space (b' ' ∷ reverse (b'/' ∷ c ∷ s))
        ≡ drop_while is_space (reverse (b'/' ∷ c ∷ s))
    space_dropped = unfold drop_while is_space in refl

strip-arguments :
    (c : ℕ) (s args : Text)
    → All NameChar (c ∷ s)
    → args ≢ []
    → Trimmed args
    → strip ((b'/' ∷ c ∷ s) ++ b' ' ∷ args) ≡ (b'/' ∷ c ∷ s) ++ b' ' ∷ args
unfolding strip
strip-arguments c s args h some_text trim =
    let body : Text = (b'/' ∷ c ∷ s) ++ b' ' ∷ args in
    let reversed : reverse body ≡ reverse args ++ (b' ' ∷ reverse (b'/' ∷ c ∷ s)) =
      reverse-append (b'/' ∷ c ∷ s) (b' ' ∷ args)
      ∙ ap (λ r. r ++ reverse (b'/' ∷ c ∷ s)) (reverse-cons b' ' args)
      ∙ append_assoc (reverse args) (b' ' ∷ []) (reverse (b'/' ∷ c ∷ s)) in
    rw (head_kept c s (b' ' ∷ args) h) (
      ap (λ r. reverse (drop_while is_space r)) reversed
      ∙ ap reverse (
          drop_while-behind (reverse args) _ (reverse_not_empty args some_text) trim.1
          ∙ sym reversed)
      ∙ reverse-reverse body)

strip-Trimmed : (s : Text) → Trimmed s → strip s ≡ s
unfolding strip
strip-Trimmed s h = rw (h.0, h.1) (reverse-reverse s)

strip-space : (s : Text) → strip (b' ' ∷ s) ≡ strip s
unfolding strip drop_while is_space
strip-space s = refl

Letter-NameChar : (c : ℕ) (s : Text) → Letter c → All NameChar s → All NameChar (c ∷ s)
Letter-NameChar c s letter h = (inl letter, h)

match_slash-command :
    (c : ℕ) (s t : Text)
    → Letter c
    → All NameChar s
    → Behind t
    → match_slash ((b'/' ∷ c ∷ s) ++ t) ≡ some (c ∷ s, skip_bot t)
unfolding match_slash
match_slash-command c s t letter h b =
    rw (is_letter-Letter c letter, take_while-name s t h b, drop_while-name s t h b) refl

skip_bot-space : (t : Text) → skip_bot (b' ' ∷ t) ≡ b' ' ∷ t
unfolding skip_bot
skip_bot-space [] = refl
skip_bot-space (c ∷ t) = refl

-- What `parse_slash` makes of a match.
abbrev finish_match : Option (Text × Text) → Option (Text × Text)
finish_match none = none
finish_match (some (name, rest)) = some (lower name, strip rest)

parse_slash-match :
    (body stripped name rest : Text)
    → strip body ≡ stripped
    → match_slash stripped ≡ some (name, rest)
    → parse_slash body ≡ some (lower name, strip rest)
unfolding parse_slash
parse_slash-match body stripped name rest e f = ap finish_match (ap match_slash e ∙ f)

both_same :
    {a b c d : Text} → a ≡ c → b ≡ d → Path (Option (Text × Text)) (some (a, b)) (some (c, d))
both_same e f = cc

-- A slash, a name of lower-case letters, digits, `_` and `-` that begins with a letter, a space, and
-- arguments with no white space at their ends, or none, are parsed to that name and those arguments.
pub parse_slash-command :
    (c : ℕ) (s args : Text)
    → Letter c
    → All NameChar s
    → Trimmed args
    → parse_slash ((b'/' ∷ c ∷ s) ++ b' ' ∷ args) ≡ some (c ∷ s, args)
unfolding skip_bot
parse_slash-command c s [] letter h trim =
    let named = Letter-NameChar c s letter h in
    let matched : match_slash (b'/' ∷ c ∷ s) ≡ some (c ∷ s, []) =
      rw append-nil at (match_slash-command c s [] letter h (inl refl)) in
    parse_slash-match _ _ _ _ (strip-bare c s named) matched
    ∙ both_same (lower-NameChar (c ∷ s) named) (unfold strip in refl)
parse_slash-command c s (a ∷ args) letter h trim =
    let named = Letter-NameChar c s letter h in
    parse_slash-match _ _ _ _ (strip-arguments c s (a ∷ args) named (λ e. cc) trim)
      (match_slash-command c s (b' ' ∷ a ∷ args) letter h (inr (a ∷ args, refl)))
    ∙ both_same (lower-NameChar (c ∷ s) named) (
        ap strip (skip_bot-space (a ∷ args))
        ∙ strip-space (a ∷ args)
        ∙ strip-Trimmed (a ∷ args) trim)
