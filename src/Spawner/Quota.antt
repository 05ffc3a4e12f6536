-- ===== src/Spawner/Quota.antt =====
-- `_looks_like_quota_exhaustion` and `_extract_reset_window` of src/harness/spawner.py. A matcher
-- returns what is left behind its match, or what it captured; choices are tried in the order of
-- the regular expression, and `\d` is given by `is_decimal`, from Unicode's tables.
use overwatch_harness.Prelude.{
  ℕ, Bool, false, Option, none, some, or_else, List, [], ◌∷◌, ◌++◌, ◌&&◌, ◌||◌, ◌==◌, leb, take,
  any, if◌then◌else◌,
}
use overwatch_harness.Text.{
  Text, codes, lower, contains, fold_case, is_space, strip, take_while, drop_while,
}
use overwatch_harness.Text.Int.{ℤ, is_zero}

-- `_QUOTA_SIGNATURES`
abbrev pub quota_signatures : List Text
quota_signatures =
    codes "rate limit"
    ∷ codes "rate-limit"
    ∷ codes "rate_limit"
    ∷ codes "usage limit"
    ∷ codes "quota exceeded"
    ∷ codes "5-hour"
    ∷ codes "max plan limit"
    ∷ []

unfoldable pub looks_like_quota_exhaustion : Text → ℤ → Bool
unfolding lower contains
looks_like_quota_exhaustion stderr exit_code =
    if is_zero exit_code then false else any (λ sig. contains sig (lower stderr)) quota_signatures

-- A literal in lower case, under re.IGNORECASE.
unfoldable pub literal : Text → Text → Option Text
unfolding fold_case
literal [] s = some s
literal (c ∷ p) [] = none
literal (c ∷ p) (d ∷ s) = if fold_case d == c then literal p s else none

abbrev pub then_match : Option Text → (Text → Option Text) → Option Text
then_match none m = none
then_match (some rest) m = m rest

-- `\s+` and a matcher behind it, the longest run of spaces first.
unfoldable pub spaces_then : (Text → Option Text) → Text → Option Text
unfolding is_space
spaces_then m [] = none
spaces_then m (c ∷ s) =
    let longer = spaces_then m s in if is_space c then or_else longer (m s) else none

-- `[0-9TZ:.\- ]`
unfoldable pub is_stamp_char : ℕ → Bool
unfolding fold_case
is_stamp_char c =
    (leb b'0' c && leb c b'9')
    || fold_case c == b't'
    || fold_case c == b'z'
    || c == b':'
    || c == b'.'
    || c == b'-'
    || c == b' '

-- What `UTC?` matches at the head.
unfoldable pub utc : Text → Option Text
unfolding fold_case
utc (a ∷ b ∷ []) = if fold_case a == b'u' && fold_case b == b't' then some (a ∷ b ∷ []) else none
utc (a ∷ b ∷ c ∷ s) =
    if fold_case a == b'u' && fold_case b == b't'
    then some (if fold_case c == b'c' then a ∷ b ∷ c ∷ [] else a ∷ b ∷ [])
    else none
utc s = none

abbrev pub behind : Text → Option Text → Option Text
behind run none = none
behind run (some t) = some (run ++ t)

-- `[0-9TZ:.\- ]+UTC?`: a `U` stops the run, so only the whole run can be followed by one.
unfoldable pub stamp : Text → Option Text
unfolding is_stamp_char utc take_while drop_while
stamp s = elim (take_while is_stamp_char s) [
  | [] ↦ none
  | c ∷ run ↦ behind (c ∷ run) (utc (drop_while is_stamp_char s))
]

-- The unit that `(?:min|hour|h|m)` matches, as it is written.
unfoldable pub unit_word : Text → Option Text
unfolding literal
unit_word s = elim (literal (codes "min") s) [
  | some rest ↦ some (take 3 s)
  | none ↦ elim (literal (codes "hour") s) [
    | some rest ↦ some (take 4 s)
    | none ↦ elim (or_else (literal (codes "h") s) (literal (codes "m") s)) [
      | some rest ↦ some (take 1 s)
      | none ↦ none
    ]
  ]
]

module _ (is_decimal : ℕ → Bool) where
  -- `\d+\s*(?:min|hour|h|m)`: no digit and no space begins a unit, so the runs are whole.
  unfoldable pub span : Text → Option Text
  unfolding is_space unit_word take_while drop_while
  span s = elim (take_while is_decimal s) [
    | [] ↦ none
    | c ∷ run ↦
        let rest = drop_while is_decimal s in
        behind ((c ∷ run) ++ take_while is_space rest) (unit_word (drop_while is_space rest))
  ]

  unfoldable pub group : Text → Option Text
  unfolding stamp span
  group s = or_else (stamp s) (span s)

  -- `\s+(?:at|in)\s+(...)`
  unfoldable pub preposition : Text → Option Text
  unfolding spaces_then literal group
  preposition = spaces_then λ s.
      then_match (or_else (literal (codes "at") s) (literal (codes "in") s)) (spaces_then group)

  -- A match of `_RESET_RE` at the head: its group 1.
  unfoldable pub match_reset : Text → Option Text
  unfolding literal preposition
  match_reset s =
      then_match (literal (codes "reset") s)
        λ rest. or_else (then_match (literal (codes "s") rest) preposition) (preposition rest)

  -- The first place where it matches.
  unfoldable pub search_reset : Text → Option Text
  unfolding match_reset
  search_reset [] = none
  search_reset (c ∷ s) = let later = search_reset s in or_else (match_reset (c ∷ s)) later

  unfoldable pub extract_reset_window : Text → Option Text
  unfolding search_reset strip
  extract_reset_window stderr = elim (search_reset stderr) [
    | none ↦ none
    | some window ↦ some (strip window)
  ]
