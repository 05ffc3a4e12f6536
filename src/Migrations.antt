-- ===== src/Migrations.antt =====
-- The migration runner of src/harness/db.py. The directory and sqlite are outside: the `*.sql` files
-- that the directory holds, in the order of `sorted(root.glob("*.sql"))`, and for sqlite the head
-- that its schema_version table tells and what a script makes of it.
pub mod Reruns
use overwatch_harness.Prelude.{
  ℕ, ◌+◌, ◌*◌, Option, none, some, List, [], ◌∷◌, ◌++◌, Bool, true, false, ◌&&◌, ◌==◌, leb,
  if◌then◌else◌,
}
use overwatch_harness.Prelude.Sorting.{sort_by}
use overwatch_harness.Text.{Text, codes, text_eq}
use overwatch_harness.Exec.{Exec, Result, ok, err, pure, gets, ◌>>=◌, ◌>>◌}

pub record File : Type 0 where
  pub name : Text
  pub script : Text

abbrev newline : ℕ
newline = 10

-- Whether a text is one character or more, none of them a newline, and then `.sql`, which may have
-- one newline behind it: `.+\.sql$` matches it. The flag is set behind the first character.
unfoldable pub matches_sql : Bool → Text → Bool
unfolding text_eq
matches_sql behind [] = false
matches_sql behind (c ∷ s) =
    let rest = matches_sql true s in
    if behind && text_eq (c ∷ s) (codes ".sql")
    then true
    else if behind && text_eq (c ∷ s) (codes ".sql" ++ newline ∷ [])
    then true
    else if c == newline
    then false
    else rest

infixl 5 ◌>>=?◌
abbrev ◌>>=?◌ {ℓ} : {A B : Type ℓ} → Option A → (A → Option B) → Option B
none >>=? f = none
some a >>=? f = f a

module _ (decimal : ℕ → Option ℕ) where
  -- `_MIGRATION_FILENAME_RE.match(name)`: four digits, `_` and the rest; the value is
  -- `int(m.group(1))`.
  unfoldable pub version_of : Text → Option ℕ
  unfolding matches_sql
  version_of (a ∷ b ∷ c ∷ d ∷ e ∷ rest) = decimal a >>=? λ ka. decimal b >>=? λ kb.
      decimal c >>=? λ kc. decimal d >>=? λ kd.
      if e == b'_' && matches_sql false rest
      then some (ka * 1000 + kb * 100 + kc * 10 + kd)
      else none
  version_of _ = none

  abbrev pub versioned : Option ℕ → File → List (ℕ × File) → List (ℕ × File)
  versioned none p out = out
  versioned (some v) p out = (v, p) ∷ out

  unfoldable pub collect : List File → List (ℕ × File)
  unfolding version_of
  collect [] = []
  collect (p ∷ ps) = versioned (version_of p.name) p (collect ps)

  -- `_discover_migrations`; none is a root that does not exist
  unfoldable pub discover_migrations : Option (List File) → List (ℕ × File)
  unfolding collect sort_by
  discover_migrations none = []
  discover_migrations (some ps) = sort_by (λ m. m.0) (collect ps)

-- sqlite, as far as the runner uses it.
pub record Sqlite (D : Type 0) : Type 0 where
  -- `SELECT MAX(version) FROM schema_version`: none for no table, no row and NULL
  pub max_version : D → Option ℕ
  -- `executescript`
  pub execute : Text → Exec D (Unit {0})

abbrev pub or_zero : Option ℕ → ℕ
or_zero none = 0
or_zero (some v) = v

module _ {D : Type 0} (sqlite : Sqlite D) where
  abbrev pub head : D → ℕ
  head d = or_zero (sqlite.max_version d)

  -- The loop, which compares with the head from before it.
  unfoldable pub apply_newer : ℕ → List (ℕ × File) → Exec D (List ℕ)
  apply_newer old [] = pure []
  apply_newer old ((version, path) ∷ rest) =
      let others = apply_newer old rest in
      if leb version old
      then others
      else (sqlite.execute path.script >> (others >>= λ applied. pure (version ∷ applied)))

  unfoldable pub apply_migrations : List (ℕ × File) → Exec D (List ℕ)
  unfolding apply_newer
  apply_migrations [] d = (ok [], d)
  apply_migrations (m ∷ ms) d = apply_newer (head d) (m ∷ ms) d
