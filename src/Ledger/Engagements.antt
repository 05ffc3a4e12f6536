-- ===== src/Ledger/Engagements.antt =====
-- The engagement methods of src/harness/db.py. `now` is sqlite's clock at the statement. With
-- timestamps in milliseconds, the idle test of `get_active_engagement` is exact; julianday rounds.
use overwatch_harness.Prelude.{
  ℕ, suc, ◌+◌, ◌*◌, Bool, Option, none, some, List, [], ◌∷◌, ◌&&◌, leb, ltb, select, if◌then◌else◌,
}
use overwatch_harness.Prelude.Table.{update}
use overwatch_harness.Text.{Text, text_eq}
use overwatch_harness.Exec.{Exec, ok, err, lookup_error, integrity_error, or_raise, ◌>>=◌}
use overwatch_harness.Models.{Engagement, continuous, ended, Time, is_active}
use overwatch_harness.Ledger.Db.{Db, engagement_key, find_engagement, has_operator}

-- The WHERE clause of `get_active_engagement`.
abbrev pub is_current : Text → ℕ → Time → Engagement → Bool
is_current operator_id idle_window_seconds now e =
    text_eq e.operator_id operator_id
    && (is_active e && leb now (e.last_activity_at + idle_window_seconds * 1000))

-- `ORDER BY last_activity_at DESC LIMIT 1`. Sqlite leaves the order of equal times open: the newest
-- row goes first.
unfoldable pub latest : List Engagement → Option Engagement
latest [] = none
latest (e ∷ es) = elim (latest es) [
  | none ↦ some e
  | some other ↦ if ltb e.last_activity_at other.last_activity_at then some other else some e
]

unfoldable pub get_active_engagement : Text → ℕ → Time → Db → Option Engagement
unfolding latest
get_active_engagement operator_id idle_window_seconds now db =
    latest (select (is_current operator_id idle_window_seconds now) db.engagements)

unfoldable pub get_engagement : ℕ → Exec Db Engagement
get_engagement engagement_id db = (or_raise lookup_error (find_engagement engagement_id db), db)

abbrev pub new_engagement : ℕ → Text → Option Text → Time → Engagement
new_engagement key operator_id summary now = record {
  engagement_id = key;
  operator_id = operator_id;
  started_at = now;
  last_activity_at = now;
  ended_at = none;
  mode = continuous;
  current_session_id = none;
  plane_issue_id = none;
  plane_issue_seq = none;
  summary = summary;
}

-- The INSERT gives out the next key.
unfoldable pub insert_engagement : Text → Option Text → Time → Exec Db ℕ
insert_engagement operator_id summary now db =
    let key = suc db.engagement_seq in
    if has_operator operator_id db
    then (
      ok key,
      record db {
        engagements = new_engagement key operator_id summary now ∷ db.engagements;
        engagement_seq = key;
      },
    )
    else (err integrity_error, db)

unfoldable pub create_engagement : Text → Option Text → Time → Exec Db Engagement
unfolding insert_engagement get_engagement
create_engagement operator_id summary now = do
  engagement_id ← insert_engagement operator_id summary now
  get_engagement engagement_id

unfoldable pub touch_engagement : ℕ → Time → Db → Db
touch_engagement engagement_id now db = record db {
  engagements =
      update engagement_key engagement_id (λ e. record e { last_activity_at = now }) db.engagements;
}

unfoldable pub end_engagement : ℕ → Time → Db → Db
end_engagement engagement_id now db = record db {
  engagements =
      update engagement_key engagement_id (λ e. record e { ended_at = some now; mode = ended })
        db.engagements;
}
