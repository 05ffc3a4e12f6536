-- ===== src/Ledger/Sessions.antt =====
-- The session methods of src/harness/db.py.
use overwatch_harness.Prelude.{ℕ, suc, Option, none, some, [], ◌∷◌, ◌&&◌, take, if◌then◌else◌}
use overwatch_harness.Prelude.Table.{update}
use overwatch_harness.Text.{Text}
use overwatch_harness.Text.Int.{ℤ}
use overwatch_harness.Exec.{Exec, ok, err, lookup_error, integrity_error, or_raise, ◌>>=◌}
use overwatch_harness.Models.{Engagement, Session, SessionStatus, spawning, running, Time}
use overwatch_harness.Ledger.Db.{
  Db, engagement_key, session_key, find_session, has_engagement, has_session,
}

unfoldable pub get_session : ℕ → Exec Db Session
get_session session_id db = (or_raise lookup_error (find_session session_id db), db)

abbrev pub new_session : ℕ → ℕ → Text → Option ℕ → Time → Session
new_session key engagement_id prompt_excerpt parent_session_id now = record {
  session_id = key;
  engagement_id = engagement_id;
  claude_session_id = none;
  parent_session_id = parent_session_id;
  started_at = now;
  ended_at = none;
  status = spawning;
  prompt_excerpt = take 500 prompt_excerpt;
  response_excerpt = none;
  exit_code = none;
  langfuse_trace_id = none;
  max_quota_reset_window = none;
  duration_ms = none;
}

-- `UPDATE engagement SET current_session_id = ?`
abbrev pub set_current : ℕ → Engagement → Engagement
set_current key e = record e { current_session_id = some key }

-- The INSERT and the UPDATE of the engagement.
unfoldable pub insert_session : ℕ → Text → Option ℕ → Time → Exec Db ℕ
insert_session engagement_id prompt_excerpt parent_session_id now db =
    let key = suc db.session_seq in
    if has_engagement (some engagement_id) db && has_session parent_session_id db
    then (
      ok key,
      record db {
        sessions = new_session key engagement_id prompt_excerpt parent_session_id now ∷ db.sessions;
        session_seq = key;
        engagements = update engagement_key engagement_id (set_current key) db.engagements;
      },
    )
    else (err integrity_error, db)

unfoldable pub create_session : ℕ → Text → Option ℕ → Time → Exec Db Session
unfolding insert_session get_session
create_session engagement_id prompt_excerpt parent_session_id now = do
  session_id ← insert_session engagement_id prompt_excerpt parent_session_id now
  get_session session_id

unfoldable pub attach_claude_session_id : ℕ → Text → Db → Db
attach_claude_session_id session_id claude_session_id db = record db {
  sessions =
      update session_key session_id
        (λ s. record s { claude_session_id = some claude_session_id; status = running })
        db.sessions;
}

-- `text or None`
abbrev pub some_text : Text → Option Text
some_text [] = none
some_text (c ∷ t) = some (c ∷ t)

-- `(response_excerpt or "")[:500] or None`
abbrev pub excerpt : Option Text → Option Text
excerpt none = none
excerpt (some t) = some_text (take 500 t)

unfoldable pub finalize_session :
    ℕ → SessionStatus → Option ℤ → Option Text → Option ℕ → Option Text → Time → Db → Db
finalize_session session_id status exit_code response_excerpt duration_ms window now db =
    record db {
      sessions =
          update session_key session_id
            (λ s. record s {
              ended_at = some now;
              status = status;
              exit_code = exit_code;
              response_excerpt = excerpt response_excerpt;
              duration_ms = duration_ms;
              max_quota_reset_window = window;
            })
            db.sessions;
    }
