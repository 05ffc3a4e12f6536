-- ===== src/Ledger/Rows/Decoding.antt =====
-- The readers give back the record that a row stands for.
use overwatch_harness.Prelude.{Option, none, some, ◌≡◌, refl}
use overwatch_harness.Text.{Text, text_eq}
use overwatch_harness.Models.{Time, Engagement, Session, Message}
use overwatch_harness.Ledger.Rows.{
  Value, integer, text, column, column_of, number, stamp, as_time, as_key, as_int, or_null, as_text,
  as_word, engagement_from_row, session_from_row, message_from_row,
}
use overwatch_harness.Ledger.Rows.Words.{route_text, routes}
use overwatch_harness.Ledger.Rows.Schema.{
  Conforms, engagement_columns, session_columns, message_columns, engagement_row, session_row,
  message_row,
}
use overwatch_harness.Ledger.Rows.Listed.{
  mode_back, session_status_back, route_back, message_status_back, kind_back,
}
use overwatch_harness.Ledger.Rows.Fitting.{engagement_fits, session_fits, message_fits}

-- A column that may be NULL, whose values are read back.
nullable_back :
    {A : Type 0} (value : A → Value) (typed : Value → Option A) (a : Option A)
    → ((x : A) → or_null typed (value x) ≡ some (some x))
    → or_null typed (column_of value a) ≡ some a
nullable_back value typed none back = refl
nullable_back value typed (some x) back = back x

module _ (iso : Time → Text) (of_iso : Text → Option Time)
    (back : (t : Time) → of_iso (iso t) ≡ some t) where
  time_back : (t : Time) → or_null (as_time of_iso) (stamp iso t) ≡ some (some t)
  time_back t = rw (back t) refl

  engagement_back : (e : Engagement) → engagement_from_row of_iso (engagement_row iso e) ≡ some e
  unfolding engagement_from_row column text_eq
  engagement_back e =
      rw
        (
          back e.started_at,
          back e.last_activity_at,
          nullable_back (stamp iso) (as_time of_iso) e.ended_at time_back,
          mode_back e.mode,
          nullable_back number as_key e.current_session_id (λ x. refl),
          nullable_back text as_text e.plane_issue_id (λ x. refl),
          nullable_back number as_key e.plane_issue_seq (λ x. refl),
          nullable_back text as_text e.summary (λ x. refl),
        )
        refl

  session_back : (s : Session) → session_from_row of_iso (session_row iso s) ≡ some s
  unfolding session_from_row column text_eq
  session_back s =
      rw
        (
          nullable_back text as_text s.claude_session_id (λ x. refl),
          nullable_back number as_key s.parent_session_id (λ x. refl),
          back s.started_at,
          nullable_back (stamp iso) (as_time of_iso) s.ended_at time_back,
          session_status_back s.status,
          nullable_back text as_text s.response_excerpt (λ x. refl),
          nullable_back integer as_int s.exit_code (λ x. refl),
          nullable_back text as_text s.langfuse_trace_id (λ x. refl),
          nullable_back text as_text s.max_quota_reset_window (λ x. refl),
          nullable_back number as_key s.duration_ms (λ x. refl),
        )
        refl

  message_back : (m : Message) → message_from_row of_iso (message_row iso m) ≡ some m
  unfolding message_from_row column text_eq
  message_back m =
      rw
        (
          nullable_back number as_key m.engagement_id (λ x. refl),
          nullable_back number as_key m.session_id (λ x. refl),
          kind_back m.channel_kind,
          back m.received_at,
          nullable_back text as_text m.reply_to_msg_id (λ x. refl),
          nullable_back (λ r. text (route_text r)) (as_word route_text routes) m.classifier_route
              (λ r. rw (route_back r) refl),
          nullable_back text as_text m.classifier_version (λ x. refl),
          nullable_back text as_text m.prompt_hash (λ x. refl),
          nullable_back text as_text m.reply_text (λ x. refl),
          message_status_back m.status,
          nullable_back text as_text m.error_summary (λ x. refl),
        )
        refl

-- With any text for times from which the time can be read, the row of an engagement, a session or
-- a message has every column of its table, NULL only where the table allows it, values of the
-- columns' types and words of their CHECK lists, and its reader gives the record back.
pub rows_read_back :
    (iso : Time → Text) (of_iso : Text → Option Time)
    → ((t : Time) → of_iso (iso t) ≡ some t)
    → (e : Engagement) (s : Session) (m : Message)
    → (Conforms engagement_columns (engagement_row iso e)
        × (engagement_from_row of_iso (engagement_row iso e) ≡ some e))
      × (Conforms session_columns (session_row iso s)
          × (session_from_row of_iso (session_row iso s) ≡ some s))
      × (Conforms message_columns (message_row iso m)
          × (message_from_row of_iso (message_row iso m) ≡ some m))
rows_read_back iso of_iso back e s m = (
  (engagement_fits iso e, engagement_back iso of_iso back e),
  (session_fits iso s, session_back iso of_iso back s),
  (message_fits iso m, message_back iso of_iso back m),
)
