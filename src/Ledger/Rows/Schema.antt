-- ===== src/Ledger/Rows/Schema.antt =====
-- The columns of migrations/0001_init.sql that the readers read, and the row that a record of the
-- model stands for.
use overwatch_harness.Prelude.{
  Bool, true, false, Option, none, some, List, [], ◌∷◌, All, any, map, not, ◌≡◌,
}
use overwatch_harness.Text.{Text, codes, text_eq}
use overwatch_harness.Models.{Time, kind_text, Engagement, Session, Message}
use overwatch_harness.Ledger.Rows.{
  Value, null, integer, text, Row, column, column_of, number, stamp,
}
use overwatch_harness.Ledger.Rows.Words.{
  mode_text, modes, session_status_text, session_statuses, route_text, routes, message_status_text,
  message_statuses,
}

-- The type of a column; a TEXT with a CHECK has its words.
pub data Affinity : Type 0 where
  integers texts : Affinity
  words : List Text → Affinity

pub record Column : Type 0 where
  pub name : Text
  pub affinity : Affinity
  pub not_null : Bool

abbrev pub required : Text → Affinity → Column
required name affinity = record { name = name; affinity = affinity; not_null = true }

abbrev pub nullable : Text → Affinity → Column
nullable name affinity = record { name = name; affinity = affinity; not_null = false }

-- What the column's declaration lets pass.
abbrev pub fits : Affinity → Value → Bool
fits affinity null = true
fits integers (integer n) = true
fits integers (text t) = false
fits texts (integer n) = false
fits texts (text t) = true
fits (words ws) (integer n) = false
fits (words ws) (text t) = any (text_eq t) ws

abbrev pub present : Bool → Value → Bool
present not_null null = not not_null
present not_null (integer n) = true
present not_null (text t) = true

-- A row that has the columns of a table, with values that their declarations let pass.
abbrev pub Meets : Column → Option Value → Type 0
Meets c none = ⊥
Meets c (some v) = (present c.not_null v ≡ true) × (fits c.affinity v ≡ true)

abbrev pub Conforms : List Column → Row → Type 0
Conforms columns row = All (λ c. Meets c (column c.name row)) columns

abbrev pub engagement_columns : List Column
engagement_columns =
    required (codes "engagement_id") integers
    ∷ required (codes "operator_id") texts
    ∷ required (codes "started_at") texts
    ∷ required (codes "last_activity_at") texts
    ∷ nullable (codes "ended_at") texts
    ∷ required (codes "mode") (words (map mode_text modes))
    ∷ nullable (codes "current_session_id") integers
    ∷ nullable (codes "plane_issue_id") texts
    ∷ nullable (codes "plane_issue_seq") integers
    ∷ nullable (codes "summary") texts
    ∷ []

abbrev pub session_columns : List Column
session_columns =
    required (codes "session_id") integers
    ∷ required (codes "engagement_id") integers
    ∷ nullable (codes "claude_session_id") texts
    ∷ nullable (codes "parent_session_id") integers
    ∷ required (codes "started_at") texts
    ∷ nullable (codes "ended_at") texts
    ∷ required (codes "status") (words (map session_status_text session_statuses))
    ∷ required (codes "prompt_excerpt") texts
    ∷ nullable (codes "response_excerpt") texts
    ∷ nullable (codes "exit_code") integers
    ∷ nullable (codes "langfuse_trace_id") texts
    ∷ nullable (codes "max_quota_reset_window") texts
    ∷ nullable (codes "duration_ms") integers
    ∷ []

-- `channel_kind` has a CHECK in the table of operators only.
abbrev pub message_columns : List Column
message_columns =
    required (codes "message_id") integers
    ∷ required (codes "operator_id") texts
    ∷ nullable (codes "engagement_id") integers
    ∷ nullable (codes "session_id") integers
    ∷ required (codes "channel_kind") texts
    ∷ required (codes "channel_msg_id") texts
    ∷ required (codes "received_at") texts
    ∷ required (codes "body") texts
    ∷ nullable (codes "reply_to_msg_id") texts
    ∷ nullable (codes "classifier_route") (words (map route_text routes))
    ∷ nullable (codes "classifier_version") texts
    ∷ nullable (codes "prompt_hash") texts
    ∷ nullable (codes "reply_text") texts
    ∷ required (codes "status") (words (map message_status_text message_statuses))
    ∷ nullable (codes "error_summary") texts
    ∷ []

module _ (iso : Time → Text) where
  abbrev pub engagement_row : Engagement → Row
  engagement_row e =
      (codes "engagement_id", number e.engagement_id)
      ∷ (codes "operator_id", text e.operator_id)
      ∷ (codes "started_at", stamp iso e.started_at)
      ∷ (codes "last_activity_at", stamp iso e.last_activity_at)
      ∷ (codes "ended_at", column_of (stamp iso) e.ended_at)
      ∷ (codes "mode", text (mode_text e.mode))
      ∷ (codes "current_session_id", column_of number e.current_session_id)
      ∷ (codes "plane_issue_id", column_of text e.plane_issue_id)
      ∷ (codes "plane_issue_seq", column_of number e.plane_issue_seq)
      ∷ (codes "summary", column_of text e.summary)
      ∷ []

  abbrev pub session_row : Session → Row
  session_row s =
      (codes "session_id", number s.session_id)
      ∷ (codes "engagement_id", number s.engagement_id)
      ∷ (codes "claude_session_id", column_of text s.claude_session_id)
      ∷ (codes "parent_session_id", column_of number s.parent_session_id)
      ∷ (codes "started_at", stamp iso s.started_at)
      ∷ (codes "ended_at", column_of (stamp iso) s.ended_at)
      ∷ (codes "status", text (session_status_text s.status))
      ∷ (codes "prompt_excerpt", text s.prompt_excerpt)
      ∷ (codes "response_excerpt", column_of text s.response_excerpt)
      ∷ (codes "exit_code", column_of integer s.exit_code)
      ∷ (codes "langfuse_trace_id", column_of text s.langfuse_trace_id)
      ∷ (codes "max_quota_reset_window", column_of text s.max_quota_reset_window)
      ∷ (codes "duration_ms", column_of number s.duration_ms)
      ∷ []

  abbrev pub message_row : Message → Row
  message_row m =
      (codes "message_id", number m.message_id)
      ∷ (codes "operator_id", text m.operator_id)
      ∷ (codes "engagement_id", column_of number m.engagement_id)
      ∷ (codes "session_id", column_of number m.session_id)
      ∷ (codes "channel_kind", text (kind_text m.channel_kind))
      ∷ (codes "channel_msg_id", text m.channel_msg_id)
      ∷ (codes "received_at", stamp iso m.received_at)
      ∷ (codes "body", text m.body)
      ∷ (codes "reply_to_msg_id", column_of text m.reply_to_msg_id)
      ∷ (codes "classifier_route", column_of (λ r. text (route_text r)) m.classifier_route)
      ∷ (codes "classifier_version", column_of text m.classifier_version)
      ∷ (codes "prompt_hash", column_of text m.prompt_hash)
      ∷ (codes "reply_text", column_of text m.reply_text)
      ∷ (codes "status", text (message_status_text m.status))
      ∷ (codes "error_summary", column_of text m.error_summary)
      ∷ []
