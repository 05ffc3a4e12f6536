-- ===== src/Ledger/Rows.antt =====
-- `_engagement_from_row`, `_session_from_row` and `_message_from_row` of src/harness/db.py, and the
-- columns of migrations/0001_init.sql that they read. A row of sqlite is its columns by name.
pub mod Words
pub mod Schema
pub mod Listed
pub mod Fitting
pub mod Decoding
use mathlib.Core.Option
use overwatch_harness.Prelude.{ℕ, Option, none, some, List, [], ◌∷◌, map, if◌then◌else◌}
use overwatch_harness.Text.{Text, codes, text_eq}
use overwatch_harness.Text.Int.{ℤ, pos}
use overwatch_harness.Ledger.Rows.Words.{
  mode_text, modes, session_status_text, session_statuses, route_text, routes, message_status_text,
  message_statuses, kinds,
}
use overwatch_harness.Models.{Time, kind_text, Engagement, Session, Message}

-- The storage classes that the tables hold.
pub data Value : Type 0 where
  null : Value
  integer : ℤ → Value
  text : Text → Value

abbrev pub Row : Type 0
Row = List (Text × Value)

-- `row[name]`, none where that raises IndexError
unfoldable pub column : Text → Row → Option Value
column name [] = none
column name (c ∷ row) = if text_eq c.0 name then some c.1 else column name row

-- A value as what the dataclass's annotation calls for; none where it is of another type. Python
-- does not look: it stores any value.
abbrev pub as_int : Value → Option ℤ
as_int (integer n) = some n
as_int _ = none

abbrev pub as_key : Value → Option ℕ
as_key (integer (pos n)) = some n
as_key _ = none

abbrev pub as_text : Value → Option Text
as_text (text t) = some t
as_text _ = none

module _ {A : Type 0} where
  -- One of the words of a CHECK list.
  unfoldable pub word_of : (A → Text) → List A → Text → Option A
  word_of spell [] t = none
  word_of spell (a ∷ more) t = if text_eq (spell a) t then some a else word_of spell more t

  abbrev pub as_word : (A → Text) → List A → Value → Option A
  as_word spell words (text t) = word_of spell words t
  as_word spell words _ = none

  -- `... | None`
  abbrev pub or_null : (Value → Option A) → Value → Option (Option A)
  or_null typed null = some none
  or_null typed (integer n) = Option.map some (typed (integer n))
  or_null typed (text t) = Option.map some (typed (text t))

  abbrev pub read : (Value → Option A) → Text → Row → Option A
  read typed name row = elim (column name row) [ none ↦ none | some v ↦ typed v ]

infixl 5 ◌>>=◌
abbrev ◌>>=◌ : {A B : Type 0} → Option A → (A → Option B) → Option B
none >>= f = none
some a >>= f = f a

abbrev pub column_of : {A : Type 0} → (A → Value) → Option A → Value
column_of value none = null
column_of value (some a) = value a

abbrev pub number : ℕ → Value
number n = integer (pos n)

-- The text of a time, which sqlite's strftime makes.
abbrev pub stamp : (Time → Text) → Time → Value
stamp iso t = text (iso t)

-- The readers, with the time that a text stands for.
module _ (of_iso : Text → Option Time) where
  abbrev pub as_time : Value → Option Time
  as_time (text t) = of_iso t
  as_time _ = none

  -- `_engagement_from_row`
  unfoldable pub engagement_from_row : Row → Option Engagement
  unfolding column word_of
  engagement_from_row row = do
    engagement_id ← read as_key (codes "engagement_id") row
    operator_id ← read as_text (codes "operator_id") row
    started_at ← read as_time (codes "started_at") row
    last_activity_at ← read as_time (codes "last_activity_at") row
    ended_at ← read (or_null as_time) (codes "ended_at") row
    mode ← read (as_word mode_text modes) (codes "mode") row
    current_session_id ← read (or_null as_key) (codes "current_session_id") row
    plane_issue_id ← read (or_null as_text) (codes "plane_issue_id") row
    plane_issue_seq ← read (or_null as_key) (codes "plane_issue_seq") row
    summary ← read (or_null as_text) (codes "summary") row
    some (record {
      engagement_id = engagement_id;
      operator_id = operator_id;
      started_at = started_at;
      last_activity_at = last_activity_at;
      ended_at = ended_at;
      mode = mode;
      current_session_id = current_session_id;
      plane_issue_id = plane_issue_id;
      plane_issue_seq = plane_issue_seq;
      summary = summary;
    })

  -- `_session_from_row`
  unfoldable pub session_from_row : Row → Option Session
  unfolding column word_of
  session_from_row row = do
    session_id ← read as_key (codes "session_id") row
    engagement_id ← read as_key (codes "engagement_id") row
    claude_session_id ← read (or_null as_text) (codes "claude_session_id") row
    parent_session_id ← read (or_null as_key) (codes "parent_session_id") row
    started_at ← read as_time (codes "started_at") row
    ended_at ← read (or_null as_time) (codes "ended_at") row
    status ← read (as_word session_status_text session_statuses) (codes "status") row
    prompt_excerpt ← read as_text (codes "prompt_excerpt") row
    response_excerpt ← read (or_null as_text) (codes "response_excerpt") row
    exit_code ← read (or_null as_int) (codes "exit_code") row
    langfuse_trace_id ← read (or_null as_text) (codes "langfuse_trace_id") row
    max_quota_reset_window ← read (or_null as_text) (codes "max_quota_reset_window") row
    duration_ms ← read (or_null as_key) (codes "duration_ms") row
    some (record {
      session_id = session_id;
      engagement_id = engagement_id;
      claude_session_id = claude_session_id;
      parent_session_id = parent_session_id;
      started_at = started_at;
      ended_at = ended_at;
      status = status;
      prompt_excerpt = prompt_excerpt;
      response_excerpt = response_excerpt;
      exit_code = exit_code;
      langfuse_trace_id = langfuse_trace_id;
      max_quota_reset_window = max_quota_reset_window;
      duration_ms = duration_ms;
    })

  -- `_message_from_row`
  unfoldable pub message_from_row : Row → Option Message
  unfolding column word_of kind_text
  message_from_row row = do
    message_id ← read as_key (codes "message_id") row
    operator_id ← read as_text (codes "operator_id") row
    engagement_id ← read (or_null as_key) (codes "engagement_id") row
    session_id ← read (or_null as_key) (codes "session_id") row
    channel_kind ← read (as_word kind_text kinds) (codes "channel_kind") row
    channel_msg_id ← read as_text (codes "channel_msg_id") row
    received_at ← read as_time (codes "received_at") row
    body ← read as_text (codes "body") row
    reply_to_msg_id ← read (or_null as_text) (codes "reply_to_msg_id") row
    classifier_route ← read (or_null (as_word route_text routes)) (codes "classifier_route") row
    classifier_version ← read (or_null as_text) (codes "classifier_version") row
    prompt_hash ← read (or_null as_text) (codes "prompt_hash") row
    reply_text ← read (or_null as_text) (codes "reply_text") row
    status ← read (as_word message_status_text message_statuses) (codes "status") row
    error_summary ← read (or_null as_text) (codes "error_summary") row
    some (record {
      message_id = message_id;
      operator_id = operator_id;
      engagement_id = engagement_id;
      session_id = session_id;
      channel_kind = channel_kind;
      channel_msg_id = channel_msg_id;
      received_at = received_at;
      body = body;
      reply_to_msg_id = reply_to_msg_id;
      classifier_route = classifier_route;
      classifier_version = classifier_version;
      prompt_hash = prompt_hash;
      reply_text = reply_text;
      status = status;
      error_summary = error_summary;
    })
