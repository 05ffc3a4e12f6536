-- ===== src/Tests/Reading.antt =====
-- The readers of rows, applied.
use overwatch_harness.Prelude.{Option, none, some, [], ◌∷◌, ◌≡◌, refl}
use overwatch_harness.Text.{Text, codes}
use overwatch_harness.Text.Int.{negsuc}
use overwatch_harness.Models.{
  Time, Mode, SessionStatus, Route, MessageStatus, Engagement, Session, Message, telegram,
}
use overwatch_harness.Ledger.Rows.{engagement_from_row, session_from_row, message_from_row}
use overwatch_harness.Ledger.Rows.Schema.{
  Conforms, engagement_columns, session_columns, message_columns, engagement_row, session_row,
  message_row,
}
use overwatch_harness.Ledger.Rows.Decoding.{rows_read_back}

-- A time as a text of one code.
abbrev one_code : Time → Text
one_code t = t ∷ []

abbrev code_of : Text → Option Time
code_of [] = none
code_of (t ∷ []) = some t
code_of (t ∷ u ∷ more) = none

abbrev idle : Engagement
idle = record {
  engagement_id = 3;
  operator_id = codes "op:te:7";
  started_at = 10;
  last_activity_at = 12;
  ended_at = some 15;
  mode = Mode.ended;
  current_session_id = some 4;
  plane_issue_id = none;
  plane_issue_seq = none;
  summary = some (codes "hello");
}

abbrev killed : Session
killed = record {
  session_id = 4;
  engagement_id = 3;
  claude_session_id = some (codes "c0ffee");
  parent_session_id = none;
  started_at = 11;
  ended_at = some 14;
  status = SessionStatus.failed;
  prompt_excerpt = codes "hello";
  response_excerpt = none;
  exit_code = some (negsuc 8);
  langfuse_trace_id = none;
  max_quota_reset_window = none;
  duration_ms = some 30;
}

abbrev answered : Message
answered = record {
  message_id = 9;
  operator_id = codes "op:te:7";
  engagement_id = some 3;
  session_id = some 4;
  channel_kind = telegram;
  channel_msg_id = codes "12";
  received_at = 10;
  body = codes "hello";
  reply_to_msg_id = none;
  classifier_route = some Route.routine_action;
  classifier_version = none;
  prompt_hash = none;
  reply_text = some (codes "hi");
  status = MessageStatus.done;
  error_summary = none;
}

rows_read_back_example :
    (Conforms engagement_columns (engagement_row one_code idle)
      × (engagement_from_row code_of (engagement_row one_code idle) ≡ some idle))
    × (Conforms session_columns (session_row one_code killed)
        × (session_from_row code_of (session_row one_code killed) ≡ some killed))
    × (Conforms message_columns (message_row one_code answered)
        × (message_from_row code_of (message_row one_code answered) ≡ some answered))
rows_read_back_example = rows_read_back one_code code_of (λ t. refl) idle killed answered
