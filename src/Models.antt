-- ===== src/Models.antt =====
-- src/harness/models.py and the columns of migrations/0001_init.sql: a row is its dataclass. A
-- column with a CHECK list is a data type of the listed words. A timestamp, which sqlite stores as
-- text of fixed width, is the number of milliseconds that the text stands for.
use overwatch_harness.Prelude.{ℕ, Bool, Option, is_some, not}
use overwatch_harness.Text.{Text, codes}
use overwatch_harness.Text.Int.{ℤ}
use overwatch_harness.Machine.{DaemonState}

abbrev pub Time : Type 0
Time = ℕ

pub data ChannelKind : Type 0 where
  telegram discord direct : ChannelKind

-- The text of a channel kind, as it is passed and stored.
unfoldable pub kind_text : ChannelKind → Text
kind_text telegram = codes "telegram"
kind_text discord = codes "discord"
kind_text direct = codes "direct"

pub record Operator : Type 0 where
  pub operator_id : Text
  pub channel_kind : ChannelKind
  pub channel_user_id : Text
  pub display_name : Option Text
  pub plane_actor_id : Option Text
  pub created_at : Time

pub data Mode : Type 0 where
  oneshot continuous paused ended : Mode

pub record Engagement : Type 0 where
  pub engagement_id : ℕ
  pub operator_id : Text
  pub started_at : Time
  pub last_activity_at : Time
  pub ended_at : Option Time
  pub mode : Mode
  pub current_session_id : Option ℕ
  pub plane_issue_id : Option Text
  pub plane_issue_seq : Option ℕ
  pub summary : Option Text

-- `Engagement.is_active`
abbrev pub is_active : Engagement → Bool
is_active e = not (is_some e.ended_at)

pub data SessionStatus : Type 0 where
  spawning running completed failed interrupted quota_exhausted : SessionStatus

pub record Session : Type 0 where
  pub session_id : ℕ
  pub engagement_id : ℕ
  pub claude_session_id : Option Text
  pub parent_session_id : Option ℕ
  pub started_at : Time
  pub ended_at : Option Time
  pub status : SessionStatus
  pub prompt_excerpt : Text
  pub response_excerpt : Option Text
  pub exit_code : Option ℤ
  pub langfuse_trace_id : Option Text
  pub max_quota_reset_window : Option Text
  pub duration_ms : Option ℕ

pub data Route : Type 0 where
  slash_command status_query routine_action spec_request security_event operator_review : Route
  unknown : Route

pub data MessageStatus : Type 0 where
  received classifying routed failed dead_letter done : MessageStatus

pub record Message : Type 0 where
  pub message_id : ℕ
  pub operator_id : Text
  pub engagement_id : Option ℕ
  pub session_id : Option ℕ
  pub channel_kind : ChannelKind
  pub channel_msg_id : Text
  pub received_at : Time
  pub body : Text
  pub reply_to_msg_id : Option Text
  pub classifier_route : Option Route
  pub classifier_version : Option Text
  pub prompt_hash : Option Text
  pub reply_text : Option Text
  pub status : MessageStatus
  pub error_summary : Option Text

pub record Heartbeat : Type 0 where
  pub heartbeat_id : ℕ
  pub ts : Time
  pub pid : ℕ
  pub state : DaemonState
  pub in_flight_count : ℕ
  pub notes : Option Text
