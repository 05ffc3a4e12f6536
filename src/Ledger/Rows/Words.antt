-- ===== src/Ledger/Rows/Words.antt =====
-- The words of the CHECK lists of migrations/0001_init.sql.
use overwatch_harness.Prelude.{List, [], ◌∷◌}
use overwatch_harness.Text.{Text, codes}
use overwatch_harness.Models.{ChannelKind, Mode, SessionStatus, Route, MessageStatus}

abbrev pub mode_text : Mode → Text
mode_text Mode.oneshot = codes "oneshot"
mode_text Mode.continuous = codes "continuous"
mode_text Mode.paused = codes "paused"
mode_text Mode.ended = codes "ended"

abbrev pub session_status_text : SessionStatus → Text
session_status_text SessionStatus.spawning = codes "spawning"
session_status_text SessionStatus.running = codes "running"
session_status_text SessionStatus.completed = codes "completed"
session_status_text SessionStatus.failed = codes "failed"
session_status_text SessionStatus.interrupted = codes "interrupted"
session_status_text SessionStatus.quota_exhausted = codes "quota_exhausted"

abbrev pub route_text : Route → Text
route_text Route.slash_command = codes "slash_command"
route_text Route.status_query = codes "status_query"
route_text Route.routine_action = codes "routine_action"
route_text Route.spec_request = codes "spec_request"
route_text Route.security_event = codes "security_event"
route_text Route.operator_review = codes "operator_review"
route_text Route.unknown = codes "unknown"

abbrev pub message_status_text : MessageStatus → Text
message_status_text MessageStatus.received = codes "received"
message_status_text MessageStatus.classifying = codes "classifying"
message_status_text MessageStatus.routed = codes "routed"
message_status_text MessageStatus.failed = codes "failed"
message_status_text MessageStatus.dead_letter = codes "dead_letter"
message_status_text MessageStatus.done = codes "done"

abbrev pub kinds : List ChannelKind
kinds = ChannelKind.telegram ∷ ChannelKind.discord ∷ ChannelKind.direct ∷ []

abbrev pub modes : List Mode
modes = Mode.oneshot ∷ Mode.continuous ∷ Mode.paused ∷ Mode.ended ∷ []

abbrev pub session_statuses : List SessionStatus
session_statuses =
    SessionStatus.spawning ∷ SessionStatus.running ∷ SessionStatus.completed ∷ SessionStatus.failed
    ∷ SessionStatus.interrupted ∷ SessionStatus.quota_exhausted ∷ []

abbrev pub routes : List Route
routes =
    Route.slash_command ∷ Route.status_query ∷ Route.routine_action ∷ Route.spec_request
    ∷ Route.security_event ∷ Route.operator_review ∷ Route.unknown ∷ []

abbrev pub message_statuses : List MessageStatus
message_statuses =
    MessageStatus.received ∷ MessageStatus.classifying ∷ MessageStatus.routed ∷ MessageStatus.failed
    ∷ MessageStatus.dead_letter ∷ MessageStatus.done ∷ []
