-- ===== src/Daemon/Dispatch.antt =====
-- `build_dispatch` of src/harness/__main__.py: what the daemon does with a new message.
use overwatch_harness.Prelude.{
  ℕ, Bool, true, false, Option, none, some, [], ◌∷◌, ◌++◌, take, if◌then◌else◌, ltb, ◌^◌,
}
use overwatch_harness.Text.{Text, codes, str, str_ℤ}
use overwatch_harness.Text.Int.{ℤ, pos, negsuc, is_zero}
use overwatch_harness.Exec.{Result, ok, err, binding_error, raise, gets}
use overwatch_harness.Config.{HarnessSettings}
use overwatch_harness.Models.{
  Engagement, Session, Message, MessageStatus, SessionStatus, Route, classifying, routed, done,
}
use overwatch_harness.Machine.{StateMachine, value, can_spawn, transition, quota_throttled}
use overwatch_harness.Ledger.Messages.{no_changes}
use overwatch_harness.Ledger.Sessions.{create_session, attach_claude_session_id, finalize_session}
use overwatch_harness.Egress.{outgoing}
use overwatch_harness.Router.{
  Intent, slash_command, resume_session, new_session, RouteDecision, decide,
}
use overwatch_harness.Slash
use overwatch_harness.Spawner.{SpawnResult, command_line, spawn}
use overwatch_harness.Spawner.Values.{Json}
use overwatch_harness.Daemon.{
  Outside, Action, ◌>>=◌, ◌>>◌, on_db, change_db, update_status, now, send_all,
}

-- What the handler reads of a Telegram update.
pub record Origin : Type 0 where
  pub chat_id : ℤ
  pub message_id : ℕ

-- `_SCHEMA_ROUTE`
abbrev pub schema_route : Intent → Route
schema_route slash_command = Route.slash_command
schema_route resume_session = Route.routine_action
schema_route new_session = Route.routine_action

-- What an f-string shows for a value that may be None.
abbrev pub shown : Option Text → Text
shown none = codes "None"
shown (some t) = t

-- `text or default`
abbrev pub text_or : Text → Text → Text
text_or [] default = default
text_or (c ∷ t) default = c ∷ t

abbrev pub reason_or : Option Text → Text → Text
reason_or none default = default
reason_or (some t) default = text_or t default

-- Whether an int has 64 bits.
abbrev pub is_int64 : ℤ → Bool
is_int64 (pos n) = ltb n (2 ^ 63)
is_int64 (negsuc n) = ltb n (2 ^ 63)

-- How sqlite stores a JSON value in a TEXT column; an int of more than 64 bits raises, and a float
-- is taken to be stored as its `repr`.
unfoldable pub bind_text : Json → Result Text
unfolding str_ℤ
bind_text (Json.str t) = ok t
bind_text (Json.int n) = if is_int64 n then ok (str_ℤ n) else err binding_error
bind_text (Json.float t) = ok t
bind_text (Json.bool true) = ok (codes "1")
bind_text (Json.bool false) = ok (codes "0")
bind_text _ = err binding_error

-- `_on_sid`
unfoldable pub on_sid : ℕ → Json → Action (Unit {0})
unfolding bind_text change_db attach_claude_session_id
on_sid session_id sid = elim (bind_text sid) [
  | ok t ↦ change_db (attach_claude_session_id session_id t)
  | err e ↦ raise e
]

abbrev pub finished_status : ℤ → SessionStatus
finished_status exit_code =
    if is_zero exit_code then SessionStatus.completed else SessionStatus.failed

abbrev pub status_word : ℤ → Text
status_word exit_code = if is_zero exit_code then codes "completed" else codes "failed"

abbrev pub mode_of : Intent → Text
mode_of resume_session = codes "resume"
mode_of _ = codes "new"

-- `await state.transition(DaemonState.QUOTA_THROTTLED, ...)` on an exhausted quota.
unfoldable pub throttle : SpawnResult → Action (Unit {0})
unfolding transition
throttle result w =
    if result.quota_exhausted
    then (
      ok tt,
      record w {
        machine =
            transition quota_throttled
              (some (codes "quota; reset_window=" ++ shown result.quota_reset_window)) w.machine;
      },
    )
    else (ok tt, w)

-- The comment goes to Plane only where the engagement has an issue.
unfoldable pub audit : Bool → Engagement → ℕ → SpawnResult → Action (Unit {0})
unfolding str
audit plane e session_id result w = elim e.plane_issue_id [
  | none ↦ (ok tt, w)
  | some [] ↦ (ok tt, w)
  | some (c ∷ issue) ↦
      if plane
      then (
        ok tt,
        record w {
          comments =
              w.comments
              ++ (
                c ∷ issue,
                codes "<p>session s"
                    ++ (str session_id
                        ++ (codes " "
                            ++ (status_word result.exit_code
                                ++ (codes " in " ++ (str result.duration_ms ++ codes "ms</p>"))))),
              )
                ∷ [];
        },
      )
      else (ok tt, w)
]

module _ (out : Outside) (settings : HarnessSettings) (binary : Text) (plane : Bool) where
  unfoldable pub reply : Origin → Text → Engagement → Option ℕ → Text → Action (Unit {0})
  reply o text e session_id mode =
      send_all out (outgoing o.chat_id text (some o.message_id) e.engagement_id session_id mode)

  -- The slash command path.
  unfoldable pub run_slash : Message → Origin → RouteDecision → Action (Unit {0})
  run_slash m o d = do
    at ← now out
    text ← (λ w.
        let (text, db) =
          Slash.dispatch out.iso (shown d.slash_name) settings d.engagement at w.db in
        (ok text, record w { db = db }))
    reply o text d.engagement d.engagement.current_session_id
        (codes "slash:/" ++ shown d.slash_name)
    update_status m.message_id done (record no_changes { reply_text = some (take 1000 text) })

  abbrev pub refusal : StateMachine → Text
  refusal machine =
      codes "daemon-"
      ++ (value machine.state ++ (codes ": " ++ reason_or machine.reason (codes "spawns refused")))

  -- The daemon is not HEALTHY.
  unfoldable pub refuse : Message → Origin → RouteDecision → Action (Unit {0})
  refuse m o d = do
    machine ← gets (λ w. w.machine)
    reply o (refusal machine) d.engagement none (value machine.state)
    update_status m.message_id MessageStatus.failed (record no_changes {
      error_summary = some (refusal machine);
      reply_text = some (take 1000 (refusal machine));
    })

  -- From the result of the spawn on.
  unfoldable pub conclude :
      Message → Origin → RouteDecision → Session → SpawnResult → Action (Unit {0})
  conclude m o d s result = do
    throttle result
    at ← now out
    change_db (
        finalize_session s.session_id (finished_status result.exit_code) (some result.exit_code)
          (some result.full_text) (some result.duration_ms) result.quota_reset_window at)
    reply o (text_or result.full_text (codes "(no output)")) d.engagement (some s.session_id)
        (mode_of d.intent)
    update_status m.message_id done
        (record no_changes { reply_text = some (take 1000 result.full_text) })
    audit plane d.engagement s.session_id result

  -- The spawn path, from the new session on.
  unfoldable pub run_session : Message → Origin → RouteDecision → Session → Action (Unit {0})
  run_session m o d s = do
    update_status m.message_id routed (record no_changes { session_id = some s.session_id })
    readings ← gets (λ w. w.reads)
    result ←
        spawn (on_sid s.session_id) out.is_decimal
          (out.claude readings (command_line binary d.resume_claude_session_id []) m.body)
    conclude m o d s result

  -- The spawn path.
  unfoldable pub run_spawn : Message → Origin → RouteDecision → Action (Unit {0})
  run_spawn m o d = do
    at ← now out
    s ← on_db (create_session d.engagement.engagement_id m.body none at)
    run_session m o d s

  -- The branches behind the routing.
  unfoldable pub follow : Message → Origin → RouteDecision → Action (Unit {0})
  follow m o d = elim d.intent [
    | slash_command ↦ run_slash m o d
    | _ ↦ λ w. if can_spawn w.machine then run_spawn m o d w else refuse m o d w
  ]

  -- `_dispatch`
  unfoldable pub dispatch : Message → Origin → Action (Unit {0})
  dispatch m o = do
    update_status m.message_id classifying no_changes
    seen ← now out
    at ← now out
    d ← on_db (decide settings.idle_window_seconds m.operator_id m.body seen at)
    update_status m.message_id routed (record no_changes {
      engagement_id = some d.engagement.engagement_id;
      classifier_route = some (schema_route d.intent);
    })
    follow m o d
