-- ===== src/Http.antt =====
-- src/harness/http.py: the answer of /healthz. The server round it is outside, and so is `iso`,
-- sqlite's text of a time.
pub mod Reports
use overwatch_harness.Prelude.{ℕ, Bool, Option, none, some, if◌then◌else◌}
use overwatch_harness.Text.{Text, codes}
use overwatch_harness.Text.Int.{pos}
use overwatch_harness.Models.{Time, Heartbeat}
use overwatch_harness.Machine.{StateMachine, value, can_spawn}
use overwatch_harness.Ledger.Db.{Db}
use overwatch_harness.Ledger.Heartbeats.{latest_heartbeat}
use overwatch_harness.Spawner.Values.{Json, null, int, str, obj, Fields, field, end}

pub record Response : Type 0 where
  pub status : ℕ
  pub body : Json

abbrev pub text_or_null : Option Text → Json
text_or_null none = null
text_or_null (some t) = str t

module _ (iso : Time → Text) where
  abbrev pub last_heartbeat : Option Heartbeat → Json
  last_heartbeat none = null
  last_heartbeat (some hb) = obj (
      field (codes "ts") (str (iso hb.ts)) (
        field (codes "in_flight") (int (pos hb.in_flight_count))
          (field (codes "pid") (int (pos hb.pid)) end)))

  unfoldable pub healthz : StateMachine → Db → Response
  unfolding latest_heartbeat value can_spawn
  healthz state ledger = record {
    status = if can_spawn state then 200 else 503;
    body = obj (
        field (codes "state") (str (value state.state)) (
          field (codes "reason") (text_or_null state.reason)
            (field (codes "last_heartbeat") (last_heartbeat (latest_heartbeat ledger)) end)));
  }
