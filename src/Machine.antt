-- ===== src/Machine.antt =====
-- src/harness/selftest.py: the daemon's state machine. The asyncio lock round a transition makes it
-- one step, so a transition is a function on the state.
pub mod Degraded
use overwatch_harness.Prelude.{Bool, true, false, Option, none, some, ◌&&◌, if◌then◌else◌}
use overwatch_harness.Text.{Text, codes}

pub data DaemonState : Type 0 where
  starting healthy degraded quota_throttled shutting_down : DaemonState

-- The `value` of a state.
unfoldable pub value : DaemonState → Text
value starting = codes "starting"
value healthy = codes "healthy"
value degraded = codes "degraded"
value quota_throttled = codes "quota_throttled"
value shutting_down = codes "shutting_down"

pub record StateMachine : Type 0 where
  pub state : DaemonState
  pub reason : Option Text

-- `StateMachine.__init__`
abbrev pub initial : StateMachine
initial = record { state = starting; reason = none }

abbrev pub is_healthy : DaemonState → Bool
is_healthy healthy = true
is_healthy _ = false

abbrev pub is_degraded : DaemonState → Bool
is_degraded degraded = true
is_degraded _ = false

unfoldable pub can_spawn : StateMachine → Bool
can_spawn m = is_healthy m.state

unfoldable pub transition : DaemonState → Option Text → StateMachine → StateMachine
transition new reason m =
    if is_degraded m.state && is_healthy new then m else record { state = new; reason = reason }
