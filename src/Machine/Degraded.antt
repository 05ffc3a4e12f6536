-- ===== src/Machine/Degraded.antt =====
-- What the one-way rule of the state machine gives over sequences of transitions.
use overwatch_harness.Prelude.{false, Option, List, [], ◌∷◌, ◌≡◌, arith, All, ◌⊎◌}
use overwatch_harness.Text.{Text}
use overwatch_harness.Machine.{DaemonState, healthy, degraded, StateMachine, can_spawn, transition}

-- The transitions asked for, one after the other.
unfoldable pub transitions : List (DaemonState × Option Text) → StateMachine → StateMachine
transitions [] m = m
transitions ((new, reason) ∷ rest) m = transitions rest (transition new reason m)

-- From DEGRADED, requests for HEALTHY and DEGRADED only, in any number and order, never enable
-- spawns.
pub degraded_refuses :
    (asked : List (DaemonState × Option Text)) (m : StateMachine)
    → m.state ≡ degraded
    → All (λ (r : DaemonState × Option Text). (r.0 ≡ healthy) ⊎ (r.0 ≡ degraded)) asked
    → can_spawn (transitions asked m) ≡ false
unfolding transitions can_spawn transition
degraded_refuses [] m h only = ground arith
degraded_refuses ((new, reason) ∷ rest) m h only =
    degraded_refuses rest (transition new reason m) (ground arith) only.1
