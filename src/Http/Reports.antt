-- ===== src/Http/Reports.antt =====
-- What /healthz tells of the heartbeats and of the self-test.
use overwatch_harness.Prelude.{
  ℕ, suc, ◌≤◌, Bool-cases, inl, inr, some, List, [], ◌∷◌, length, ◌++◌, ◌≡◌, refl, if◌then◌else◌,
}
use overwatch_harness.Text.{Text, codes}
use overwatch_harness.Models.{Time}
use overwatch_harness.Machine.{StateMachine, initial, value, can_spawn}
use overwatch_harness.Ledger.Db.{Db}
use overwatch_harness.Ledger.Heartbeats.{new_heartbeat, write_heartbeat}
use overwatch_harness.Ledger.Heartbeats.Retained.{Until, latest-prune, prune_heartbeats_bounded}
use overwatch_harness.Ledger.Sound.{Sound}
use overwatch_harness.Ledger.Sound.Messages.{write_heartbeat-Sound, prune_heartbeats-Sound}
use overwatch_harness.Selftest.{SelftestResult, enter}
use overwatch_harness.Spawner.Values.{str, obj, field, end}
use overwatch_harness.Boot.Beat.{Round, heartbeat, heartbeat_loop}
use overwatch_harness.Http.{healthz, last_heartbeat, text_or_null}

-- After a round of the heartbeat loop whose time is not before those of the heartbeats in the
-- ledger, /healthz answers with the state and reason of the machine as it is then, with the round's
-- time, calls in flight and process id as the last heartbeat, and with 200 exactly if the machine
-- can spawn, else 503.
pub healthz-heartbeat :
    (iso : Time → Text) (pid : ℕ) (r : Round) (state : StateMachine) (db : Db)
    → Until r.time db.heartbeats
    → healthz iso state (heartbeat pid r db) ≡ record {
      status = if can_spawn state then 200 else 503;
      body = obj (
          field (codes "state") (str (value state.state)) (
            field (codes "reason") (text_or_null state.reason) (
              field
                (codes "last_heartbeat")
                (last_heartbeat iso (
                  some (
                    new_heartbeat
                      (suc db.heartbeat_seq)
                      pid
                      r.machine.state
                      r.in_flight
                      r.machine.reason
                      r.time)))
                end)));
    }
unfolding healthz heartbeat
healthz-heartbeat iso pid r state db h =
    rw (latest-prune 1439 pid r.machine.state r.in_flight r.machine.reason r.time db h) refl

-- After a self-test with any result on the machine that the daemon starts with, /healthz answers 200
-- if the result is healthy and 503 if not.
pub healthz-enter :
    (iso : Time → Text) (result : SelftestResult) (db : Db)
    → (healthz iso (enter result initial) db).status ≡ (if result.healthy then 200 else 503)
unfolding healthz enter
healthz-enter iso result db = elim (Bool-cases result.healthy) [
  | inl well ↦ rw well refl
  | inr ill ↦ rw ill refl
]

pub heartbeat-Sound : (pid : ℕ) (r : Round) (db : Db) → Sound db → Sound (heartbeat pid r db)
unfolding heartbeat
heartbeat-Sound pid r db h =
    let written = write_heartbeat pid r.machine.state r.in_flight r.machine.reason r.time db in
    prune_heartbeats-Sound 1440 written
      (write_heartbeat-Sound pid r.machine.state r.in_flight r.machine.reason r.time db h)

-- The heartbeat loop, from a well-formed ledger and for any rounds, leaves a well-formed ledger, with
-- at most 1440 heartbeats after each round.
pub heartbeat_loop_bounded :
    (pid : ℕ) (rs : List Round) (r : Round) (db : Db)
    → Sound db
    → let after = heartbeat_loop pid (rs ++ r ∷ []) db in
      Sound after × (length after.heartbeats ≤ 1440)
unfolding heartbeat_loop
heartbeat_loop_bounded pid [] r db h =
    let written = write_heartbeat pid r.machine.state r.in_flight r.machine.reason r.time db in
    (
      heartbeat-Sound pid r db h,
      unfold heartbeat in
          prune_heartbeats_bounded 1440 written
            (write_heartbeat-Sound pid r.machine.state r.in_flight r.machine.reason r.time db h),
    )
heartbeat_loop_bounded pid (q ∷ rs) r db h =
    heartbeat_loop_bounded pid rs r (heartbeat pid q db) (heartbeat-Sound pid q db h)
