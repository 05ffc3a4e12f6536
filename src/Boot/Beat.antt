-- ===== src/Boot/Beat.antt =====
-- `_heartbeat_loop` of src/harness/__main__.py. What it sees in a round is given: the calls in
-- flight, the state machine and sqlite's clock. A fault of sqlite, which the loop passes over, is
-- not modelled.
use overwatch_harness.Prelude.{ℕ, List, [], ◌∷◌}
use overwatch_harness.Models.{Time}
use overwatch_harness.Machine.{StateMachine}
use overwatch_harness.Ledger.Db.{Db}
use overwatch_harness.Ledger.Heartbeats.{write_heartbeat, prune_heartbeats}

pub record Round : Type 0 where
  pub machine : StateMachine
  pub in_flight : ℕ
  pub time : Time

-- One round, between two sleeps.
unfoldable pub heartbeat : ℕ → Round → Db → Db
heartbeat pid r db =
    (prune_heartbeats 1440
      (write_heartbeat pid r.machine.state r.in_flight r.machine.reason r.time db)).1

-- The rounds of the loop until it is cancelled.
unfoldable pub heartbeat_loop : ℕ → List Round → Db → Db
unfolding heartbeat
heartbeat_loop pid [] db = db
heartbeat_loop pid (r ∷ rs) db = heartbeat_loop pid rs (heartbeat pid r db)
