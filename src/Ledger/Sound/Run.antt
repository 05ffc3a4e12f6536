-- ===== src/Ledger/Sound/Run.antt =====
-- The writes of the ledger as one type of steps, and what holds after any of them in any order.
use overwatch_harness.Prelude.{ℕ, Option, List, [], ◌∷◌}
use overwatch_harness.Text.{Text}
use overwatch_harness.Text.Int.{ℤ}
use overwatch_harness.Machine.{DaemonState}
use overwatch_harness.Models.{ChannelKind, SessionStatus, MessageStatus, Time}
use overwatch_harness.Ledger.Db.{Db, empty}
use overwatch_harness.Ledger.Operators.{upsert_operator}
use overwatch_harness.Ledger.Engagements.{create_engagement, touch_engagement, end_engagement}
use overwatch_harness.Ledger.Sessions.{create_session, attach_claude_session_id, finalize_session}
use overwatch_harness.Ledger.Messages.{Inbound, Changes, insert_message, update_message_status}
use overwatch_harness.Ledger.Heartbeats.{write_heartbeat, prune_heartbeats}
use overwatch_harness.Ledger.Sound.{Sound, empty-Sound}
use overwatch_harness.Ledger.Sound.Operators.{upsert_operator-Sound}
use overwatch_harness.Ledger.Sound.Engagements.{
  create_engagement-Sound, touch_engagement-Sound, end_engagement-Sound,
}
use overwatch_harness.Ledger.Sound.Sessions.{
  create_session-Sound, attach_claude_session_id-Sound, finalize_session-Sound,
}
use overwatch_harness.Ledger.Sound.Messages.{
  insert_message-Sound, update_message_status-Sound, write_heartbeat-Sound, prune_heartbeats-Sound,
}

-- A call of a method of `Ledger` that writes, with sqlite's clock where it is read.
pub data Write : Type 0 where
  upsert : ChannelKind → Text → Option Text → Time → Write
  open_engagement : Text → Option Text → Time → Write
  touch close_engagement : ℕ → Time → Write
  open_session : ℕ → Text → Option ℕ → Time → Write
  attach : ℕ → Text → Write
  finalize : ℕ → SessionStatus → Option ℤ → Option Text → Option ℕ → Option Text → Time → Write
  arrive : Inbound → Time → Write
  set_status : ℕ → MessageStatus → Changes → Write
  beat : ℕ → DaemonState → ℕ → Option Text → Time → Write
  prune : ℕ → Write

-- The tables after a call, whether it returned or raised.
unfoldable pub write : Write → Db → Db
write (upsert kind uid name now) db = (upsert_operator kind uid name now db).1
write (open_engagement who summary now) db = (create_engagement who summary now db).1
write (touch k now) db = touch_engagement k now db
write (close_engagement k now) db = end_engagement k now db
write (open_session k prompt parent now) db = (create_session k prompt parent now db).1
write (attach k id) db = attach_claude_session_id k id db
write (finalize k status code text ms window now) db =
    finalize_session k status code text ms window now db
write (arrive i now) db = (insert_message i now db).1
write (set_status k status c) db = (update_message_status k status c db).1
write (beat pid state n notes now) db = write_heartbeat pid state n notes now db
write (prune keep) db = (prune_heartbeats keep db).1

unfoldable pub run : List Write → Db → Db
unfolding write
run [] db = db
run (w ∷ ws) db = run ws (write w db)

pub write-Sound : (w : Write) (db : Db) → Sound db → Sound (write w db)
unfolding write
write-Sound (upsert kind uid name now) db h = upsert_operator-Sound kind uid name now db h
write-Sound (open_engagement who summary now) db h = create_engagement-Sound who summary now db h
write-Sound (touch k now) db h = touch_engagement-Sound k now db h
write-Sound (close_engagement k now) db h = end_engagement-Sound k now db h
write-Sound (open_session k prompt parent now) db h = create_session-Sound k prompt parent now db h
write-Sound (attach k id) db h = attach_claude_session_id-Sound k id db h
write-Sound (finalize k status code text ms window now) db h =
    finalize_session-Sound k status code text ms window now db h
write-Sound (arrive i now) db h = insert_message-Sound i now db h
write-Sound (set_status k status c) db h = update_message_status-Sound k status c db h
write-Sound (beat pid state n notes now) db h = write_heartbeat-Sound pid state n notes now db h
write-Sound (prune keep) db h = prune_heartbeats-Sound keep db h

run_from-Sound : (ws : List Write) (db : Db) → Sound db → Sound (run ws db)
unfolding run
run_from-Sound [] db h = h
run_from-Sound (w ∷ ws) db h = run_from-Sound ws (write w db) (write-Sound w db h)

-- After any sequence of calls of the ledger's writing methods on a fresh ledger, with any
-- arguments, whether each returned or raised: the keys of engagements, sessions, messages and
-- heartbeats are positive, distinct and none above the last one given out; the operator of every
-- engagement and message, the engagement of every session and message and the session of every
-- message and parent exist; a current session is a session of its own engagement; and no two
-- messages have the same channel and channel message id.
pub run-Sound : (ws : List Write) → Sound (run ws empty)
run-Sound ws = run_from-Sound ws empty empty-Sound
