-- ===== src/Daemon.antt =====
-- The state that the coroutines of the daemon share, and what is outside it. `update` callbacks run
-- one after the other; the heartbeat loop, which runs beside them, writes only its own table.
pub mod Dispatch
pub mod Ingress
pub mod Keeps
pub mod Health
pub mod Trail
pub mod Gate
pub mod Closed
pub mod System
pub mod Delivery
pub mod Addressed
pub mod Isolation
pub mod Answered
pub mod Settled
use overwatch_harness.Prelude.{ℕ, suc, Bool, Option, none, some, List, [], ◌∷◌, ◌++◌, if◌then◌else◌}
use overwatch_harness.Text.{Text}
use overwatch_harness.Exec.{Exec, Result, ok, err, outside_error, continue}
use overwatch_harness.Models.{Time, MessageStatus}
use overwatch_harness.Machine.{StateMachine}
use overwatch_harness.Ledger.Db.{Db}
use overwatch_harness.Ledger.Messages.{Changes, update_message_status}
use overwatch_harness.Egress.{Outgoing}
use overwatch_harness.Spawner.{Process}

pub record World : Type 0 where
  pub db : Db
  pub machine : StateMachine
  -- the messages that the bot has taken, the oldest first
  pub sent : List Outgoing
  -- the comments handed to the Plane client: issue and HTML
  pub comments : List (Text × Text)
  -- how often the clock was read
  pub reads : ℕ

-- The components that are not the repository's.
pub record Outside : Type 0 where
  -- sqlite's clock at each reading
  pub clock : ℕ → Time
  -- strftime
  pub iso : Time → Text
  -- whether the bot takes a message, behind those it took before
  pub delivers : List Outgoing → Outgoing → Bool
  -- the run of the claude binary that starts after so many readings of the clock, with these
  -- arguments and this prompt
  pub claude : ℕ → List Text → Text → Process
  -- Unicode's decimal digits
  pub is_decimal : ℕ → Bool

abbrev pub Action : Type 0 → Type 0
Action A = Exec World A

-- An await: what comes behind it takes up the state that it left, unless it raised.
infixl 10 ◌>>=◌ ◌>>◌
unfoldable pub ◌>>=◌ : {A B : Type 0} → Action A → (A → Action B) → Action B
◌>>=◌ m f w = continue (m w).0 f (m w).1

abbrev pub ◌>>◌ : {A B : Type 0} → Action A → Action B → Action B
m >> n = m >>= λ _. n

-- A method of the ledger.
unfoldable pub on_db : {A : Type 0} → Exec Db A → Action A
on_db m w = ((m w.db).0, record w { db = (m w.db).1 })

unfoldable pub change_db : (Db → Db) → Action (Unit {0})
change_db f w = (ok tt, record w { db = f w.db })

unfoldable pub update_status : ℕ → MessageStatus → Changes → Action (Unit {0})
update_status k status c = on_db (update_message_status k status c)

module _ (out : Outside) where
  unfoldable pub now : Action Time
  now w = (ok (out.clock w.reads), record w { reads = suc w.reads })

  -- `await bot.send_message(...)` for each message; the first refusal ends it.
  unfoldable pub send_all : List Outgoing → Action (Unit {0})
  send_all [] w = (ok tt, w)
  send_all (o ∷ os) w =
      let rest = send_all os (record w { sent = w.sent ++ o ∷ [] }) in
      if out.delivers w.sent o then rest else (err outside_error, w)
