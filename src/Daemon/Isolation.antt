-- ===== src/Daemon/Isolation.antt =====
-- Whose rows the handling of an update changes.
pub mod Spares
pub mod Following
pub mod Deciding
pub mod Handing
pub mod Arriving
use overwatch_harness.Prelude.{ℕ, Bool, some, List, [], ◌∷◌, ◌≡◌, ◌≢◌, refl}
use overwatch_harness.Text.{Text, str_ℤ}
use overwatch_harness.Text.Int.{ℤ}
use overwatch_harness.Config.{HarnessSettings}
use overwatch_harness.Models.{Message, Session, telegram}
use overwatch_harness.Ledger.Db.{Db, find_session, find_message}
use overwatch_harness.Ledger.Operators.{operator_id_of}
use overwatch_harness.Ledger.Heartbeats.{write_heartbeat, prune_heartbeats}
use overwatch_harness.Ledger.Named.{Named}
use overwatch_harness.Ledger.Sound.{Sound}
use overwatch_harness.Ledger.Sound.Messages
use overwatch_harness.Boot.Beat.{Round, heartbeat}
use overwatch_harness.Daemon.{World, Outside}
use overwatch_harness.Daemon.System.{Turn, arrives, beats, serve, turn, round_of, turn-Extended}
use overwatch_harness.Daemon.Delivery.Names.{turn-Named}
use overwatch_harness.Daemon.Isolation.Arriving.{
  Untouched, Untouched-refl, Untouched-then, update-Untouched,
}

beat-Untouched :
    (who : Text) (pid : ℕ) (r : Round) (db : Db) → Untouched who db (heartbeat pid r db)
unfolding heartbeat write_heartbeat prune_heartbeats
beat-Untouched who pid r db = record {
  operator = refl;
  messages = λ k m found. found;
  sessions = λ k s found. found;
  engagements = λ k e found own. found;
}

-- No update of these turns comes from the chat of this operator.
abbrev pub Elsewhere : Text → List Turn → Type 0
Elsewhere who [] = Unit
Elsewhere who (arrives u ∷ ts) =
    ((chat : ℤ) → u.effective_chat ≡ some chat → operator_id_of telegram (str_ℤ chat) ≢ who)
    × Elsewhere who ts
Elsewhere who (beats n ∷ ts) = Elsewhere who ts

-- From a well-formed ledger whose operators have the keys of their channels and users, any updates
-- and heartbeats in any order, none of them an update from the chat of the operator `who`, leave
-- that operator's row and engagements as they were, and every session and message of before too,
-- whosever it is: each is found under its key with all its fields.
pub others_left_alone :
    (out : Outside) (settings : HarnessSettings) (binary : Text) (plane : Bool) (allowlist : List ℤ)
    (pid : ℕ) (who : Text) (ts : List Turn) (w : World)
    → Sound w.db
    → Named w.db
    → Elsewhere who ts
    → Untouched who w.db (serve out settings binary plane allowlist pid ts w).db
unfolding serve
others_left_alone out settings binary plane allowlist pid who [] w h named other =
    Untouched-refl who w.db
others_left_alone out settings binary plane allowlist pid who (arrives u ∷ ts) w h named other =
    let v = turn out settings binary plane allowlist pid (arrives u) w in
    Untouched-then who w.db v.db _
      (update-Untouched out settings binary plane who allowlist u.effective_message u.effective_chat
        w h named other.0)
      (others_left_alone out settings binary plane allowlist pid who ts v
        (turn-Extended out settings binary plane allowlist pid (arrives u) w h).sound
        (turn-Named out settings binary plane allowlist pid (arrives u) w named) other.1)
others_left_alone out settings binary plane allowlist pid who (beats n ∷ ts) w h named other =
    let v = turn out settings binary plane allowlist pid (beats n) w in
    Untouched-then who w.db v.db _
      (beat-Untouched who pid (round_of out settings binary plane allowlist pid n w) w.db)
      (others_left_alone out settings binary plane allowlist pid who ts v
        (turn-Extended out settings binary plane allowlist pid (beats n) w h).sound
        (turn-Named out settings binary plane allowlist pid (beats n) w named) other)

-- No chat has the operator without a name.
operator_id_of_some : (uid : Text) → operator_id_of telegram uid ≢ []
unfolding operator_id_of
operator_id_of_some uid e = absurd cc

Elsewhere-nobody : (ts : List Turn) → Elsewhere [] ts
Elsewhere-nobody [] = tt
Elsewhere-nobody (arrives u ∷ ts) =
    (λ chat from. operator_id_of_some (str_ℤ chat), Elsewhere-nobody ts)
Elsewhere-nobody (beats n ∷ ts) = Elsewhere-nobody ts

-- Every message and every session is found as it was.
pub record RowsKept (a b : Db) : Type 0 where
  pub messages : (k : ℕ) (m : Message) → find_message k a ≡ some m → find_message k b ≡ some m
  pub sessions : (k : ℕ) (s : Session) → find_session k a ≡ some s → find_session k b ≡ some s

-- Whosever they are, the messages and sessions of before are not written again.
pub history_frozen :
    (out : Outside) (settings : HarnessSettings) (binary : Text) (plane : Bool) (allowlist : List ℤ)
    (pid : ℕ) (ts : List Turn) (w : World)
    → Sound w.db
    → Named w.db
    → RowsKept w.db (serve out settings binary plane allowlist pid ts w).db
history_frozen out settings binary plane allowlist pid ts w h named =
    let alone =
      others_left_alone out settings binary plane allowlist pid [] ts w h named
        (Elsewhere-nobody ts) in
    record { messages = alone.messages; sessions = alone.sessions }
