-- ===== src/Ledger/Db.antt =====
-- The tables of migrations/0001_init.sql that the program writes, with the last key that each
-- AUTOINCREMENT column gave out. Rows stand newest first.
use overwatch_harness.Prelude.{ℕ, Bool, true, Option, none, some, List, [], is_some, if◌then◌else◌}
use overwatch_harness.Prelude.Table.{find}
use overwatch_harness.Text.{Text, text_eq}
use overwatch_harness.Models.{Operator, Engagement, Session, Message, Heartbeat}
use mathlib.Core.List.{◌∷◌}

pub record Db : Type 0 where
  pub operators : List Operator
  pub engagements : List Engagement
  pub engagement_seq : ℕ
  pub sessions : List Session
  pub session_seq : ℕ
  pub messages : List Message
  pub message_seq : ℕ
  pub heartbeats : List Heartbeat
  pub heartbeat_seq : ℕ

-- The tables after the first migration.
abbrev pub empty : Db
empty = record {
  operators = [];
  engagements = [];
  engagement_seq = 0;
  sessions = [];
  session_seq = 0;
  messages = [];
  message_seq = 0;
  heartbeats = [];
  heartbeat_seq = 0;
}

abbrev pub engagement_key : Engagement → ℕ
engagement_key e = e.engagement_id

abbrev pub session_key : Session → ℕ
session_key s = s.session_id

abbrev pub message_key : Message → ℕ
message_key m = m.message_id

-- `SELECT * FROM operator WHERE operator_id = ?`
abbrev pub find_operator : Text → List Operator → Option Operator
find_operator k [] = none
find_operator k (o ∷ os) = if text_eq o.operator_id k then some o else find_operator k os

abbrev pub find_engagement : ℕ → Db → Option Engagement
find_engagement k db = find engagement_key k db.engagements

abbrev pub find_session : ℕ → Db → Option Session
find_session k db = find session_key k db.sessions

abbrev pub find_message : ℕ → Db → Option Message
find_message k db = find message_key k db.messages

-- The foreign keys, which hold where the referring column is NULL.
abbrev pub has_operator : Text → Db → Bool
has_operator k db = is_some (find_operator k db.operators)

abbrev pub has_engagement : Option ℕ → Db → Bool
has_engagement none db = true
has_engagement (some k) db = is_some (find_engagement k db)

abbrev pub has_session : Option ℕ → Db → Bool
has_session none db = true
has_session (some k) db = is_some (find_session k db)
