-- ===== src/Ledger/Shapes.antt =====
-- The tables that each writing method leaves, by the guard that it passed or failed.
use overwatch_harness.Prelude.{
  ℕ, Option, some, List, ◌≡◌, ◌⊎◌, inl, inr, ◌∙◌, ◌&&◌, is_some, Bool-cases,
}
use overwatch_harness.Text.{Text}
use overwatch_harness.Models.{ChannelKind, Operator, MessageStatus, Time}
use overwatch_harness.Ledger.Db.{Db, find_message, has_operator, has_engagement, has_session}
use overwatch_harness.Ledger.Operators.{operator_id_of, rename, upsert_operator}
use overwatch_harness.Ledger.Engagements.{create_engagement}
use overwatch_harness.Ledger.Sessions.{create_session}
use overwatch_harness.Ledger.Messages.{Inbound, Changes, insert_message, update_message_status}
use overwatch_harness.Ledger.Sound.Operators.{insert_operator_cases, upsert_operator-state}
use overwatch_harness.Ledger.Sound.Engagements
use overwatch_harness.Ledger.Sound.Sessions
use overwatch_harness.Ledger.Sound.Messages
use overwatch_harness.Ledger.Sound.Messages.{admits, or_none_state}

pub upsert_operator-shape :
    (kind : ChannelKind) (uid : Text) (name : Option Text) (now : Time) (db : Db)
    → (os : List Operator) × ((upsert_operator kind uid name now db).1
        ≡ record db { operators = os })
upsert_operator-shape kind uid name now db = elim (insert_operator_cases kind uid name now db) [
  | inl same ↦ (db.operators, upsert_operator-state kind uid name now db ∙ same)
  | inr (inl renamed) ↦ (
    rename (operator_id_of kind uid) name db.operators,
    upsert_operator-state kind uid name now db ∙ renamed,
  )
  | inr (inr (o, more)) ↦ (_, upsert_operator-state kind uid name now db ∙ more)
]

pub create_engagement-shape :
    (who : Text) (summary : Option Text) (now : Time) (db : Db)
    → ((create_engagement who summary now db).1 ≡ db)
      ⊎ ((create_engagement who summary now db).1 ≡ Engagements.inserted who summary now db)
unfolding create_engagement
create_engagement-shape who summary now db = elim (Bool-cases (has_operator who db)) [
  | inl known ↦ inr (rw known)
  | inr unknown ↦ inl (rw unknown)
]

pub create_session-shape :
    (e : ℕ) (prompt : Text) (parent : Option ℕ) (now : Time) (db : Db)
    → ((create_session e prompt parent now db).1 ≡ db)
      ⊎ ((create_session e prompt parent now db).1 ≡ Sessions.inserted e prompt parent now db)
unfolding create_session
create_session-shape e prompt parent now db =
    elim (Bool-cases (has_engagement (some e) db && has_session parent db)) [
      | inl known ↦ inr (rw known)
      | inr unknown ↦ inl (rw unknown)
    ]

pub insert_message-shape :
    (i : Inbound) (now : Time) (db : Db)
    → ((insert_message i now db).1 ≡ db)
      ⊎ ((insert_message i now db).1 ≡ Messages.inserted i now db)
unfolding insert_message
insert_message-shape i now db = elim (Bool-cases (admits i db)) [
  | inl known ↦ inr (rw (or_none_state, known))
  | inr unknown ↦ inl (rw (or_none_state, unknown))
]

pub update_message_status-shape :
    (k : ℕ) (status : MessageStatus) (c : Changes) (db : Db)
    → ((update_message_status k status c db).1 ≡ db)
      ⊎ ((update_message_status k status c db).1 ≡ Messages.updated k status c db)
unfolding update_message_status
update_message_status-shape k status c db = elim (Bool-cases (is_some (find_message k db))) [
  | inr missing ↦ inr (rw missing)
  | inl there ↦
      elim (Bool-cases (has_engagement c.engagement_id db && has_session c.session_id db)) [
        | inl known ↦ inr (rw (there, known))
        | inr unknown ↦ inl (rw (there, unknown))
      ]
]
