-- ===== src/Ledger/Sound.antt =====
-- The well-formedness of the ledger, which sqlite's constraints and the code keep together, and
-- the order in which one ledger extends another.
pub mod Operators
pub mod Engagements
pub mod Sessions
pub mod Messages
pub mod Run
use overwatch_harness.Prelude.{
  ℕ, Bool, true, false, Option, none, some, is_some, List, [], ◌∷◌, All, All-map, ◌≡◌, refl, arith,
}
use overwatch_harness.Prelude.Table.{Descends}
use overwatch_harness.Text.{Text}
use overwatch_harness.Models.{Engagement, Session, Message, Heartbeat}
use overwatch_harness.Ledger.Db.{
  Db, empty, engagement_key, session_key, message_key, find_session, has_operator, has_engagement,
  has_session,
}
use overwatch_harness.Ledger.Messages.{same_key}

abbrev pub heartbeat_key : Heartbeat → ℕ
heartbeat_key h = h.heartbeat_id

-- A current session is a session of the same engagement.
abbrev pub CurrentOf : Db → ℕ → Option ℕ → Type 0
CurrentOf db key none = Unit
CurrentOf db key (some k) = (s : Session) × (find_session k db ≡ some s) × (s.engagement_id ≡ key)

pub record EngagementRefs (db : Db) (e : Engagement) : Type 0 where
  pub operator : has_operator e.operator_id db ≡ true
  pub current : CurrentOf db e.engagement_id e.current_session_id

pub record SessionRefs (db : Db) (s : Session) : Type 0 where
  pub engagement : has_engagement (some s.engagement_id) db ≡ true
  pub parent : has_session s.parent_session_id db ≡ true

pub record MessageRefs (db : Db) (m : Message) : Type 0 where
  pub operator : has_operator m.operator_id db ≡ true
  pub engagement : has_engagement m.engagement_id db ≡ true
  pub session : has_session m.session_id db ≡ true

-- No two messages have the same channel and channel message id.
abbrev pub Distinct : List Message → Type 0
Distinct [] = Unit
Distinct (m ∷ ms) =
    All (λ (n : Message). same_key m.channel_kind m.channel_msg_id n ≡ false) ms × Distinct ms

pub record Sound (db : Db) : Type 0 where
  pub engagement_keys : Descends engagement_key db.engagement_seq db.engagements
  pub session_keys : Descends session_key db.session_seq db.sessions
  pub message_keys : Descends message_key db.message_seq db.messages
  pub heartbeat_keys : Descends heartbeat_key db.heartbeat_seq db.heartbeats
  pub engagement_refs : All (EngagementRefs db) db.engagements
  pub session_refs : All (SessionRefs db) db.sessions
  pub message_refs : All (MessageRefs db) db.messages
  pub distinct : Distinct db.messages

pub empty-Sound : Sound empty
empty-Sound = ground arith

-- `b` knows whatever `a` knows, and no session has moved to another engagement.
pub record Extends (a b : Db) : Type 0 where
  pub operators : (k : Text) → has_operator k a ≡ true → has_operator k b ≡ true
  pub engagements : (k : ℕ) → has_engagement (some k) a ≡ true → has_engagement (some k) b ≡ true
  pub sessions :
      (k : ℕ) (s : Session)
      → find_session k a ≡ some s
      → (t : Session) × (find_session k b ≡ some t) × (t.engagement_id ≡ s.engagement_id)

module _ {a b : Db} (ext : Extends a b) where
  pub CurrentOf-mono : (key : ℕ) (k : Option ℕ) → CurrentOf a key k → CurrentOf b key k
  CurrentOf-mono key none h = tt
  CurrentOf-mono key (some k) (s, found, own) =
      let (t, found', same) = ext.sessions k s found in (t, found', ground (arith, same, own))

  has_engagement_mono : (k : Option ℕ) → has_engagement k a ≡ true → has_engagement k b ≡ true
  has_engagement_mono none h = refl
  has_engagement_mono (some k) h = ext.engagements k h

  has_session_mono : (k : Option ℕ) → has_session k a ≡ true → has_session k b ≡ true
  has_session_mono none h = refl
  has_session_mono (some k) h =
      let (s, found) = known_some k h in
      let (t, found', same) = ext.sessions k s found in ground (arith, found')
    where
      known_some :
          (k : ℕ) → is_some (find_session k a) ≡ true → (s : Session) × (find_session k a ≡ some s)
      known_some k h = ground arith

  pub EngagementRefs-mono : (e : Engagement) → EngagementRefs a e → EngagementRefs b e
  EngagementRefs-mono e h = record {
    operator = ext.operators e.operator_id h.operator;
    current = CurrentOf-mono e.engagement_id e.current_session_id h.current;
  }

  pub SessionRefs-mono : (s : Session) → SessionRefs a s → SessionRefs b s
  SessionRefs-mono s h = record {
    engagement = ext.engagements s.engagement_id h.engagement;
    parent = has_session_mono s.parent_session_id h.parent;
  }

  pub MessageRefs-mono : (m : Message) → MessageRefs a m → MessageRefs b m
  MessageRefs-mono m h = record {
    operator = ext.operators m.operator_id h.operator;
    engagement = has_engagement_mono m.engagement_id h.engagement;
    session = has_session_mono m.session_id h.session;
  }

  pub engagements_mono :
      (es : List Engagement) → All (EngagementRefs a) es → All (EngagementRefs b) es
  engagements_mono es = All-map (EngagementRefs a) (EngagementRefs b) es EngagementRefs-mono

  pub sessions_mono : (ss : List Session) → All (SessionRefs a) ss → All (SessionRefs b) ss
  sessions_mono ss = All-map (SessionRefs a) (SessionRefs b) ss SessionRefs-mono

  pub messages_mono : (ms : List Message) → All (MessageRefs a) ms → All (MessageRefs b) ms
  messages_mono ms = All-map (MessageRefs a) (MessageRefs b) ms MessageRefs-mono
