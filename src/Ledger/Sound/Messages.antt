-- ===== src/Ledger/Sound/Messages.antt =====
-- The message and heartbeat methods keep the ledger well-formed.
use overwatch_harness.Prelude.{
  ℕ, suc, ◌==◌, Bool, true, false, not, ◌&&◌, Option, none, some, is_some, or_else, List, [], ◌∷◌,
  All, ◌≡◌, refl, arith, inl, inr, Bool-cases, any, if◌then◌else◌,
}
use overwatch_harness.Prelude.Table.{
  update, update_absent, Descends, Descends-cons, Descends-select, Descends-update, All-update,
}
use overwatch_harness.Text.{Text}
use overwatch_harness.Exec.{Result, ok, err, integrity_error}
use overwatch_harness.Models.{Message, MessageStatus, Heartbeat, Time}
use overwatch_harness.Machine.{DaemonState}
use overwatch_harness.Ledger.Db.{
  Db, message_key, find_message, has_operator, has_engagement, has_session,
}
use overwatch_harness.Ledger.Messages.{
  Inbound, Changes, new_message, same_key, or_none, insert_message, set_status,
  update_message_status,
}
use overwatch_harness.Ledger.Heartbeats.{new_heartbeat, write_heartbeat, prune_heartbeats}
use overwatch_harness.Ledger.Sound.{
  Sound, Extends, Distinct, MessageRefs, heartbeat_key, engagements_mono, sessions_mono,
  messages_mono,
}

-- A test that finds no row fails at each of them.
pub not-any {ℓ} :
    {A : Type ℓ} (p : A → Bool) (xs : List A) → any p xs ≡ false → All (λ x. p x ≡ false) xs
not-any p [] h = tt
not-any p (x ∷ xs) h = ground (arith, not-any p xs)

abbrev pub inserted : Inbound → Time → Db → Db
inserted i now db = record db {
  messages = new_message (suc db.message_seq) i now ∷ db.messages;
  message_seq = suc db.message_seq;
}

-- The guard of the INSERT.
abbrev pub admits : Inbound → Db → Bool
admits i db =
    has_operator i.operator_id db
    && (has_engagement i.engagement_id db
        && not (any (same_key i.channel_kind i.channel_msg_id) db.messages))

-- Only the messages have changed.
messages-Sound :
    (ms : List Message) (seq : ℕ) (db : Db)
    → Descends message_key seq ms
    → All (MessageRefs db) ms
    → Distinct ms
    → Sound db
    → Sound (record db { messages = ms; message_seq = seq })
messages-Sound ms seq db keys refs distinct h =
    let ext : Extends db (record db { messages = ms; message_seq = seq }) = record {
      operators = λ j known. known;
      engagements = λ j known. known;
      sessions = λ j s found. (s, found, refl);
    } in
    record {
      engagement_keys = h.engagement_keys;
      session_keys = h.session_keys;
      message_keys = keys;
      heartbeat_keys = h.heartbeat_keys;
      engagement_refs = engagements_mono ext db.engagements h.engagement_refs;
      session_refs = sessions_mono ext db.sessions h.session_refs;
      message_refs = messages_mono ext ms refs;
      distinct = distinct;
    }

-- Only the heartbeats have changed.
heartbeats-Sound :
    (hs : List Heartbeat) (seq : ℕ) (db : Db)
    → Descends heartbeat_key seq hs
    → Sound db
    → Sound (record db { heartbeats = hs; heartbeat_seq = seq })
heartbeats-Sound hs seq db keys h =
    let ext : Extends db (record db { heartbeats = hs; heartbeat_seq = seq }) = record {
      operators = λ j known. known;
      engagements = λ j known. known;
      sessions = λ j s found. (s, found, refl);
    } in
    record {
      engagement_keys = h.engagement_keys;
      session_keys = h.session_keys;
      message_keys = h.message_keys;
      heartbeat_keys = keys;
      engagement_refs = engagements_mono ext db.engagements h.engagement_refs;
      session_refs = sessions_mono ext db.sessions h.session_refs;
      message_refs = messages_mono ext db.messages h.message_refs;
      distinct = h.distinct;
    }

admits_parts : (a b c : Bool) → (a && (b && not c)) ≡ true → (a ≡ true) × (b ≡ true) × (c ≡ false)
admits_parts a b c h = ground arith

inserted-Sound :
    (i : Inbound) (now : Time) (db : Db) → admits i db ≡ true → Sound db → Sound (inserted i now db)
inserted-Sound i now db known h =
    let parts =
      admits_parts (has_operator i.operator_id db) (has_engagement i.engagement_id db)
        (any (same_key i.channel_kind i.channel_msg_id) db.messages) known in
    let refs : MessageRefs db (new_message (suc db.message_seq) i now) = record {
      operator = parts.0;
      engagement = parts.1;
      session = refl;
    } in
    messages-Sound (new_message (suc db.message_seq) i now ∷ db.messages) (suc db.message_seq) db
      (Descends-cons message_key db.message_seq (new_message (suc db.message_seq) i now) db.messages
        refl h.message_keys)
      (refs, h.message_refs)
      (not-any (same_key i.channel_kind i.channel_msg_id) db.messages parts.2, h.distinct) h

pub or_none_state : (r : Result ℕ) (db : Db) → (or_none r db).1 ≡ db
or_none_state (ok key) db = ground arith
or_none_state (err integrity_error) db = refl
or_none_state (err _) db = refl

pub insert_message-Sound :
    (i : Inbound) (now : Time) (db : Db) → Sound db → Sound (insert_message i now db).1
insert_message-Sound i now db h = elim (Bool-cases (admits i db)) [
  | inl known ↦ unfold insert_message in rw (or_none_state, known) (inserted-Sound i now db known h)
  | inr unknown ↦ unfold insert_message in rw (or_none_state, unknown) h
]

-- A change of rows that keeps the UNIQUE columns.
Distinct-update :
    (k : ℕ) (f : Message → Message) (ms : List Message)
    → ((m : Message) → (f m).channel_kind ≡ m.channel_kind)
    → ((m : Message) → (f m).channel_msg_id ≡ m.channel_msg_id)
    → Distinct ms
    → Distinct (update message_key k f ms)
unfolding same_key
Distinct-update k f [] kinds ids h = tt
Distinct-update k f (m ∷ ms) kinds ids h = (
  rw (kept_kind (message_key m == k), kept_id (message_key m == k))
      (All-update message_key (λ n. same_key m.channel_kind m.channel_msg_id n ≡ false) k f ms
        (λ n _ differs. rw (kinds n, ids n) differs) h.0),
  Distinct-update k f ms kinds ids h.1,
)
  where
    kept_kind : (b : Bool) → (if b then f m else m).channel_kind ≡ m.channel_kind
    kept_kind true = kinds m
    kept_kind false = refl

    kept_id : (b : Bool) → (if b then f m else m).channel_msg_id ≡ m.channel_msg_id
    kept_id true = ids m
    kept_id false = refl

abbrev pub updated : ℕ → MessageStatus → Changes → Db → Db
updated k status c db = record db {
  messages = update message_key k (set_status status c) db.messages;
}

updated-Sound :
    (k : ℕ) (status : MessageStatus) (c : Changes) (db : Db)
    → has_engagement c.engagement_id db ≡ true
    → has_session c.session_id db ≡ true
    → Sound db
    → Sound (updated k status c db)
updated-Sound k status c db engagement session h =
    messages-Sound (update message_key k (set_status status c) db.messages) db.message_seq db
      (Descends-update message_key k db.message_seq (set_status status c) db.messages (λ m. refl)
        h.message_keys)
      (All-update message_key (MessageRefs db) k (set_status status c) db.messages
        (λ m _ r. record {
          operator = r.operator;
          engagement = coalesced_engagement c.engagement_id m.engagement_id engagement r.engagement;
          session = coalesced_session c.session_id m.session_id session r.session;
        })
        h.message_refs)
      (Distinct-update k (set_status status c) db.messages (λ m. refl) (λ m. refl) h.distinct) h
  where
    coalesced_engagement :
        (new old : Option ℕ)
        → has_engagement new db ≡ true
        → has_engagement old db ≡ true
        → has_engagement (or_else new old) db ≡ true
    coalesced_engagement none old n o = o
    coalesced_engagement (some j) old n o = n

    coalesced_session :
        (new old : Option ℕ)
        → has_session new db ≡ true
        → has_session old db ≡ true
        → has_session (or_else new old) db ≡ true
    coalesced_session none old n o = o
    coalesced_session (some j) old n o = n

both : (a b : Bool) → (a && b) ≡ true → (a ≡ true) × (b ≡ true)
both a b h = ground arith

pub update_message_status-Sound :
    (k : ℕ) (status : MessageStatus) (c : Changes) (db : Db)
    → Sound db
    → Sound (update_message_status k status c db).1
update_message_status-Sound k status c db h = elim (Bool-cases (is_some (find_message k db))) [
  | inr missing ↦
      unfold update_message_status in
      rw missing (rw (update_absent message_key k (set_status status c) db.messages missing) h)
  | inl there ↦
      elim (Bool-cases (has_engagement c.engagement_id db && has_session c.session_id db)) [
        | inl known ↦
            let parts =
              both (has_engagement c.engagement_id db) (has_session c.session_id db) known in
            unfold update_message_status in
            rw (there, known) (updated-Sound k status c db parts.0 parts.1 h)
        | inr unknown ↦ unfold update_message_status in rw (there, unknown) h
      ]
]

pub write_heartbeat-Sound :
    (pid : ℕ) (state : DaemonState) (n : ℕ) (notes : Option Text) (now : Time) (db : Db)
    → Sound db
    → Sound (write_heartbeat pid state n notes now db)
unfolding write_heartbeat
write_heartbeat-Sound pid state n notes now db h =
    heartbeats-Sound (new_heartbeat (suc db.heartbeat_seq) pid state n notes now ∷ db.heartbeats)
      (suc db.heartbeat_seq) db
      (Descends-cons heartbeat_key db.heartbeat_seq
        (new_heartbeat (suc db.heartbeat_seq) pid state n notes now) db.heartbeats refl
        h.heartbeat_keys)
      h

pub prune_heartbeats-Sound : (keep : ℕ) (db : Db) → Sound db → Sound (prune_heartbeats keep db).1
unfolding prune_heartbeats
prune_heartbeats-Sound keep db h =
    heartbeats-Sound _ db.heartbeat_seq db
      (Descends-select heartbeat_key db.heartbeat_seq _ db.heartbeats h.heartbeat_keys) h
