-- ===== src/Ledger/History.antt =====
-- What the calls of the daemon's message handling keep of every row: the ledger only grows, and
-- the columns that say what happened and when stay as they were written.
use overwatch_harness.Prelude.{ℕ, suc, some, ◌∷◌, ◌≡◌, refl, ◌∙◌}
use overwatch_harness.Prelude.Table.{update, find-cons, find-update_kept}
use overwatch_harness.Models.{Engagement, Session, Message}
use overwatch_harness.Ledger.Db.{
  Db, engagement_key, session_key, message_key, find_engagement, find_session, find_message,
}
use overwatch_harness.Ledger.Sound.{Sound}

pub record SameEngagement (e e' : Engagement) : Type 0 where
  pub operator : e'.operator_id ≡ e.operator_id
  pub started : e'.started_at ≡ e.started_at
  pub active_last : e'.last_activity_at ≡ e.last_activity_at
  pub summary : e'.summary ≡ e.summary
  pub plane_id : e'.plane_issue_id ≡ e.plane_issue_id
  pub plane_seq : e'.plane_issue_seq ≡ e.plane_issue_seq

pub record SameSession (s s' : Session) : Type 0 where
  pub engagement : s'.engagement_id ≡ s.engagement_id
  pub parent : s'.parent_session_id ≡ s.parent_session_id
  pub started : s'.started_at ≡ s.started_at
  pub prompt : s'.prompt_excerpt ≡ s.prompt_excerpt
  pub trace : s'.langfuse_trace_id ≡ s.langfuse_trace_id

pub record SameMessage (m m' : Message) : Type 0 where
  pub operator : m'.operator_id ≡ m.operator_id
  pub channel : m'.channel_kind ≡ m.channel_kind
  pub channel_id : m'.channel_msg_id ≡ m.channel_msg_id
  pub received : m'.received_at ≡ m.received_at
  pub body : m'.body ≡ m.body
  pub reply_to : m'.reply_to_msg_id ≡ m.reply_to_msg_id
  pub classifier : m'.classifier_version ≡ m.classifier_version
  pub prompt : m'.prompt_hash ≡ m.prompt_hash

-- Every row of `a` is a row of `b`, with the same identity.
pub record Kept (a b : Db) : Type 0 where
  pub engagements :
      (k : ℕ) (e : Engagement)
      → find_engagement k a ≡ some e
      → (e' : Engagement) × (find_engagement k b ≡ some e') × SameEngagement e e'
  pub sessions :
      (k : ℕ) (s : Session)
      → find_session k a ≡ some s
      → (s' : Session) × (find_session k b ≡ some s') × SameSession s s'
  pub messages :
      (k : ℕ) (m : Message)
      → find_message k a ≡ some m
      → (m' : Message) × (find_message k b ≡ some m') × SameMessage m m'

pub SameEngagement-refl : (e : Engagement) → SameEngagement e e
SameEngagement-refl e = record {
  operator = refl;
  started = refl;
  active_last = refl;
  summary = refl;
  plane_id = refl;
  plane_seq = refl;
}

pub SameSession-refl : (s : Session) → SameSession s s
SameSession-refl s = record {
  engagement = refl;
  parent = refl;
  started = refl;
  prompt = refl;
  trace = refl;
}

pub SameMessage-refl : (m : Message) → SameMessage m m
SameMessage-refl m = record {
  operator = refl;
  channel = refl;
  channel_id = refl;
  received = refl;
  body = refl;
  reply_to = refl;
  classifier = refl;
  prompt = refl;
}

pub Kept-refl : (a : Db) → Kept a a
Kept-refl a = record {
  engagements = λ k e found. (e, found, SameEngagement-refl e);
  sessions = λ k s found. (s, found, SameSession-refl s);
  messages = λ k m found. (m, found, SameMessage-refl m);
}

pub Kept-trans : (a b c : Db) → Kept a b → Kept b c → Kept a c
Kept-trans a b c p q = record {
  engagements = λ k e found.
      let (e', found', same) = p.engagements k e found in
      let (e2, found2, same2) = q.engagements k e' found' in
      (
        e2,
        found2,
        record {
          operator = same2.operator ∙ same.operator;
          started = same2.started ∙ same.started;
          active_last = same2.active_last ∙ same.active_last;
          summary = same2.summary ∙ same.summary;
          plane_id = same2.plane_id ∙ same.plane_id;
          plane_seq = same2.plane_seq ∙ same.plane_seq;
        },
      );
  sessions = λ k s found.
      let (s', found', same) = p.sessions k s found in
      let (s2, found2, same2) = q.sessions k s' found' in
      (
        s2,
        found2,
        record {
          engagement = same2.engagement ∙ same.engagement;
          parent = same2.parent ∙ same.parent;
          started = same2.started ∙ same.started;
          prompt = same2.prompt ∙ same.prompt;
          trace = same2.trace ∙ same.trace;
        },
      );
  messages = λ k m found.
      let (m', found', same) = p.messages k m found in
      let (m2, found2, same2) = q.messages k m' found' in
      (
        m2,
        found2,
        record {
          operator = same2.operator ∙ same.operator;
          channel = same2.channel ∙ same.channel;
          channel_id = same2.channel_id ∙ same.channel_id;
          received = same2.received ∙ same.received;
          body = same2.body ∙ same.body;
          reply_to = same2.reply_to ∙ same.reply_to;
          classifier = same2.classifier ∙ same.classifier;
          prompt = same2.prompt ∙ same.prompt;
        },
      );
}

module _ (a : Db) where
  -- A change of one row, or one new row, in one of the tables.
  pub Kept-engagement_update :
      (k : ℕ) (f : Engagement → Engagement)
      → ((e : Engagement) → engagement_key (f e) ≡ engagement_key e)
      → ((e : Engagement) → SameEngagement e (f e))
      → Kept a (record a { engagements = update engagement_key k f a.engagements })
  Kept-engagement_update k f key same = record {
    engagements = λ j e found.
        find-update_kept engagement_key SameEngagement k j f a.engagements {x = e} key
          SameEngagement-refl same found;
    sessions = λ j s found. (s, found, SameSession-refl s);
    messages = λ j m found. (m, found, SameMessage-refl m);
  }

  pub Kept-session_update :
      (k : ℕ) (f : Session → Session)
      → ((s : Session) → session_key (f s) ≡ session_key s)
      → ((s : Session) → SameSession s (f s))
      → Kept a (record a { sessions = update session_key k f a.sessions })
  Kept-session_update k f key same = record {
    engagements = λ j e found. (e, found, SameEngagement-refl e);
    sessions = λ j s found.
        find-update_kept session_key SameSession k j f a.sessions {x = s} key SameSession-refl same
          found;
    messages = λ j m found. (m, found, SameMessage-refl m);
  }

  pub Kept-message_update :
      (k : ℕ) (f : Message → Message)
      → ((m : Message) → message_key (f m) ≡ message_key m)
      → ((m : Message) → SameMessage m (f m))
      → Kept a (record a { messages = update message_key k f a.messages })
  Kept-message_update k f key same = record {
    engagements = λ j e found. (e, found, SameEngagement-refl e);
    sessions = λ j s found. (s, found, SameSession-refl s);
    messages = λ j m found.
        find-update_kept message_key SameMessage k j f a.messages {x = m} key SameMessage-refl same
          found;
  }

  module _ (h : Sound a) where
    pub Kept-engagement_new :
        (e : Engagement)
        → engagement_key e ≡ suc a.engagement_seq
        → Kept a
            (record a { engagements = e ∷ a.engagements; engagement_seq = suc a.engagement_seq })
    Kept-engagement_new new key = record {
      engagements = λ j e found. (
        e,
        find-cons engagement_key a.engagement_seq j new a.engagements {x = e} key h.engagement_keys
            found,
        SameEngagement-refl e,
      );
      sessions = λ j s found. (s, found, SameSession-refl s);
      messages = λ j m found. (m, found, SameMessage-refl m);
    }

    pub Kept-session_new :
        (s : Session)
        → session_key s ≡ suc a.session_seq
        → Kept a (record a { sessions = s ∷ a.sessions; session_seq = suc a.session_seq })
    Kept-session_new new key = record {
      engagements = λ j e found. (e, found, SameEngagement-refl e);
      sessions = λ j s found. (
        s,
        find-cons session_key a.session_seq j new a.sessions {x = s} key h.session_keys found,
        SameSession-refl s,
      );
      messages = λ j m found. (m, found, SameMessage-refl m);
    }

    pub Kept-message_new :
        (m : Message)
        → message_key m ≡ suc a.message_seq
        → Kept a (record a { messages = m ∷ a.messages; message_seq = suc a.message_seq })
    Kept-message_new new key = record {
      engagements = λ j e found. (e, found, SameEngagement-refl e);
      sessions = λ j s found. (s, found, SameSession-refl s);
      messages = λ j m found. (
        m,
        find-cons message_key a.message_seq j new a.messages {x = m} key h.message_keys found,
        SameMessage-refl m,
      );
    }
