-- ===== src/Ledger/Sound/Sessions.antt =====
-- The session methods keep the ledger well-formed.
use overwatch_harness.Prelude.{
  ℕ, suc, true, ◌&&◌, Option, some, is_some, ◌∷◌, ◌≡◌, refl, arith, inl, inr, Bool-cases, ◌==◌,
  if◌then◌else◌, sym,
}
use overwatch_harness.Prelude.Table.{
  find, update, Descends-update, All-update, known-update, find-update, find-key-le, Descends-cons,
}
use overwatch_harness.Text.{Text}
use overwatch_harness.Text.Int.{ℤ}
use overwatch_harness.Models.{Session, SessionStatus, running, Time}
use overwatch_harness.Ledger.Db.{Db, engagement_key, session_key, has_engagement, has_session}
use overwatch_harness.Ledger.Sessions.{
  new_session, set_current, create_session, attach_claude_session_id, finalize_session,
}
use overwatch_harness.Ledger.Sound.{
  Sound, Extends, EngagementRefs, SessionRefs, engagements_mono, sessions_mono, messages_mono,
}

-- A change of session rows that keeps their keys and what they refer to.
update-Sound :
    (k : ℕ) (f : Session → Session) (db : Db)
    → ((s : Session) → session_key (f s) ≡ session_key s)
    → ((s : Session) → (f s).engagement_id ≡ s.engagement_id)
    → ((d : Db) (s : Session) → SessionRefs d s → SessionRefs d (f s))
    → Sound db
    → Sound (record db { sessions = update session_key k f db.sessions })
update-Sound k f db same owner refs h =
    let db' : Db = record db { sessions = update session_key k f db.sessions } in
    let ext : Extends db db' = record {
      operators = λ j known. known;
      engagements = λ j known. known;
      sessions = λ j s found. updated j s found;
    } in
    record {
      engagement_keys = h.engagement_keys;
      session_keys = Descends-update session_key k db.session_seq f db.sessions same h.session_keys;
      message_keys = h.message_keys;
      heartbeat_keys = h.heartbeat_keys;
      engagement_refs = engagements_mono ext db.engagements h.engagement_refs;
      session_refs =
          All-update session_key (SessionRefs db') k f db.sessions (λ s _ r. refs db' s r)
            (sessions_mono ext db.sessions h.session_refs);
      message_refs = messages_mono ext db.messages h.message_refs;
      distinct = h.distinct;
    }
  where
    updated :
        (j : ℕ) (s : Session)
        → find session_key j db.sessions ≡ some s
        → (t : Session) × (find session_key j (update session_key k f db.sessions) ≡ some t)
          × (t.engagement_id ≡ s.engagement_id)
    updated j s found = (
      if j == k then f s else s,
      ground (arith, find-update session_key k j f db.sessions same, found),
      ground (arith, owner s),
    )

pub attach_claude_session_id-Sound :
    (k : ℕ) (id : Text) (db : Db) → Sound db → Sound (attach_claude_session_id k id db)
unfolding attach_claude_session_id
attach_claude_session_id-Sound k id db =
    update-Sound k (λ s. record s { claude_session_id = some id; status = running }) db (λ s. refl)
      (λ s. refl) (λ d s r. record { engagement = r.engagement; parent = r.parent })

pub finalize_session-Sound :
    (k : ℕ) (status : SessionStatus) (code : Option ℤ) (text : Option Text) (ms : Option ℕ)
    (window : Option Text) (now : Time) (db : Db)
    → Sound db
    → Sound (finalize_session k status code text ms window now db)
unfolding finalize_session
finalize_session-Sound k status code text ms window now db =
    update-Sound k _ db (λ s. refl) (λ s. refl)
      (λ d s r. record { engagement = r.engagement; parent = r.parent })

abbrev pub inserted : ℕ → Text → Option ℕ → Time → Db → Db
inserted engagement_id prompt parent now db = record db {
  sessions = new_session (suc db.session_seq) engagement_id prompt parent now ∷ db.sessions;
  session_seq = suc db.session_seq;
  engagements =
      update engagement_key engagement_id (set_current (suc db.session_seq)) db.engagements;
}

-- The new session is the current one of its own engagement, and of no other.
inserted-Sound :
    (engagement_id : ℕ) (prompt : Text) (parent : Option ℕ) (now : Time) (db : Db)
    → has_engagement (some engagement_id) db ≡ true
    → has_session parent db ≡ true
    → Sound db
    → Sound (inserted engagement_id prompt parent now db)
inserted-Sound engagement_id prompt parent now db known parent_known h =
    let db' : Db = inserted engagement_id prompt parent now db in
    let ext : Extends db db' = record {
      operators = λ j k. k;
      engagements = λ j k. rw (still_known j) k;
      sessions = λ j s found. (s, kept j s found, refl);
    } in
    let new_refs : SessionRefs db
        (new_session (suc db.session_seq) engagement_id prompt parent now) =
      record { engagement = known; parent = parent_known } in
    record {
      engagement_keys =
          Descends-update engagement_key engagement_id db.engagement_seq
            (set_current (suc db.session_seq)) db.engagements (λ e. refl) h.engagement_keys;
      session_keys =
          Descends-cons session_key db.session_seq
            (new_session (suc db.session_seq) engagement_id prompt parent now) db.sessions refl
            h.session_keys;
      message_keys = h.message_keys;
      heartbeat_keys = h.heartbeat_keys;
      engagement_refs =
          All-update engagement_key (EngagementRefs db') engagement_id
            (set_current (suc db.session_seq)) db.engagements
            (λ e own r. record {
              operator = r.operator;
              current = (
                new_session (suc db.session_seq) engagement_id prompt parent now,
                ground arith,
                sym own,
              );
            })
            (engagements_mono ext db.engagements h.engagement_refs);
      session_refs =
          sessions_mono ext
            (new_session (suc db.session_seq) engagement_id prompt parent now ∷ db.sessions)
            (new_refs, h.session_refs);
      message_refs = messages_mono ext db.messages h.message_refs;
      distinct = h.distinct;
    }
  where
    still_known :
        (j : ℕ)
        → is_some (
            find engagement_key j (
              update engagement_key engagement_id
                (set_current (suc db.session_seq))
                db.engagements))
          ≡ is_some (find engagement_key j db.engagements)
    still_known j =
        known-update engagement_key engagement_id j (set_current (suc db.session_seq))
          db.engagements (λ e. refl)

    kept :
        (j : ℕ) (s : Session)
        → find session_key j db.sessions ≡ some s
        → find session_key j
            (new_session (suc db.session_seq) engagement_id prompt parent now ∷ db.sessions)
          ≡ some s
    kept j s found = ground (
      arith,
      found,
      find-key-le session_key j db.session_seq db.sessions {x = s} h.session_keys found,
    )

pub create_session-Sound :
    (engagement_id : ℕ) (prompt : Text) (parent : Option ℕ) (now : Time) (db : Db)
    → Sound db
    → Sound (create_session engagement_id prompt parent now db).1
create_session-Sound engagement_id prompt parent now db h =
    elim (Bool-cases (has_engagement (some engagement_id) db && has_session parent db)) [
      | inl known ↦
          unfold create_session in
          rw known (
            inserted-Sound engagement_id prompt parent now db (ground (arith, known))
              (ground (arith, known)) h)
      | inr unknown ↦ unfold create_session in rw unknown h
    ]
