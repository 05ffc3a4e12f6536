-- ===== src/Ledger/Sound/Engagements.antt =====
-- The engagement methods keep the ledger well-formed.
use overwatch_harness.Prelude.{
  ℕ, suc, true, Option, some, ◌∷◌, ◌≡◌, refl, arith, inl, inr, Bool-cases,
}
use overwatch_harness.Prelude.Table.{
  update, Descends-cons, Descends-update, All-update, known-update,
}
use overwatch_harness.Text.{Text}
use overwatch_harness.Models.{Engagement, Time, ended}
use overwatch_harness.Ledger.Db.{Db, engagement_key, has_operator}
use overwatch_harness.Ledger.Engagements.{
  new_engagement, create_engagement, touch_engagement, end_engagement,
}
use overwatch_harness.Ledger.Sound.{
  Sound, Extends, EngagementRefs, engagements_mono, sessions_mono, messages_mono,
}

-- A change of engagement rows that keeps their keys and what they refer to.
update-Sound :
    (k : ℕ) (f : Engagement → Engagement) (db : Db)
    → ((e : Engagement) → engagement_key (f e) ≡ engagement_key e)
    → ((d : Db) (e : Engagement) → EngagementRefs d e → EngagementRefs d (f e))
    → Sound db
    → Sound (record db { engagements = update engagement_key k f db.engagements })
update-Sound k f db same refs h =
    let db' : Db = record db { engagements = update engagement_key k f db.engagements } in
    let ext : Extends db db' = record {
      operators = λ j known. known;
      engagements = λ j known. rw (known-update engagement_key k j f db.engagements same) known;
      sessions = λ j s found. (s, found, refl);
    } in
    record {
      engagement_keys =
          Descends-update engagement_key k db.engagement_seq f db.engagements same
            h.engagement_keys;
      session_keys = h.session_keys;
      message_keys = h.message_keys;
      heartbeat_keys = h.heartbeat_keys;
      engagement_refs =
          All-update engagement_key (EngagementRefs db') k f db.engagements (λ e _ r. refs db' e r)
            (engagements_mono ext db.engagements h.engagement_refs);
      session_refs = sessions_mono ext db.sessions h.session_refs;
      message_refs = messages_mono ext db.messages h.message_refs;
      distinct = h.distinct;
    }

pub touch_engagement-Sound :
    (k : ℕ) (now : Time) (db : Db) → Sound db → Sound (touch_engagement k now db)
unfolding touch_engagement
touch_engagement-Sound k now db =
    update-Sound k (λ e. record e { last_activity_at = now }) db (λ e. refl)
      (λ d e r. record { operator = r.operator; current = r.current })

pub end_engagement-Sound :
    (k : ℕ) (now : Time) (db : Db) → Sound db → Sound (end_engagement k now db)
unfolding end_engagement
end_engagement-Sound k now db =
    update-Sound k (λ e. record e { ended_at = some now; mode = ended }) db (λ e. refl)
      (λ d e r. record { operator = r.operator; current = r.current })

abbrev pub inserted : Text → Option Text → Time → Db → Db
inserted operator_id summary now db = record db {
  engagements = new_engagement (suc db.engagement_seq) operator_id summary now ∷ db.engagements;
  engagement_seq = suc db.engagement_seq;
}

inserted-Sound :
    (operator_id : Text) (summary : Option Text) (now : Time) (db : Db)
    → has_operator operator_id db ≡ true
    → Sound db
    → Sound (inserted operator_id summary now db)
inserted-Sound operator_id summary now db known h =
    let db' : Db = inserted operator_id summary now db in
    let ext : Extends db db' = record {
      operators = λ j k. k;
      engagements = λ j k. ground arith;
      sessions = λ j s found. (s, found, refl);
    } in
    record {
      engagement_keys =
          Descends-cons engagement_key db.engagement_seq
            (new_engagement (suc db.engagement_seq) operator_id summary now) db.engagements refl
            h.engagement_keys;
      session_keys = h.session_keys;
      message_keys = h.message_keys;
      heartbeat_keys = h.heartbeat_keys;
      engagement_refs = (
        record { operator = known; current = tt },
        engagements_mono ext db.engagements h.engagement_refs,
      );
      session_refs = sessions_mono ext db.sessions h.session_refs;
      message_refs = messages_mono ext db.messages h.message_refs;
      distinct = h.distinct;
    }

pub create_engagement-Sound :
    (operator_id : Text) (summary : Option Text) (now : Time) (db : Db)
    → Sound db
    → Sound (create_engagement operator_id summary now db).1
create_engagement-Sound operator_id summary now db h =
    elim (Bool-cases (has_operator operator_id db)) [
      | inl known ↦
          unfold create_engagement in rw known (inserted-Sound operator_id summary now db known h)
      | inr unknown ↦ unfold create_engagement in rw unknown h
    ]
