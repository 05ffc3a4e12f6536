-- ===== src/Daemon/Isolation/Handing.antt =====
-- What the hand-over of a message to the dispatch changes.
use overwatch_harness.Prelude.{ℕ, suc, Bool, true, ◌≡◌, some, refl, ◌∙◌, arith}
use overwatch_harness.Text.{Text}
use overwatch_harness.Text.Int.{ℤ}
use overwatch_harness.Exec.{Result, ok, err, continue}
use overwatch_harness.Config.{HarnessSettings}
use overwatch_harness.Models.{Message, routed, classifying}
use overwatch_harness.Ledger.Db.{Db, has_operator}
use overwatch_harness.Ledger.Sound.{Sound}
use overwatch_harness.Ledger.Sound.Messages.{update_message_status-Sound}
use overwatch_harness.Router.{decide}
use overwatch_harness.Ledger.Messages.{no_changes, update_message_status}
use overwatch_harness.Router.Decisions.{decide-Follows}
use overwatch_harness.Daemon.{World, Outside, ◌>>=◌, on_db, now, update_status}
use overwatch_harness.Daemon.Dispatch.{Origin, schema_route, follow, dispatch}
use overwatch_harness.Daemon.Ingress.{TelegramMessage, hand_over, recover}
use overwatch_harness.Daemon.Keeps.{Keeps-bind}
use overwatch_harness.Daemon.Keeps.Effects.{decide-Decided}
use overwatch_harness.Daemon.Keeps.Handlers.{Keeps-update_status}
use overwatch_harness.Daemon.Keeps.Updates.{Keeps-recover}
use overwatch_harness.Daemon.Isolation.Spares.{Spares, tail_steps}
use overwatch_harness.Daemon.Isolation.Following.{follow-Sparing}
use overwatch_harness.Daemon.Isolation.Deciding.{
  status_engagements, Decided-Grown, Isolated, compose,
}

module _ (out : Outside) (settings : HarnessSettings) (binary : Text) (plane : Bool) (m : Message)
    (o : Origin) where
  -- Behind the message's status `classifying`.
  after_status :
      (a : Db) (w : World) (r : Result (Unit {0}))
      → ((place : ℕ) → Spares m.message_id place a.session_seq a w.db)
      → w.db.engagements ≡ a.engagements
      → Sound w.db
      → has_operator m.operator_id w.db ≡ true
      → Isolated m.operator_id m.message_id a
          (continue r
            (λ _. now out >>= λ seen. now out >>= λ at.
              on_db (decide settings.idle_window_seconds m.operator_id m.body seen at) >>= λ d.
              update_status m.message_id routed (record no_changes {
                engagement_id = some d.engagement.engagement_id;
                classifier_route = some (schema_route d.intent);
              })
              >>= λ _. follow out settings binary plane m o d)
            w).1.db
  unfolding ◌>>=◌ now on_db
  after_status a w (err e) p same h known = record {
    operators = (p 0).operators;
    messages = (p 0).messages;
    sessions = (p 0).sessions;
    engagements = λ k x found others. rw same found;
    counted = (p 0).counted;
  }
  after_status a w (ok done) p same h known =
      let seen = out.clock w.reads in
      let at = out.clock (suc w.reads) in
      let window = settings.idle_window_seconds in
      let (d, returned, placed, follows, chosen) =
        decide-Follows window m.operator_id m.body seen at w.db h known in
      let db = (decide window m.operator_id m.body seen at w.db).1 in
      let grown =
        Decided-Grown m.operator_id at w.db db h
          (decide-Decided window m.operator_id m.body seen at w.db) in
      let n = a.session_seq in
      let place = d.engagement.engagement_id in
      let steps = tail_steps m.message_id place n in
      let rest =
        (Keeps-bind steps _ (λ _. follow out settings binary plane m o d)
            (Keeps-update_status steps m.message_id routed _ refl)
            (λ _. record { at = follow-Sparing out settings binary plane m o n d })).at
          (record w { db = db; reads = suc (suc w.reads) })
          (rw grown.session_seq (p place).counted) in
      rw returned (
        compose m.operator_id m.message_id n d.engagement a w.db db _ refl (p place) same grown
          placed (unfold ◌>>=◌ in rest))

  dispatch-Isolated :
      (w : World)
      → Sound w.db
      → has_operator m.operator_id w.db ≡ true
      → Isolated m.operator_id m.message_id w.db (dispatch out settings binary plane m o w).1.db
  unfolding dispatch ◌>>=◌ update_status on_db
  dispatch-Isolated w h known =
      let r = update_message_status m.message_id classifying no_changes w.db in
      let sound = update_message_status-Sound m.message_id classifying no_changes w.db h in
      let spares : (place : ℕ) → Spares m.message_id place w.db.session_seq w.db r.1 = λ place.
        (Keeps-update_status (tail_steps m.message_id place w.db.session_seq) m.message_id
            classifying no_changes refl).at
          w (omega arith) in
      after_status w.db (record w { db = r.1 }) r.0 spares
        (status_engagements m.message_id classifying no_changes w.db) sound
        (rw (spares 0).operators known)

  -- The handler's status behind an exception, too.
  recovered :
      (a : Db) (r : Result (Unit {0})) (w : World)
      → Isolated m.operator_id m.message_id a w.db
      → Isolated m.operator_id m.message_id a (recover m r w).1.db
  recovered a r w i =
      let spares = λ (place : ℕ).
        (Keeps-recover (tail_steps m.message_id place a.session_seq) m r refl).at w i.counted in
      record {
        operators = (spares 0).operators ∙ i.operators;
        messages = λ k other. (spares 0).messages k other ∙ i.messages k other;
        sessions = λ k old. (spares 0).sessions k old ∙ i.sessions k old;
        engagements = λ k x found others.
            (spares (suc k)).engagements k (λ same. omega (arith, same))
            ∙ i.engagements k x found others;
        counted = (spares 0).counted;
      }

pub hand_over-Isolated :
    (out : Outside) (settings : HarnessSettings) (binary : Text) (plane : Bool) (chat : ℤ)
    (msg : TelegramMessage) (m : Message) (w : World)
    → Sound w.db
    → has_operator m.operator_id w.db ≡ true
    → Isolated m.operator_id m.message_id w.db
        (hand_over out settings binary plane chat msg (some m) w).1.db
unfolding hand_over
hand_over-Isolated out settings binary plane chat msg m w h known =
    let origin : Origin = record { chat_id = chat; message_id = msg.message_id } in
    recovered out settings binary plane m origin w.db _ _
      (dispatch-Isolated out settings binary plane m origin w h known)
