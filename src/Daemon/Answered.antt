-- ===== src/Daemon/Answered.antt =====
-- Whether a message that is handled is answered.
pub mod Telling
use overwatch_harness.Prelude.{
  ℕ, Bool, Option, none, some, ◌≡◌, ◌⊎◌, refl, inl, inr, arith, Bool-cases, Option-cases,
  if◌then◌else◌, is_some,
}
use overwatch_harness.Text.{Text}
use overwatch_harness.Text.Int.{ℤ}
use overwatch_harness.Exec.{Result, ok, err, cancelled_error}
use overwatch_harness.Config.{HarnessSettings}
use overwatch_harness.Models.{Engagement, Message, Session, failed}
use overwatch_harness.Machine.{can_spawn}
use overwatch_harness.Router.{Intent, slash_command, resume_session, new_session, RouteDecision}
use overwatch_harness.Spawner.{SpawnResult}
use overwatch_harness.Ledger.Db.{Db, message_key, find_message}
use overwatch_harness.Prelude.Table.{update, find-update}
use overwatch_harness.Daemon.Trail.{hand_over-Extended}
use overwatch_harness.Daemon.Settled.Finishing.{caught}
use overwatch_harness.Ledger.Messages.{Changes, set_status, update_message_status}
use overwatch_harness.Ledger.Sound.{Sound}
use overwatch_harness.Daemon.{World, Outside, on_db, update_status}
use overwatch_harness.Daemon.Dispatch.{
  Origin, reply, run_slash, refuse, conclude, run_session, run_spawn, follow, dispatch,
}
use overwatch_harness.Daemon.Ingress.{TelegramMessage, recover, hand_over}
use overwatch_harness.Daemon.Keeps.{Keeps-bind, Keeps-now}
use overwatch_harness.Daemon.Keeps.Handlers.{Keeps-update_status, Keeps-decide}
use overwatch_harness.Daemon.Keeps.Spawns.{
  Keeps-spawn, Keeps-create_session, Keeps-throttle, Keeps-finalize, Keeps-audit,
}
use overwatch_harness.Daemon.Addressed.{Sends-none}
use overwatch_harness.Daemon.Answered.Telling.{
  Told, Replies, Replies-bind, Replies-then, Replies-send_all, FirstTo-outgoing, sending_steps,
  sending_spawns,
}

module _ (out : Outside) (settings : HarnessSettings) (binary : Text) (plane : Bool) (m : Message)
    (o : Origin) where
  Replies-reply :
      (text : Text) (e : Engagement) (k : Option ℕ) (mode : Text)
      → Replies o.chat_id (reply out settings binary plane o text e k mode)
  unfolding reply
  Replies-reply text e k mode =
      Replies-send_all out o.chat_id _
        (FirstTo-outgoing o.chat_id text (some o.message_id) e.engagement_id k mode)

  Replies-run_slash :
      (d : RouteDecision) → Replies o.chat_id (run_slash out settings binary plane m o d)
  unfolding run_slash
  Replies-run_slash d = Replies-bind _ _ _ (Keeps-now sending_steps out) λ at.
      Replies-bind _ _ _ (record { at = λ w. Sends-none _ w _ refl })
        λ text.
          Replies-then _ _ _ (Replies-reply _ d.engagement _ _)
            λ _. Keeps-update_status sending_steps m.message_id _ _ tt

  Replies-refuse : (d : RouteDecision) → Replies o.chat_id (refuse out settings binary plane m o d)
  unfolding refuse
  Replies-refuse d =
      Replies-bind _ _ _ (record { at = λ w. sending_steps.same w })
        λ machine.
          Replies-then _ _ _ (Replies-reply _ d.engagement none _)
            λ _. Keeps-update_status sending_steps m.message_id _ _ tt

  Replies-conclude :
      (d : RouteDecision) (s : Session) (result : SpawnResult)
      → Replies o.chat_id (conclude out settings binary plane m o d s result)
  unfolding conclude
  Replies-conclude d s result =
      Replies-bind _ _ _ (Keeps-throttle sending_steps sending_spawns result) λ _.
        Replies-bind _ _ _ (Keeps-now sending_steps out) λ at.
          Replies-bind _ _ _ (Keeps-finalize sending_steps sending_spawns _ _ _ _ _ _ at tt) λ _.
            Replies-then _ _ _ (Replies-reply _ d.engagement _ _) λ _.
              Keeps-bind sending_steps _ _ (Keeps-update_status sending_steps m.message_id _ _ tt)
                λ _. Keeps-audit sending_steps sending_spawns plane d.engagement s.session_id result

  Replies-run_spawn :
      (d : RouteDecision) → Replies o.chat_id (run_spawn out settings binary plane m o d)
  unfolding run_spawn run_session
  Replies-run_spawn d = Replies-bind _ _ _ (Keeps-now sending_steps out) λ at.
      Replies-bind _ _ _ (Keeps-create_session sending_steps sending_spawns _ _ _ at tt) λ s.
        Replies-bind _ _ _ (Keeps-update_status sending_steps m.message_id _ _ tt) λ _.
          Replies-bind _ _ _ (record { at = λ w. sending_steps.same w })
            λ readings.
              Replies-bind _ _ _ (Keeps-spawn sending_steps sending_spawns s.session_id tt _ _)
                λ result. Replies-conclude d s result

  Replies-guarded :
      (d : RouteDecision)
      → Replies o.chat_id (λ w.
        if can_spawn w.machine
        then run_spawn out settings binary plane m o d w
        else refuse out settings binary plane m o d w)
  Replies-guarded d = record {
    at = λ w fits. elim (Bool-cases (can_spawn w.machine)) [
      | inl healthy ↦ rw healthy ((Replies-run_spawn d).at w (rw healthy at fits))
      | inr other ↦ rw other ((Replies-refuse d).at w (rw other at fits))
    ];
  }

  Replies-follow : (d : RouteDecision) → Replies o.chat_id (follow out settings binary plane m o d)
  unfolding follow
  Replies-follow d = by_intent d.intent
    where
      by_intent :
          (i : Intent)
          → Replies o.chat_id (elim i [
            | slash_command ↦ run_slash out settings binary plane m o d
            | _ ↦ λ w.
                if can_spawn w.machine
                then run_spawn out settings binary plane m o d w
                else refuse out settings binary plane m o d w
          ])
      by_intent slash_command = Replies-run_slash d
      by_intent resume_session = Replies-guarded d
      by_intent new_session = Replies-guarded d

  Replies-dispatch : Replies o.chat_id (dispatch out settings binary plane m o)
  unfolding dispatch
  Replies-dispatch = Replies-bind _ _ _ (Keeps-update_status sending_steps m.message_id _ _ tt) λ _.
      Replies-bind _ _ _ (Keeps-now sending_steps out) λ seen.
        Replies-bind _ _ _ (Keeps-now sending_steps out) λ at.
          Replies-bind _ _ _ (Keeps-decide sending_steps _ _ _ seen at tt) λ d.
            Replies-bind _ _ _ (Keeps-update_status sending_steps m.message_id _ _ tt)
              λ _. Replies-follow d

abbrev FailedOne : Option Message → Type 0
FailedOne none = Unit
FailedOne (some m) = m.status ≡ failed

updated-FailedOne :
    (k : ℕ) (c : Changes) (db : Db)
    → FailedOne (
        find_message k
          (record db { messages = update message_key k (set_status failed c) db.messages }))
updated-FailedOne k c db =
    rw (find-update message_key k k (set_status failed c) db.messages (λ m. refl))
      (elim (Option-cases (find_message k db)) [
        | inl absent ↦ rw absent tt
        | inr (m, there) ↦ rw there (ground arith)
      ])

-- What becomes of the dispatch's result.
recovered-Told :
    (chat : ℤ) (m : Message) (a : World) (r : Result (Unit {0})) (w : World)
    → (r ≡ ok tt → Told chat a w)
    → ((recover m r w).0 ≡ err cancelled_error)
      ⊎ Told chat a (recover m r w).1
      ⊎ FailedOne (find_message m.message_id (recover m r w).1.db)
unfolding recover update_status on_db update_message_status
recovered-Told chat m a (ok u) w told = inr (inl (told refl))
recovered-Told chat m a (err cancelled_error) w told = inl refl
recovered-Told chat m a (err e) w told =
    elim (Bool-cases (is_some (find_message m.message_id w.db))) [
      | inl there ↦ rw there (inr (inr (updated-FailedOne m.message_id caught w.db)))
      | inr absent ↦ rw absent (inr (inr (updated-FailedOne m.message_id caught w.db)))
    ]

failed_one :
    (k : ℕ) (db : Db) (m : Message)
    → find_message k db ≡ some m
    → FailedOne (find_message k db)
    → m.status ≡ failed
failed_one k db m found fine = rw found at fine

-- In a well-formed ledger that has the message, its handling ends with the cancellation of the
-- claude process, or the bot has taken a message to the chat that it came from, or the message is
-- marked failed: none is passed over.
pub answered_or_failed :
    (out : Outside) (settings : HarnessSettings) (binary : Text) (plane : Bool) (chat : ℤ)
    (msg : TelegramMessage) (m : Message) (w : World)
    → Sound w.db
    → find_message m.message_id w.db ≡ some m
    → let r = hand_over out settings binary plane chat msg (some m) w in
      (r.0 ≡ err cancelled_error)
      ⊎ Told chat w r.1
      ⊎ ((m' : Message) × (find_message m.message_id r.1.db ≡ some m') × (m'.status ≡ failed))
unfolding hand_over
answered_or_failed out settings binary plane chat msg m w h there =
    let o : Origin = record { chat_id = chat; message_id = msg.message_id } in
    let run = dispatch out settings binary plane m o w in
    let (m', found, same) =
      (hand_over-Extended out settings binary plane chat msg (some m) w h).kept.messages
        m.message_id m there in
    elim (recovered-Told chat m w run.0 run.1
      ((Replies-dispatch out settings binary plane m o).at w)) [
        | inl stopped ↦ inl stopped
        | inr (inl told) ↦ inr (inl told)
        | inr (inr fine) ↦
            inr
              (inr (m', found, failed_one m.message_id (recover m run.0 run.1).1.db m' found fine))
      ]
