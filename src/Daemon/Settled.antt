-- ===== src/Daemon/Settled.antt =====
-- The status that a message is left with when its handling has ended.
pub mod Finishing
use overwatch_harness.Prelude.{
  ℕ, Bool, some, ◌≡◌, ◌⊎◌, refl, inl, inr, Bool-cases, if◌then◌else◌, is_some,
}
use overwatch_harness.Text.{Text}
use overwatch_harness.Text.Int.{ℤ}
use overwatch_harness.Exec.{Result, ok, err, cancelled_error}
use overwatch_harness.Config.{HarnessSettings}
use overwatch_harness.Models.{Message, done, failed, Session}
use overwatch_harness.Machine.{can_spawn}
use overwatch_harness.Ledger.Db.{Db, find_message}
use overwatch_harness.Ledger.Messages.{update_message_status}
use overwatch_harness.Ledger.Sound.{Sound}
use overwatch_harness.Daemon.Trail.{hand_over-Extended}
use overwatch_harness.Router.{Intent, slash_command, resume_session, new_session, RouteDecision}
use overwatch_harness.Spawner.{SpawnResult}
use overwatch_harness.Daemon.{World, Outside, on_db, update_status}
use overwatch_harness.Daemon.Dispatch.{
  Origin, run_slash, refuse, conclude, run_session, run_spawn, follow, dispatch,
}
use overwatch_harness.Daemon.Ingress.{TelegramMessage, recover, hand_over}
use overwatch_harness.Daemon.Settled.Finishing.{
  IsFinal, Final, caught, updated-Final, Finishes, Finishes-update, Finishes-bind, Finishes-then,
  audit-db,
}

module _ (out : Outside) (settings : HarnessSettings) (binary : Text) (plane : Bool) where
  Finishes-run_slash :
      (m : Message) (o : Origin) (d : RouteDecision)
      → Finishes m.message_id (run_slash out settings binary plane m o d)
  unfolding run_slash
  Finishes-run_slash m o d =
      Finishes-bind _ _ _ λ at.
        Finishes-bind _ _ _ λ text. Finishes-bind _ _ _ λ _. Finishes-update _ done _ (inl refl)

  Finishes-refuse :
      (m : Message) (o : Origin) (d : RouteDecision)
      → Finishes m.message_id (refuse out settings binary plane m o d)
  unfolding refuse
  Finishes-refuse m o d =
      Finishes-bind _ _ _ λ machine. Finishes-bind _ _ _ λ _. Finishes-update _ failed _ (inr refl)

  Finishes-conclude :
      (m : Message) (o : Origin) (d : RouteDecision) (s : Session) (result : SpawnResult)
      → Finishes m.message_id (conclude out settings binary plane m o d s result)
  unfolding conclude
  Finishes-conclude m o d s result = Finishes-bind _ _ _ λ _. Finishes-bind _ _ _ λ at.
      Finishes-bind _ _ _ λ _. Finishes-bind _ _ _ λ _.
        Finishes-then _ _ _ (Finishes-update _ done _ (inl refl))
          (audit-db plane d.engagement s.session_id result)

  Finishes-run_spawn :
      (m : Message) (o : Origin) (d : RouteDecision)
      → Finishes m.message_id (run_spawn out settings binary plane m o d)
  unfolding run_spawn run_session
  Finishes-run_spawn m o d = Finishes-bind _ _ _ λ at. Finishes-bind _ _ _ λ s.
      Finishes-bind _ _ _ λ _.
        Finishes-bind _ _ _
          λ readings. Finishes-bind _ _ _ λ result. Finishes-conclude m o d s result

  Finishes-guarded :
      (m : Message) (o : Origin) (d : RouteDecision)
      → Finishes m.message_id (λ w.
        if can_spawn w.machine
        then run_spawn out settings binary plane m o d w
        else refuse out settings binary plane m o d w)
  Finishes-guarded m o d = record {
    at = λ w fits. elim (Bool-cases (can_spawn w.machine)) [
      | inl healthy ↦ rw healthy ((Finishes-run_spawn m o d).at w (rw healthy at fits))
      | inr other ↦ rw other ((Finishes-refuse m o d).at w (rw other at fits))
    ];
  }

  Finishes-follow :
      (m : Message) (o : Origin) (d : RouteDecision)
      → Finishes m.message_id (follow out settings binary plane m o d)
  unfolding follow
  Finishes-follow m o d = by_intent d.intent
    where
      by_intent :
          (i : Intent)
          → Finishes m.message_id (elim i [
            | slash_command ↦ run_slash out settings binary plane m o d
            | _ ↦ λ w.
                if can_spawn w.machine
                then run_spawn out settings binary plane m o d w
                else refuse out settings binary plane m o d w
          ])
      by_intent slash_command = Finishes-run_slash m o d
      by_intent resume_session = Finishes-guarded m o d
      by_intent new_session = Finishes-guarded m o d

  Finishes-dispatch :
      (m : Message) (o : Origin) → Finishes m.message_id (dispatch out settings binary plane m o)
  unfolding dispatch
  Finishes-dispatch m o = Finishes-bind _ _ _ λ _. Finishes-bind _ _ _ λ seen.
      Finishes-bind _ _ _
        λ at. Finishes-bind _ _ _ λ d. Finishes-bind _ _ _ λ _. Finishes-follow m o d

  -- The status of the message is final, or the result is the cancellation.
  recovered :
      (m : Message) (r : Result (Unit {0})) (w : World)
      → (r ≡ ok tt → Final m.message_id w.db)
      → ((recover m r w).0 ≡ err cancelled_error)
        ⊎ (((recover m r w).0 ≡ ok tt) × Final m.message_id (recover m r w).1.db)
  unfolding recover update_status on_db update_message_status
  recovered m (ok a) w fine = inr (refl, fine refl)
  recovered m (err cancelled_error) w fine = inl refl
  recovered m (err e) w fine = elim (Bool-cases (is_some (find_message m.message_id w.db))) [
    | inl there ↦ rw there (inr (refl, updated-Final m.message_id failed caught w.db (inr refl)))
    | inr absent ↦ rw absent (inr (refl, updated-Final m.message_id failed caught w.db (inr refl)))
  ]

  found-Final :
      (k : ℕ) (db : Db) (m : Message) → find_message k db ≡ some m → Final k db → IsFinal m.status
  found-Final k db m found fine = rw found at fine

  hand_over-Final :
      (chat : ℤ) (msg : TelegramMessage) (m : Message) (w : World)
      → let r = hand_over out settings binary plane chat msg (some m) w in
        (r.0 ≡ err cancelled_error) ⊎ ((r.0 ≡ ok tt) × Final m.message_id r.1.db)
  unfolding hand_over
  hand_over-Final chat msg m w =
      let o : Origin = record { chat_id = chat; message_id = msg.message_id } in
      recovered m (dispatch out settings binary plane m o w).0
        (dispatch out settings binary plane m o w).1 ((Finishes-dispatch m o).at w)

  -- In a well-formed ledger that has the message, its handling either ends with the cancellation of
  -- the claude process, or returns, and then the message is done or failed, whatever was raised on
  -- the way.
  pub hand_over_settles :
      (chat : ℤ) (msg : TelegramMessage) (m : Message) (w : World)
      → Sound w.db
      → find_message m.message_id w.db ≡ some m
      → let r = hand_over out settings binary plane chat msg (some m) w in
        (r.0 ≡ err cancelled_error)
        ⊎ ((r.0 ≡ ok tt)
            × ((m' : Message) × (find_message m.message_id r.1.db ≡ some m')
                × ((m'.status ≡ done) ⊎ (m'.status ≡ failed))))
  hand_over_settles chat msg m w h there =
      let (m', found, same) =
        (hand_over-Extended out settings binary plane chat msg (some m) w h).kept.messages
          m.message_id m there in
      elim (hand_over-Final chat msg m w) [
        | inl stopped ↦ inl stopped
        | inr (fits, fine) ↦ inr (
          fits,
          (
            m',
            found,
            found-Final m.message_id (hand_over out settings binary plane chat msg (some m) w).1.db
                m' found fine,
          ),
        )
      ]
