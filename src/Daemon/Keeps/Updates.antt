-- ===== src/Daemon/Keeps/Updates.antt =====
-- `_on_message`, by the rules of its parts.
use overwatch_harness.Prelude.{
  ℕ, Bool, true, Option, none, some, List, ◌≡◌, refl, Bool-cases, inl, inr,
}
use overwatch_harness.Exec.{Result, ok, err, cancelled_error, pure}
use overwatch_harness.Text.{Text}
use overwatch_harness.Text.Int.{ℤ}
use overwatch_harness.Config.{HarnessSettings}
use overwatch_harness.Models.{ChannelKind, Message, MessageStatus}
use overwatch_harness.Ledger.Operators.{upsert_operator}
use overwatch_harness.Ledger.Messages.{Inbound, insert_message}
use overwatch_harness.Ledger.Sound.Run.{Write, write}
use overwatch_harness.Router.{RouteDecision}
use overwatch_harness.Machine.{can_spawn}
use overwatch_harness.Daemon.{World, Outside, on_db}
use overwatch_harness.Daemon.Dispatch.{Origin, dispatch, run_spawn}
use overwatch_harness.Daemon.Ingress.{
  TelegramMessage, Update, allowed, refusal_note, refuse_chat, recover, hand_over, accept, on_chat,
  on_message,
}
use overwatch_harness.Daemon.Keeps.{Scope, Plain, Steps, Keeps, Keeps-bind, Keeps-now}
use overwatch_harness.Daemon.Keeps.Handlers.{Keeps-update_status, Keeps-dispatch}

module _ {S : Scope} {R : World → World → Type 0} (steps : Steps S R) where
  pub Keeps-recover :
      (m : Message) (r : Result (Unit {0})) → S.message m.message_id → Keeps R (recover m r)
  unfolding recover
  Keeps-recover m (ok done) own = record { at = λ w. steps.same w }
  Keeps-recover m (err cancelled_error) own = record { at = λ w. steps.same w }
  Keeps-recover m (err _) own = Keeps-update_status steps m.message_id MessageStatus.failed _ own

-- Where any message and any engagement may be rewritten.
module _ {S : Scope} {R : World → World → Type 0} (steps : Steps S R)
    (messages : (k : ℕ) → S.message k) (engagements : (k : ℕ) → S.engagement k) (adding : S.adding)
    (out : Outside) (settings : HarnessSettings) (binary : Text) (plane : Bool)
    (spawn_path : (m : Message) (o : Origin) (d : RouteDecision) (w : World)
      → S.chat o.chat_id
      → can_spawn w.machine ≡ true
      → R w (run_spawn out settings binary plane m o d w).1) where
  pub Keeps-hand_over :
      (chat : ℤ) (msg : TelegramMessage) (m : Option Message)
      → S.chat chat
      → Keeps R (hand_over out settings binary plane chat msg m)
  unfolding hand_over
  Keeps-hand_over chat msg none to = record { at = λ w. steps.same w }
  Keeps-hand_over chat msg (some m) to =
      let origin : Origin = record { chat_id = chat; message_id = msg.message_id } in
      record {
        at = λ w.
            steps.trans w (dispatch out settings binary plane m origin w).1
              (recover m (dispatch out settings binary plane m origin w).0
                (dispatch out settings binary plane m origin w).1).1
              ((Keeps-dispatch steps out settings binary plane m origin (messages m.message_id) to
                  (λ d v placed healthy. spawn_path m origin d v to healthy) adding engagements).at
                w)
              ((Keeps-recover steps m (dispatch out settings binary plane m origin w).0
                  (messages m.message_id)).at
                (dispatch out settings binary plane m origin w).1);
      }

  Keeps-upsert :
      (kind : ChannelKind) (uid : Text) (name : Option Text) (at : ℕ)
      → Keeps R (on_db (upsert_operator kind uid name at))
  unfolding on_db write
  Keeps-upsert kind uid name at = record {
    at = λ w. steps.plain (Write.upsert kind uid name at) (Plain.upsert kind uid name at adding) w;
  }

  Keeps-insert : (i : Inbound) (at : ℕ) → Keeps R (on_db (insert_message i at))
  unfolding on_db write
  Keeps-insert i at = record {
    at = λ w. steps.plain (Write.arrive i at) (Plain.arrive i at adding) w;
  }

  Keeps-accept :
      (chat : ℤ) (msg : TelegramMessage)
      → S.chat chat
      → Keeps R (accept out settings binary plane chat msg)
  unfolding accept
  Keeps-accept chat msg to = Keeps-bind steps _ _ (Keeps-now steps out) λ seen.
      Keeps-bind steps _ _ (Keeps-upsert _ _ _ seen) λ operator.
        Keeps-bind steps _ _ (Keeps-now steps out)
          λ at. Keeps-bind steps _ _ (Keeps-insert _ at) λ m. Keeps-hand_over chat msg m to

  Keeps-refuse_chat : (chat : ℤ) → S.chat chat → Keeps R (refuse_chat out chat)
  unfolding refuse_chat
  Keeps-refuse_chat chat to = record {
    at = λ w. elim (Bool-cases (out.delivers w.sent (refusal_note chat))) [
      | inl taken ↦ rw taken (steps.send (refusal_note chat) to w)
      | inr lost ↦ rw lost (steps.same w)
    ];
  }

  Keeps-on_chat :
      (allowlist : List ℤ) (chat : ℤ) (msg : TelegramMessage)
      → S.chat chat
      → Keeps R (on_chat out settings binary plane allowlist chat msg)
  unfolding on_chat
  Keeps-on_chat allowlist chat msg to = record {
    at = λ w. elim (Bool-cases (allowed chat allowlist)) [
      | inl known ↦ rw known ((Keeps-accept chat msg to).at w)
      | inr unknown ↦ rw unknown ((Keeps-refuse_chat chat to).at w)
    ];
  }

  -- The whole handler.
  pub Keeps-on_message :
      (allowlist : List ℤ) (u : Update)
      → ((chat : ℤ) → u.effective_chat ≡ some chat → S.chat chat)
      → Keeps R (on_message out settings binary plane allowlist u)
  unfolding on_message
  Keeps-on_message allowlist u to = of_message u.effective_message u.effective_chat to
    where
      of_message :
          (msg : Option TelegramMessage) (chat : Option ℤ)
          → ((c : ℤ) → chat ≡ some c → S.chat c)
          → Keeps R (elim msg [
            | none ↦ pure tt
            | some msg ↦ elim chat [
              | none ↦ pure tt
              | some chat ↦ on_chat out settings binary plane allowlist chat msg
            ]
          ])
      of_message none chat to = record { at = λ w. steps.same w }
      of_message (some msg) none to = record { at = λ w. steps.same w }
      of_message (some msg) (some chat) to = Keeps-on_chat allowlist chat msg (to chat refl)
