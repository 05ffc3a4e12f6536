-- ===== src/Daemon/Keeps/Handlers.antt =====
-- The handlers of the daemon, each by the rules of its parts.
use overwatch_harness.Prelude.{
  ℕ, Bool, true, Option, none, some, List, [], ◌∷◌, ◌≡◌, inl, inr, if◌then◌else◌, Bool-cases,
}
use overwatch_harness.Text.{Text}
use overwatch_harness.Text.Int.{ℤ}
use overwatch_harness.Config.{HarnessSettings}
use overwatch_harness.Models.{Engagement, Message, MessageStatus, Time, done, classifying, routed}
use overwatch_harness.Ledger.Messages.{Changes, no_changes}
use overwatch_harness.Ledger.Sound.Run.{Write, write}
use overwatch_harness.Machine.{can_spawn}
use overwatch_harness.Router.{
  decide, RouteDecision, Intent, slash_command, resume_session, new_session,
}
use overwatch_harness.Daemon.{World, Outside, on_db, update_status}
use overwatch_harness.Daemon.Dispatch.{
  Origin, dispatch, follow, run_slash, refuse, run_spawn, reply, shown,
}
use overwatch_harness.Daemon.Keeps.Effects.{decide-Decided, slash-Ended}
use overwatch_harness.Egress.{thread, outgoing}
use overwatch_harness.Daemon.Keeps.{
  Scope, Within, Plain, Steps, Keeps, Keeps-bind, Keeps-now, Keeps-send_all,
}

-- Every chunk of a reply goes to the one chat.
Within-thread :
    (S : Scope) (chat : ℤ) (reply_to : Option ℕ) (ts : List Text)
    → S.chat chat
    → Within S (thread chat reply_to ts)
unfolding thread
Within-thread S chat reply_to [] to = tt
Within-thread S chat reply_to (t ∷ ts) to = (to, Within-thread S chat none ts to)

module _ {S : Scope} {R : World → World → Type 0} (steps : Steps S R) where
  pub Keeps-update_status :
      (k : ℕ) (s : MessageStatus) (c : Changes) → S.message k → Keeps R (update_status k s c)
  unfolding update_status on_db write
  Keeps-update_status k s c own = record {
    at = λ w. steps.plain (Write.set_status k s c) (Plain.set_status k s c own) w;
  }

  pub Keeps-decide :
      (window : ℕ) (who body : Text) (seen at : Time)
      → S.adding
      → Keeps R (on_db (decide window who body seen at))
  unfolding on_db
  Keeps-decide window who body seen at adding = record {
    at = λ w. elim (decide-Decided window who body seen at w.db) [
      | inl same ↦ rw same (steps.same w)
      | inr (s, opened) ↦
          rw opened
            (steps.plain (Write.open_engagement who s at) (Plain.open_engagement who s at adding) w)
    ];
  }

  module _ (out : Outside) (settings : HarnessSettings) (binary : Text) (plane : Bool) where
    pub Keeps-reply :
        (o : Origin) (text : Text) (e : Engagement) (k : Option ℕ) (mode : Text)
        → S.chat o.chat_id
        → Keeps R (reply out settings binary plane o text e k mode)
    unfolding reply outgoing
    Keeps-reply o text e k mode to =
        Keeps-send_all steps out _ (Within-thread S o.chat_id (some o.message_id) _ to)

    Keeps-refuse :
        (m : Message) (o : Origin) (d : RouteDecision)
        → S.message m.message_id
        → S.chat o.chat_id
        → Keeps R (refuse out settings binary plane m o d)
    unfolding refuse
    Keeps-refuse m o d own to =
        Keeps-bind steps _ _ (record { at = λ w. steps.same w })
          λ machine.
            Keeps-bind steps _ _ (Keeps-reply o _ d.engagement none _ to)
              λ _. Keeps-update_status m.message_id MessageStatus.failed _ own

    Keeps-slash :
        (m : Message) (o : Origin) (d : RouteDecision)
        → S.message m.message_id
        → S.chat o.chat_id
        → S.engagement d.engagement.engagement_id
        → Keeps R (run_slash out settings binary plane m o d)
    unfolding run_slash
    Keeps-slash m o d own to placed = Keeps-bind steps _ _ (Keeps-now steps out) λ at.
        Keeps-bind steps _ _
          (record {
            at = λ w.
                elim (slash-Ended out.iso (shown d.slash_name) settings d.engagement at w.db) [
                  | inl same ↦ rw same (steps.same w)
                  | inr ended ↦ rw ended (
                      steps.plain (Write.close_engagement d.engagement.engagement_id at)
                        (Plain.close_engagement d.engagement.engagement_id at placed) w)
                ];
          })
          λ text.
            Keeps-bind steps _ _ (Keeps-reply o _ d.engagement _ _ to)
              λ _. Keeps-update_status m.message_id done _ own

    -- The spawn path is taken only while the daemon is HEALTHY.
    module _ (m : Message) (o : Origin) (own : S.message m.message_id) (to : S.chat o.chat_id)
        (spawn_path : (d : RouteDecision) (w : World)
          → S.engagement d.engagement.engagement_id
          → can_spawn w.machine ≡ true
          → R w (run_spawn out settings binary plane m o d w).1) where
      Keeps-gated :
          (d : RouteDecision)
          → S.engagement d.engagement.engagement_id
          → Keeps R (λ w.
            if can_spawn w.machine
            then run_spawn out settings binary plane m o d w
            else refuse out settings binary plane m o d w)
      Keeps-gated d placed = record {
        at = λ w. elim (Bool-cases (can_spawn w.machine)) [
          | inl healthy ↦ rw healthy (spawn_path d w placed healthy)
          | inr unhealthy ↦ rw unhealthy ((Keeps-refuse m o d own to).at w)
        ];
      }

      pub Keeps-follow :
          (d : RouteDecision)
          → S.engagement d.engagement.engagement_id
          → Keeps R (follow out settings binary plane m o d)
      unfolding follow
      Keeps-follow d placed = by_intent d.intent
        where
          by_intent :
              (i : Intent)
              → Keeps R (elim i [
                | slash_command ↦ run_slash out settings binary plane m o d
                | _ ↦ λ w.
                    if can_spawn w.machine
                    then run_spawn out settings binary plane m o d w
                    else refuse out settings binary plane m o d w
              ])
          by_intent slash_command = Keeps-slash m o d own to placed
          by_intent resume_session = Keeps-gated d placed
          by_intent new_session = Keeps-gated d placed

      pub Keeps-dispatch :
          S.adding → ((k : ℕ) → S.engagement k) → Keeps R (dispatch out settings binary plane m o)
      unfolding dispatch
      Keeps-dispatch adding anywhere =
          Keeps-bind steps _ _ (Keeps-update_status m.message_id classifying no_changes own) λ _.
            Keeps-bind steps _ _ (Keeps-now steps out) λ seen.
              Keeps-bind steps _ _ (Keeps-now steps out) λ at.
                Keeps-bind steps _ _ (Keeps-decide _ _ _ seen at adding) λ d.
                  Keeps-bind steps _ _ (Keeps-update_status m.message_id routed _ own)
                    λ _. Keeps-follow d (anywhere d.engagement.engagement_id)
