-- ===== src/Daemon/Health.antt =====
-- What a daemon that is not HEALTHY does with messages.
use overwatch_harness.Prelude.{Bool, false, List, ◌≡◌, refl, ◌∙◌, ap, inl, inr}
use overwatch_harness.Text.{Text}
use overwatch_harness.Text.Int.{ℤ}
use overwatch_harness.Config.{HarnessSettings}
use overwatch_harness.Machine.{can_spawn}
use overwatch_harness.Ledger.Db.{Db}
use overwatch_harness.Ledger.Engagements.{end_engagement}
use overwatch_harness.Ledger.Shapes.{
  upsert_operator-shape, create_engagement-shape, insert_message-shape, update_message_status-shape,
}
use overwatch_harness.Ledger.Sound.Run.{Write, write}
use overwatch_harness.Daemon.{World, Outside}
use overwatch_harness.Daemon.Ingress.{Update, on_message}
use overwatch_harness.Daemon.Keeps.{anything, Plain, Steps}
use overwatch_harness.Daemon.Keeps.Updates.{Keeps-on_message}

-- With spawns refused, the state machine, the sessions and the comments stay as they were.
pub record Refusing (w w' : World) : Type 0 where
  pub machine : w'.machine ≡ w.machine
  pub sessions : w'.db.sessions ≡ w.db.sessions
  pub comments : w'.comments ≡ w.comments

abbrev Refuses : World → World → Type 0
Refuses w w' = can_spawn w.machine ≡ false → Refusing w w'

plain-sessions : (x : Write) → Plain anything x → (db : Db) → (write x db).sessions ≡ db.sessions
unfolding write end_engagement
plain-sessions x (Plain.upsert k u n t adding) db =
    ap (λ (d : Db). d.sessions) (upsert_operator-shape k u n t db).1
plain-sessions x (Plain.open_engagement o s t adding) db = elim (create_engagement-shape o s t db) [
  | inl e ↦ ap (λ (d : Db). d.sessions) e
  | inr e ↦ ap (λ (d : Db). d.sessions) e
]
plain-sessions x (Plain.close_engagement k t placed) db = refl
plain-sessions x (Plain.arrive i t adding) db = elim (insert_message-shape i t db) [
  | inl e ↦ ap (λ (d : Db). d.sessions) e
  | inr e ↦ ap (λ (d : Db). d.sessions) e
]
plain-sessions x (Plain.set_status k s c own) db = elim (update_message_status-shape k s c db) [
  | inl e ↦ ap (λ (d : Db). d.sessions) e
  | inr e ↦ ap (λ (d : Db). d.sessions) e
]

Refuses-steps : Steps anything Refuses
Refuses-steps = record {
  same = λ w h. record { machine = refl; sessions = refl; comments = refl };
  trans = λ a b c p q h.
      let first : Refusing a b = p h in
      let second : Refusing b c = q (rw first.machine h) in
      record {
        machine = second.machine ∙ first.machine;
        sessions = second.sessions ∙ first.sessions;
        comments = second.comments ∙ first.comments;
      };
  plain = λ x p w h. record { machine = refl; sessions = plain-sessions x p w.db; comments = refl };
  clock = λ w h. record { machine = refl; sessions = refl; comments = refl };
  send = λ o to w h. record { machine = refl; sessions = refl; comments = refl };
}

-- While the daemon's state is not HEALTHY, the handling of any Telegram update, whatever it
-- carries and however it ends, starts no session and changes none, leaves the state machine as it
-- is, so that spawns stay refused, and hands Plane no comment.
pub unhealthy_refuses :
    (out : Outside) (settings : HarnessSettings) (binary : Text) (plane : Bool) (allowlist : List ℤ)
    (u : Update) (w : World)
    → can_spawn w.machine ≡ false
    → Refusing w (on_message out settings binary plane allowlist u w).1
unhealthy_refuses out settings binary plane allowlist u w =
    (Keeps-on_message Refuses-steps (λ k. tt) (λ k. tt) tt out settings binary plane
        (λ m o d v to up down. cc) allowlist u (λ c at. tt)).at
      w
