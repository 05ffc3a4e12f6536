-- ===== src/Daemon/Trail.antt =====
-- The audit trail: what the handling of messages keeps of the ledger.
use overwatch_harness.Prelude.{Option, suc, Bool, List, ◌≡◌, refl, inl, inr}
use overwatch_harness.Prelude.Table.{update}
use overwatch_harness.Text.{Text}
use overwatch_harness.Text.Int.{ℤ}
use overwatch_harness.Config.{HarnessSettings}
use overwatch_harness.Models.{Message}
use overwatch_harness.Ledger.Db.{Db, engagement_key}
use overwatch_harness.Ledger.Engagements.{end_engagement, new_engagement}
use overwatch_harness.Ledger.Sessions.{
  attach_claude_session_id, finalize_session, new_session, set_current,
}
use overwatch_harness.Ledger.Messages.{new_message, set_status}
use overwatch_harness.Ledger.Shapes.{
  upsert_operator-shape, create_engagement-shape, create_session-shape, insert_message-shape,
  update_message_status-shape,
}
use overwatch_harness.Ledger.Sound.{Sound}
use overwatch_harness.Ledger.Sound.Run.{Write, write, write-Sound}
use overwatch_harness.Ledger.History.{
  Kept, Kept-refl, Kept-trans, Kept-engagement_update, Kept-session_update, Kept-message_update,
  Kept-engagement_new, Kept-session_new, Kept-message_new,
}
use overwatch_harness.Daemon.{World, Outside}
use overwatch_harness.Daemon.Ingress.{TelegramMessage, Update, hand_over, on_message}
use overwatch_harness.Daemon.Keeps.{anything, Plain, Spawning, Steps, SpawnSteps}
use overwatch_harness.Daemon.Keeps.Spawns.{Keeps-run_spawn}
use overwatch_harness.Daemon.Keeps.Updates.{Keeps-hand_over, Keeps-on_message}

-- The tables that a call leaves, seen as the record that it comes to.
by_shape : (a b c : Db) → b ≡ c → Kept a c → Kept a b
by_shape a b c e k = rw e k

plain-Kept : (x : Write) → Plain anything x → (db : Db) → Sound db → Kept db (write x db)
unfolding write end_engagement
plain-Kept x (Plain.upsert k u n t adding) db h =
    by_shape db _ _ (upsert_operator-shape k u n t db).1 (record {
      engagements = (Kept-refl db).engagements;
      sessions = (Kept-refl db).sessions;
      messages = (Kept-refl db).messages;
    })
plain-Kept x (Plain.open_engagement o s t adding) db h = elim (create_engagement-shape o s t db) [
  | inl e ↦ by_shape db _ db e (Kept-refl db)
  | inr e ↦
      by_shape db _ _ e
        (Kept-engagement_new db h (new_engagement (suc db.engagement_seq) o s t) refl)
]
plain-Kept x (Plain.close_engagement k t placed) db h =
    Kept-engagement_update db k _ (λ e. refl)
      (λ e. record {
        operator = refl;
        started = refl;
        active_last = refl;
        summary = refl;
        plane_id = refl;
        plane_seq = refl;
      })
plain-Kept x (Plain.arrive i t adding) db h = elim (insert_message-shape i t db) [
  | inl e ↦ by_shape db _ db e (Kept-refl db)
  | inr e ↦ by_shape db _ _ e (Kept-message_new db h (new_message (suc db.message_seq) i t) refl)
]
plain-Kept x (Plain.set_status k s c own) db h = elim (update_message_status-shape k s c db) [
  | inl e ↦ by_shape db _ db e (Kept-refl db)
  | inr e ↦ by_shape db _ _ e (
      Kept-message_update db k (set_status s c) (λ m. refl)
        (λ m. record {
          operator = refl;
          channel = refl;
          channel_id = refl;
          received = refl;
          body = refl;
          reply_to = refl;
          classifier = refl;
          prompt = refl;
        }))
]

Spawning-Kept : (x : Write) → Spawning anything x → (db : Db) → Sound db → Kept db (write x db)
unfolding write attach_claude_session_id finalize_session
Spawning-Kept x (Spawning.open_session e p s t placed) db h =
    elim (create_session-shape e p s t db) [
      | inl q ↦ by_shape db _ db q (Kept-refl db)
      | inr q ↦
          let updated : Kept db (record db {
            engagements = update engagement_key e (set_current (suc db.session_seq)) db.engagements;
          }) =
            Kept-engagement_update db e (set_current (suc db.session_seq)) (λ x. refl)
              (λ x. record {
                operator = refl;
                started = refl;
                active_last = refl;
                summary = refl;
                plane_id = refl;
                plane_seq = refl;
              }) in
          let added = Kept-session_new db h (new_session (suc db.session_seq) e p s t) refl in
          by_shape db _ _ q (record {
            engagements = updated.engagements;
            sessions = added.sessions;
            messages = (Kept-refl db).messages;
          })
    ]
Spawning-Kept x (Spawning.attach k t its) db h =
    Kept-session_update db k _ (λ s. refl)
      (λ s. record {
        engagement = refl;
        parent = refl;
        started = refl;
        prompt = refl;
        trace = refl;
      })
Spawning-Kept x (Spawning.finalize k s c r d q t its) db h =
    Kept-session_update db k _ (λ s. refl)
      (λ s. record {
        engagement = refl;
        parent = refl;
        started = refl;
        prompt = refl;
        trace = refl;
      })

-- A well-formed ledger stays so, and keeps its rows.
pub record Extended (a b : Db) : Type 0 where
  pub sound : Sound b
  pub kept : Kept a b

abbrev Extends : World → World → Type 0
Extends w w' = Sound w.db → Extended w.db w'.db

pub unchanged : (db : Db) → Sound db → Extended db db
unchanged db h = record { sound = h; kept = Kept-refl db }

pub then-Extended : {a b c : Db} → Extended a b → Extended b c → Extended a c
then-Extended {a} {b} {c} p q = record { sound = q.sound; kept = Kept-trans a b c p.kept q.kept }

Extends-steps : Steps anything Extends
Extends-steps = record {
  same = λ w. unchanged w.db;
  trans =
      λ a b c p q h. let first : Extended a.db b.db = p h in then-Extended first (q first.sound);
  plain = λ x p w h. record { sound = write-Sound x w.db h; kept = plain-Kept x p w.db h };
  clock = λ w. unchanged w.db;
  send = λ o to w. unchanged w.db;
}

Extends-spawns : SpawnSteps anything Extends
Extends-spawns = record {
  spawning = λ x p w h. record { sound = write-Sound x w.db h; kept = Spawning-Kept x p w.db h };
  throttle = λ reason w. unchanged w.db;
  comment = λ c w. unchanged w.db;
}

pub hand_over-Extended :
    (out : Outside) (settings : HarnessSettings) (binary : Text) (plane : Bool) (chat : ℤ)
    (msg : TelegramMessage) (m : Option Message) (w : World)
    → Sound w.db
    → Extended w.db (hand_over out settings binary plane chat msg m w).1.db
hand_over-Extended out settings binary plane chat msg m w =
    (Keeps-hand_over Extends-steps (λ k. tt) (λ k. tt) tt out settings binary plane
        (λ m o d v to healthy.
          (Keeps-run_spawn Extends-steps Extends-spawns out settings binary plane m o d tt tt tt
              (λ k. tt)).at
            v)
        chat msg m tt).at
      w

-- The handling of any Telegram update, whatever the bot, the claude process and the clock do and
-- however it ends, keeps a well-formed ledger so and keeps its rows.
pub on_message-Extended :
    (out : Outside) (settings : HarnessSettings) (binary : Text) (plane : Bool) (allowlist : List ℤ)
    (u : Update) (w : World)
    → Sound w.db
    → Extended w.db (on_message out settings binary plane allowlist u w).1.db
on_message-Extended out settings binary plane allowlist u w =
    (Keeps-on_message Extends-steps (λ k. tt) (λ k. tt) tt out settings binary plane
        (λ m o d v to healthy.
          (Keeps-run_spawn Extends-steps Extends-spawns out settings binary plane m o d tt tt tt
              (λ k. tt)).at
            v)
        allowlist u (λ c at. tt)).at
      w
