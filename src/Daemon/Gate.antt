-- ===== src/Daemon/Gate.antt =====
-- Which messages the ingress lets through: those from the allowlist, and each of them once.
use overwatch_harness.Prelude.{
  ℕ, suc, Bool, true, false, Option, none, some, List, [], ◌∷◌, ◌++◌, ◌≡◌, ◌⊎◌, refl, inl, inr,
  Bool-cases,
}
use overwatch_harness.Text.{Text, str, str_ℤ}
use overwatch_harness.Text.Int.{ℤ}
use overwatch_harness.Exec.{Result, ok, err, continue}
use overwatch_harness.Config.{HarnessSettings}
use overwatch_harness.Models.{telegram, Operator}
use overwatch_harness.Ledger.Messages.{insert_message}
use overwatch_harness.Ledger.Replay.{Known, insert_message-Known}
use overwatch_harness.Ledger.Shapes.{upsert_operator-shape}
use overwatch_harness.Daemon.{World, Outside, ◌>>=◌, on_db, now}
use overwatch_harness.Daemon.Ingress.{
  TelegramMessage, Update, allowed, refusal_note, refuse_chat, inbound, hand_over, accept, on_chat,
  on_message,
}

-- An update from a chat.
abbrev pub from_chat : ℤ → Option TelegramMessage → Update
from_chat chat msg = record { effective_message = msg; effective_chat = some chat }

-- An update from a chat that is not on the allowlist, whatever it carries, changes nothing: at most
-- the one refusal is sent to that chat, and a failure to send it is passed over.
pub outsider_refused :
    (out : Outside) (settings : HarnessSettings) (binary : Text) (plane : Bool) (allowlist : List ℤ)
    (chat : ℤ) (msg : Option TelegramMessage) (w : World)
    → allowed chat allowlist ≡ false
    → let r = on_message out settings binary plane allowlist (from_chat chat msg) w in
      (r.0 ≡ ok tt) × ((r.1 ≡ w) ⊎ (r.1 ≡ record w { sent = w.sent ++ refusal_note chat ∷ [] }))
unfolding on_message on_chat refuse_chat
outsider_refused out settings binary plane allowlist chat none w h = (refl, inl refl)
outsider_refused out settings binary plane allowlist chat (some msg) w h =
    elim (Bool-cases (out.delivers w.sent (refusal_note chat))) [
      | inl taken ↦ (rw (h, taken), inr (rw (h, taken)))
      | inr lost ↦ (rw (h, lost), inl (rw (h, lost)))
    ]

-- Nothing but the operators and the clock may have moved.
pub record Silent (w w' : World) : Type 0 where
  pub messages : w'.db.messages ≡ w.db.messages
  pub sessions : w'.db.sessions ≡ w.db.sessions
  pub engagements : w'.db.engagements ≡ w.db.engagements
  pub machine : w'.machine ≡ w.machine
  pub sent : w'.sent ≡ w.sent
  pub comments : w'.comments ≡ w.comments

module _ (out : Outside) (settings : HarnessSettings) (binary : Text) (plane : Bool) where
  -- Behind the upsert of the operator.
  replay_after_operator :
      (chat : ℤ) (msg : TelegramMessage) (r : Result Operator) (w : World)
      → Known telegram (str msg.message_id) w.db
      → Silent w
          (continue r
            (λ operator. now out >>= λ at. on_db (insert_message (inbound operator msg) at) >>= λ m.
              hand_over out settings binary plane chat msg m)
            w).1
  unfolding ◌>>=◌ now on_db hand_over
  replay_after_operator chat msg (ok operator) w known =
      rw (insert_message-Known (inbound operator msg) (out.clock w.reads) w.db known) (record {
        messages = refl;
        sessions = refl;
        engagements = refl;
        machine = refl;
        sent = refl;
        comments = refl;
      })
  replay_after_operator chat msg (err e) w known = record {
    messages = refl;
    sessions = refl;
    engagements = refl;
    machine = refl;
    sent = refl;
    comments = refl;
  }

  Silent-from :
      (os : List Operator) (n : ℕ) (w v : World)
      → Silent (record w { db = record w.db { operators = os }; reads = n }) v
      → Silent w v
  Silent-from os n w v s = record {
    messages = s.messages;
    sessions = s.sessions;
    engagements = s.engagements;
    machine = s.machine;
    sent = s.sent;
    comments = s.comments;
  }

  accept-Known :
      (chat : ℤ) (msg : TelegramMessage) (w : World)
      → Known telegram (str msg.message_id) w.db
      → Silent w (accept out settings binary plane chat msg w).1
  unfolding accept
  accept-Known chat msg w known =
      let (os, shape) =
        upsert_operator-shape telegram (str_ℤ chat) msg.from_name (out.clock w.reads) w.db in
      unfold ◌>>=◌ now on_db in
      rw shape (
        Silent-from os (suc w.reads) w _ (
          replay_after_operator chat msg _
            (record w { db = record w.db { operators = os }; reads = suc w.reads }) known))

  -- An update from an allowed chat whose message id is that of a Telegram message in the ledger,
  -- whichever chat that one came from, is dropped: messages, sessions, engagements and the state
  -- machine stay as they are, and nothing is sent.
  pub replay_dropped :
      (allowlist : List ℤ) (chat : ℤ) (msg : TelegramMessage) (w : World)
      → allowed chat allowlist ≡ true
      → Known telegram (str msg.message_id) w.db
      → Silent w (on_message out settings binary plane allowlist (from_chat chat (some msg)) w).1
  unfolding on_message on_chat
  replay_dropped allowlist chat msg w h known = rw h (accept-Known chat msg w known)
