-- ===== src/Daemon/Delivery/Storing.antt =====
-- What the ingress stores of a new message of an allowed chat.
use overwatch_harness.Prelude.{
  ℕ, suc, Bool, true, false, Option, none, some, any, List, [], ◌∷◌, ◌≡◌, ◌≢◌, ◌⊎◌, inl, inr, refl,
  ◌∙◌, arith,
}
use overwatch_harness.Text.{Text, str, str_ℤ}
use overwatch_harness.Text.Int.{ℤ}
use overwatch_harness.Config.{HarnessSettings}
use overwatch_harness.Models.{telegram, Operator, Message}
use overwatch_harness.Ledger.Db.{Db, has_operator, find_message}
use overwatch_harness.Ledger.Operators.{operator_id_of, upsert_operator}
use overwatch_harness.Ledger.Messages.{insert_message, new_message, same_key}
use overwatch_harness.Ledger.History.{SameMessage}
use overwatch_harness.Ledger.Sound.{Sound}
use overwatch_harness.Ledger.Sound.Messages.{insert_message-Sound, or_none_state, admits}
use overwatch_harness.Ledger.Sound.Operators.{upsert_operator-Sound}
use overwatch_harness.Ledger.Shapes.{upsert_operator-shape}
use overwatch_harness.Ledger.Named.{Named, upsert_operator-ok}
use overwatch_harness.Ledger.Replay.{insert_message_new}
use overwatch_harness.Daemon.{World, Outside, ◌>>=◌, on_db, now}
use overwatch_harness.Daemon.Ingress.{
  TelegramMessage, allowed, first_text, inbound, hand_over, accept, on_chat, on_message,
}
use overwatch_harness.Daemon.Gate.{from_chat}
use overwatch_harness.Daemon.Trail.{hand_over-Extended}

-- The row of a message of Telegram: whose it is, and what was written. A text that is not empty goes
-- before the caption.
pub record Carries (chat : ℤ) (msg : TelegramMessage) (m : Message) : Type 0 where
  pub operator : m.operator_id ≡ operator_id_of telegram (str_ℤ chat)
  pub channel : m.channel_kind ≡ telegram
  pub channel_id : m.channel_msg_id ≡ str msg.message_id
  pub text : (t : Text) → msg.text ≡ some t → t ≢ [] → m.body ≡ t
  pub caption :
      (t : Text) → (msg.text ≡ none) ⊎ (msg.text ≡ some []) → msg.caption ≡ some t → m.body ≡ t
  pub wordless : (msg.text ≡ none) ⊎ (msg.text ≡ some []) → msg.caption ≡ none → m.body ≡ []
  pub reply : (k : ℕ) → msg.reply_to_message ≡ some k → m.reply_to_msg_id ≡ some (str k)
  pub no_reply : msg.reply_to_message ≡ none → m.reply_to_msg_id ≡ none

-- The row that carries the message stands under this key.
abbrev pub Stored : ℕ → ℤ → TelegramMessage → Db → Type 0
Stored key chat msg db = (m : Message) × (find_message key db ≡ some m) × Carries chat msg m

text-first_text : (a b : Option Text) (t : Text) → a ≡ some t → t ≢ [] → first_text a b ≡ t
text-first_text none b t e ne = absurd cc
text-first_text (some []) b t e ne = let empty : t ≡ [] = cc in absurd (ne empty)
text-first_text (some (c ∷ s)) b t e ne = cc

caption-first_text :
    (a b : Option Text) (t : Text) → (a ≡ none) ⊎ (a ≡ some []) → b ≡ some t → first_text a b ≡ t
caption-first_text none none t w e = absurd cc
caption-first_text none (some c) t w e = cc
caption-first_text (some []) none t w e = absurd cc
caption-first_text (some []) (some c) t w e = cc
caption-first_text (some (c ∷ s)) b t (inl w) e = absurd cc
caption-first_text (some (c ∷ s)) b t (inr w) e = let wrong : c ∷ s ≡ [] = cc in absurd cc

wordless-first_text :
    (a b : Option Text) → (a ≡ none) ⊎ (a ≡ some []) → b ≡ none → first_text a b ≡ []
wordless-first_text none none w e = refl
wordless-first_text none (some c) w e = absurd cc
wordless-first_text (some []) none w e = refl
wordless-first_text (some []) (some c) w e = absurd cc
wordless-first_text (some (c ∷ s)) b (inl w) e = absurd cc
wordless-first_text (some (c ∷ s)) b (inr w) e = let wrong : c ∷ s ≡ [] = cc in absurd cc

new-Carries :
    (key at : ℕ) (chat : ℤ) (o : Operator) (msg : TelegramMessage)
    → o.operator_id ≡ operator_id_of telegram (str_ℤ chat)
    → Carries chat msg (new_message key (inbound o msg) at)
new-Carries key at chat o msg own = record {
  operator = own;
  channel = refl;
  channel_id = refl;
  text = λ t e ne. text-first_text msg.text msg.caption t e ne;
  caption = λ t w e. caption-first_text msg.text msg.caption t w e;
  wordless = λ w e. wordless-first_text msg.text msg.caption w e;
  reply = λ k e. rw e refl;
  no_reply = λ e. rw e refl;
}

SameMessage-Carries :
    (chat : ℤ) (msg : TelegramMessage) (m m' : Message)
    → SameMessage m m'
    → Carries chat msg m
    → Carries chat msg m'
SameMessage-Carries chat msg m m' s c = record {
  operator = s.operator ∙ c.operator;
  channel = s.channel ∙ c.channel;
  channel_id = s.channel_id ∙ c.channel_id;
  text = λ t e ne. s.body ∙ c.text t e ne;
  caption = λ t w e. s.body ∙ c.caption t w e;
  wordless = λ w e. s.body ∙ c.wordless w e;
  reply = λ k e. s.reply_to ∙ c.reply k e;
  no_reply = λ e. s.reply_to ∙ c.no_reply e;
}

module _ (out : Outside) (settings : HarnessSettings) (binary : Text) (plane : Bool) where
  -- Behind the upsert of the operator.
  after_operator-Stored :
      (chat : ℤ) (msg : TelegramMessage) (o : Operator) (w : World)
      → Sound w.db
      → has_operator o.operator_id w.db ≡ true
      → o.operator_id ≡ operator_id_of telegram (str_ℤ chat)
      → any (same_key telegram (str msg.message_id)) w.db.messages ≡ false
      → Stored
          (suc w.db.message_seq)
          chat
          msg
          ((now out >>= λ at. on_db (insert_message (inbound o msg) at) >>= λ m.
              hand_over out settings binary plane chat msg m)
            w).1.db
  unfolding ◌>>=◌ now on_db
  after_operator-Stored chat msg o w h there own new =
      let at = out.clock w.reads in
      let i = inbound o msg in
      let key = suc w.db.message_seq in
      let row = new_message key i at in
      let admitted : admits i w.db ≡ true = ground (arith, new, there) in
      let stored = insert_message_new i at w.db admitted in
      let sound = insert_message-Sound i at w.db h in
      let later : World = record w { db = (insert_message i at w.db).1; reads = suc w.reads } in
      let found : find_message key later.db ≡ some row =
        unfold insert_message in rw (or_none_state, admitted) (ground arith) in
      let extended = hand_over-Extended out settings binary plane chat msg (some row) later sound in
      let (m', found', same) = extended.kept.messages key row found in
      rw stored.0
        (m', found', SameMessage-Carries chat msg row m' same (new-Carries key at chat o msg own))

  accept-Stored :
      (chat : ℤ) (msg : TelegramMessage) (w : World)
      → Sound w.db
      → Named w.db
      → any (same_key telegram (str msg.message_id)) w.db.messages ≡ false
      → Stored (suc w.db.message_seq) chat msg (accept out settings binary plane chat msg w).1.db
  unfolding accept
  accept-Stored chat msg w h named new =
      let uid = str_ℤ chat in
      let at = out.clock w.reads in
      let (o, returned, key, there) = upsert_operator-ok telegram uid msg.from_name at w.db named in
      let (os, shape) = upsert_operator-shape telegram uid msg.from_name at w.db in
      let behind =
        after_operator-Stored chat msg o
          (record w {
            db = (upsert_operator telegram uid msg.from_name at w.db).1;
            reads = suc w.reads;
          })
          (upsert_operator-Sound telegram uid msg.from_name at w.db h) there key (rw shape new) in
      let seq : (upsert_operator telegram uid msg.from_name at w.db).1.message_seq
          ≡ w.db.message_seq =
        rw shape refl in
      unfold ◌>>=◌ now on_db in rw returned (unfold ◌>>=◌ now on_db in rw seq at behind)

  -- What an update with a new message from an allowed chat leaves.
  pub on_message-Stored :
      (allowlist : List ℤ) (chat : ℤ) (msg : TelegramMessage) (w : World)
      → Sound w.db
      → Named w.db
      → allowed chat allowlist ≡ true
      → any (same_key telegram (str msg.message_id)) w.db.messages ≡ false
      → Stored
          (suc w.db.message_seq)
          chat
          msg
          (on_message out settings binary plane allowlist (from_chat chat (some msg)) w).1.db
  unfolding on_message on_chat
  on_message-Stored allowlist chat msg w h named may new =
      rw may (accept-Stored chat msg w h named new)
