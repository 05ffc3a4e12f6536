-- ===== src/Daemon/Isolation/Arriving.antt =====
-- `accept` and what is around it: the rows of other operators.
use overwatch_harness.Prelude.{
  ℕ, suc, Bool, true, any, Option, none, some, List, ◌≡◌, ◌≢◌, refl, ◌∙◌, sym, ◌<◌, inl, inr, arith,
  Bool-cases,
}
use overwatch_harness.Prelude.Table.{find-cons, find-key-le}
use overwatch_harness.Text.{Text, str, str_ℤ}
use overwatch_harness.Text.Int.{ℤ}
use overwatch_harness.Config.{HarnessSettings}
use overwatch_harness.Models.{Engagement, Message, Operator, Session, Time, telegram}
use overwatch_harness.Ledger.Db.{
  Db, session_key, message_key, find_operator, find_engagement, find_session, find_message,
  has_operator,
}
use overwatch_harness.Ledger.Operators.{operator_id_of, upsert_operator}
use overwatch_harness.Ledger.Messages.{insert_message, new_message, same_key}
use overwatch_harness.Ledger.Named.{Named, upsert_operator-ok, upsert_operator-others}
use overwatch_harness.Ledger.Replay.{insert_message-Known, insert_message_new}
use overwatch_harness.Ledger.Shapes.{upsert_operator-shape}
use overwatch_harness.Ledger.Sound.{Sound}
use overwatch_harness.Ledger.Sound.Operators.{upsert_operator-Sound}
use overwatch_harness.Ledger.Sound.Messages
use overwatch_harness.Ledger.Sound.Messages.{insert_message-Sound}
use overwatch_harness.Daemon.{World, Outside, ◌>>=◌, on_db, now}
use overwatch_harness.Daemon.Ingress.{
  TelegramMessage, allowed, refusal_note, refuse_chat, inbound, hand_over, accept, on_chat,
  on_message,
}
use overwatch_harness.Daemon.Gate.{from_chat}
use overwatch_harness.Daemon.Isolation.Handing.{hand_over-Isolated}
use overwatch_harness.Daemon.Isolation.Deciding.{Isolated}

-- What is not this operator's, nor new: its row, its engagements; and every message and session.
pub record Untouched (who : Text) (a b : Db) : Type 0 where
  pub operator : find_operator who b.operators ≡ find_operator who a.operators
  pub messages : (k : ℕ) (m : Message) → find_message k a ≡ some m → find_message k b ≡ some m
  pub sessions : (k : ℕ) (s : Session) → find_session k a ≡ some s → find_session k b ≡ some s
  pub engagements :
      (k : ℕ) (e : Engagement)
      → find_engagement k a ≡ some e
      → e.operator_id ≡ who
      → find_engagement k b ≡ some e

pub Untouched-refl : (who : Text) (a : Db) → Untouched who a a
Untouched-refl who a = record {
  operator = refl;
  messages = λ k m found. found;
  sessions = λ k s found. found;
  engagements = λ k e found own. found;
}

pub Untouched-then :
    (who : Text) (a b c : Db) → Untouched who a b → Untouched who b c → Untouched who a c
Untouched-then who a b c p q = record {
  operator = q.operator ∙ p.operator;
  messages = λ k m found. q.messages k m (p.messages k m found);
  sessions = λ k s found. q.sessions k s (p.sessions k s found);
  engagements = λ k e found own. q.engagements k e (p.engagements k e found own) own;
}

-- A new message, and what its handling touches.
handled :
    (who other : Text) (key : ℕ) (a b c : Db)
    → other ≢ who
    → Sound a
    → b.operators ≡ a.operators
    → b.engagements ≡ a.engagements
    → b.sessions ≡ a.sessions
    → b.session_seq ≡ a.session_seq
    → a.message_seq < key
    → ((k : ℕ) (m : Message) → find_message k a ≡ some m → find_message k b ≡ some m)
    → Isolated other key b c
    → Untouched who a c
handled who other key a b c apart h os es ss seq later ms i = record {
  operator = rw (i.operators, os) refl;
  messages = λ k m found.
      let old = find-key-le message_key k a.message_seq a.messages {x = m} h.message_keys found in
      i.messages k (λ same. omega (arith, old, later, same)) ∙ ms k m found;
  sessions = λ k s found.
      let old = find-key-le session_key k a.session_seq a.sessions {x = s} h.session_keys found in
      i.sessions k (rw seq old) ∙ (rw ss found);
  engagements = λ k e found own. i.engagements k e (rw es found) (λ same. apart (sym same ∙ own));
}

upserted-Untouched :
    (who uid : Text) (name : Option Text) (at : Time) (db : Db)
    → operator_id_of telegram uid ≢ who
    → Untouched who db (upsert_operator telegram uid name at db).1
upserted-Untouched who uid name at db apart =
    let (os, shape) = upsert_operator-shape telegram uid name at db in
    let same = upsert_operator-others telegram uid name at db who (λ e. apart (sym e)) in
    rw shape (record {
      operator = rw shape at same;
      messages = λ k m found. found;
      sessions = λ k s found. found;
      engagements = λ k e found own. found;
    })

module _ (out : Outside) (settings : HarnessSettings) (binary : Text) (plane : Bool)
    (who : Text) where
  -- Behind the upsert of another operator.
  after_operator-Untouched :
      (chat : ℤ) (msg : TelegramMessage) (o : Operator) (w : World)
      → Sound w.db
      → has_operator o.operator_id w.db ≡ true
      → o.operator_id ≢ who
      → Untouched who w.db
          ((now out >>= λ at. on_db (insert_message (inbound o msg) at) >>= λ m.
              hand_over out settings binary plane chat msg m)
            w).1.db
  unfolding ◌>>=◌ now on_db
  after_operator-Untouched chat msg o w h there apart =
      let at = out.clock w.reads in
      let i = inbound o msg in
      elim (Bool-cases (any (same_key telegram (str msg.message_id)) w.db.messages)) [
        | inl known ↦
            rw (insert_message-Known i at w.db known) (unfold hand_over in Untouched-refl who w.db)
        | inr new ↦
            let admitted : Messages.admits i w.db ≡ true = ground (arith, new, there) in
            let stored = insert_message_new i at w.db admitted in
            let fresh = new_message (suc w.db.message_seq) i at in
            let inserted : (insert_message i at w.db).1 ≡ Messages.inserted i at w.db =
              unfold insert_message in rw (Messages.or_none_state, admitted) refl in
            let sound : Sound (Messages.inserted i at w.db) =
              rw (sym inserted) (insert_message-Sound i at w.db h) in
            rw (stored.0, inserted)
              (handled who o.operator_id (suc w.db.message_seq) w.db (Messages.inserted i at w.db) _
                apart h refl refl refl refl (omega arith)
                (λ k m found.
                  find-cons message_key w.db.message_seq k fresh w.db.messages {x = m} refl
                    h.message_keys found)
                (hand_over-Isolated out settings binary plane chat msg fresh
                  (record w { db = Messages.inserted i at w.db; reads = suc w.reads }) sound there))
      ]

  accept-Untouched :
      (chat : ℤ) (msg : TelegramMessage) (w : World)
      → Sound w.db
      → Named w.db
      → operator_id_of telegram (str_ℤ chat) ≢ who
      → Untouched who w.db (accept out settings binary plane chat msg w).1.db
  unfolding accept
  accept-Untouched chat msg w h named apart =
      let uid = str_ℤ chat in
      let at = out.clock w.reads in
      let (o, returned, key, there) = upsert_operator-ok telegram uid msg.from_name at w.db named in
      let after : Db = (upsert_operator telegram uid msg.from_name at w.db).1 in
      let behind =
        after_operator-Untouched chat msg o (record w { db = after; reads = suc w.reads })
          (upsert_operator-Sound telegram uid msg.from_name at w.db h) there
          (λ same. apart (sym key ∙ same)) in
      let first : Untouched who w.db after =
        upserted-Untouched who uid msg.from_name at w.db apart in
      unfold ◌>>=◌ now on_db in
      rw returned (Untouched-then who w.db after _ first (unfold ◌>>=◌ now on_db in behind))

  on_message-Untouched :
      (allowlist : List ℤ) (chat : ℤ) (msg : Option TelegramMessage) (w : World)
      → Sound w.db
      → Named w.db
      → operator_id_of telegram (str_ℤ chat) ≢ who
      → Untouched who w.db
          (on_message out settings binary plane allowlist (from_chat chat msg) w).1.db
  unfolding on_message on_chat
  on_message-Untouched allowlist chat none w h named apart = Untouched-refl who w.db
  on_message-Untouched allowlist chat (some msg) w h named apart =
      elim (Bool-cases (allowed chat allowlist)) [
        | inl may ↦ rw may (accept-Untouched chat msg w h named apart)
        | inr stranger ↦ rw stranger (
            unfold refuse_chat in
            elim (Bool-cases (out.delivers w.sent (refusal_note chat))) [
              | inl taken ↦ rw taken (Untouched-refl who w.db)
              | inr lost ↦ rw lost (Untouched-refl who w.db)
            ])
      ]

  pub update-Untouched :
      (allowlist : List ℤ) (msg : Option TelegramMessage) (chat : Option ℤ) (w : World)
      → Sound w.db
      → Named w.db
      → ((c : ℤ) → chat ≡ some c → operator_id_of telegram (str_ℤ c) ≢ who)
      → Untouched who w.db
          (on_message out settings binary plane allowlist
            (record { effective_message = msg; effective_chat = chat })
            w).1.db
  update-Untouched allowlist msg (some c) w h named apart =
      on_message-Untouched allowlist c msg w h named (apart c refl)
  update-Untouched allowlist none none w h named apart =
      unfold on_message in Untouched-refl who w.db
  update-Untouched allowlist (some msg) none w h named apart =
      unfold on_message in Untouched-refl who w.db
