-- ===== src/Ledger/Replay.antt =====
-- Idempotency of `insert_message` on (channel_kind, channel_msg_id).
use overwatch_harness.Prelude.{
  ℕ, suc, Bool, true, none, some, any, List, [], ◌∷◌, ◌≡◌, refl, arith, inl, inr,
}
use overwatch_harness.Prelude.Table.{update}
use overwatch_harness.Text.{Text, text_eq_iff}
use overwatch_harness.Exec.{ok}
use overwatch_harness.Models.{ChannelKind, kind_text, Message, Time}
use overwatch_harness.Ledger.Db.{Db, message_key}
use overwatch_harness.Ledger.Messages.{Inbound, new_message, same_key, insert_message, set_status}
use overwatch_harness.Ledger.Engagements.{touch_engagement, end_engagement}
use overwatch_harness.Ledger.Sessions.{attach_claude_session_id, finalize_session}
use overwatch_harness.Ledger.Heartbeats.{write_heartbeat, prune_heartbeats}
use overwatch_harness.Ledger.Shapes.{
  upsert_operator-shape, create_engagement-shape, create_session-shape, insert_message-shape,
  update_message_status-shape,
}
use overwatch_harness.Ledger.Sound.Messages.{admits, or_none_state}
use overwatch_harness.Ledger.Sound.Run.{Write, write, run}

-- A message of this channel and channel message id is in the ledger.
abbrev pub Known : ChannelKind → Text → Db → Type 0
Known kind id db = any (same_key kind id) db.messages ≡ true

-- A message that is there is not inserted again: the answer is None, and nothing changes.
pub insert_message-Known :
    (i : Inbound) (now : Time) (db : Db)
    → Known i.channel_kind i.channel_msg_id db
    → insert_message i now db ≡ (ok none, db)
unfolding insert_message
insert_message-Known i now db known = ground (arith, known)

same_key_self :
    (key : ℕ) (i : Inbound) (now : Time)
    → same_key i.channel_kind i.channel_msg_id (new_message key i now) ≡ true
unfolding same_key
same_key_self key i now = ground (
  arith,
  (text_eq_iff (kind_text i.channel_kind) (kind_text i.channel_kind)).1 refl,
  (text_eq_iff i.channel_msg_id i.channel_msg_id).1 refl,
)

-- A message of a known operator, new on its channel, is stored.
pub insert_message_new :
    (i : Inbound) (now : Time) (db : Db)
    → admits i db ≡ true
    → ((insert_message i now db).0 ≡ ok (some (new_message (suc db.message_seq) i now)))
      × Known i.channel_kind i.channel_msg_id (insert_message i now db).1
unfolding insert_message
insert_message_new i now db new = (
  rw new (ground arith),
  rw (or_none_state, new) (ground (arith, same_key_self (suc db.message_seq) i now)),
)

any-update :
    (p : Message → Bool) (k : ℕ) (f : Message → Message) (ms : List Message)
    → ((m : Message) → p (f m) ≡ p m)
    → any p (update message_key k f ms) ≡ any p ms
any-update p k f [] same = refl
any-update p k f (m ∷ ms) same = ground (arith, any-update p k f ms same, same m)

-- No write of the ledger forgets a message.
write-Known :
    (kind : ChannelKind) (id : Text) (x : Write) (db : Db)
    → Known kind id db
    → Known kind id (write x db)
unfolding write
write-Known kind id (Write.upsert k u n t) db h = rw (upsert_operator-shape k u n t db).1 h
write-Known kind id (Write.open_engagement o s t) db h = elim (create_engagement-shape o s t db) [
  | inl e ↦ rw e h
  | inr e ↦ rw e h
]
write-Known kind id (Write.touch k t) db h = unfold touch_engagement in h
write-Known kind id (Write.close_engagement k t) db h = unfold end_engagement in h
write-Known kind id (Write.open_session e p s t) db h = elim (create_session-shape e p s t db) [
  | inl q ↦ rw q h
  | inr q ↦ rw q h
]
write-Known kind id (Write.attach k t) db h = unfold attach_claude_session_id in h
write-Known kind id (Write.finalize k s c r d q t) db h = unfold finalize_session in h
write-Known kind id (Write.arrive i t) db h = elim (insert_message-shape i t db) [
  | inl e ↦ rw e h
  | inr e ↦ rw e (ground (arith, h))
]
write-Known kind id (Write.set_status k s c) db h = elim (update_message_status-shape k s c db) [
  | inl e ↦ rw e h
  | inr e ↦ rw e (
      rw
        (any-update (same_key kind id) k (set_status s c) db.messages
          (λ m. unfold same_key in refl))
        h)
]
write-Known kind id (Write.beat p s n t u) db h = unfold write_heartbeat in h
write-Known kind id (Write.prune k) db h = unfold prune_heartbeats in h

run-Known :
    (kind : ChannelKind) (id : Text) (ws : List Write) (db : Db)
    → Known kind id db
    → Known kind id (run ws db)
unfolding run
run-Known kind id [] db h = h
run-Known kind id (x ∷ ws) db h = run-Known kind id ws (write x db) (write-Known kind id x db h)

-- A message of a known operator that is new on its channel is stored with its fields and status
-- `received`. After any further calls of the ledger's writing methods, another one with its channel
-- and channel message id, whatever else it carries, is answered by None and changes nothing.
pub insert_message_once :
    (i j : Inbound) (now later : Time) (ws : List Write) (db : Db)
    → admits i db ≡ true
    → j.channel_kind ≡ i.channel_kind
    → j.channel_msg_id ≡ i.channel_msg_id
    → let after = run ws (insert_message i now db).1 in
      ((insert_message i now db).0 ≡ ok (some (new_message (suc db.message_seq) i now)))
      × (insert_message j later after ≡ (ok none, after))
insert_message_once i j now later ws db new kind id =
    let stored = insert_message_new i now db new in
    let known : Known j.channel_kind j.channel_msg_id (run ws (insert_message i now db).1) =
      rw (kind, id)
        (run-Known i.channel_kind i.channel_msg_id ws (insert_message i now db).1 stored.1) in
    (stored.0, insert_message-Known j later (run ws (insert_message i now db).1) known)
