-- ===== src/Daemon/Ingress.antt =====
-- `TelegramIngress._on_message` of src/harness/ingress/telegram.py: the allowlist gate, and the
-- hand-over of a new message to the dispatch.
use overwatch_harness.Prelude.{
  ℕ, Bool, false, Option, none, some, List, [], ◌∷◌, ◌++◌, any, if◌then◌else◌, ◌==◌,
}
use overwatch_harness.Text.{Text, codes, str, str_ℤ}
use overwatch_harness.Text.Int.{ℤ, pos, negsuc}
use overwatch_harness.Exec.{Result, ok, err, cancelled_error, pure, raise}
use overwatch_harness.Config.{HarnessSettings}
use overwatch_harness.Models.{telegram, Operator, Message, MessageStatus}
use overwatch_harness.Ledger.Operators.{upsert_operator}
use overwatch_harness.Ledger.Messages.{Inbound, no_changes, insert_message}
use overwatch_harness.Egress.{Outgoing}
use overwatch_harness.Daemon.{Outside, Action, ◌>>=◌, on_db, update_status, now}
use overwatch_harness.Daemon.Dispatch.{Origin, dispatch}

-- `update.effective_message`
pub record TelegramMessage : Type 0 where
  pub message_id : ℕ
  pub text : Option Text
  pub caption : Option Text
  -- `from_user.full_name`
  pub from_name : Option Text
  pub reply_to_message : Option ℕ

pub record Update : Type 0 where
  pub effective_message : Option TelegramMessage
  pub effective_chat : Option ℤ

abbrev pub same_int : ℤ → ℤ → Bool
same_int (pos a) (pos b) = a == b
same_int (negsuc a) (negsuc b) = a == b
same_int _ _ = false

-- `chat_id in self._allowlist`
abbrev pub allowed : ℤ → List ℤ → Bool
allowed chat = any (same_int chat)

-- `msg.text or msg.caption or ""`
abbrev pub first_text : Option Text → Option Text → Text
first_text none none = []
first_text none (some c) = c
first_text (some []) none = []
first_text (some []) (some c) = c
first_text (some (c ∷ t)) caption = c ∷ t

abbrev pub id_text : Option ℕ → Option Text
id_text none = none
id_text (some k) = some (str k)

abbrev pub refusal_text : Text
refusal_text = codes "overwatch-harness: this chat is not on the operator allowlist."

abbrev pub refusal_note : ℤ → Outgoing
refusal_note chat = record { chat_id = chat; text = refusal_text; reply_to_message_id = none }

-- The refusal is sent, and a failure of that is passed over.
unfoldable pub refuse_chat : Outside → ℤ → Action (Unit {0})
refuse_chat out chat w =
    if out.delivers w.sent (refusal_note chat)
    then (ok tt, record w { sent = w.sent ++ refusal_note chat ∷ [] })
    else (ok tt, w)

-- `except Exception` behind the dispatch: a cancellation is none.
unfoldable pub recover : Message → Result (Unit {0}) → Action (Unit {0})
recover m (ok done) = pure tt
recover m (err cancelled_error) = raise cancelled_error
recover m (err e) =
    update_status m.message_id MessageStatus.failed
      (record no_changes { error_summary = some (codes "dispatch raised; see daemon logs") })

abbrev pub inbound : Operator → TelegramMessage → Inbound
inbound operator msg = record {
  operator_id = operator.operator_id;
  channel_kind = telegram;
  channel_msg_id = str msg.message_id;
  body = first_text msg.text msg.caption;
  reply_to_msg_id = id_text msg.reply_to_message;
  engagement_id = none;
}

module _ (out : Outside) (settings : HarnessSettings) (binary : Text) (plane : Bool) where
  -- A message that was new goes to the dispatch; a replay does not.
  unfoldable pub hand_over : ℤ → TelegramMessage → Option Message → Action (Unit {0})
  hand_over chat msg none w = (ok tt, w)
  hand_over chat msg (some m) w =
      let origin : Origin = record { chat_id = chat; message_id = msg.message_id } in
      recover m (dispatch out settings binary plane m origin w).0
        (dispatch out settings binary plane m origin w).1

  -- A message from a chat on the allowlist.
  unfoldable pub accept : ℤ → TelegramMessage → Action (Unit {0})
  accept chat msg = do
    seen ← now out
    operator ← on_db (upsert_operator telegram (str_ℤ chat) msg.from_name seen)
    at ← now out
    m ← on_db (insert_message (inbound operator msg) at)
    hand_over chat msg m

  unfoldable pub on_chat : List ℤ → ℤ → TelegramMessage → Action (Unit {0})
  on_chat allowlist chat msg w =
      if allowed chat allowlist then accept chat msg w else refuse_chat out chat w

  -- `_on_message`
  unfoldable pub on_message : List ℤ → Update → Action (Unit {0})
  on_message allowlist u = elim u.effective_message [
    | none ↦ pure tt
    | some msg ↦ elim u.effective_chat [ none ↦ pure tt | some chat ↦ on_chat allowlist chat msg ]
  ]
