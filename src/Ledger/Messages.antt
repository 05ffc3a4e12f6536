-- ===== src/Ledger/Messages.antt =====
-- The message methods of src/harness/db.py.
use mathlib.Core.List.{reverse}
use overwatch_harness.Prelude.{
  ℕ, suc, Bool, true, false, Option, none, some, is_some, or_else, not, List, ◌∷◌, ◌&&◌, ◌||◌, any,
  select, if◌then◌else◌,
}
use overwatch_harness.Prelude.Table.{update}
use overwatch_harness.Prelude.Sorting.{sort_by}
use overwatch_harness.Text.{Text, text_eq}
use overwatch_harness.Exec.{Exec, Result, ok, err, lookup_error, integrity_error, or_raise}
use overwatch_harness.Models.{
  ChannelKind, kind_text, Message, MessageStatus, Route, received, classifying, Time,
}
use overwatch_harness.Ledger.Db.{
  Db, message_key, find_message, has_operator, has_engagement, has_session,
}

-- What `insert_message` is called with.
pub record Inbound : Type 0 where
  pub operator_id : Text
  pub channel_kind : ChannelKind
  pub channel_msg_id : Text
  pub body : Text
  pub reply_to_msg_id : Option Text
  pub engagement_id : Option ℕ

unfoldable pub get_message : ℕ → Exec Db Message
get_message message_id db = (or_raise lookup_error (find_message message_id db), db)

abbrev pub new_message : ℕ → Inbound → Time → Message
new_message key i now = record {
  message_id = key;
  operator_id = i.operator_id;
  engagement_id = i.engagement_id;
  session_id = none;
  channel_kind = i.channel_kind;
  channel_msg_id = i.channel_msg_id;
  received_at = now;
  body = i.body;
  reply_to_msg_id = i.reply_to_msg_id;
  classifier_route = none;
  classifier_version = none;
  prompt_hash = none;
  reply_text = none;
  status = received;
  error_summary = none;
}

-- UNIQUE (channel_kind, channel_msg_id)
unfoldable pub same_key : ChannelKind → Text → Message → Bool
same_key kind id m =
    text_eq (kind_text m.channel_kind) (kind_text kind) && text_eq m.channel_msg_id id

-- The INSERT: a foreign key or the UNIQUE constraint may fail.
unfoldable pub insert_row : Inbound → Time → Exec Db ℕ
unfolding same_key
insert_row i now db =
    let key = suc db.message_seq in
    if has_operator i.operator_id db
      && (has_engagement i.engagement_id db
          && not (any (same_key i.channel_kind i.channel_msg_id) db.messages))
    then (ok key, record db { messages = new_message key i now ∷ db.messages; message_seq = key })
    else (err integrity_error, db)

-- `except aiosqlite.IntegrityError: return None`
abbrev pub or_none : Result ℕ → Exec Db (Option Message)
or_none (ok key) db = elim (or_raise lookup_error (find_message key db)) [
  | ok m ↦ (ok (some m), db)
  | err e ↦ (err e, db)
]
or_none (err integrity_error) db = (ok none, db)
or_none (err e) db = (err e, db)

unfoldable pub insert_message : Inbound → Time → Exec Db (Option Message)
unfolding insert_row
insert_message i now db = let (r, db') = insert_row i now db in or_none r db'

-- The optional arguments of `update_message_status`.
pub record Changes : Type 0 where
  pub engagement_id : Option ℕ
  pub session_id : Option ℕ
  pub classifier_route : Option Route
  pub reply_text : Option Text
  pub error_summary : Option Text

abbrev pub no_changes : Changes
no_changes = record {
  engagement_id = none;
  session_id = none;
  classifier_route = none;
  reply_text = none;
  error_summary = none;
}

-- The SET clause: `or_else` is COALESCE.
abbrev pub set_status : MessageStatus → Changes → Message → Message
set_status status c m = record m {
  status = status;
  engagement_id = or_else c.engagement_id m.engagement_id;
  session_id = or_else c.session_id m.session_id;
  classifier_route = or_else c.classifier_route m.classifier_route;
  reply_text = or_else c.reply_text m.reply_text;
  error_summary = or_else c.error_summary m.error_summary;
}

-- A foreign key is checked where a row is written.
unfoldable pub update_message_status : ℕ → MessageStatus → Changes → Exec Db (Unit {0})
update_message_status message_id status c db =
    if not (is_some (find_message message_id db))
      || (has_engagement c.engagement_id db && has_session c.session_id db)
    then (
      ok tt,
      record db { messages = update message_key message_id (set_status status c) db.messages },
    )
    else (err integrity_error, db)

abbrev pub is_pending : Message → Bool
is_pending m = elim m.status [ received ↦ true | classifying ↦ true | _ ↦ false ]

-- `ORDER BY received_at`, equal times in the order of arrival.
abbrev pub sort_by_time : List Message → List Message
sort_by_time = sort_by (λ m. m.received_at)

unfoldable pub list_pending_on_startup : Db → List Message
unfolding sort_by
list_pending_on_startup db = sort_by_time (reverse (select is_pending db.messages))
