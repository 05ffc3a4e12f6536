-- ===== src/Ledger/Intake.antt =====
-- What `insert_message` of src/harness/db.py promises its callers: a set of the messages seen, from
-- which the table and its keys are left out.
use overwatch_harness.Prelude.{
  ℕ, suc, Bool, true, false, not, Bool-cases, inl, inr, Option, none, some, any, List, [], ◌∷◌, All,
  All-map, ◌&&◌, ◌≡◌, refl, ap, ◌∙◌, arith, if◌then◌else◌,
}
use overwatch_harness.Text.{Text, text_eq, text_eq_iff}
use overwatch_harness.Exec.{Result, ok}
use overwatch_harness.Models.{ChannelKind, kind_text, Message, Time}
use overwatch_harness.Ledger.Db.{Db, has_operator, has_engagement}
use overwatch_harness.Ledger.Messages.{Inbound, new_message, same_key, insert_message}
use overwatch_harness.Ledger.Sound.Messages.{admits, or_none_state}
use overwatch_harness.Ledger.Replay.{Known, insert_message-Known, insert_message_new}

-- The messages seen, by channel and channel message id.
abbrev pub Seen : Type 0
Seen = ChannelKind → Text → Bool

abbrev is_key : Inbound → ChannelKind → Text → Bool
is_key i kind id =
    text_eq (kind_text i.channel_kind) (kind_text kind) && text_eq i.channel_msg_id id

abbrev pub add : Inbound → Seen → Seen
add i seen kind id = if is_key i kind id then true else seen kind id

-- Of the arrivals in their order, which are new.
unfoldable pub fresh_ones : List (Inbound × Time) → Seen → List Bool
unfolding text_eq
fresh_ones [] seen = []
fresh_ones (i ∷ is) seen =
    not (seen i.0.channel_kind i.0.channel_msg_id) ∷ fresh_ones is (add i.0 seen)

abbrev pub is_stored : Result (Option Message) → Bool
is_stored (ok (some m)) = true
is_stored _ = false

-- Of calls of `insert_message` in this order, which answer with a row.
unfoldable pub insert_all : List (Inbound × Time) → Db → List Bool
unfolding insert_message
insert_all [] db = []
insert_all (i ∷ is) db =
    is_stored (insert_message i.0 i.1 db).0 ∷ insert_all is (insert_message i.0 i.1 db).1

-- The set that a table stands for.
abbrev pub seen_in : Db → Seen
seen_in db kind id = any (same_key kind id) db.messages

any-same :
    (p q : Message → Bool) (ms : List Message) → ((m : Message) → p m ≡ q m) → any p ms ≡ any q ms
any-same p q [] h = refl
any-same p q (m ∷ ms) h = ground (arith, h m, any-same p q ms h)

seen_in-key :
    (i : Inbound) (kind : ChannelKind) (id : Text) (db : Db)
    → is_key i kind id ≡ true
    → seen_in db kind id ≡ seen_in db i.channel_kind i.channel_msg_id
unfolding same_key
seen_in-key i kind id db h =
    let kinds : kind_text i.channel_kind ≡ kind_text kind =
      (text_eq_iff _ _).0 (ground (arith, h)) in
    let ids : i.channel_msg_id ≡ id = (text_eq_iff _ _).0 (ground (arith, h)) in
    any-same _ _ db.messages λ m. rw (kinds, ids) refl

abbrev Agrees : Db → Seen → Type 0
Agrees db seen = (kind : ChannelKind) (id : Text) → seen_in db kind id ≡ seen kind id

abbrev pub Admissible : Db → Inbound × Time → Type 0
Admissible db i =
    (has_operator i.0.operator_id db ≡ true) × (has_engagement i.0.engagement_id db ≡ true)

-- A message that was seen changes neither side.
Agrees-seen :
    (i : Inbound) (db : Db) (seen : Seen)
    → Agrees db seen
    → Known i.channel_kind i.channel_msg_id db
    → Agrees db (add i seen)
Agrees-seen i db seen h known kind id = elim (Bool-cases (is_key i kind id)) [
  | inl same ↦ rw same (seen_in-key i kind id db same ∙ known)
  | inr apart ↦ rw apart (h kind id)
]

-- The row of a new one.
abbrev with_row : Inbound → Time → Db → Db
with_row i now db = record db {
  messages = new_message (suc db.message_seq) i now ∷ db.messages;
  message_seq = suc db.message_seq;
}

insert_message-row :
    (i : Inbound) (now : Time) (db : Db)
    → admits i db ≡ true
    → (insert_message i now db).1 ≡ with_row i now db
unfolding insert_message
insert_message-row i now db known = rw (or_none_state, known) refl

Agrees-row :
    (i : Inbound) (now : Time) (db : Db) (seen : Seen)
    → Agrees db seen
    → Agrees (with_row i now db) (add i seen)
unfolding same_key
Agrees-row i now db seen h kind id = ground (arith, h kind id)

Admissible-row :
    (i : Inbound) (now : Time) (db : Db) (j : Inbound × Time)
    → Admissible db j
    → Admissible (with_row i now db) j
Admissible-row i now db (j, at) h = (h.0, known j.engagement_id h.1)
  where
    known :
        (e : Option ℕ) → has_engagement e db ≡ true → has_engagement e (with_row i now db) ≡ true
    known none h = h
    known (some k) h = h

-- For any messages of known operators, in any order and with repetitions, `insert_message` answers
-- with a row for exactly those whose channel and channel message id are not in the table and were
-- not among the ones before: it is the set of the messages seen, for any table that stands for it.
pub insert_all-fresh_ones :
    (is : List (Inbound × Time)) (db : Db) (seen : Seen)
    → Agrees db seen
    → All (Admissible db) is
    → insert_all is db ≡ fresh_ones is seen
unfolding insert_all fresh_ones
insert_all-fresh_ones [] db seen h a = refl
insert_all-fresh_ones ((i, now) ∷ is) db seen h a =
    elim (Bool-cases (seen i.channel_kind i.channel_msg_id)) [
      | inl old ↦
          let known : Known i.channel_kind i.channel_msg_id db = h _ _ ∙ old in
          rw (insert_message-Known i now db known, old)
            (ap (◌∷◌ false)
              (insert_all-fresh_ones is db (add i seen) (Agrees-seen i db seen h known) a.1))
      | inr new ↦
          let known : admits i db ≡ true =
            ground (arith, a.0, h i.channel_kind i.channel_msg_id, new) in
          rw ((insert_message_new i now db known).0, insert_message-row i now db known, new)
            (ap (◌∷◌ true) (
              insert_all-fresh_ones is (with_row i now db) (add i seen) (Agrees-row i now db seen h)
                (All-map (Admissible db) (Admissible (with_row i now db)) is
                  (Admissible-row i now db) a.1)))
    ]
