-- ===== src/Ledger/Sound/Operators.antt =====
-- `upsert_operator` keeps the ledger well-formed.
use overwatch_harness.Prelude.{
  true, Option, none, some, is_some, any, List, [], ◌∷◌, ◌≡◌, refl, arith, ◌⊎◌, inl, inr,
  Bool-cases,
}
use overwatch_harness.Text.{Text}
use overwatch_harness.Exec.{continue_state}
use overwatch_harness.Models.{ChannelKind, Operator, Time}
use overwatch_harness.Ledger.Db.{Db, find_operator}
use overwatch_harness.Ledger.Operators.{
  rename, takes_channel, new_operator, get_operator, insert_operator, upsert_operator,
  operator_id_of,
}
use overwatch_harness.Ledger.Sound.{Sound, Extends, engagements_mono, sessions_mono, messages_mono}

pub known-rename :
    (k key : Text) (name : Option Text) (os : List Operator)
    → is_some (find_operator k (rename key name os)) ≡ is_some (find_operator k os)
known-rename k key none os = refl
known-rename k key (some name) [] = refl
known-rename k key (some name) (o ∷ os) = ground (arith, known-rename k key (some name) os)

-- Only the operators have changed, and none has gone.
operators-Sound :
    (os : List Operator) (db : Db)
    → ((k : Text)
        → is_some (find_operator k db.operators) ≡ true
        → is_some (find_operator k os) ≡ true)
    → Sound db
    → Sound (record db { operators = os })
operators-Sound os db more h =
    let db' : Db = record db { operators = os } in
    let ext : Extends db db' = record {
      operators = more;
      engagements = λ k known. known;
      sessions = λ k s found. (s, found, refl);
    } in
    record {
      engagement_keys = h.engagement_keys;
      session_keys = h.session_keys;
      message_keys = h.message_keys;
      heartbeat_keys = h.heartbeat_keys;
      engagement_refs = engagements_mono ext db.engagements h.engagement_refs;
      session_refs = sessions_mono ext db.sessions h.session_refs;
      message_refs = messages_mono ext db.messages h.message_refs;
      distinct = h.distinct;
    }

-- What the INSERT leaves: the table as it was, with a name changed, or with one more row.
pub insert_operator_cases :
    (kind : ChannelKind) (uid : Text) (name : Option Text) (now : Time) (db : Db)
    → ((insert_operator kind uid name now db).1 ≡ db)
      ⊎ ((insert_operator kind uid name now db).1
          ≡ record db { operators = rename (operator_id_of kind uid) name db.operators })
      ⊎ ((o : Operator) × ((insert_operator kind uid name now db).1
            ≡ record db { operators = o ∷ db.operators }))
unfolding insert_operator
insert_operator_cases kind uid name now db =
    elim (Bool-cases (is_some (find_operator (operator_id_of kind uid) db.operators))) [
      | inl known ↦ inr (inl (rw known))
      | inr new ↦ elim (Bool-cases (any (takes_channel kind uid) db.operators)) [
        | inl taken ↦ inl (rw (new, taken))
        | inr free ↦ inr (inr (new_operator kind uid name now, rw (new, free)))
      ]
    ]

pub upsert_operator-state :
    (kind : ChannelKind) (uid : Text) (name : Option Text) (now : Time) (db : Db)
    → (upsert_operator kind uid name now db).1 ≡ (insert_operator kind uid name now db).1
unfolding upsert_operator
upsert_operator-state kind uid name now db =
    continue_state (insert_operator kind uid name now db).0
      (λ _. get_operator (operator_id_of kind uid)) (insert_operator kind uid name now db).1
      (λ _. refl)

pub upsert_operator-Sound :
    (kind : ChannelKind) (uid : Text) (name : Option Text) (now : Time) (db : Db)
    → Sound db
    → Sound (upsert_operator kind uid name now db).1
upsert_operator-Sound kind uid name now db h =
    rw (upsert_operator-state kind uid name now db)
      (elim (insert_operator_cases kind uid name now db) [
        | inl same ↦ rw same h
        | inr (inl renamed) ↦ rw renamed (
            operators-Sound (rename (operator_id_of kind uid) name db.operators) db
              (λ k known. rw known-rename known) h)
        | inr (inr (o, more)) ↦
            rw more (operators-Sound (o ∷ db.operators) db (λ k known. ground arith) h)
      ])
