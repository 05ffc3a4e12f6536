-- ===== src/Ledger/Operators.antt =====
-- `upsert_operator` and `_get_operator` of src/harness/db.py.
use overwatch_harness.Prelude.{
  Bool, Option, none, some, is_some, List, [], ◌∷◌, ◌++◌, ◌&&◌, take, any, if◌then◌else◌,
}
use overwatch_harness.Text.{Text, codes, text_eq}
use overwatch_harness.Exec.{Exec, ok, err, lookup_error, integrity_error, or_raise, ◌>>◌}
use overwatch_harness.Models.{ChannelKind, kind_text, Operator, Time}
use overwatch_harness.Ledger.Db.{Db, find_operator}

-- f"op:{channel_kind[:2]}:{channel_user_id}"
unfoldable pub operator_id_of : ChannelKind → Text → Text
unfolding kind_text
operator_id_of kind uid = codes "op:" ++ (take 2 (kind_text kind) ++ (codes ":" ++ uid))

unfoldable pub get_operator : Text → Exec Db Operator
get_operator operator_id db = (or_raise lookup_error (find_operator operator_id db.operators), db)

-- `DO UPDATE SET display_name=excluded.display_name WHERE excluded.display_name IS NOT NULL`
abbrev pub rename : Text → Option Text → List Operator → List Operator
rename key none os = os
rename key (some name) [] = []
rename key (some name) (o ∷ os) =
    (if text_eq o.operator_id key then record o { display_name = some name } else o)
    ∷ rename key (some name) os

-- UNIQUE (channel_kind, channel_user_id)
abbrev pub takes_channel : ChannelKind → Text → Operator → Bool
takes_channel kind uid o =
    text_eq (kind_text o.channel_kind) (kind_text kind) && text_eq o.channel_user_id uid

unfoldable pub new_operator : ChannelKind → Text → Option Text → Time → Operator
unfolding operator_id_of
new_operator kind uid name now = record {
  operator_id = operator_id_of kind uid;
  channel_kind = kind;
  channel_user_id = uid;
  display_name = name;
  plane_actor_id = none;
  created_at = now;
}

unfoldable pub insert_operator : ChannelKind → Text → Option Text → Time → Exec Db (Unit {0})
unfolding new_operator operator_id_of
insert_operator kind uid name now db =
    let key = operator_id_of kind uid in
    if is_some (find_operator key db.operators)
    then (ok tt, record db { operators = rename key name db.operators })
    else if any (takes_channel kind uid) db.operators
    then (err integrity_error, db)
    else (
      ok tt,
      record db {
        operators =
            (record {
              operator_id = key;
              channel_kind = kind;
              channel_user_id = uid;
              display_name = name;
              plane_actor_id = none;
              created_at = now;
            })
            ∷ db.operators;
      },
    )

unfoldable pub upsert_operator : ChannelKind → Text → Option Text → Time → Exec Db Operator
unfolding get_operator insert_operator
upsert_operator kind uid name now = do
  insert_operator kind uid name now
  get_operator (operator_id_of kind uid)
