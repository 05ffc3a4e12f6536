-- ===== src/Ledger/Named.antt =====
-- The keys of the operators, which `upsert_operator` of src/harness/db.py makes of channel and user.
use overwatch_harness.Prelude.{
  true, Option, none, some, is_some, any, List, [], ◌∷◌, All, ◌≡◌, refl, arith, inl, inr,
  Bool-cases, Option-cases, ◌∙◌, sym, ◌≢◌,
}
use overwatch_harness.Text.{Text, text_eq, text_eq_iff}
use overwatch_harness.Exec.{ok}
use overwatch_harness.Models.{ChannelKind, kind_text, Operator, Time}
use overwatch_harness.Ledger.Db.{Db, find_operator, has_operator}
use overwatch_harness.Ledger.Operators.{
  operator_id_of, rename, takes_channel, get_operator, insert_operator, upsert_operator,
}
use overwatch_harness.Ledger.Sound.Operators.{known-rename, upsert_operator-state}

abbrev pub NamedBy : Operator → Type 0
NamedBy o = o.operator_id ≡ operator_id_of o.channel_kind o.channel_user_id

-- Every operator has the key of its channel and user.
abbrev pub Named : Db → Type 0
Named db = All NamedBy db.operators

text_eq_refl : (t : Text) → text_eq t t ≡ true
text_eq_refl t = (text_eq_iff t t).1 refl

-- Who has taken the channel has its key.
taken-known :
    (kind : ChannelKind) (uid : Text) (os : List Operator)
    → All NamedBy os
    → any (takes_channel kind uid) os ≡ true
    → is_some (find_operator (operator_id_of kind uid) os) ≡ true
taken-known kind uid [] named taken = absurd cc
taken-known kind uid (o ∷ os) named taken = elim (Bool-cases (takes_channel kind uid o)) [
  | inl hit ↦
      let kinds : kind_text o.channel_kind ≡ kind_text kind =
        (text_eq_iff _ _).0 (ground (arith, hit)) in
      let users : o.channel_user_id ≡ uid = (text_eq_iff _ _).0 (ground (arith, hit)) in
      let same : o.operator_id ≡ operator_id_of kind uid =
        named.0 ∙ (unfold operator_id_of in cc) in
      rw (same, text_eq_refl (operator_id_of kind uid)) refl
  | inr miss ↦ ground (arith, miss, taken, taken-known kind uid os named.1)
]

find_operator-key :
    (k : Text) (os : List Operator) {o : Operator} → find_operator k os ≡ some o → o.operator_id ≡ k
find_operator-key k [] h = absurd cc
find_operator-key k (x ∷ os) {o} h = elim (Bool-cases (text_eq x.operator_id k)) [
  | inl hit ↦ ground (arith, (text_eq_iff x.operator_id k).0 hit, hit, h)
  | inr miss ↦ find_operator-key k os (rw miss at h)
]

-- After the INSERT the operator is there, and the INSERT has returned.
pub insert_operator-ok :
    (kind : ChannelKind) (uid : Text) (name : Option Text) (now : Time) (db : Db)
    → Named db
    → ((insert_operator kind uid name now db).0 ≡ ok tt)
      × (has_operator (operator_id_of kind uid) (insert_operator kind uid name now db).1 ≡ true)
unfolding insert_operator
insert_operator-ok kind uid name now db named =
    elim (Bool-cases (is_some (find_operator (operator_id_of kind uid) db.operators))) [
      | inl known ↦ (
        rw known refl,
        rw
            (
              known,
              known-rename (operator_id_of kind uid) (operator_id_of kind uid) name db.operators,
            )
            known,
      )
      | inr new ↦ elim (Bool-cases (any (takes_channel kind uid) db.operators)) [
        | inl taken ↦ absurd (let known = taken-known kind uid db.operators named taken in cc)
        | inr free ↦
            (rw (new, free) refl, rw (new, free, text_eq_refl (operator_id_of kind uid)) refl)
      ]
    ]

rename-Named :
    (key : Text) (name : Option Text) (os : List Operator)
    → All NamedBy os
    → All NamedBy (rename key name os)
rename-Named key none os h = h
rename-Named key (some name) [] h = tt
rename-Named key (some name) (o ∷ os) h = elim (Bool-cases (text_eq o.operator_id key)) [
  | inl hit ↦ (rw hit h.0, rename-Named key (some name) os h.1)
  | inr miss ↦ (rw miss h.0, rename-Named key (some name) os h.1)
]

insert_operator-Named :
    (kind : ChannelKind) (uid : Text) (name : Option Text) (now : Time) (db : Db)
    → Named db
    → Named (insert_operator kind uid name now db).1
unfolding insert_operator
insert_operator-Named kind uid name now db h =
    elim (Bool-cases (is_some (find_operator (operator_id_of kind uid) db.operators))) [
      | inl known ↦ rw known (rename-Named (operator_id_of kind uid) name db.operators h)
      | inr new ↦ elim (Bool-cases (any (takes_channel kind uid) db.operators)) [
        | inl taken ↦ rw (new, taken) h
        | inr free ↦ rw (new, free) (refl, h)
      ]
    ]

pub upsert_operator-Named :
    (kind : ChannelKind) (uid : Text) (name : Option Text) (now : Time) (db : Db)
    → Named db
    → Named (upsert_operator kind uid name now db).1
upsert_operator-Named kind uid name now db h =
    rw (upsert_operator-state kind uid name now db) (insert_operator-Named kind uid name now db h)

-- The upsert returns the operator of the channel and user, which then is in the table.
pub upsert_operator-ok :
    (kind : ChannelKind) (uid : Text) (name : Option Text) (now : Time) (db : Db)
    → Named db
    → (o : Operator) × ((upsert_operator kind uid name now db).0 ≡ ok o)
      × (o.operator_id ≡ operator_id_of kind uid)
      × (has_operator o.operator_id (upsert_operator kind uid name now db).1 ≡ true)
upsert_operator-ok kind uid name now db named =
    let (inserted, there) = insert_operator-ok kind uid name now db named in
    elim (Option-cases (
      find_operator (operator_id_of kind uid) (insert_operator kind uid name now db).1.operators)) [
        | inl missing ↦ absurd (ground (arith, missing, there))
        | inr (o, found) ↦
            let key = find_operator-key (operator_id_of kind uid) _ found in
            (
              o,
              unfold upsert_operator get_operator in rw (inserted, found) refl,
              key,
              rw (key, upsert_operator-state kind uid name now db) there,
            )
      ]

rename-others :
    (key k : Text) (name : Option Text) (os : List Operator)
    → k ≢ key
    → find_operator k (rename key name os) ≡ find_operator k os
rename-others key k none os other = refl
rename-others key k (some name) [] other = refl
rename-others key k (some name) (o ∷ os) other = elim (Bool-cases (text_eq o.operator_id k)) [
  | inl hit ↦ elim (Bool-cases (text_eq o.operator_id key)) [
    | inl both ↦
        absurd (
          other
            (sym ((text_eq_iff o.operator_id k).0 hit) ∙ (text_eq_iff o.operator_id key).0 both))
    | inr one ↦ rw (one, hit) refl
  ]
  | inr miss ↦ ground (arith, miss, rename-others key k (some name) os other)
]

-- The other operators are found as before.
pub upsert_operator-others :
    (kind : ChannelKind) (uid : Text) (name : Option Text) (now : Time) (db : Db) (k : Text)
    → k ≢ operator_id_of kind uid
    → find_operator k (upsert_operator kind uid name now db).1.operators
      ≡ find_operator k db.operators
unfolding insert_operator
upsert_operator-others kind uid name now db k other =
    rw (upsert_operator-state kind uid name now db)
      (elim (Bool-cases (is_some (find_operator (operator_id_of kind uid) db.operators))) [
        | inl known ↦ rw known (rename-others (operator_id_of kind uid) k name db.operators other)
        | inr new ↦ elim (Bool-cases (any (takes_channel kind uid) db.operators)) [
          | inl taken ↦ rw (new, taken) refl
          | inr free ↦ elim (Bool-cases (text_eq (operator_id_of kind uid) k)) [
            | inl hit ↦ absurd (other (sym ((text_eq_iff (operator_id_of kind uid) k).0 hit)))
            | inr miss ↦ rw (new, free, miss) refl
          ]
        ]
      ])
