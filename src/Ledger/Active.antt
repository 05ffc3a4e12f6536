-- ===== src/Ledger/Active.antt =====
-- Which engagement `get_active_engagement` of src/harness/db.py returns.
use overwatch_harness.Prelude.{
  ℕ, ◌+◌, ◌-◌, ◌*◌, ◌≤◌, Bool, true, none, some, List, [], ◌∷◌, ◌≡◌, ◌≢◌, ◌⊎◌, arith, inl, inr,
  Bool-cases, Option-cases, select, ltb, ◌==◌,
}
use overwatch_harness.Prelude.Table.{find, update, Descends, find-key-le}
use overwatch_harness.Text.{Text, text_eq_iff}
use overwatch_harness.Models.{Engagement, Time, ended}
use overwatch_harness.Ledger.Db.{Db, engagement_key, find_engagement}
use overwatch_harness.Ledger.Engagements.{is_current, latest, get_active_engagement, end_engagement}
use overwatch_harness.Ledger.Sound.{Sound}
use overwatch_harness.Ledger.Sound.Engagements.{end_engagement-Sound}

-- An open engagement of the operator, of which something was heard within the idle window.
pub record Current (who : Text) (window : ℕ) (now : Time) (e : Engagement) : Type 0 where
  pub owner : e.operator_id ≡ who
  pub not_ended : e.ended_at ≡ none
  pub recent : now ≤ e.last_activity_at + window * 1000

module _ (who : Text) (window : ℕ) (now : Time) where
  is_current-Current :
      (e : Engagement) → is_current who window now e ≡ true → Current who window now e
  is_current-Current e h = record {
    owner = (text_eq_iff e.operator_id who).0 (ground arith);
    not_ended = ground arith;
    recent = ground arith;
  }

  Current-is_current :
      (e : Engagement) → Current who window now e → is_current who window now e ≡ true
  Current-is_current e c =
      ground (arith, (text_eq_iff e.operator_id who).1 c.owner, c.not_ended, c.recent)

-- `latest` picks the first row or one behind it, which is not earlier.
latest-cons :
    (y : Engagement) (es : List Engagement)
    → (latest (y ∷ es) ≡ some y) ⊎ (latest (y ∷ es) ≡ latest es)
unfolding latest
latest-cons y es = elim (Option-cases (latest es)) [
  | inl e ↦ inl (ground arith)
  | inr (other, e) ↦ elim (Bool-cases (ltb y.last_activity_at other.last_activity_at)) [
    | inl older ↦ inr (ground (arith, e, older))
    | inr newer ↦ inl (ground (arith, e, newer))
  ]
]

latest-some :
    (y : Engagement) (es : List Engagement)
    → (e : Engagement) × (latest (y ∷ es) ≡ some e) × (y.last_activity_at ≤ e.last_activity_at)
unfolding latest
latest-some y es = elim (Option-cases (latest es)) [
  | inl e ↦ (y, ground arith, omega arith)
  | inr (other, e) ↦ elim (Bool-cases (ltb y.last_activity_at other.last_activity_at)) [
    | inl older ↦ (other, ground (arith, e, older), ground (arith, older))
    | inr newer ↦ (y, ground (arith, e, newer), omega arith)
  ]
]

latest_behind :
    (y : Engagement) (es : List Engagement) {x : Engagement}
    → latest es ≡ some x
    → (e : Engagement) × (latest (y ∷ es) ≡ some e) × (x.last_activity_at ≤ e.last_activity_at)
unfolding latest
latest_behind y es {x} h = elim (Bool-cases (ltb y.last_activity_at x.last_activity_at)) [
  | inl older ↦ (x, ground (arith, h, older), omega arith)
  | inr newer ↦ (y, ground (arith, h, newer), ground (arith, newer))
]

abbrev Found : (Engagement → Bool) → List Engagement → Engagement → Type 0
Found p es e = (find engagement_key e.engagement_id es ≡ some e) × (p e ≡ true)

-- The row that `latest` picks is found under its key and passes the test.
latest-Found :
    (p : Engagement → Bool) (n : ℕ) (es : List Engagement) {e : Engagement}
    → Descends engagement_key n es
    → latest (select p es) ≡ some e
    → Found p es e
unfolding latest
latest-Found p n [] d h = cc
latest-Found p n (y ∷ ys) {e} d h =
    let behind : latest (select p ys) ≡ some e → Found p (y ∷ ys) e = λ picked.
      let rest = latest-Found p (y.engagement_id - 1) ys {e = e} d.2 picked in
      let below =
        find-key-le engagement_key e.engagement_id (y.engagement_id - 1) ys {x = e} d.2 rest.0 in
      (ground (arith, rest.0, below, d.0), rest.1) in
    elim (Bool-cases (p y)) [
      | inr gone ↦ behind (rw gone at h)
      | inl kept ↦ elim (latest-cons y (select p ys)) [
        | inl first ↦ (ground (arith, first, kept, h), ground (arith, first, kept, h))
        | inr rest ↦ behind (ground (arith, rest, kept, h))
      ]
    ]

-- A row that passes the test is not later than the one that is picked.
latest_max :
    (p : Engagement → Bool) (k : ℕ) (es : List Engagement) {x : Engagement}
    → find engagement_key k es ≡ some x
    → p x ≡ true
    → (e : Engagement) × (latest (select p es) ≡ some e) × (x.last_activity_at ≤ e.last_activity_at)
latest_max p k [] found pass = cc
latest_max p k (y ∷ ys) {x} found pass = elim (Bool-cases (y.engagement_id == k)) [
  | inl hit ↦
      let same : y ≡ x = ground (arith, hit, found) in rw (same, pass) (latest-some x (select p ys))
  | inr miss ↦
      let (e, picked, le) = latest_max p k ys {x = x} (ground (arith, miss, found)) pass in
      elim (Bool-cases (p y)) [
        | inr gone ↦ rw gone (e, picked, le)
        | inl kept ↦
            let (f, picked', le') = latest_behind y (select p ys) {x = e} picked in
            rw kept (f, picked', omega (arith, le, le'))
      ]
]

-- In a well-formed ledger, the engagement that `get_active_engagement` returns is the row found
-- under its key; it is the operator's, is not ended, and its last activity is within the window.
pub active_engagement-Current :
    (who : Text) (window : ℕ) (now : Time) (db : Db) (e : Engagement)
    → Sound db
    → get_active_engagement who window now db ≡ some e
    → (find_engagement e.engagement_id db ≡ some e) × Current who window now e
unfolding get_active_engagement
active_engagement-Current who window now db e h picked =
    let found =
      latest-Found (is_current who window now) db.engagement_seq db.engagements {e = e}
        h.engagement_keys picked in
    (found.0, is_current-Current who window now e found.1)

-- If an engagement in the ledger is the operator's, is not ended, and had its last activity within
-- the window, `get_active_engagement` returns one, and none with an earlier last activity.
pub active_engagement_latest :
    (who : Text) (window : ℕ) (now : Time) (db : Db) (k : ℕ) (x : Engagement)
    → find_engagement k db ≡ some x
    → Current who window now x
    → (e : Engagement) × (get_active_engagement who window now db ≡ some e)
      × (x.last_activity_at ≤ e.last_activity_at)
unfolding get_active_engagement
active_engagement_latest who window now db k x found c =
    latest_max (is_current who window now) k db.engagements {x = x} found
      (Current-is_current who window now x c)

ended_row :
    (k j : ℕ) (at : Time) (es : List Engagement) {e : Engagement}
    → j ≡ k
    → find engagement_key j
        (update engagement_key k (λ x. record x { ended_at = some at; mode = ended }) es)
      ≡ some e
    → e.ended_at ≡ some at
ended_row k j at [] same h = cc
ended_row k j at (y ∷ ys) {e} same h = ground (arith, same, ended_row k j at ys {e = e} same)

-- In a well-formed ledger, an engagement that `end_engagement` was called on, as `/end` and `/new`
-- do, is not what `get_active_engagement` returns afterwards, for any operator, time and window.
pub end_engagement_inactive :
    (who : Text) (window k : ℕ) (at now : Time) (db : Db) (e : Engagement)
    → Sound db
    → get_active_engagement who window now (end_engagement k at db) ≡ some e
    → e.engagement_id ≢ k
end_engagement_inactive who window k at now db e h picked same =
    let (found, c) =
      active_engagement-Current who window now (end_engagement k at db) e
        (end_engagement-Sound k at db h) picked in
    let closed : e.ended_at ≡ some at =
      ended_row k e.engagement_id at db.engagements {e = e} same (unfold end_engagement in found) in
    ground (arith, closed, c.not_ended)
