-- ===== src/Ledger/Heartbeats/Retained.antt =====
-- What `prune_heartbeats` of src/harness/db.py keeps.
use overwatch_harness.Prelude.{
  ℕ, suc, ◌≤◌, Option, some, List, [], ◌∷◌, All, take, length, length-take-le, ◌≡◌, refl, arith,
}
use overwatch_harness.Prelude.Table.{length-select-any}
use overwatch_harness.Text.{Text}
use overwatch_harness.Machine.{DaemonState}
use overwatch_harness.Models.{Heartbeat, Time}
use overwatch_harness.Ledger.Db.{Db}
use overwatch_harness.Ledger.Heartbeats.{
  new_heartbeat, write_heartbeat, latest_heartbeat, insert_by_ts, sort_by_ts, prune_heartbeats,
}
use overwatch_harness.Ledger.Sound.{Sound, heartbeat_key}

-- In a well-formed ledger, a prune leaves at most as many heartbeats as it is told to keep.
pub prune_heartbeats_bounded :
    (keep : ℕ) (db : Db) → Sound db → length (prune_heartbeats keep db).1.heartbeats ≤ keep
unfolding prune_heartbeats
prune_heartbeats_bounded keep db h =
    let kept = take keep (sort_by_ts db.heartbeats) in
    omega (
      arith,
      length-select-any heartbeat_key kept db.heartbeat_seq db.heartbeats h.heartbeat_keys,
      length-take-le keep (sort_by_ts db.heartbeats),
    )

-- No heartbeat is later than a time.
abbrev pub Until : Time → List Heartbeat → Type 0
Until now = All (λ (h : Heartbeat). h.ts ≤ now)

insert_by_ts-Until :
    (now : Time) (h : Heartbeat) (hs : List Heartbeat)
    → h.ts ≤ now
    → Until now hs
    → Until now (insert_by_ts h hs)
unfolding insert_by_ts
insert_by_ts-Until now h [] e p = (e, tt)
insert_by_ts-Until now h (k ∷ ks) e p = ground (arith, insert_by_ts-Until now h ks e p.1)

sort_by_ts-Until : (now : Time) (hs : List Heartbeat) → Until now hs → Until now (sort_by_ts hs)
unfolding sort_by_ts
sort_by_ts-Until now [] p = tt
sort_by_ts-Until now (h ∷ hs) p =
    insert_by_ts-Until now h (sort_by_ts hs) p.0 (sort_by_ts-Until now hs p.1)

insert_by_ts_last :
    (h : Heartbeat) (hs : List Heartbeat) → Until h.ts hs → insert_by_ts h hs ≡ h ∷ hs
unfolding insert_by_ts
insert_by_ts_last h [] p = refl
insert_by_ts_last h (k ∷ ks) p = ground (arith, p.0)

-- A heartbeat that is not earlier than those of before outlives the prune behind it.
pub latest-prune :
    (keep pid : ℕ) (state : DaemonState) (n : ℕ) (notes : Option Text) (now : Time) (db : Db)
    → Until now db.heartbeats
    → latest_heartbeat (prune_heartbeats (suc keep) (write_heartbeat pid state n notes now db)).1
      ≡ some (new_heartbeat (suc db.heartbeat_seq) pid state n notes now)
unfolding prune_heartbeats write_heartbeat latest_heartbeat sort_by_ts
latest-prune keep pid state n notes now db p =
    let new = new_heartbeat (suc db.heartbeat_seq) pid state n notes now in
    rw (insert_by_ts_last new (sort_by_ts db.heartbeats) (sort_by_ts-Until now db.heartbeats p))
      (ground arith)
