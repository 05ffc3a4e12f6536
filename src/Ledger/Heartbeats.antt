-- ===== src/Ledger/Heartbeats.antt =====
-- The heartbeat methods of src/harness/db.py.
pub mod Retained
use overwatch_harness.Prelude.{
  ℕ, suc, ◌-◌, Bool, Option, none, some, List, [], ◌∷◌, leb, any, take, select, length, ◌==◌,
  if◌then◌else◌,
}
use overwatch_harness.Text.{Text}
use overwatch_harness.Machine.{DaemonState}
use overwatch_harness.Models.{Heartbeat, Time}
use overwatch_harness.Ledger.Db.{Db}

abbrev pub new_heartbeat : ℕ → ℕ → DaemonState → ℕ → Option Text → Time → Heartbeat
new_heartbeat key pid state in_flight_count notes now = record {
  heartbeat_id = key;
  ts = now;
  pid = pid;
  state = state;
  in_flight_count = in_flight_count;
  notes = notes;
}

unfoldable pub write_heartbeat : ℕ → DaemonState → ℕ → Option Text → Time → Db → Db
write_heartbeat pid state in_flight_count notes now db =
    let key = suc db.heartbeat_seq in
    record db {
      heartbeats = new_heartbeat key pid state in_flight_count notes now ∷ db.heartbeats;
      heartbeat_seq = key;
    }

-- `ORDER BY heartbeat_id DESC LIMIT 1`: the rows stand so.
unfoldable pub latest_heartbeat : Db → Option Heartbeat
latest_heartbeat db = elim db.heartbeats [ [] ↦ none | h ∷ hs ↦ some h ]

-- `ORDER BY ts DESC`, equal times newest first.
unfoldable pub insert_by_ts : Heartbeat → List Heartbeat → List Heartbeat
insert_by_ts h [] = h ∷ []
insert_by_ts h (k ∷ ks) = if leb k.ts h.ts then h ∷ k ∷ ks else k ∷ insert_by_ts h ks

unfoldable pub sort_by_ts : List Heartbeat → List Heartbeat
unfolding insert_by_ts
sort_by_ts [] = []
sort_by_ts (h ∷ hs) = insert_by_ts h (sort_by_ts hs)

-- `heartbeat_id IN (SELECT ... LIMIT ?)`
abbrev pub is_kept : List Heartbeat → Heartbeat → Bool
is_kept kept h = any (λ k. k.heartbeat_id == h.heartbeat_id) kept

-- The table after the DELETE, and the number of rows that it removed.
unfoldable pub prune_heartbeats : ℕ → Db → ℕ × Db
unfolding sort_by_ts
prune_heartbeats keep_rows db =
    let kept = take keep_rows (sort_by_ts db.heartbeats) in
    let left = select (is_kept kept) db.heartbeats in
    (length db.heartbeats - length left, record db { heartbeats = left })
