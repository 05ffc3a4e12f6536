-- ===== src/Ledger.antt =====
-- src/harness/db.py, the sqlite ledger of migrations/0001_init.sql. Each method holds the write
-- lock from its first statement to its commit, so it is one function on the tables.
pub mod Db
pub mod Operators
pub mod Engagements
pub mod Sessions
pub mod Messages
pub mod Rows
pub mod Pending
pub mod Intake
pub mod Heartbeats
pub mod Sound
pub mod Shapes
pub mod Named
pub mod Replay
pub mod Active
pub mod History
