-- ===== src/Daemon/Delivery/Names.antt =====
-- The operators keep the keys of their channels and users.
use overwatch_harness.Prelude.{ℕ, Bool, List, [], ◌∷◌, inl, inr}
use overwatch_harness.Text.{Text}
use overwatch_harness.Text.Int.{ℤ}
use overwatch_harness.Config.{HarnessSettings}
use overwatch_harness.Ledger.Db.{Db}
use overwatch_harness.Ledger.Engagements.{end_engagement}
use overwatch_harness.Ledger.Sessions.{attach_claude_session_id, finalize_session}
use overwatch_harness.Ledger.Heartbeats.{write_heartbeat, prune_heartbeats}
use overwatch_harness.Ledger.Shapes.{
  create_engagement-shape, create_session-shape, insert_message-shape, update_message_status-shape,
}
use overwatch_harness.Ledger.Sound.Run.{Write, write}
use overwatch_harness.Ledger.Named.{Named, upsert_operator-Named}
use overwatch_harness.Boot.Beat.{heartbeat}
use overwatch_harness.Daemon.{World, Outside}
use overwatch_harness.Daemon.Ingress.{Update, on_message}
use overwatch_harness.Daemon.Keeps.{anything, Plain, Spawning, Steps, SpawnSteps}
use overwatch_harness.Daemon.Keeps.Spawns.{Keeps-run_spawn}
use overwatch_harness.Daemon.Keeps.Updates.{Keeps-on_message}
use overwatch_harness.Daemon.System.{Turn, arrives, beats, serve, turn}

plain-Named : (x : Write) → Plain anything x → (db : Db) → Named db → Named (write x db)
unfolding write end_engagement
plain-Named x (Plain.upsert k u n t adding) db h = upsert_operator-Named k u n t db h
plain-Named x (Plain.open_engagement o s t adding) db h = elim (create_engagement-shape o s t db) [
  | inl e ↦ rw e h
  | inr e ↦ rw e h
]
plain-Named x (Plain.close_engagement k t placed) db h = h
plain-Named x (Plain.arrive i t adding) db h = elim (insert_message-shape i t db) [
  | inl e ↦ rw e h
  | inr e ↦ rw e h
]
plain-Named x (Plain.set_status k s c own) db h = elim (update_message_status-shape k s c db) [
  | inl e ↦ rw e h
  | inr e ↦ rw e h
]

spawn_path-Named : (x : Write) → Spawning anything x → (db : Db) → Named db → Named (write x db)
unfolding write attach_claude_session_id finalize_session
spawn_path-Named x (Spawning.open_session e p s t placed) db h =
    elim (create_session-shape e p s t db) [ inl q ↦ rw q h | inr q ↦ rw q h ]
spawn_path-Named x (Spawning.attach k t its) db h = h
spawn_path-Named x (Spawning.finalize k s c r d q t its) db h = h

abbrev KeepsNames : World → World → Type 0
KeepsNames w w' = Named w.db → Named w'.db

names-steps : Steps anything KeepsNames
names-steps = record {
  same = λ w h. h;
  trans = λ a b c p q h. q (p h);
  plain = λ x p w h. plain-Named x p w.db h;
  clock = λ w h. h;
  send = λ o to w h. h;
}

names-spawns : SpawnSteps anything KeepsNames
names-spawns = record {
  spawning = λ x p w h. spawn_path-Named x p w.db h;
  throttle = λ reason w h. h;
  comment = λ c w h. h;
}

module _ (out : Outside) (settings : HarnessSettings) (binary : Text) (plane : Bool) where
  pub on_message-Named :
      (allowlist : List ℤ) (u : Update) (w : World)
      → Named w.db
      → Named (on_message out settings binary plane allowlist u w).1.db
  on_message-Named allowlist u w =
      (Keeps-on_message names-steps (λ k. tt) (λ k. tt) tt out settings binary plane
          (λ m o d v to healthy.
            (Keeps-run_spawn names-steps names-spawns out settings binary plane m o d tt tt tt
                (λ k. tt)).at
              v)
          allowlist u (λ c at. tt)).at
        w

  pub turn-Named :
      (allowlist : List ℤ) (pid : ℕ) (t : Turn) (w : World)
      → Named w.db
      → Named (turn out settings binary plane allowlist pid t w).db
  turn-Named allowlist pid (arrives u) w h = on_message-Named allowlist u w h
  turn-Named allowlist pid (beats n) w h = unfold heartbeat write_heartbeat prune_heartbeats in h

  pub serve-Named :
      (allowlist : List ℤ) (pid : ℕ) (ts : List Turn) (w : World)
      → Named w.db
      → Named (serve out settings binary plane allowlist pid ts w).db
  unfolding serve
  serve-Named allowlist pid [] w h = h
  serve-Named allowlist pid (t ∷ ts) w h =
      serve-Named allowlist pid ts (turn out settings binary plane allowlist pid t w)
        (turn-Named allowlist pid t w h)
