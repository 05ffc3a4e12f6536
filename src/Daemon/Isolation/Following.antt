-- ===== src/Daemon/Isolation/Following.antt =====
-- The spawn path and the slash commands, behind the decision.
use overwatch_harness.Prelude.{
  ℕ, suc, Bool, ◌&&◌, ◌<◌, ◌≡◌, Option, none, some, refl, inl, inr, arith, Bool-cases,
}
use overwatch_harness.Text.{Text}
use overwatch_harness.Exec.{Result, ok, err, continue}
use overwatch_harness.Config.{HarnessSettings}
use overwatch_harness.Models.{Session, Message, Time}
use overwatch_harness.Ledger.Db.{Db, has_engagement, has_session}
use overwatch_harness.Ledger.Sessions.{create_session}
use overwatch_harness.Ledger.Sound.Run.{Write, write}
use overwatch_harness.Router.{RouteDecision}
use overwatch_harness.Daemon.{World, Outside, ◌>>=◌, on_db, now}
use overwatch_harness.Daemon.Dispatch.{Origin, run_spawn, run_session, follow}
use overwatch_harness.Daemon.Keeps.{Spawning}
use overwatch_harness.Daemon.Keeps.Handlers.{Keeps-follow}
use overwatch_harness.Daemon.Keeps.Spawns.{Keeps-session}
use overwatch_harness.Daemon.Isolation.Spares.{
  Spares, Sparing, Spares-then, nothing_done, tail_steps, tail_spawns,
}

-- The session that `create_session` returns has the next key.
create_session-key :
    (e : ℕ) (prompt : Text) (parent : Option ℕ) (at : Time) (db : Db) (s : Session)
    → (create_session e prompt parent at db).0 ≡ ok s
    → s.session_id ≡ suc db.session_seq
unfolding create_session
create_session-key e prompt parent at db s h =
    elim (Bool-cases (has_engagement (some e) db && has_session parent db)) [
      | inl known ↦ ground (arith, (rw known at h))
      | inr unknown ↦ absurd (ground (arith, unknown, h))
    ]

module _ (out : Outside) (settings : HarnessSettings) (binary : Text) (plane : Bool) (m : Message)
    (o : Origin) (n : ℕ) where
  -- Behind `create_session`, which returned a later session or raised.
  behind_session :
      (place : ℕ) (d : RouteDecision) (r : Result Session) (w : World)
      → ((s : Session) → r ≡ ok s → n < s.session_id)
      → Sparing m.message_id place n w
          (continue r (λ s. run_session out settings binary plane m o d s) w).1
  behind_session place d (ok s) w later h =
      (Keeps-session (tail_steps m.message_id place n) (tail_spawns m.message_id place n) out
          settings binary plane m o d s refl tt (later s refl)).at
        w h
  behind_session place d (err e) w later h = nothing_done m.message_id place n w.db h

  run_spawn-Sparing :
      (d : RouteDecision) (place : ℕ) (w : World)
      → d.engagement.engagement_id ≡ place
      → Sparing m.message_id place n w (run_spawn out settings binary plane m o d w).1
  unfolding run_spawn ◌>>=◌ now on_db
  run_spawn-Sparing d place w placed h =
      let at = out.clock w.reads in
      let made = create_session d.engagement.engagement_id m.body none at w.db in
      let opened : Spares m.message_id place n w.db made.1 =
        unfold write in
        (tail_spawns m.message_id place n).spawning
          (Write.open_session d.engagement.engagement_id m.body none at)
          (Spawning.open_session d.engagement.engagement_id m.body none at placed) w h in
      Spares-then m.message_id place n w.db made.1 _ opened (
        behind_session place d made.0 (record w { db = made.1; reads = suc w.reads })
          (λ s returned. omega (
            arith,
            h,
            create_session-key d.engagement.engagement_id m.body none at w.db s returned,
          ))
          opened.counted)

  pub follow-Sparing :
      (d : RouteDecision) (w : World)
      → Sparing m.message_id d.engagement.engagement_id n w
          (follow out settings binary plane m o d w).1
  follow-Sparing d w =
      (Keeps-follow (tail_steps m.message_id d.engagement.engagement_id n) out settings binary plane
          m o refl tt
          (λ e v placed healthy. run_spawn-Sparing e d.engagement.engagement_id v placed) d refl).at
        w
