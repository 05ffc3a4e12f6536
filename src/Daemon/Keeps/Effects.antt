-- ===== src/Daemon/Keeps/Effects.antt =====
-- What the router and the slash commands do to the tables: at most one write.
use overwatch_harness.Prelude.{
  ℕ, Option, none, some, ◌≡◌, refl, ◌⊎◌, inl, inr, Bool-cases, Option-cases,
}
use overwatch_harness.Exec.{continue_state, pure, ◌>>=◌}
use overwatch_harness.Text.{Text}
use overwatch_harness.Config.{HarnessSettings}
use overwatch_harness.Models.{Engagement, Time, is_active}
use overwatch_harness.Ledger.Db.{Db}
use overwatch_harness.Ledger.Engagements.{get_active_engagement, create_engagement}
use overwatch_harness.Ledger.Sound.Run.{Write, write}
use overwatch_harness.Router.{
  decide, decide_with, resume_or_new, parse_slash, new_decision, slash_decision, RouteDecision,
  resume_decision,
}
use overwatch_harness.Ledger.Sessions.{get_session}
use overwatch_harness.Slash

-- The tables that `decide` leaves: as they were, or with a new engagement of the operator.
abbrev pub Decided : Text → Time → Db → Db → Type 0
Decided who at db db' =
    (db' ≡ db) ⊎ ((s : Option Text) × (db' ≡ write (Write.open_engagement who s at) db))

created :
    (who summary : Text) (at : Time) (f : Engagement → RouteDecision) (db : Db)
    → Decided who at db ((create_engagement who (some summary) at >>= λ e. pure (f e)) db).1
created who summary at f db = inr (
  some summary,
  unfold write in
      continue_state (create_engagement who (some summary) at db).0 (λ e. pure (f e))
        (create_engagement who (some summary) at db).1 (λ e. refl),
)

resume_or_new-state : (k : Option ℕ) (e : Engagement) (db : Db) → (resume_or_new k e db).1 ≡ db
unfolding resume_or_new
resume_or_new-state none e db = refl
resume_or_new-state (some k) e db =
    continue_state (get_session k db).0 (λ s. pure (resume_decision e s)) db (λ s. refl)

decide_with-Decided :
    (who body : Text) (at : Time) (slash : Option (Text × Text)) (active : Option Engagement)
    (db : Db)
    → Decided who at db (decide_with who body at slash active db).1
decide_with-Decided who body at none none db =
    unfold decide_with in created who _ at new_decision db
decide_with-Decided who body at none (some e) db =
    unfold decide_with in inl (resume_or_new-state e.current_session_id e db)
decide_with-Decided who body at (some (name, args)) none db =
    unfold decide_with in created who _ at (slash_decision name args) db
decide_with-Decided who body at (some (name, args)) (some e) db = unfold decide_with in inl refl

pub decide-Decided :
    (window : ℕ) (who body : Text) (seen at : Time) (db : Db)
    → Decided who at db (decide window who body seen at db).1
decide-Decided window who body seen at db =
    unfold decide in
    decide_with-Decided who body at (parse_slash body) (get_active_engagement who window seen db) db

-- What the dispatch of a slash command leaves of the tables.
abbrev pub Ended : Engagement → Time → Db → Db → Type 0
Ended e at db db' = (db' ≡ db) ⊎ (db' ≡ write (Write.close_engagement e.engagement_id at) db)

handle-Ended :
    (iso : Time → Text) (c : Slash.Command) (settings : HarnessSettings) (e : Engagement)
    (at : Time) (db : Db)
    → Ended e at db (Slash.handle iso c settings e at db).1
unfolding Slash.handle write
handle-Ended iso Slash.help settings e at db = inl refl
handle-Ended iso Slash.status settings e at db = inl refl
handle-Ended iso Slash.sessions settings e at db = inl refl
handle-Ended iso Slash.end settings e at db = elim (Bool-cases (is_active e)) [
  | inl active ↦ inr (rw (active, Slash.cmd_end))
  | inr ended ↦ inl (rw (ended, Slash.cmd_end))
]
handle-Ended iso Slash.new settings e at db = elim (Bool-cases (is_active e)) [
  | inl active ↦ inr (rw active)
  | inr ended ↦ inl (rw ended)
]

pub slash-Ended :
    (iso : Time → Text) (name : Text) (settings : HarnessSettings) (e : Engagement) (at : Time)
    (db : Db)
    → Ended e at db (Slash.dispatch iso name settings e at db).1
unfolding Slash.dispatch
slash-Ended iso name settings e at db = elim (Option-cases (Slash.command_of name)) [
  | inl unknown ↦ inl (rw (unknown, Slash.dispatch))
  | inr (c, known) ↦ rw (known, Slash.dispatch) (handle-Ended iso c settings e at db)
]
