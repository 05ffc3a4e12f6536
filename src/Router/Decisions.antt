-- ===== src/Router/Decisions.antt =====
-- What `decide` of src/harness/router.py comes to.
use overwatch_harness.Prelude.{
  ℕ, suc, true, Option, none, some, ◌++◌, take, ◌≡◌, refl, inl, inr, arith, Option-cases, ◌≤◌,
  subst,
}
use overwatch_harness.Prelude.Table.{All-find}
use overwatch_harness.Text.{Text, codes}
use overwatch_harness.Exec.{Result, ok}
use overwatch_harness.Models.{Engagement, Session, Time}
use overwatch_harness.Ledger.Db.{Db, engagement_key, find_engagement, find_session, has_operator}
use overwatch_harness.Ledger.Engagements.{new_engagement, get_active_engagement, create_engagement}
use overwatch_harness.Ledger.Sound.{Sound, EngagementRefs, CurrentOf}
use overwatch_harness.Ledger.Sound.Engagements
use overwatch_harness.Ledger.Active.{Current, active_engagement-Current, active_engagement_latest}
use overwatch_harness.Router.{
  RouteDecision, parse_slash, decide_with, resume_or_new, slash_decision, resume_decision,
  new_decision, decide,
}

-- An open engagement of the operator that is in the ledger.
pub record Placed (who : Text) (db : Db) (e : Engagement) : Type 0 where
  pub found : find_engagement e.engagement_id db ≡ some e
  pub owner : e.operator_id ≡ who
  pub not_ended : e.ended_at ≡ none

-- What is decided of a text that parses to `slash`: a command is run; a session is resumed under
-- its claude id where the engagement has a current one, which is then a session of that engagement,
-- and the ledger stays as it was; a new one is opened where it has none.
pub data Follows (slash : Option (Text × Text)) (db db' : Db) : RouteDecision → Type 0 where
  commanded :
      (e : Engagement) (name args : Text)
      → slash ≡ some (name, args)
      → Follows slash db db' (slash_decision name args e)
  resumed :
      (e : Engagement) (k : ℕ) (s : Session)
      → slash ≡ none
      → e.current_session_id ≡ some k
      → find_session k db ≡ some s
      → s.engagement_id ≡ e.engagement_id
      → db' ≡ db
      → Follows slash db db' (resume_decision e s)
  opened :
      (e : Engagement)
      → slash ≡ none
      → e.current_session_id ≡ none
      → Follows slash db db' (new_decision e)

-- Which engagement is decided for: of the operator's open ones with an activity within the window,
-- one with the latest activity, and then the ledger stays as it was; where there is none, one that
-- was not in the ledger before.
pub data Chosen (window : ℕ) (who : Text) (seen : Time) (db db' : Db) (e : Engagement)
    : Type 0 where
  continued :
      find_engagement e.engagement_id db ≡ some e
      → Current who window seen e
      → ((k : ℕ) (x : Engagement)
          → find_engagement k db ≡ some x
          → Current who window seen x
          → x.last_activity_at ≤ e.last_activity_at)
      → db' ≡ db
      → Chosen window who seen db db' e
  begun :
      ((k : ℕ) (x : Engagement) → find_engagement k db ≡ some x → Current who window seen x → ⊥)
      → e.engagement_id ≡ suc db.engagement_seq
      → Chosen window who seen db db' e

abbrev Outcome :
    Option (Text × Text)
    → Text
    → Db
    → (Db → Engagement → Type 0)
    → Result RouteDecision × Db
    → Type 0
Outcome slash who db chosen r =
    (d : RouteDecision) × (r.0 ≡ ok d)
    × Placed who r.1 d.engagement
    × Follows slash db r.1 d
    × chosen r.1 d.engagement

-- A known operator's new engagement.
create_engagement-inserted :
    (who : Text) (summary : Option Text) (now : Time) (db : Db)
    → has_operator who db ≡ true
    → create_engagement who summary now db ≡ (
      ok (new_engagement (suc db.engagement_seq) who summary now),
      Engagements.inserted who summary now db,
    )
unfolding create_engagement
create_engagement-inserted who summary now db known = ground (arith, known)

new-Placed :
    (who : Text) (summary : Option Text) (now : Time) (db : Db)
    → Placed who
        (Engagements.inserted who summary now db)
        (new_engagement (suc db.engagement_seq) who summary now)
new-Placed who summary now db = record { found = ground arith; owner = refl; not_ended = refl }

module _ (who body : Text) (now : Time) (db : Db) (h : Sound db)
    (chosen : Db → Engagement → Type 0) where
  without_active :
      (slash : Option (Text × Text))
      → has_operator who db ≡ true
      → ((summary : Option Text)
          → chosen
              (Engagements.inserted who summary now db)
              (new_engagement (suc db.engagement_seq) who summary now))
      → Outcome slash who db chosen (decide_with who body now slash none db)
  unfolding decide_with
  without_active none known new =
      rw (create_engagement-inserted who (some (take 80 body)) now db known)
        (_, refl, new-Placed who _ now db, Follows.opened _ refl refl, new _)
  without_active (some (name, args)) known new =
      rw (create_engagement-inserted who (some (codes "slash: /" ++ name)) now db known)
        (_, refl, new-Placed who _ now db, Follows.commanded _ name args refl, new _)

  resumes :
      (e : Engagement)
      → Placed who db e
      → chosen db e
      → (k : Option ℕ) → e.current_session_id ≡ k
      → CurrentOf db e.engagement_id k
      → Outcome none who db chosen (resume_or_new k e db)
  unfolding resume_or_new
  resumes e placed old none has current = (_, refl, placed, Follows.opened e refl has, old)
  resumes e placed old (some k) has (s, found, own) =
      rw found (_, refl, placed, Follows.resumed e k s refl has found own refl, old)

  with_active :
      (slash : Option (Text × Text)) (e : Engagement)
      → Placed who db e
      → chosen db e
      → CurrentOf db e.engagement_id e.current_session_id
      → Outcome slash who db chosen (decide_with who body now slash (some e) db)
  unfolding decide_with
  with_active (some (name, args)) e placed old current =
      (_, refl, placed, Follows.commanded e name args refl, old)
  with_active none e placed old current = resumes e placed old e.current_session_id refl current

none-Current :
    (window : ℕ) (who : Text) (seen : Time) (db : Db)
    → get_active_engagement who window seen db ≡ none
    → (k : ℕ) (x : Engagement) → find_engagement k db ≡ some x
    → Current who window seen x
    → ⊥
none-Current window who seen db idle k x there c =
    let (e, picked, le) = active_engagement_latest who window seen db k x there c in
    let wrong : none ≡ some e = cc in absurd cc

latest-Current :
    (window : ℕ) (who : Text) (seen : Time) (db : Db) (e : Engagement)
    → get_active_engagement who window seen db ≡ some e
    → (k : ℕ) (x : Engagement) → find_engagement k db ≡ some x
    → Current who window seen x
    → x.last_activity_at ≤ e.last_activity_at
latest-Current window who seen db e active k x there c =
    let (f, picked, le) = active_engagement_latest who window seen db k x there c in
    let same : f ≡ e = cc in
    subst (λ (g : Engagement). x.last_activity_at ≤ g.last_activity_at) same le

-- In a well-formed ledger that knows the message's operator, `decide` raises nothing, and decides
-- as `Follows` says for an open engagement of that operator that is in the ledger afterwards, the
-- one that `Chosen` says.
pub decide-Follows :
    (window : ℕ) (who body : Text) (seen now : Time) (db : Db)
    → Sound db
    → has_operator who db ≡ true
    → let r = decide window who body seen now db in
      (d : RouteDecision) × (r.0 ≡ ok d)
      × Placed who r.1 d.engagement
      × Follows (parse_slash body) db r.1 d
      × Chosen window who seen db r.1 d.engagement
unfolding decide
decide-Follows window who body seen now db h known =
    elim (Option-cases (get_active_engagement who window seen db)) [
      | inl idle ↦ rw idle (
          without_active who body now db h (Chosen window who seen db) (parse_slash body) known
            (λ summary. Chosen.begun (none-Current window who seen db idle) refl))
      | inr (e, active) ↦
          let (found, c) = active_engagement-Current who window seen db e h active in
          let placed : Placed who db e = record {
            found = found;
            owner = c.owner;
            not_ended = c.not_ended;
          } in
          let refs : EngagementRefs db e =
            All-find engagement_key (EngagementRefs db) e.engagement_id db.engagements {x = e}
              h.engagement_refs found in
          let chosen = Chosen.continued found c (latest-Current window who seen db e active) refl in
          rw active (
            with_active who body now db h (Chosen window who seen db) (parse_slash body) e placed
              chosen refs.current)
    ]
