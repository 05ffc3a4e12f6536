-- ===== src/Tests/Routing.antt =====
-- The routing theorems, applied to a ledger of one operator with two engagements.
use overwatch_harness.Prelude.{
  ◌≤◌, true, none, some, List, [], ◌∷◌, ◌≡◌, ◌≢◌, ◌++◌, inl, refl, arith,
}
use overwatch_harness.Text.{Text, codes, text_eq, drop_while, is_space}
use overwatch_harness.Exec.{ok}
use overwatch_harness.Models.{telegram, Engagement}
use overwatch_harness.Ledger.Db.{empty, find_engagement, has_operator}
use overwatch_harness.Ledger.Engagements.{
  new_engagement, get_active_engagement, create_engagement, end_engagement,
}
use overwatch_harness.Ledger.Operators.{upsert_operator}
use overwatch_harness.Ledger.Sound.Run.{Write, run, write, run-Sound}
use overwatch_harness.Ledger.Active.{
  Current, active_engagement-Current, active_engagement_latest, end_engagement_inactive,
}
use overwatch_harness.Router.{RouteDecision, parse_slash, decide}
use overwatch_harness.Router.Commands.{Trimmed, parse_slash-command}
use overwatch_harness.Router.Decisions.{Placed, Follows, Chosen, decide-Follows}

abbrev ada : Text
ada = codes "op:te:7"

abbrev opened : List Write
opened =
    Write.upsert telegram (codes "7") none 5
    ∷ Write.open_engagement ada none 6
    ∷ Write.open_engagement ada (some (codes "second")) 9
    ∷ []

abbrev second : Engagement
second = new_engagement 2 ada (some (codes "second")) 9

abbrev first : Engagement
first = new_engagement 1 ada none 6

active_second : get_active_engagement ada 1800 100 (run opened empty) ≡ some second
unfolding run write get_active_engagement upsert_operator create_engagement text_eq
active_second = refl

active_engagement-Current_example :
    (find_engagement 2 (run opened empty) ≡ some second) × Current ada 1800 100 second
active_engagement-Current_example =
    active_engagement-Current ada 1800 100 (run opened empty) second (run-Sound opened)
      active_second

found_first : find_engagement 1 (run opened empty) ≡ some first
unfolding run write upsert_operator create_engagement text_eq
found_first = refl

active_engagement_latest_example :
    (e : Engagement) × (get_active_engagement ada 1800 100 (run opened empty) ≡ some e)
    × (6 ≤ e.last_activity_at)
active_engagement_latest_example =
    active_engagement_latest ada 1800 100 (run opened empty) 1 first found_first
      (record { owner = refl; not_ended = refl; recent = omega arith })

active_first :
    get_active_engagement ada 1800 100 (end_engagement 2 50 (run opened empty)) ≡ some first
unfolding run write get_active_engagement upsert_operator create_engagement end_engagement text_eq
active_first = refl

end_engagement_inactive_example : first.engagement_id ≢ 2
end_engagement_inactive_example =
    end_engagement_inactive ada 1800 2 50 100 (run opened empty) first (run-Sound opened)
      active_first

known_ada : has_operator ada (run opened empty) ≡ true
unfolding run write upsert_operator create_engagement text_eq
known_ada = refl

decide-Follows_example :
    let r = decide 1800 ada (codes "/end now") 100 101 (run opened empty) in
    (d : RouteDecision) × (r.0 ≡ ok d)
    × Placed ada r.1 d.engagement
    × Follows (parse_slash (codes "/end now")) (run opened empty) r.1 d
    × Chosen 1800 ada 100 (run opened empty) r.1 d.engagement
decide-Follows_example =
    decide-Follows 1800 ada (codes "/end now") 100 101 (run opened empty) (run-Sound opened)
      known_ada

trimmed : Trimmed (codes "now, please")
unfolding drop_while is_space
trimmed = (refl, refl)

parse_slash-command_example :
    parse_slash ((b'/' ∷ codes "end") ++ b' ' ∷ codes "now, please")
    ≡ some (codes "end", codes "now, please")
parse_slash-command_example =
    parse_slash-command b'e' (codes "nd") (codes "now, please") (omega arith, omega arith)
      (inl (omega arith, omega arith), (inl (omega arith, omega arith), tt)) trimmed
