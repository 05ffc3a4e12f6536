-- ===== src/Tests/Starting.antt =====
-- The theorems on the start, the health and the intake of the daemon, applied.
use mathlib.Core.List.{Perm}
use overwatch_harness.Prelude.{
  ◌≤◌, Bool, true, false, not, ◌&&◌, some, List, [], ◌∷◌, ◌++◌, All, length, ◌≡◌, ◌⊎◌, refl,
  if◌then◌else◌,
}
use overwatch_harness.Prelude.Sorting.{Ascending}
use overwatch_harness.Text.{Text, codes, text_eq, str}
use overwatch_harness.Text.Int.{pos}
use overwatch_harness.Exec.{ok, err, outside_error, is_ok}
use overwatch_harness.Models.{Message, MessageStatus, Time, kind_text}
use overwatch_harness.Machine.{initial, healthy, value, can_spawn}
use overwatch_harness.Config.{allowed_chat_ids}
use overwatch_harness.Ledger.Db.{Db, empty}
use overwatch_harness.Ledger.Messages.{Inbound, new_message, list_pending_on_startup}
use overwatch_harness.Ledger.Pending.{Waiting, Past, pending_on_startup}
use overwatch_harness.Ledger.Intake.{fresh_ones, insert_all, Admissible, insert_all-fresh_ones}
use overwatch_harness.Ledger.Heartbeats.{new_heartbeat}
use overwatch_harness.Ledger.Sound.{Sound, empty-Sound}
use overwatch_harness.Selftest.{Probe, Trial, run_selftest}
use overwatch_harness.Spawner.Values.{Json, field, end, obj}
use overwatch_harness.Secrets.{loaded, secrets_error, other, unreachable}
use overwatch_harness.Http.{healthz, last_heartbeat, text_or_null}
use overwatch_harness.Http.Reports.{healthz-heartbeat, heartbeat_loop_bounded}
use overwatch_harness.Boot.{Step, Boot, run_daemon, stop_ingress}
use overwatch_harness.Boot
use overwatch_harness.Boot.Beat.{Round, heartbeat, heartbeat_loop}
use overwatch_harness.Boot.Stopping.{stop_ingress_settles}
use overwatch_harness.Boot.Trace.{up, down, goes_up, goes_down, run_daemon_in_order}
use overwatch_harness.Plane.{plane_client}
use overwatch_harness.Plane.Addresses.{slashes, plane_client-slashes}
use overwatch_harness.Tests.Loading.{held}
use overwatch_harness.Tests.Configured.{decimal}
use overwatch_harness.Tests.{hello, with_operator, settings}

abbrev round : Round
round = record { machine = record initial { state = healthy }; in_flight = 1; time = 60 }

heartbeat_loop_bounded_example :
    let after = heartbeat_loop 77 ((round ∷ round ∷ []) ++ round ∷ []) empty in
    Sound after × (length after.heartbeats ≤ 1440)
heartbeat_loop_bounded_example =
    heartbeat_loop_bounded 77 (round ∷ round ∷ []) round empty empty-Sound

healthz-heartbeat_example : healthz (λ t. str t) initial (heartbeat 77 round empty) ≡ record {
  status = if can_spawn initial then 200 else 503;
  body = obj (
      field (codes "state") (Json.str (value initial.state)) (
        field (codes "reason") (text_or_null initial.reason) (
          field
            (codes "last_heartbeat")
            (last_heartbeat
              (λ t. str t)
              (some (new_heartbeat 1 77 round.machine.state 1 round.machine.reason 60)))
            end)));
}
healthz-heartbeat_example = healthz-heartbeat (λ t. str t) 77 round initial empty tt

-- Two messages that wait, and between them one that was routed.
abbrev two_pending : Db
two_pending = record with_operator {
  messages =
      record (new_message 3 (record hello { channel_msg_id = codes "14" }) 5) {
        status = MessageStatus.classifying;
      }
      ∷ record (new_message 2 (record hello { channel_msg_id = codes "13" }) 7) {
        status = MessageStatus.routed;
      }
      ∷ new_message 1 hello 6
      ∷ [];
  message_seq = 3;
}

pending_on_startup_example :
    (rest : List Message) × Perm (list_pending_on_startup two_pending ++ rest) two_pending.messages
    × All Waiting (list_pending_on_startup two_pending)
    × All Past rest
    × Ascending (λ (m : Message). m.received_at) (list_pending_on_startup two_pending)
pending_on_startup_example = pending_on_startup two_pending

abbrev arrivals : List (Inbound × Time)
arrivals = (hello, 6) ∷ (record hello { channel_msg_id = codes "13" }, 7) ∷ (hello, 8) ∷ []

arrivals-Admissible : All (Admissible with_operator) arrivals
unfolding text_eq
arrivals-Admissible = ((refl, refl), ((refl, refl), ((refl, refl), tt)))

insert_all-fresh_ones_example :
    insert_all arrivals with_operator ≡ fresh_ones arrivals (λ kind id. false)
insert_all-fresh_ones_example =
    insert_all-fresh_ones arrivals with_operator (λ kind id. false) (λ kind id. refl)
      arrivals-Admissible

arrivals_answers : fresh_ones arrivals (λ kind id. false) ≡ true ∷ true ∷ false ∷ []
unfolding fresh_ones text_eq kind_text
arrivals_answers = refl

plane_client-slashes_example :
    plane_client
      (codes "https://plane" ++ slashes 2)
      (codes "ws")
      (codes "p1")
      (Json.str (codes "key"))
      false
    ≡ plane_client (codes "https://plane") (codes "ws") (codes "p1") (Json.str (codes "key")) false
plane_client-slashes_example =
    plane_client-slashes 2 (codes "https://plane") (codes "ws") (codes "p1")
      (Json.str (codes "key")) false

-- A start whose long poll fails.
abbrev is_start_polling : Step → Bool
is_start_polling Step.start_polling = true
is_start_polling _ = false

abbrev no_poll : Step → Bool
no_poll s = not (is_start_polling s)

abbrev quoted : Text → Text
quoted t = t

abbrev probe : Probe
probe = Probe.ended (pos 0) (codes "2.0") []

run_daemon_in_order_example :
    (run_daemon no_poll decimal quoted settings
        (secrets_error (unreachable (codes "vault")))
        probe
        Trial.overdue
        Boot.fresh
      ≡ (ok 78, Boot.fresh))
    × (run_daemon no_poll decimal quoted settings other probe Trial.overdue Boot.fresh
        ≡ (err outside_error, Boot.fresh))
    × (let r =
          run_daemon no_poll decimal quoted settings (loaded held) probe Trial.overdue Boot.fresh in
        (is_ok r.0 ≡ (
          goes_up no_poll
            (run_selftest quoted settings.selftest_command settings.selftest_timeout_seconds probe
              Trial.overdue)
            (allowed_chat_ids decimal settings)
          && goes_down no_poll))
        × (((is_ok r.0 ≡ true) × (r.1.steps ≡ up ++ down))
            ⊎ ((is_ok r.0 ≡ false) × ((rest : List Step) × (r.1.steps ++ rest ≡ up ++ down)))))
run_daemon_in_order_example =
    run_daemon_in_order no_poll decimal quoted settings held probe Trial.overdue
      (unreachable (codes "vault"))

abbrev polling : Boot
polling = record Boot.fresh { has_app = true }

-- The stop of the updater raises.
abbrev is_stop_updater : Step → Bool
is_stop_updater Step.stop_updater = true
is_stop_updater _ = false

abbrev no_stop : Step → Bool
no_stop s = not (is_stop_updater s)

stop_ingress_settles_example :
    let r = stop_ingress no_stop polling in
    (r.1.steps ≡ [] ++ Step.stop_updater ∷ Step.stop_app ∷ Step.shut_down_app ∷ [])
    × (is_ok r.0 ≡ (no_stop Step.stop_updater && no_stop Step.shut_down_app))
    × (r.1.has_app ≡ not (is_ok r.0))
stop_ingress_settles_example = stop_ingress_settles no_stop polling refl refl
