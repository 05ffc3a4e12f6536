-- ===== src/Tests/Configured.antt =====
-- The theorems on the settings, the slots and the migrations, applied.
use overwatch_harness.Prelude.{
  ℕ, ◌+◌, ◌-◌, ◌≤◌, ◌<◌, false, ◌&&◌, Option, none, some, List, [], ◌∷◌, ◌++◌, All, leb, length,
  ◌≡◌, ◌⊎◌, refl, arith, if◌then◌else◌,
}
use overwatch_harness.Prelude.Sorting.{Ascending}
use overwatch_harness.Text.{codes, text_eq, is_space}
use overwatch_harness.Text.Int.{ℤ, pos, negsuc}
use overwatch_harness.Exec.{ok}
use overwatch_harness.Config.{HarnessSettings, allowed_chat_ids, strip_allowlist}
use overwatch_harness.Config.Allowlist.{joined, allowed_chat_ids-joined}
use overwatch_harness.Daemon.Ingress.{refusal_note, on_message}
use overwatch_harness.Daemon.Gate.{from_chat}
use overwatch_harness.Daemon.Closed.{Blank, closed_allowlist_refuses}
use overwatch_harness.Spawner.Slots.{Event, create, history}
use overwatch_harness.Spawner.Slots.Counts.{count_waiting, count_granted, InOrder}
use overwatch_harness.Spawner.Slots.Bounded.{history-Fair}
use overwatch_harness.Migrations.{File, Sqlite, apply_migrations, discover_migrations, head}
use overwatch_harness.Migrations.Reruns.{
  Records, Runs, above, newer, apply_migrations_again, apply_migrations_ascend,
}
use overwatch_harness.Tests.{outside, settings, greeting, fresh}

abbrev pub decimal : ℕ → Option ℕ
decimal c = if leb 48 c && leb c 57 then some (c - 48) else none

ascii_digits : (d : ℕ) → d < 10 → decimal (b'0' + d) ≡ some d
ascii_digits d h = ground arith

abbrev chats : List ℤ
chats = pos 7 ∷ negsuc 1001234 ∷ []

allowed_chat_ids-joined_example :
    allowed_chat_ids decimal (record settings { telegram_allowlist = joined chats }) ≡ ok chats
allowed_chat_ids-joined_example =
    allowed_chat_ids-joined decimal ascii_digits settings chats (omega arith, (omega arith, tt))

abbrev unset : HarnessSettings
unset = record settings { telegram_allowlist = codes "  " }

unset-Blank : Blank (codes "  ")
unfolding is_space
unset-Blank = (refl, (refl, tt))

closed_allowlist_refuses_example :
    (allowed_chat_ids decimal (strip_allowlist unset) ≡ ok [])
    × (let r =
          on_message outside
            (strip_allowlist unset)
            (codes "claude")
            false
            []
            (from_chat (pos 7) (some greeting))
            fresh in
        (r.0 ≡ ok tt)
        × ((r.1 ≡ fresh) ⊎ (r.1 ≡ record fresh { sent = [] ++ refusal_note (pos 7) ∷ [] })))
closed_allowlist_refuses_example =
    closed_allowlist_refuses decimal outside unset (codes "claude") false (pos 7) (some greeting)
      fresh unset-Blank

-- Two slots, four calls; one of those that wait is cancelled.
abbrev events : List Event
events =
    Event.begins 1
    ∷ Event.begins 2
    ∷ Event.begins 3
    ∷ Event.begins 4
    ∷ Event.cancels 0
    ∷ Event.ends 1
    ∷ Event.begins 5
    ∷ Event.resumes 0
    ∷ []

history-Fair_example :
    let s = history events (create 2) in
    (s.in_flight ≤ 2)
    × (s.in_flight ≡ length s.running)
    × InOrder s.waiters
    × ((count_waiting s.waiters ≡ 0)
        ⊎ (length s.running + count_granted s.waiters ≡ 2)
        ⊎ (1 ≤ count_granted s.waiters))
history-Fair_example = history-Fair 2 events

events_running : (history events (create 2)).running ≡ 4 ∷ 2 ∷ []
unfolding history
events_running = refl

-- A database that is its head, and a script that is its version.
abbrev sqlite : Sqlite ℕ
sqlite = record { max_version = λ d. some d; execute = λ script d. (ok tt, d + length script) }

abbrev listing : Option (List File)
listing = some (
    record { name = codes "0002_more.sql"; script = codes "ab" }
    ∷ record { name = codes "0001_init.sql"; script = codes "a" }
    ∷ record { name = codes "notes.sql"; script = codes "no migration" }
    ∷ [])

discovered :
    discover_migrations decimal listing
    ≡ (1, record { name = codes "0001_init.sql"; script = codes "a" })
      ∷ (2, record { name = codes "0002_more.sql"; script = codes "ab" })
      ∷ []
unfolding discover_migrations text_eq
discovered = refl

enters : All (Records sqlite) (discover_migrations decimal listing)
enters =
    rw discovered ((λ d h. (omega arith, omega arith)), ((λ d h. (omega arith, omega arith)), tt))

first_run : (apply_migrations sqlite (discover_migrations decimal listing) 0).0 ≡ ok (1 ∷ 2 ∷ [])
unfolding apply_migrations discover_migrations text_eq
first_run = refl

apply_migrations_again_example :
    let ms = discover_migrations decimal listing in
    let after = (apply_migrations sqlite ms 0).1 in
    apply_migrations sqlite ms after ≡ (ok [], after)
apply_migrations_again_example =
    apply_migrations_again sqlite (discover_migrations decimal listing) 0 (1 ∷ 2 ∷ []) enters
      first_run

apply_migrations_ascend_example :
    let ms = discover_migrations decimal listing in
    Runs sqlite (above sqlite (head sqlite 0) ms) 0 (apply_migrations sqlite ms 0).1
    × (1 ∷ 2 ∷ [] ≡ newer sqlite (head sqlite 0) ms)
    × Ascending (λ (v : ℕ). v) (1 ∷ 2 ∷ [])
apply_migrations_ascend_example =
    apply_migrations_ascend sqlite decimal listing 0 (1 ∷ 2 ∷ []) first_run
