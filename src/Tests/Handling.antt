-- ===== src/Tests/Handling.antt =====
-- The theorem on the end of a message's handling, applied to a message of the ledger.
use overwatch_harness.Prelude.{false, List, some, [], ◌∷◌, ◌≡◌, ◌⊎◌, refl}
use overwatch_harness.Text.{codes, text_eq}
use overwatch_harness.Text.Int.{pos}
use overwatch_harness.Exec.{ok, err, cancelled_error}
use overwatch_harness.Models.{Message, done, failed}
use overwatch_harness.Ledger.Db.{empty, find_message}
use overwatch_harness.Ledger.Messages.{new_message, insert_message, same_key}
use overwatch_harness.Ledger.Operators.{upsert_operator}
use overwatch_harness.Ledger.Sound.Run.{run, write, run-Sound, Write}
use overwatch_harness.Models.{telegram, kind_text}
use overwatch_harness.Daemon.{World}
use overwatch_harness.Daemon.Ingress.{hand_over}
use overwatch_harness.Daemon.Settled.{hand_over_settles}
use overwatch_harness.Daemon.Answered.{answered_or_failed}
use overwatch_harness.Daemon.Answered.Telling.{Told}
use overwatch_harness.Tests.{hello, outside, settings, greeting, fresh}

abbrev arrived : List Write
arrived = Write.upsert telegram (codes "7") (some (codes "Ada")) 5 ∷ Write.arrive hello 7 ∷ []

abbrev waiting : World
waiting = record fresh { db = run arrived empty }

there : find_message 1 waiting.db ≡ some (new_message 1 hello 7)
unfolding run write upsert_operator insert_message text_eq same_key kind_text
there = refl

hand_over_settles_example :
    let r =
      hand_over outside settings
        (codes "claude")
        false
        (pos 7)
        greeting
        (some (new_message 1 hello 7))
        waiting in
    (r.0 ≡ err cancelled_error)
    ⊎ ((r.0 ≡ ok tt)
        × ((m : Message) × (find_message 1 r.1.db ≡ some m)
            × ((m.status ≡ done) ⊎ (m.status ≡ failed))))
hand_over_settles_example =
    hand_over_settles outside settings (codes "claude") false (pos 7) greeting
      (new_message 1 hello 7) waiting (run-Sound arrived) there

answered_or_failed_example :
    let r =
      hand_over outside settings
        (codes "claude")
        false
        (pos 7)
        greeting
        (some (new_message 1 hello 7))
        waiting in
    (r.0 ≡ err cancelled_error)
    ⊎ Told (pos 7) waiting r.1
    ⊎ ((m : Message) × (find_message 1 r.1.db ≡ some m) × (m.status ≡ failed))
answered_or_failed_example =
    answered_or_failed outside settings (codes "claude") false (pos 7) greeting
      (new_message 1 hello 7) waiting (run-Sound arrived) there
