-- ===== src/Tests/Serving.antt =====
-- The theorems on the daemon as a whole, applied.
use overwatch_harness.Prelude.{false, some, List, [], ◌∷◌, refl}
use overwatch_harness.Text.{codes, str, text_eq}
use overwatch_harness.Text.Int.{pos}
use overwatch_harness.Models.{telegram, kind_text}
use overwatch_harness.Ledger.Db.{empty}
use overwatch_harness.Ledger.Messages.{insert_message, same_key}
use overwatch_harness.Ledger.Sound.{empty-Sound}
use overwatch_harness.Ledger.Sound.Run.{Write, run, write, run-Sound}
use overwatch_harness.Ledger.Operators.{upsert_operator}
use overwatch_harness.Ledger.Replay.{Known}
use overwatch_harness.Daemon.{World}
use overwatch_harness.Daemon.Ingress.{on_message}
use overwatch_harness.Daemon.Trail.{Extended}
use overwatch_harness.Daemon.Gate.{from_chat, Silent}
use overwatch_harness.Daemon.System.{Turn, arrives, beats, serve, serve-Extended, served_once}
use overwatch_harness.Tests.{outside, settings, allowlist, greeting, fresh, hello}

abbrev turns : List Turn
turns = beats 0 ∷ arrives (from_chat (pos 7) (some greeting)) ∷ beats 1 ∷ []

serve-Extended_example :
    Extended empty (serve outside settings (codes "claude") false allowlist 77 turns fresh).db
serve-Extended_example =
    serve-Extended outside settings (codes "claude") false allowlist 77 turns fresh empty-Sound

-- The message came in an earlier run of the daemon.
abbrev restarted : World
restarted = record fresh {
  db =
      run (Write.upsert telegram (codes "7") (some (codes "Ada")) 5 ∷ Write.arrive hello 7 ∷ [])
        empty;
}

restarted-Known : Known telegram (str 12) restarted.db
unfolding str same_key text_eq kind_text run write upsert_operator insert_message
restarted-Known = refl

served_once_example :
    let later = serve outside settings (codes "claude") false allowlist 77 turns restarted in
    Silent later
      (on_message outside settings
        (codes "claude")
        false
        allowlist
        (from_chat (pos 7) (some greeting))
        later).1
served_once_example =
    served_once outside settings (codes "claude") false allowlist 77 turns (pos 7) greeting
      restarted
      (run-Sound
        (Write.upsert telegram (codes "7") (some (codes "Ada")) 5 ∷ Write.arrive hello 7 ∷ []))
      restarted-Known refl
