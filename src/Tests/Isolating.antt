-- ===== src/Tests/Isolating.antt =====
-- The theorems on what an update reaches, applied.
use overwatch_harness.Prelude.{suc, any, true, false, some, none, List, [], ◌∷◌, ◌≡◌, ◌≢◌, refl}
use overwatch_harness.Text.{codes, str, str_ℤ, text_eq, text_eq_iff}
use overwatch_harness.Text.Int.{ℤ, pos}
use overwatch_harness.Models.{Message, telegram, kind_text}
use overwatch_harness.Ledger.Messages.{same_key}
use overwatch_harness.Ledger.Db.{empty, find_message}
use overwatch_harness.Ledger.Engagements.{create_engagement}
use overwatch_harness.Ledger.Operators.{
  operator_id_of, upsert_operator, insert_operator, new_operator,
}
use overwatch_harness.Ledger.Named.{Named}
use overwatch_harness.Ledger.Sound.{empty-Sound}
use overwatch_harness.Ledger.Sound.Run.{Write, run, write, run-Sound}
use overwatch_harness.Daemon.{World}
use overwatch_harness.Boot.Beat.{heartbeat}
use overwatch_harness.Ledger.Heartbeats.{write_heartbeat, prune_heartbeats}
use overwatch_harness.Daemon.Ingress.{TelegramMessage, on_chat, refuse_chat, on_message}
use overwatch_harness.Daemon.Gate.{from_chat, Silent}
use overwatch_harness.Daemon.System.{Turn, arrives, beats, serve}
use overwatch_harness.Daemon.Delivery.{delivered_once}
use overwatch_harness.Daemon.Delivery.Storing.{Carries}
use overwatch_harness.Daemon.Addressed.{Sends, Proper, only_askers_answered}
use overwatch_harness.Daemon.Isolation.{others_left_alone}
use overwatch_harness.Daemon.Isolation.Arriving.{Untouched}
use overwatch_harness.Tests.{outside, settings, allowlist, greeting, fresh}

-- An update, a stranger's update, and heartbeats.
abbrev turns : List Turn
turns =
    beats 0
    ∷ arrives (from_chat (pos 7) (some (record greeting { message_id = 11 })))
    ∷ arrives (from_chat (pos 9) (some (record greeting { message_id = 5 })))
    ∷ beats 1
    ∷ []

abbrev copy : TelegramMessage
copy = record greeting { text = some (codes "edited") }

-- Turns that bring no message from an allowed chat.
abbrev quiet : List Turn
quiet = beats 0 ∷ arrives (from_chat (pos 9) (some (record greeting { message_id = 5 }))) ∷ []

greeting_is_new :
    any
      (same_key telegram (str 12))
      (serve outside settings (codes "claude") false allowlist 77 quiet fresh).db.messages
    ≡ false
unfolding serve heartbeat prune_heartbeats write_heartbeat on_message on_chat refuse_chat
greeting_is_new = refl

delivered_once_example :
    let met = serve outside settings (codes "claude") false allowlist 77 quiet fresh in
    let first =
      (on_message outside settings
        (codes "claude")
        false
        allowlist
        (from_chat (pos 7) (some greeting))
        met).1 in
    let later = serve outside settings (codes "claude") false allowlist 77 turns first in
    (m : Message) × (find_message (suc met.db.message_seq) first.db ≡ some m)
    × Carries (pos 7) greeting m
    × (find_message (suc met.db.message_seq) later.db ≡ some m)
    × Silent later
        (on_message outside settings
          (codes "claude")
          false
          allowlist
          (from_chat (pos 7) (some copy))
          later).1
delivered_once_example =
    delivered_once outside settings (codes "claude") false allowlist 77 quiet turns (pos 7) (pos 7)
      greeting copy fresh empty-Sound tt refl refl refl greeting_is_new

only_askers_answered_example :
    Sends
      (Proper allowlist turns)
      fresh
      (serve outside settings (codes "claude") false allowlist 77 turns fresh)
only_askers_answered_example =
    only_askers_answered outside settings (codes "claude") false allowlist 77 turns fresh

-- An operator of another chat, with an engagement.
abbrev grace : List Write
grace =
    Write.upsert telegram (codes "8") (some (codes "Grace")) 5
    ∷ Write.open_engagement (codes "op:te:8") none 6
    ∷ []

abbrev with_grace : World
with_grace = record fresh { db = run grace empty }

with_grace-Named : Named with_grace.db
unfolding run write upsert_operator insert_operator new_operator operator_id_of kind_text
    create_engagement text_eq
with_grace-Named = (refl, tt)

apart : operator_id_of telegram (str_ℤ (pos 7)) ≢ codes "op:te:8"
unfolding operator_id_of str_ℤ text_eq
apart e =
    let hit : text_eq (codes "op:te:7") (codes "op:te:8") ≡ true = (text_eq_iff _ _).1 e in
    let wrong : false ≡ true = hit in absurd cc

same_chat :
    (chat : ℤ) → some (pos 7) ≡ some chat → operator_id_of telegram (str_ℤ chat) ≢ codes "op:te:8"
same_chat chat e = let one : pos 7 ≡ chat = cc in rw one at apart

others_left_alone_example :
    Untouched
      (codes "op:te:8")
      with_grace.db
      (serve outside settings
        (codes "claude")
        false
        allowlist
        77
        (beats 0 ∷ arrives (from_chat (pos 7) (some greeting)) ∷ [])
        with_grace).db
others_left_alone_example =
    others_left_alone outside settings (codes "claude") false allowlist 77 (codes "op:te:8")
      (beats 0 ∷ arrives (from_chat (pos 7) (some greeting)) ∷ []) with_grace (run-Sound grace)
      with_grace-Named (same_chat, tt)
