-- ===== src/Daemon/Delivery.antt =====
-- Delivery from end to end: a message that the ingress has taken is stored whole, and taken once.
pub mod Names
pub mod Storing
use overwatch_harness.Prelude.{ℕ, suc, Bool, true, false, some, any, List, ◌≡◌, refl, arith}
use overwatch_harness.Text.{Text, str, text_eq_iff}
use overwatch_harness.Text.Int.{ℤ}
use overwatch_harness.Config.{HarnessSettings}
use overwatch_harness.Models.{telegram, kind_text, Message}
use overwatch_harness.Ledger.Db.{find_message}
use overwatch_harness.Ledger.Messages.{same_key}
use overwatch_harness.Ledger.Named.{Named}
use overwatch_harness.Ledger.Sound.{Sound}
use overwatch_harness.Daemon.{World, Outside}
use overwatch_harness.Daemon.Ingress.{TelegramMessage, allowed, on_message}
use overwatch_harness.Daemon.Gate.{from_chat, Silent}
use overwatch_harness.Daemon.Isolation.{history_frozen}
use overwatch_harness.Daemon.System.{
  Turn, arrives, serve, turn, any-find, served_once, serve-Extended, turn-Extended,
}
use overwatch_harness.Daemon.Delivery.Names.{serve-Named, turn-Named}
use overwatch_harness.Daemon.Delivery.Storing.{Carries, on_message-Stored}

carried-key :
    (chat : ℤ) (msg : TelegramMessage) (m : Message)
    → Carries chat msg m
    → same_key telegram (str msg.message_id) m ≡ true
unfolding same_key
carried-key chat msg m c =
    rw (c.channel, c.channel_id)
      (ground (
        arith,
        (text_eq_iff (kind_text telegram) (kind_text telegram)).1 refl,
        (text_eq_iff (str msg.message_id) (str msg.message_id)).1 refl,
      ))

-- From a well-formed ledger whose operators have the keys of their channels and users, after any
-- updates and heartbeats, let an update with a message come from an allowed chat, with no Telegram
-- message of its id in the ledger. However its handling ends, it leaves a new row, under the next
-- key, that carries the message: the operator of that chat, the channel and the message's id, its
-- text or else its caption, and the id of the message that it replies to. After any further updates
-- and heartbeats that row is found with the same fields, its status included, and an update from an
-- allowed chat whose message has the same id, whatever else it carries, is dropped: it changes no
-- message, session, engagement or state of the machine, and sends nothing.
pub delivered_once :
    (out : Outside) (settings : HarnessSettings) (binary : Text) (plane : Bool) (allowlist : List ℤ)
    (pid : ℕ) (before between : List Turn) (chat again : ℤ) (msg copy : TelegramMessage) (w : World)
    → let met = serve out settings binary plane allowlist pid before w in
      Sound w.db
      → Named w.db
      → allowed chat allowlist ≡ true
      → allowed again allowlist ≡ true
      → copy.message_id ≡ msg.message_id
      → any (same_key telegram (str msg.message_id)) met.db.messages ≡ false
      → let first =
          (on_message out settings binary plane allowlist (from_chat chat (some msg)) met).1 in
        let later = serve out settings binary plane allowlist pid between first in
        (m : Message) × (find_message (suc met.db.message_seq) first.db ≡ some m)
        × Carries chat msg m
        × (find_message (suc met.db.message_seq) later.db ≡ some m)
        × Silent later
            (on_message out settings binary plane allowlist (from_chat again (some copy)) later).1
delivered_once out settings binary plane allowlist pid before between chat again msg copy w h named
      may may_again same new =
    let met = serve out settings binary plane allowlist pid before w in
    let sound = (serve-Extended out settings binary plane allowlist pid before w h).sound in
    let names = serve-Named out settings binary plane allowlist pid before w named in
    let arrival = arrives (from_chat chat (some msg)) in
    let first = turn out settings binary plane allowlist pid arrival met in
    let first_sound =
      (turn-Extended out settings binary plane allowlist pid arrival met sound).sound in
    let first_names = turn-Named out settings binary plane allowlist pid arrival met names in
    let (m, found, carried) =
      on_message-Stored out settings binary plane allowlist chat msg met sound names may new in
    let kept =
      history_frozen out settings binary plane allowlist pid between first first_sound
        first_names in
    let known =
      any-find (same_key telegram (str msg.message_id)) (suc met.db.message_seq) first.db.messages
        found (carried-key chat msg m carried) in
    (
      m,
      found,
      carried,
      kept.messages _ m found,
      served_once out settings binary plane allowlist pid between again copy first first_sound
          (rw same known) may_again,
    )
