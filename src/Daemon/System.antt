-- ===== src/Daemon/System.antt =====
-- The daemon as a whole, between READY=1 and the signal: updates and heartbeats in any order.
use overwatch_harness.Prelude.{
  ℕ, suc, Bool, true, Bool-cases, inl, inr, some, any, List, [], ◌∷◌, ◌∙◌, ◌-◌, ◌≡◌, refl, arith,
}
use overwatch_harness.Prelude.Table.{find, Descends, find-key-le}
use overwatch_harness.Text.{Text, str}
use overwatch_harness.Text.Int.{ℤ}
use overwatch_harness.Config.{HarnessSettings}
use overwatch_harness.Models.{ChannelKind, Message, telegram}
use overwatch_harness.Ledger.Db.{Db, message_key}
use overwatch_harness.Ledger.Messages.{same_key}
use overwatch_harness.Ledger.History.{Kept, SameMessage}
use overwatch_harness.Ledger.Replay.{Known}
use overwatch_harness.Ledger.Sound.{Sound}
use overwatch_harness.Ledger.Heartbeats.{write_heartbeat, prune_heartbeats}
use overwatch_harness.Boot.Beat.{Round, heartbeat}
use overwatch_harness.Http.Reports.{heartbeat-Sound}
use overwatch_harness.Daemon.{World, Outside}
use overwatch_harness.Daemon.Ingress.{TelegramMessage, Update, allowed, on_message}
use overwatch_harness.Daemon.Trail.{Extended, on_message-Extended, unchanged, then-Extended}
use overwatch_harness.Daemon.Gate.{from_chat, Silent, replay_dropped}

-- An update of Telegram, or a round of the heartbeat loop with the calls in flight.
pub data Turn : Type 0 where
  arrives : Update → Turn
  beats : ℕ → Turn

module _ (out : Outside) (settings : HarnessSettings) (binary : Text) (plane : Bool)
    (allowlist : List ℤ) (pid : ℕ) where
  abbrev pub round_of : ℕ → World → Round
  round_of n w = record { machine = w.machine; in_flight = n; time = out.clock w.reads }

  abbrev pub turn : Turn → World → World
  turn (arrives u) w = (on_message out settings binary plane allowlist u w).1
  turn (beats n) w = record w { db = heartbeat pid (round_of n w) w.db; reads = suc w.reads }

  unfoldable pub serve : List Turn → World → World
  serve [] w = w
  serve (t ∷ ts) w = serve ts (turn t w)

  pub turn-Extended : (t : Turn) (w : World) → Sound w.db → Extended w.db (turn t w).db
  turn-Extended (arrives u) w h = on_message-Extended out settings binary plane allowlist u w h
  turn-Extended (beats n) w h = record {
    sound = heartbeat-Sound pid (round_of n w) w.db h;
    kept =
        unfold heartbeat write_heartbeat prune_heartbeats in
        record {
          engagements = (unchanged w.db h).kept.engagements;
          sessions = (unchanged w.db h).kept.sessions;
          messages = (unchanged w.db h).kept.messages;
        };
  }

  -- From a well-formed ledger, any updates and heartbeats in any order leave a well-formed ledger in
  -- which every engagement, session and message of before is found under its key: an engagement with
  -- its operator, start, time of last activity, summary and Plane issue, a session with its
  -- engagement, parent, start, prompt and Langfuse trace, a message with its operator, channel,
  -- channel message id, time, body, reply-to, classifier version and prompt hash.
  pub serve-Extended : (ts : List Turn) (w : World) → Sound w.db → Extended w.db (serve ts w).db
  unfolding serve
  serve-Extended [] w h = unchanged w.db h
  serve-Extended (t ∷ ts) w h =
      let first = turn-Extended t w h in
      then-Extended first (serve-Extended ts (turn t w) first.sound)

-- A row that passes a test is found under its key.
find-any :
    (p : Message → Bool) (n : ℕ) (ms : List Message)
    → Descends message_key n ms
    → any p ms ≡ true
    → (m : Message) × (find message_key m.message_id ms ≡ some m) × (p m ≡ true)
find-any p n [] d h = absurd cc
find-any p n (m ∷ ms) d h = elim (Bool-cases (p m)) [
  | inl hit ↦ (m, ground arith, hit)
  | inr miss ↦
      let (x, found, hit) = find-any p (m.message_id - 1) ms d.2 (rw miss at h) in
      (
        x,
        ground (
          arith,
          found,
          d.0,
          find-key-le message_key x.message_id (m.message_id - 1) ms {x = x} d.2 found,
        ),
        hit,
      )
]

pub any-find :
    (p : Message → Bool) (k : ℕ) (ms : List Message) {m : Message}
    → find message_key k ms ≡ some m
    → p m ≡ true
    → any p ms ≡ true
any-find p k [] h hit = absurd cc
any-find p k (x ∷ xs) {m} h hit = ground (arith, λ (e : x ≡ m). hit, any-find p k xs {m = m})

same_key-SameMessage :
    (kind : ChannelKind) (id : Text) (m m' : Message)
    → SameMessage m m'
    → same_key kind id m' ≡ same_key kind id m
unfolding same_key
same_key-SameMessage kind id m m' s = rw (s.channel, s.channel_id) refl

pub Kept-Known :
    (kind : ChannelKind) (id : Text) (a b : Db)
    → Sound a
    → Kept a b
    → Known kind id a
    → Known kind id b
Kept-Known kind id a b h kept known =
    let (m, found, hit) =
      find-any (same_key kind id) a.message_seq a.messages h.message_keys known in
    let (m', found', same) = kept.messages m.message_id m found in
    any-find (same_key kind id) m.message_id b.messages found'
      (same_key-SameMessage kind id m m' same ∙ hit)

-- Once a message is in a well-formed ledger, then after any further updates and heartbeats in any
-- order an update from an allowed chat with its message id is dropped: it changes no message,
-- session, engagement or state of the machine, and sends nothing.
pub served_once :
    (out : Outside) (settings : HarnessSettings) (binary : Text) (plane : Bool) (allowlist : List ℤ)
    (pid : ℕ) (ts : List Turn) (chat : ℤ) (msg : TelegramMessage) (w : World)
    → Sound w.db
    → Known telegram (str msg.message_id) w.db
    → allowed chat allowlist ≡ true
    → let later = serve out settings binary plane allowlist pid ts w in
      Silent later
        (on_message out settings binary plane allowlist (from_chat chat (some msg)) later).1
served_once out settings binary plane allowlist pid ts chat msg w h known may =
    let extended = serve-Extended out settings binary plane allowlist pid ts w h in
    replay_dropped out settings binary plane allowlist chat msg
      (serve out settings binary plane allowlist pid ts w) may
      (Kept-Known telegram (str msg.message_id) w.db _ h extended.kept known)
