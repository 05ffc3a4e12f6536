-- ===== src/Tests.antt =====
-- A small daemon of one operator, and the theorems applied to it.
mod Routing
mod Booting
mod Handling
mod Configured
mod Loading
mod Starting
mod Serving
mod Isolating
mod Reading
use overwatch_harness.Prelude.{
  leb, ◌&&◌, ◌+◌, ◌^◌, ◌≤◌, ◌<◌, true, false, none, some, List, [], ◌∷◌, ◌++◌, All, length, ◌≡◌,
  ◌⊎◌, inl, inr, refl, arith,
}
use overwatch_harness.Text.{Text, codes, text_eq, str}
use overwatch_harness.Ledger.Sound.Messages.{admits}
use overwatch_harness.Text.Int.{ℤ, pos}
use overwatch_harness.Exec.{ok}
use overwatch_harness.Config.{HarnessSettings, defaults}
use overwatch_harness.Models.{telegram, completed}
use overwatch_harness.Machine.{healthy, degraded, StateMachine, initial, can_spawn}
use overwatch_harness.Machine.Degraded.{transitions, degraded_refuses}
use overwatch_harness.Ledger.Db.{Db, empty}
use overwatch_harness.Ledger.Messages.{Inbound, new_message, insert_message}
use overwatch_harness.Ledger.Sound.{Sound}
use overwatch_harness.Ledger.Sound.Run.{Write, run, run-Sound}
use overwatch_harness.Ledger.Replay.{insert_message_once}
use overwatch_harness.Egress.{chunk_text, outgoing, reply_body, format_prefix, Outgoing}
use overwatch_harness.Egress.Chunks.{Spells, chunk_text_lossless}
use overwatch_harness.Egress.Limit.{outgoing_within_limit}
use overwatch_harness.Spawner.{Line, finished, Process}
use overwatch_harness.Spawner.Values.{Json, Fields}
use overwatch_harness.Daemon.{World, Outside}
use overwatch_harness.Daemon.Ingress.{TelegramMessage, refusal_note, on_message}
use overwatch_harness.Daemon.Health.{Refusing, unhealthy_refuses}
use overwatch_harness.Daemon.Gate.{from_chat, outsider_refused}

-- A first message, its replay, and a session that comes to its end.
abbrev pub hello : Inbound
hello = record {
  operator_id = codes "op:te:7";
  channel_kind = telegram;
  channel_msg_id = codes "12";
  body = codes "hello";
  reply_to_msg_id = none;
  engagement_id = none;
}

abbrev calls : List Write
calls =
    Write.upsert telegram (codes "7") (some (codes "Ada")) 5
    ∷ Write.open_engagement (codes "op:te:7") (some (codes "hello")) 6
    ∷ Write.arrive hello 7
    ∷ Write.arrive hello 8
    ∷ Write.open_session 1 (codes "hello") none 9
    ∷ Write.open_session 4 (codes "no such engagement") none 10
    ∷ Write.attach 1 (codes "c0ffee")
    ∷ Write.finalize 1 completed (some (pos 0)) (some (codes "hi")) (some 40) none 11
    ∷ Write.prune 3
    ∷ []

run-Sound_example : Sound (run calls empty)
run-Sound_example = run-Sound calls

-- The operator is there, the message not yet.
abbrev with_operator : Db
with_operator = record empty {
  operators =
      record {
        operator_id = codes "op:te:7";
        channel_kind = telegram;
        channel_user_id = codes "7";
        display_name = none;
        plane_actor_id = none;
        created_at = 5;
      }
      ∷ [];
}

admitted : admits hello with_operator ≡ true
unfolding text_eq
admitted = refl

insert_message_once_example :
    let after = run calls (insert_message hello 6 with_operator).1 in
    ((insert_message hello 6 with_operator).0 ≡ ok (some (new_message 1 hello 6)))
    × (insert_message (record hello { body = codes "edited" }) 20 after ≡ (ok none, after))
insert_message_once_example =
    insert_message_once hello (record hello { body = codes "edited" }) 6 20 calls with_operator
      admitted refl refl

-- A claude process that says "hi", a bot that takes every message.
abbrev session_run : Process
session_run = record {
  launches = true;
  lines =
      Line.garbled
      ∷ Line.decoded (
          Json.obj (
            Fields.field (codes "type") (Json.str (codes "result")) (
              Fields.field (codes "result") (Json.str (codes "hi"))
                (Fields.field (codes "session_id") (Json.str (codes "c0ffee")) Fields.end))))
      ∷ [];
  ending = finished [] (pos 0);
  duration_ms = 40;
}

abbrev pub outside : Outside
outside = record {
  clock = λ n. 1000 + n;
  iso = λ t. str t;
  delivers = λ before o. true;
  claude = λ readings arguments prompt. session_run;
  is_decimal = λ c. leb 48 c && leb c 57;
}

abbrev pub settings : HarnessSettings
settings = record (defaults (codes "/root")) { telegram_allowlist = codes "7" }

abbrev pub allowlist : List ℤ
allowlist = pos 7 ∷ []

abbrev pub greeting : TelegramMessage
greeting = record {
  message_id = 12;
  text = some (codes "hello");
  caption = none;
  from_name = some (codes "Ada");
  reply_to_message = none;
}

abbrev pub fresh : World
fresh = record {
  db = empty;
  machine = record initial { state = healthy };
  sent = [];
  comments = [];
  reads = 0;
}

-- The daemon before its self-test.
abbrev booting : World
booting = record fresh { machine = initial }

booting_refuses : can_spawn initial ≡ false
unfolding can_spawn
booting_refuses = refl

unhealthy_refuses_example :
    Refusing booting
      (on_message outside settings
        (codes "claude")
        false
        allowlist
        (from_chat (pos 7) (some greeting))
        booting).1
unhealthy_refuses_example =
    unhealthy_refuses outside settings (codes "claude") false allowlist
      (from_chat (pos 7) (some greeting)) booting booting_refuses

outsider_refused_example :
    let r =
      on_message outside settings
        (codes "claude")
        false
        allowlist
        (from_chat (pos 8) (some greeting))
        fresh in
    (r.0 ≡ ok tt)
    × ((r.1 ≡ fresh) ⊎ (r.1 ≡ record fresh { sent = [] ++ refusal_note (pos 8) ∷ [] }))
outsider_refused_example =
    outsider_refused outside settings (codes "claude") false allowlist (pos 8) (some greeting) fresh
      refl

chunk_text_lossless_example :
    (out : List Text) × (chunk_text 4 (codes "ab\ncdefgh\n\nij") ≡ some out)
    × (Spells (codes "ab\ncdefgh\n\nij") out × All (λ c. length c ≤ 4) out)
chunk_text_lossless_example = chunk_text_lossless 4 (codes "ab\ncdefgh\n\nij") (omega arith)

chunk_text_sample :
    chunk_text 4 (codes "ab\ncdefgh\n\nij")
    ≡ some (codes "ab" ∷ codes "cdef" ∷ codes "gh\n" ∷ codes "ij" ∷ [])
unfolding chunk_text
chunk_text_sample = refl

short_reply : length (reply_body (codes "hi") 3 (some 14) (codes "resume")) < 10 ^ 100
unfolding format_prefix str
short_reply = omega arith

outgoing_within_limit_example :
    All
      (λ (o : Outgoing). length o.text ≤ 4096)
      (outgoing (pos 7) (codes "hi") (some 12) 3 (some 14) (codes "resume"))
outgoing_within_limit_example =
    outgoing_within_limit (pos 7) (codes "hi") (some 12) 3 (some 14) (codes "resume") short_reply

abbrev broken : StateMachine
broken = record { state = degraded; reason = some (codes "no claude binary") }

degraded_refuses_example :
    can_spawn (transitions ((healthy, none) ∷ (degraded, none) ∷ (healthy, none) ∷ []) broken)
    ≡ false
degraded_refuses_example =
    degraded_refuses ((healthy, none) ∷ (degraded, none) ∷ (healthy, none) ∷ []) broken refl
      (inl refl, (inr refl, (inl refl, tt)))
