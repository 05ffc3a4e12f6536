-- ===== src/Slash.antt =====
-- src/harness/slash.py. `iso` is the text that sqlite's strftime stores for a time.
use overwatch_harness.Prelude.{
  ℕ, zero, suc, ◌/◌, Option, none, some, List, [], ◌∷◌, ◌++◌, ◌==◌, select, take, length,
  if◌then◌else◌,
}
use overwatch_harness.Text.{Text, codes, str, str_ℤ, text_eq, pad_right}
use overwatch_harness.Text.Int.{ℤ}
use overwatch_harness.Exec.{Exec, Result, ok, err}
use overwatch_harness.Config.{HarnessSettings}
use overwatch_harness.Machine.{value}
use overwatch_harness.Models.{
  Engagement, Session, SessionStatus, Heartbeat, Time, is_active, spawning, running, completed,
  failed, interrupted, quota_exhausted,
}
use overwatch_harness.Ledger.Db.{Db}
use overwatch_harness.Ledger.Engagements.{end_engagement}
use overwatch_harness.Ledger.Heartbeats.{latest_heartbeat}

pub data Command : Type 0 where
  help status sessions end new : Command

-- `COMMANDS.get(name)`
unfoldable pub command_of : Text → Option Command
unfolding text_eq
command_of name =
    if text_eq name (codes "help")
    then some help
    else if text_eq name (codes "status")
    then some status
    else if text_eq name (codes "sessions")
    then some sessions
    else if text_eq name (codes "end")
    then some end
    else if text_eq name (codes "new")
    then some new
    else none

unfoldable pub cmd_help : HarnessSettings → Text
unfolding str
cmd_help settings =
    codes "overwatch-harness — commands\n"
    ++ (codes "  /help                this message\n"
        ++ (codes "  /status              daemon health + in-flight session count\n"
            ++ (codes "  /sessions            recent sessions in this engagement\n"
                ++ (codes "  /end                 close the active engagement\n"
                    ++ (codes
                          "  /new                 force-start a new engagement on next message\n\n"
                        ++ (codes "Anything else opens or resumes a Claude Code session. "
                            ++ (codes "Idle window: "
                                ++ (str (settings.idle_window_seconds / 60) ++ codes "m."))))))))

-- `engagement.current_session_id or 'none'`
abbrev pub id_or_none : Option ℕ → Text
id_or_none none = codes "none"
id_or_none (some zero) = codes "none"
id_or_none (some (suc k)) = str (suc k)

abbrev pub engagement_label : Engagement → Text
engagement_label e = codes "engagement #" ++ str e.engagement_id

unfoldable pub status_word : SessionStatus → Text
status_word spawning = codes "spawning"
status_word running = codes "running"
status_word completed = codes "completed"
status_word failed = codes "failed"
status_word interrupted = codes "interrupted"
status_word quota_exhausted = codes "quota_exhausted"

-- `(r["claude_session_id"] or "—")[:8]`
abbrev pub short_id : Option Text → Text
short_id none = codes "—"
short_id (some []) = codes "—"
short_id (some (c ∷ t)) = take 8 (c ∷ t)

abbrev pub exit_text : Option ℤ → Text
exit_text none = codes "—"
exit_text (some n) = str_ℤ n

abbrev pub duration_text : Option ℕ → Text
duration_text none = codes "—"
duration_text (some zero) = codes "—"
duration_text (some (suc n)) = str (suc n) ++ codes "ms"

-- `ORDER BY session_id DESC LIMIT 10`: the rows stand so.
unfoldable pub recent_sessions : ℕ → Db → List Session
recent_sessions engagement_id db =
    take 10 (select (λ s. s.engagement_id == engagement_id) db.sessions)

unfoldable pub cmd_end : Engagement → Time → Exec Db Text
unfolding end_engagement str
cmd_end e now db =
    if is_active e
    then (
      ok (engagement_label e ++ codes " ended. Next message starts a fresh engagement."),
      end_engagement e.engagement_id now db,
    )
    else (ok (engagement_label e ++ codes " is already ended"), db)

unfoldable pub cmd_new : Engagement → Time → Exec Db Text
unfolding end_engagement
cmd_new e now db = (
  ok (codes "ok — next message starts a new engagement"),
  if is_active e then end_engagement e.engagement_id now db else db,
)

module _ (iso : Time → Text) where
  unfoldable pub status_reply : Option Heartbeat → Engagement → Text
  unfolding value str
  status_reply none e = codes "status: no heartbeat yet (daemon just started)"
  status_reply (some hb) e =
      codes "status: "
      ++ (value hb.state
          ++ (codes "  in-flight="
              ++ (str hb.in_flight_count
                  ++ (codes "  pid="
                      ++ (str hb.pid
                          ++ (codes "  ts="
                              ++ (iso hb.ts
                                  ++ (codes "\n"
                                      ++ (engagement_label e
                                          ++ (codes " ("
                                              ++ ((if is_active e
                                                    then codes "active"
                                                    else codes "ended")
                                                  ++ (codes ")  current_session="
                                                      ++ id_or_none e.current_session_id))))))))))))

  abbrev pub ended_text : Option Time → Text
  ended_text none = codes "running"
  ended_text (some t) = iso t

  unfoldable pub session_line : Session → Text
  unfolding status_word pad_right str str_ℤ
  session_line s =
      codes "  s"
      ++ (pad_right 4 (str s.session_id)
          ++ (codes " "
              ++ (pad_right 10 (status_word s.status)
                  ++ (codes " "
                      ++ (short_id s.claude_session_id
                          ++ (codes "  rc="
                              ++ (exit_text s.exit_code
                                  ++ (codes "  "
                                      ++ (duration_text s.duration_ms
                                          ++ (codes "  ended=" ++ ended_text s.ended_at))))))))))

  -- Each line behind a line break.
  unfoldable pub session_lines : List Session → Text
  unfolding session_line
  session_lines [] = []
  session_lines (s ∷ ss) = codes "\n" ++ (session_line s ++ session_lines ss)

  unfoldable pub sessions_reply : List Session → Engagement → Text
  unfolding session_lines str
  sessions_reply [] e = engagement_label e ++ codes ": no sessions yet"
  sessions_reply (s ∷ ss) e =
      engagement_label e
      ++ (codes " — last "
          ++ (str (length (s ∷ ss)) ++ (codes " sessions:" ++ session_lines (s ∷ ss))))

  -- The handlers take `args` too, which none of them reads.
  unfoldable pub handle : Command → HarnessSettings → Engagement → Time → Exec Db Text
  unfolding cmd_help status_reply recent_sessions sessions_reply cmd_end cmd_new latest_heartbeat
  handle help settings e now db = (ok (cmd_help settings), db)
  handle status settings e now db = (ok (status_reply (latest_heartbeat db) e), db)
  handle sessions settings e now db =
      (ok (sessions_reply (recent_sessions e.engagement_id db) e), db)
  handle end settings e now db = cmd_end e now db
  handle new settings e now db = cmd_new e now db

  -- `except Exception` answers for a handler that raised.
  abbrev pub caught : Text → Result Text → Text
  caught name (ok reply) = reply
  caught name (err x) = codes "/" ++ (name ++ codes " failed; check daemon logs")

  unfoldable pub dispatch : Text → HarnessSettings → Engagement → Time → Db → Text × Db
  unfolding command_of handle
  dispatch name settings e now db = elim (command_of name) [
    | none ↦ (codes "unknown command: /" ++ (name ++ codes ".  Try /help."), db)
    | some c ↦ (caught name (handle c settings e now db).0, (handle c settings e now db).1)
  ]
