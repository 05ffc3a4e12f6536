-- ===== src/Daemon/Keeps/Spawns.antt =====
-- The spawn path, by the rules of its parts.
use overwatch_harness.Prelude.{
  ℕ, Bool, true, false, not, ◌&&◌, Option, List, ◌∷◌, [], ◌++◌, if◌then◌else◌, Bool-cases,
  Option-cases, inl, inr,
}
use overwatch_harness.Exec.{Result, ok, err, continue, pure, raise}
use overwatch_harness.Text.{Text}
use overwatch_harness.Text.Int.{ℤ}
use overwatch_harness.Config.{HarnessSettings}
use overwatch_harness.Models.{Engagement, SessionStatus, Message, Session, done, routed}
use overwatch_harness.Ledger.Sessions.{create_session, attach_claude_session_id, finalize_session}
use overwatch_harness.Ledger.Sound.Run.{Write, write}
use overwatch_harness.Router.{RouteDecision}
use overwatch_harness.Spawner.{
  Line, blank, garbled, decoded, Reader, Process, SpawnResult, session_id, text_delta, add_part,
  read_chunk, read_line, read_stdout, start, spawn,
}
use overwatch_harness.Spawner.Values.{Json, Fields, truthy}
use overwatch_harness.Daemon.{World, Outside, ◌>>=◌, on_db, change_db}
use overwatch_harness.Daemon.Dispatch.{
  Origin, bind_text, on_sid, throttle, audit, conclude, run_session, run_spawn,
}
use overwatch_harness.Daemon.Keeps.{
  Scope, Spawning, Steps, SpawnSteps, Keeps, Keeps-bind, Keeps-continue, Keeps-now,
}
use overwatch_harness.Daemon.Keeps.Handlers.{Keeps-update_status, Keeps-reply}

module _ {S : Scope} {R : World → World → Type 0} (steps : Steps S R) (more : SpawnSteps S R) where
  Keeps-on_sid : (k : ℕ) (sid : Json) → S.session k → Keeps R (on_sid k sid)
  unfolding on_sid
  Keeps-on_sid k sid its = bound (bind_text sid)
    where
      bound :
          (r : Result Text)
          → Keeps R (elim r [ ok t ↦ change_db (attach_claude_session_id k t) | err e ↦ raise e ])
      bound (ok t) = record {
        at = λ w.
            unfold write change_db in more.spawning (Write.attach k t) (Spawning.attach k t its) w;
      }
      bound (err e) = record { at = λ w. steps.same w }

  module _ (k : ℕ) (its : S.session k) where
    Keeps-read_chunk : (raw : Fields) (r : Reader) → Keeps R (read_chunk (on_sid k) raw r)
    unfolding read_chunk ◌>>=◌
    Keeps-read_chunk raw r = either (truthy (session_id raw) && not r.session_emitted)
      where
        seen : Reader
        seen = record r { chunks = r.chunks ++ raw ∷ [] }

        delta : (q : Reader) → Keeps R (continue (text_delta raw) (λ d. pure (add_part d q)))
        delta q =
            Keeps-continue steps (text_delta raw) (λ d. pure (add_part d q))
              λ d. record { at = λ w. steps.same w }

        either :
            (b : Bool)
            → Keeps R (
                if b
                then (on_sid k (session_id raw) >>= λ _.
                    continue
                      (text_delta raw)
                      (λ d. pure (add_part d (record seen { session_emitted = true }))))
                else continue (text_delta raw) (λ d. pure (add_part d seen)))
        either true =
            Keeps-bind steps (on_sid k (session_id raw)) _ (Keeps-on_sid k (session_id raw) its)
              λ _. delta (record seen { session_emitted = true })
        either false = delta seen

    Keeps-read_line : (l : Line) (r : Reader) → Keeps R (read_line (on_sid k) l r)
    unfolding read_line
    Keeps-read_line blank r = record { at = λ w. steps.same w }
    Keeps-read_line garbled r = record { at = λ w. steps.same w }
    Keeps-read_line (decoded (Json.obj raw)) r = Keeps-read_chunk raw r
    Keeps-read_line (decoded _) r = record { at = λ w. steps.same w }

    Keeps-read_stdout : (ls : List Line) (r : Reader) → Keeps R (read_stdout (on_sid k) ls r)
    unfolding read_stdout ◌>>=◌
    Keeps-read_stdout [] r = record { at = λ w. steps.same w }
    Keeps-read_stdout (l ∷ ls) r =
        Keeps-bind steps (read_line (on_sid k) l r) (read_stdout (on_sid k) ls)
          (Keeps-read_line l r) (Keeps-read_stdout ls)

    pub Keeps-spawn :
        (is_decimal : ℕ → Bool) (p : Process) → Keeps R (spawn (on_sid k) is_decimal p)
    unfolding spawn ◌>>=◌
    Keeps-spawn is_decimal p = elim (Bool-cases p.launches) [
      | inl up ↦ rw up (
          Keeps-bind steps (read_stdout (on_sid k) p.lines start) _
            (Keeps-read_stdout p.lines start) λ r. record { at = λ w. steps.same w })
      | inr down ↦ rw down (record { at = λ w. steps.same w })
    ]

  pub Keeps-create_session :
      (e : ℕ) (prompt : Text) (parent : Option ℕ) (at : ℕ)
      → S.engagement e
      → Keeps R (on_db (create_session e prompt parent at))
  unfolding on_db write
  Keeps-create_session e prompt parent at placed = record {
    at = λ w.
        more.spawning (Write.open_session e prompt parent at)
          (Spawning.open_session e prompt parent at placed) w;
  }

  pub Keeps-throttle : (result : SpawnResult) → Keeps R (throttle result)
  unfolding throttle
  Keeps-throttle result = record {
    at = λ w. elim (Bool-cases result.quota_exhausted) [
      | inl spent ↦ rw spent (more.throttle _ w)
      | inr left ↦ rw left (steps.same w)
    ];
  }

  pub Keeps-finalize :
      (k : ℕ) (status : SessionStatus) (code : Option ℤ) (text : Option Text) (ms : Option ℕ)
      (window : Option Text) (at : ℕ)
      → S.session k
      → Keeps R (change_db (finalize_session k status code text ms window at))
  unfolding change_db write
  Keeps-finalize k status code text ms window at its = record {
    at = λ w.
        more.spawning (Write.finalize k status code text ms window at)
          (Spawning.finalize k status code text ms window at its) w;
  }

  pub Keeps-audit :
      (plane : Bool) (e : Engagement) (k : ℕ) (result : SpawnResult)
      → Keeps R (audit plane e k result)
  unfolding audit
  Keeps-audit plane e k result = record {
    at = λ w. elim (Option-cases e.plane_issue_id) [
      | inl absent ↦ rw absent (steps.same w)
      | inr ([], empty) ↦ rw empty (steps.same w)
      | inr (c ∷ issue, there) ↦ elim (Bool-cases plane) [
        | inl on ↦ rw (there, on) (more.comment _ w)
        | inr off ↦ rw (there, off) (steps.same w)
      ]
    ];
  }

  module _ (out : Outside) (settings : HarnessSettings) (binary : Text) (plane : Bool) where
    Keeps-conclude :
        (m : Message) (o : Origin) (d : RouteDecision) (s : Session) (result : SpawnResult)
        → S.message m.message_id
        → S.chat o.chat_id
        → S.session s.session_id
        → Keeps R (conclude out settings binary plane m o d s result)
    unfolding conclude
    Keeps-conclude m o d s result own to its = Keeps-bind steps _ _ (Keeps-throttle result) λ _.
        Keeps-bind steps _ _ (Keeps-now steps out) λ at.
          Keeps-bind steps _ _ (Keeps-finalize _ _ _ _ _ _ at its) λ _.
            Keeps-bind steps _ _
              (Keeps-reply steps out settings binary plane o _ d.engagement _ _ to)
              λ _.
                Keeps-bind steps _ _ (Keeps-update_status steps m.message_id done _ own)
                  λ _. Keeps-audit plane d.engagement s.session_id result

    -- From the new session on.
    pub Keeps-session :
        (m : Message) (o : Origin) (d : RouteDecision) (s : Session)
        → S.message m.message_id
        → S.chat o.chat_id
        → S.session s.session_id
        → Keeps R (run_session out settings binary plane m o d s)
    unfolding run_session
    Keeps-session m o d s own to its =
        Keeps-bind steps _ _ (Keeps-update_status steps m.message_id routed _ own) λ _.
          Keeps-bind steps _ _ (record { at = λ w. steps.same w })
            λ readings.
              Keeps-bind steps _ _ (Keeps-spawn s.session_id its _ _)
                λ result. Keeps-conclude m o d s result own to its

    pub Keeps-run_spawn :
        (m : Message) (o : Origin) (d : RouteDecision)
        → S.message m.message_id
        → S.chat o.chat_id
        → S.engagement d.engagement.engagement_id
        → ((k : ℕ) → S.session k)
        → Keeps R (run_spawn out settings binary plane m o d)
    unfolding run_spawn
    Keeps-run_spawn m o d own to placed any_session =
        Keeps-bind steps _ _ (Keeps-now steps out) λ at.
          Keeps-bind steps _ _ (Keeps-create_session _ _ _ at placed)
            λ s. Keeps-session m o d s own to (any_session s.session_id)
