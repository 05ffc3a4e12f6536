-- ===== src/Ledger/Rows/Listed.antt =====
-- Each word of a CHECK list is on it, and is read back.
use overwatch_harness.Prelude.{
  true, any, map, some, List, [], ◌∷◌, ◌≡◌, refl, sym, inl, inr, Bool-cases,
}
use overwatch_harness.Text.{Text, text_eq, text_eq_iff}
use overwatch_harness.Models.{Mode, SessionStatus, Route, MessageStatus, ChannelKind, kind_text}
use overwatch_harness.Ledger.Rows.{word_of}
use overwatch_harness.Ledger.Rows.Words.{
  mode_text, modes, session_status_text, session_statuses, route_text, routes, message_status_text,
  message_statuses, kinds,
}

pub mode_back : (m : Mode) → word_of mode_text modes (mode_text m) ≡ some m
unfolding word_of text_eq
mode_back Mode.oneshot = refl
mode_back Mode.continuous = refl
mode_back Mode.paused = refl
mode_back Mode.ended = refl

pub session_status_back :
    (s : SessionStatus)
    → word_of session_status_text session_statuses (session_status_text s) ≡ some s
unfolding word_of text_eq
session_status_back SessionStatus.spawning = refl
session_status_back SessionStatus.running = refl
session_status_back SessionStatus.completed = refl
session_status_back SessionStatus.failed = refl
session_status_back SessionStatus.interrupted = refl
session_status_back SessionStatus.quota_exhausted = refl

pub route_back : (r : Route) → word_of route_text routes (route_text r) ≡ some r
unfolding word_of text_eq
route_back Route.slash_command = refl
route_back Route.status_query = refl
route_back Route.routine_action = refl
route_back Route.spec_request = refl
route_back Route.security_event = refl
route_back Route.operator_review = refl
route_back Route.unknown = refl

pub message_status_back :
    (s : MessageStatus)
    → word_of message_status_text message_statuses (message_status_text s) ≡ some s
unfolding word_of text_eq
message_status_back MessageStatus.received = refl
message_status_back MessageStatus.classifying = refl
message_status_back MessageStatus.routed = refl
message_status_back MessageStatus.failed = refl
message_status_back MessageStatus.dead_letter = refl
message_status_back MessageStatus.done = refl

pub kind_back : (k : ChannelKind) → word_of kind_text kinds (kind_text k) ≡ some k
unfolding word_of text_eq kind_text
kind_back ChannelKind.telegram = refl
kind_back ChannelKind.discord = refl
kind_back ChannelKind.direct = refl

-- A word that is read is on the list.
pub any-word_of :
    {A : Type 0} (spell : A → Text) (as_listed : List A) (t : Text) {a : A}
    → word_of spell as_listed t ≡ some a
    → any (text_eq t) (map spell as_listed) ≡ true
unfolding word_of
any-word_of spell [] t h = absurd cc
any-word_of spell (b ∷ more) t {a} h = elim (Bool-cases (text_eq (spell b) t)) [
  | inl hit ↦
      let same : spell b ≡ t = (text_eq_iff (spell b) t).0 hit in
      rw ((text_eq_iff t (spell b)).1 (sym same)) refl
  | inr miss ↦ elim (Bool-cases (text_eq t (spell b))) [
    | inl here ↦ rw here refl
    | inr elsewhere ↦ rw elsewhere (any-word_of spell more t {a = a} (rw miss at h))
  ]
]
