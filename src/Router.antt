-- ===== src/Router.antt =====
-- src/harness/router.py: the rule-based router. SLASH_RE is written out as a scan; its groups hold
-- no character that could also begin what follows them, so the greedy match is the only one.
pub mod Slashes
pub mod Commands
pub mod Decisions
use overwatch_harness.Prelude.{
  ℕ, ◌+◌, Bool, true, false, Option, none, some, or_else, List, [], ◌∷◌, ◌++◌, ◌&&◌, ◌||◌, leb,
  ◌==◌, take, if◌then◌else◌,
}
use overwatch_harness.Text.{Text, codes, strip, take_while, drop_while, lower, fold_case}
use overwatch_harness.Exec.{Exec, Result, ok, err, pure, gets, ◌>>=◌}
use overwatch_harness.Models.{Engagement, Session, Time}
use overwatch_harness.Ledger.Db.{Db}
use overwatch_harness.Ledger.Engagements.{get_active_engagement, create_engagement}
use overwatch_harness.Ledger.Sessions.{get_session, some_text}

-- `[a-z]` under re.IGNORECASE
unfoldable pub is_letter : ℕ → Bool
unfolding fold_case
is_letter c = leb b'a' (fold_case c) && leb (fold_case c) b'z'

-- `[a-z0-9_]`
unfoldable pub is_bot_char : ℕ → Bool
unfolding is_letter
is_bot_char c = is_letter c || (leb b'0' c && leb c b'9') || c == b'_'

-- `[a-z0-9_-]`
unfoldable pub is_name_char : ℕ → Bool
unfolding is_bot_char
is_name_char c = is_bot_char c || c == b'-'

-- `(@[a-z0-9_]+)?`
unfoldable pub skip_bot : Text → Text
unfolding is_bot_char drop_while
skip_bot (a ∷ c ∷ s) = if a == b'@' && is_bot_char c then drop_while is_bot_char s else a ∷ c ∷ s
skip_bot s = s

-- A match of SLASH_RE at the head: group 1 and what follows the match.
unfoldable pub match_slash : Text → Option (Text × Text)
unfolding is_letter is_name_char take_while drop_while skip_bot
match_slash (a ∷ c ∷ s) =
    if a == b'/' && is_letter c
    then some (c ∷ take_while is_name_char s, skip_bot (drop_while is_name_char s))
    else none
match_slash s = none

unfoldable pub parse_slash : Text → Option (Text × Text)
unfolding match_slash lower strip
parse_slash body = elim (match_slash (strip body)) [
  | none ↦ none
  | some (name, rest) ↦ some (lower name, strip rest)
]

pub data Intent : Type 0 where
  slash_command resume_session new_session : Intent

pub record RouteDecision : Type 0 where
  pub intent : Intent
  pub engagement : Engagement
  pub resume_claude_session_id : Option Text
  pub slash_name : Option Text
  pub slash_args : Option Text

-- `active or await ledger.create_engagement(...)`
unfoldable pub active_or_new : Text → Text → Time → Option Engagement → Exec Db Engagement
unfolding create_engagement
active_or_new operator_id summary now none = create_engagement operator_id (some summary) now
active_or_new operator_id summary now (some e) = pure e

abbrev pub slash_decision : Text → Text → Engagement → RouteDecision
slash_decision name args e = record {
  intent = slash_command;
  engagement = e;
  resume_claude_session_id = none;
  slash_name = some name;
  slash_args = some_text args;
}

abbrev pub resume_decision : Engagement → Session → RouteDecision
resume_decision e s = record {
  intent = resume_session;
  engagement = e;
  resume_claude_session_id = s.claude_session_id;
  slash_name = none;
  slash_args = none;
}

abbrev pub new_decision : Engagement → RouteDecision
new_decision e = record {
  intent = new_session;
  engagement = e;
  resume_claude_session_id = none;
  slash_name = none;
  slash_args = none;
}

-- An active engagement: its current session is resumed, if it has one.
unfoldable pub resume_or_new : Option ℕ → Engagement → Exec Db RouteDecision
unfolding get_session
resume_or_new none e = pure (new_decision e)
resume_or_new (some k) e = get_session k >>= λ s. pure (resume_decision e s)

-- Text that is no slash command.
unfoldable pub decide_free : Text → Text → Time → Option Engagement → Exec Db RouteDecision
unfolding active_or_new resume_or_new
decide_free operator_id body now none = do
  e ← active_or_new operator_id (take 80 body) now none
  pure (new_decision e)
decide_free operator_id body now (some e) = resume_or_new e.current_session_id e

unfoldable pub decide_with :
    Text → Text → Time → Option (Text × Text) → Option Engagement → Exec Db RouteDecision
unfolding active_or_new decide_free
decide_with operator_id body now none active = decide_free operator_id body now active
decide_with operator_id body now (some (name, args)) active = do
  e ← active_or_new operator_id (codes "slash: /" ++ name) now active
  pure (slash_decision name args e)

-- `decide`, of a message's operator and body: `seen` is the clock at the query for the active
-- engagement, `now` the clock at the INSERT of a new one.
unfoldable pub decide : ℕ → Text → Text → Time → Time → Exec Db RouteDecision
unfolding parse_slash get_active_engagement decide_with
decide idle_window_seconds operator_id body seen now = do
  active ← gets (get_active_engagement operator_id idle_window_seconds seen)
  decide_with operator_id body now (parse_slash body) active
