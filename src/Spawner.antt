-- ===== src/Spawner.antt =====
-- src/harness/spawner.py: what `Spawner.spawn` makes of a run of `claude -p`. The process is
-- outside: its lines of output, as `json.loads` reads them, and how it ended are given. Python's
-- dict of a JSON object keeps one value for a key, so a field occurs once in `Fields`.
pub mod Values
pub mod Quota
pub mod Slots
pub mod Child
use overwatch_harness.Prelude.{
  ℕ, Bool, true, false, Option, none, some, not, List, [], ◌∷◌, ◌++◌, ◌&&◌, ◌||◌, if◌then◌else◌,
}
use overwatch_harness.Text.{Text, codes}
use overwatch_harness.Text.Int.{ℤ, is_zero}
use overwatch_harness.Exec.{
  Exec, Result, ok, err, attribute_error, type_error, outside_error, cancelled_error, continue,
  pure, raise, ◌>>=◌, ◌>>◌,
}
use overwatch_harness.Spawner.Values.{
  Json, Items, Fields, null, str, arr, obj, nil, cons, get, get_or, truthy, or_value, is_text,
}
use overwatch_harness.Spawner.Quota.{looks_like_quota_exhaustion, extract_reset_window}

-- `StreamChunk.session_id`; null is None.
unfoldable pub session_id : Fields → Json
unfolding get truthy or_value
session_id raw =
    let sid = or_value (get (codes "session_id") raw) (get (codes "id") raw) in
    if truthy sid
    then sid
    else elim (get (codes "message") raw) [ obj msg ↦ get (codes "id") msg | _ ↦ null ]

-- `"".join(parts)`
unfoldable pub join : List Json → Result Text
join [] = ok []
join (j ∷ js) = elim j [
  | str t ↦ elim (join js) [ ok rest ↦ ok (t ++ rest) | err e ↦ err e ]
  | _ ↦ err type_error
]

-- The `text` of each item of type "text", "" where an item has none.
unfoldable pub text_items : Items → List Json
unfolding get_or get is_text
text_items nil = []
text_items (cons (obj o) items) =
    let rest = text_items items in
    if is_text (codes "text") (get (codes "type") o)
    then get_or (codes "text") (str []) o ∷ rest
    else rest
text_items (cons item items) = text_items items

abbrev pub as_json : Result Text → Result Json
as_json (ok t) = ok (str t)
as_json (err e) = err e

-- The last test of `text_delta`, for a final result chunk.
unfoldable pub result_delta : Fields → Result Json
unfolding get is_text
result_delta raw =
    if is_text (codes "result") (get (codes "type") raw)
    then ok (get (codes "result") raw)
    else ok null

unfoldable pub content_items : Fields → Items
unfolding get
content_items raw = elim (get (codes "message") raw) [
  | obj msg ↦ elim (get (codes "content") msg) [ arr items ↦ items | _ ↦ nil ]
  | _ ↦ nil
]

-- `StreamChunk.text_delta`
unfoldable pub text_delta : Fields → Result Json
unfolding content_items text_items join result_delta
text_delta raw = elim (text_items (content_items raw)) [
  | [] ↦ result_delta raw
  | part ∷ parts ↦ as_json (join (part ∷ parts))
]

-- A line of stdout: blank, not JSON, or JSON.
pub data Line : Type 0 where
  blank garbled : Line
  decoded : Json → Line

-- The variables of `_read_stdout`.
pub record Reader : Type 0 where
  pub chunks : List Fields
  pub parts : List Json
  pub session_emitted : Bool

abbrev pub start : Reader
start = record { chunks = []; parts = []; session_emitted = false }

-- `next((c.session_id for c in chunks if c.session_id), None)`
unfoldable pub first_session_id : List Fields → Json
unfolding session_id truthy
first_session_id [] = null
first_session_id (c ∷ cs) =
    let rest = first_session_id cs in if truthy (session_id c) then session_id c else rest

-- `if (delta := chunk.text_delta): text_parts.append(delta)`
unfoldable pub add_part : Json → Reader → Reader
unfolding truthy
add_part delta r = if truthy delta then record r { parts = r.parts ++ delta ∷ [] } else r

pub data Ending : Type 0 where
  -- both streams ended in time: stderr and the exit code
  finished : Text → ℤ → Ending
  -- the time was up: the exit code after `_terminate`
  timed_out : ℤ → Ending
  cancelled : Ending

-- One run of the claude process.
pub record Process : Type 0 where
  pub launches : Bool
  pub lines : List Line
  pub ending : Ending
  pub duration_ms : ℕ

pub record SpawnResult : Type 0 where
  pub exit_code : ℤ
  pub claude_session_id : Json
  pub full_text : Text
  pub stderr : Text
  pub duration_ms : ℕ
  pub quota_exhausted : Bool
  pub quota_reset_window : Option Text
  pub raw_chunks : List Fields

abbrev pub resume_arguments : Option Text → List Text
resume_arguments none = []
resume_arguments (some []) = []
resume_arguments (some (c ∷ t)) = codes "--resume" ∷ (c ∷ t) ∷ []

-- The argument vector of `spawn`.
unfoldable pub command_line : Text → Option Text → List Text → List Text
command_line binary resume extra =
    binary
    ∷ codes "-p"
    ∷ codes "--output-format"
    ∷ codes "stream-json"
    ∷ codes "--verbose"
    ∷ (resume_arguments resume ++ extra)

-- The SpawnResult of a process that has ended.
unfoldable pub result_of : (ℕ → Bool) → Reader → Text → ℤ → ℕ → Result SpawnResult
unfolding join first_session_id looks_like_quota_exhaustion extract_reset_window
result_of is_decimal r stderr exit_code duration_ms =
    let quota_hit = looks_like_quota_exhaustion stderr exit_code in
    elim (join r.parts) [
      | err e ↦ err e
      | ok full_text ↦ ok (record {
        exit_code = exit_code;
        claude_session_id = first_session_id r.chunks;
        full_text = full_text;
        stderr = stderr;
        duration_ms = duration_ms;
        quota_exhausted = quota_hit;
        quota_reset_window = if quota_hit then extract_reset_window is_decimal stderr else none;
        raw_chunks = r.chunks;
      })
    ]

-- f"TIMEOUT after {timeout}s" of the daemon's timeout of 600.0 seconds
abbrev pub timeout_notice : Text
timeout_notice = codes "TIMEOUT after 600.0s"

module _ {S : Type 0} (on_session_id : Json → Exec S (Unit {0})) where
  -- One JSON object on stdout; `on_chunk` is not passed by the daemon.
  unfoldable pub read_chunk : Fields → Reader → Exec S Reader
  unfolding session_id truthy text_delta add_part
  read_chunk raw r =
      let seen = record r { chunks = r.chunks ++ raw ∷ [] } in
      if truthy (session_id raw) && not r.session_emitted
      then (on_session_id (session_id raw)
          >> continue (text_delta raw)
              (λ delta. pure (add_part delta (record seen { session_emitted = true }))))
      else continue (text_delta raw) (λ delta. pure (add_part delta seen))

  unfoldable pub read_line : Line → Reader → Exec S Reader
  unfolding read_chunk
  read_line blank r = pure r
  read_line garbled r = pure r
  read_line (decoded (obj raw)) r = read_chunk raw r
  -- `chunk.session_id` asks the value for `get`
  read_line (decoded _) r = raise attribute_error

  unfoldable pub read_stdout : List Line → Reader → Exec S Reader
  unfolding read_line
  read_stdout [] r = pure r
  read_stdout (l ∷ ls) r = read_line l r >>= λ r'. read_stdout ls r'

  unfoldable pub finish : (ℕ → Bool) → Ending → ℕ → Reader → Result SpawnResult
  unfolding result_of
  finish is_decimal (finished stderr code) ms r = result_of is_decimal r stderr code ms
  finish is_decimal (timed_out code) ms r = result_of is_decimal r timeout_notice code ms
  finish is_decimal cancelled ms r = err cancelled_error

  -- `spawn`, from the start of the process on.
  unfoldable pub spawn : (ℕ → Bool) → Process → Exec S SpawnResult
  unfolding read_stdout finish
  spawn is_decimal p =
      if p.launches
      then (read_stdout p.lines start >>= λ r s. (finish is_decimal p.ending p.duration_ms r, s))
      else raise outside_error
