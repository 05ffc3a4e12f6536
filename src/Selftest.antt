-- ===== src/Selftest.antt =====
-- `run_selftest` of src/harness/selftest.py, and what `_run` of src/harness/__main__.py makes of it.
-- The two runs of the binary are outside: what each of them came to is given. `repr` is Python's,
-- which reads Unicode's tables.
pub mod Gate
use overwatch_harness.Prelude.{
  ℕ, Bool, true, false, Option, none, some, List, [], ◌∷◌, ◌++◌, ◌&&◌, ◌||◌, take, if◌then◌else◌,
}
use overwatch_harness.Text.{Text, codes, strip, str_ℤ}
use overwatch_harness.Text.Int.{ℤ, is_zero}
use overwatch_harness.Exec.{Result, ok, err, attribute_error, outside_error}
use overwatch_harness.Machine.{StateMachine, transition, healthy, degraded}
use overwatch_harness.Spawner.{Line, blank, garbled, decoded}
use overwatch_harness.Spawner.Values.{Json, obj, get, is_text}

-- What `--version` came to: the exit code, stdout and stderr, or an exception.
pub data Probe : Type 0 where
  ended : ℤ → Text → Text → Probe
  not_found late broken : Probe

-- What the spawn with "ok" came to: the lines of stdout, stderr and the exit code, or an exception.
pub data Trial : Type 0 where
  ran : List Line → Text → ℤ → Trial
  gone overdue failing : Trial

pub record SelftestResult : Type 0 where
  pub healthy : Bool
  pub version_ok : Bool
  pub spawn_ok : Bool
  pub notes : Text

-- `obj.get("type") in ("result", "assistant")`
abbrev pub is_reply : Json → Bool
is_reply kind = is_text (codes "result") kind || is_text (codes "assistant") kind

-- The loop of `_drain`.
unfoldable pub drain : Bool → List Line → Result Bool
unfolding get is_text
drain saw_result [] = ok saw_result
drain saw_result (blank ∷ lines) = drain saw_result lines
drain saw_result (garbled ∷ lines) = drain saw_result lines
drain saw_result (decoded (obj o) ∷ lines) =
    drain (saw_result || is_reply (get (codes "type") o)) lines
drain saw_result (decoded _ ∷ lines) = err attribute_error

abbrev pub truth : Bool → Text
truth true = codes "True"
truth false = codes "False"

module _ (repr : Text → Text) (binary timeout_seconds : Text) where
  -- Phase 1: `version_ok` and its note.
  unfoldable pub version_phase : Probe → Result (Bool × Text)
  unfolding strip str_ℤ
  version_phase (ended code out stderr) = ok (
      if is_zero code then (true, codes "version: " ++ take 60 (strip out)) else (
        false,
        codes "--version exit=" ++ (str_ℤ code ++ (codes " stderr=" ++ take 200 (strip stderr))),
      ))
  version_phase not_found =
      ok (false, codes "binary " ++ (repr binary ++ codes " not found on PATH"))
  version_phase late = ok (false, codes "--version timed out after 10s")
  version_phase broken = err outside_error

  abbrev pub judge : Text → ℤ → Result Bool → Result (Bool × Text)
  judge stderr code (err e) = err e
  judge stderr code (ok saw_result) = ok (
      if is_zero code && saw_result then (true, codes "spawn 'ok': result chunk received") else (
        false,
        codes "spawn exit="
            ++ (str_ℤ code
                ++ (codes " saw_result="
                    ++ (truth saw_result ++ (codes " stderr=" ++ take 200 (strip stderr))))),
      ))

  -- Phase 2: `spawn_ok` and its note.
  unfoldable pub spawn_phase : Trial → Result (Bool × Text)
  unfolding drain
  spawn_phase (ran lines stderr code) = judge stderr code (drain false lines)
  spawn_phase gone =
      ok (false, codes "binary " ++ (repr binary ++ codes " disappeared between phases"))
  spawn_phase overdue =
      ok (false, codes "spawn 'ok' timed out after " ++ (timeout_seconds ++ codes "s"))
  spawn_phase failing = err outside_error

  abbrev pub both : Text → Result (Bool × Text) → Result SelftestResult
  both first (err e) = err e
  both first (ok (spawn_ok, note)) = ok (record {
    healthy = spawn_ok;
    version_ok = true;
    spawn_ok = spawn_ok;
    notes = first ++ (codes " | " ++ note);
  })

  -- The second run is started only after a first one that went well.
  abbrev pub after_version : Result (Bool × Text) → Trial → Result SelftestResult
  after_version (err e) trial = err e
  after_version (ok (false, note)) trial =
      ok (record { healthy = false; version_ok = false; spawn_ok = false; notes = note })
  after_version (ok (true, note)) trial = both note (spawn_phase trial)

  unfoldable pub run_selftest : Probe → Trial → Result SelftestResult
  unfolding version_phase spawn_phase
  run_selftest probe trial = after_version (version_phase probe) trial

-- `_run`, behind the self-test.
unfoldable pub enter : SelftestResult → StateMachine → StateMachine
unfolding transition
enter selftest machine =
    if selftest.healthy
    then transition healthy (some (codes "selftest passed")) machine
    else transition degraded (some selftest.notes) machine
