-- ===== src/Boot.antt =====
-- `_run` of src/harness/__main__.py, with `Ledger.open` of src/harness/db.py, `start_healthz` of
-- src/harness/http.py, and `start` and `stop` of src/harness/ingress/telegram.py: the order in which
-- the daemon comes up and goes down. The calls of asyncio, aiohttp, sqlite and
-- python-telegram-bot are outside: each is a step, and whether it goes through is given.
pub mod Beat
pub mod Parts
pub mod Trace
pub mod Stopping
pub mod Langfuse
use overwatch_harness.Prelude.{
  ℕ, Bool, true, false, Option, none, some, List, [], ◌∷◌, ◌++◌, ◌&&◌, ◌==◌, if◌then◌else◌,
}
use overwatch_harness.Text.{Text, codes, text_eq, is_blank}
use overwatch_harness.Text.Int.{ℤ}
use overwatch_harness.Exec.{
  continue, ◌>>=◌, Exec, Result, ok, err, outside_error, pure, raise, ◌>>◌,
}
use overwatch_harness.Config.{HarnessSettings, allowed_chat_ids}
use overwatch_harness.Machine.{StateMachine, initial, shutting_down, transition}
use overwatch_harness.Selftest.{SelftestResult, Probe, Trial, run_selftest, enter}
use overwatch_harness.Secrets.{HarnessSecrets, Outcome, loaded, secrets_error, other}
use overwatch_harness.Spawner.Values.{Json, truthy}
use overwatch_harness.Spawner.Child.{Environment}
use overwatch_harness.Plane.{PlaneClient, plane_client}

-- The address that `_sd_notify` sends to, of NOTIFY_SOCKET; none, and nothing is sent.
unfoldable pub sd_address : Option Text → Option Text
sd_address none = none
sd_address (some []) = none
sd_address (some (c ∷ path)) = some (if c == b'@' then 0 ∷ path else c ∷ path)

-- A dict of the three entries.
abbrev pub langfuse_entries : HarnessSecrets → Environment
langfuse_entries s name =
    if text_eq name (codes "LANGFUSE_PUBLIC_KEY")
    then some s.langfuse_public_key
    else if text_eq name (codes "LANGFUSE_SECRET_KEY")
    then some s.langfuse_secret_key
    else if text_eq name (codes "LANGFUSE_HOST")
    then some s.langfuse_host
    else none

-- `_lf_env or None`
unfoldable pub langfuse_env : HarnessSecrets → Option Environment
unfolding text_eq truthy
langfuse_env s =
    if truthy s.langfuse_public_key && (truthy s.langfuse_secret_key && truthy s.langfuse_host)
    then some (langfuse_entries s)
    else none

-- The Plane client, if the settings have a project.
unfoldable pub plane_of : HarnessSettings → HarnessSecrets → Option PlaneClient
unfolding plane_client
plane_of settings secrets =
    if is_blank settings.plane_project_id
    then none
    else some (
        plane_client settings.plane_base_url settings.plane_workspace settings.plane_project_id
          secrets.plane_api_key false)

-- What the spawner, the dispatch and the ingress are built with.
pub record Built : Type 0 where
  pub langfuse : Option Environment
  pub plane : Option PlaneClient
  pub allowlist : List ℤ

abbrev pub built_with : Option Environment → Option PlaneClient → List ℤ → Built
built_with langfuse plane allowlist = record {
  langfuse = langfuse;
  plane = plane;
  allowlist = allowlist;
}

-- What the daemon does on its way, in the order of the code.
pub data Step : Type 0 where
  make_directory connect set_wal set_synchronous enforce_foreign_keys run_migrations : Step
  list_pending set_up_runner bind_healthz : Step
  build_app initialize_app start_app start_polling : Step
  create_heartbeat notify_ready notify_stopping await_heartbeat : Step
  stop_updater stop_app shut_down_app : Step
  stop_site clean_up close_ledger : Step

pub record Boot : Type 0 where
  pub machine : StateMachine
  -- whether `TelegramIngress._app` is set
  pub has_app : Bool
  -- the steps tried so far, the oldest first
  pub steps : List Step

abbrev pub fresh : Boot
fresh = record { machine = initial; has_app = false; steps = [] }

-- A step that cannot fail.
unfoldable pub note : Step → Exec Boot (Unit {0})
note s b = (ok tt, record b { steps = b.steps ++ s ∷ [] })

abbrev pub lift : {A : Type 0} → Result A → Exec Boot A
lift r b = (r, b)

abbrev pub change_machine : (StateMachine → StateMachine) → Exec Boot (Unit {0})
change_machine f b = (ok tt, record b { machine = f b.machine })

abbrev pub set_app : Bool → Exec Boot (Unit {0})
set_app has b = (ok tt, record b { has_app = has })

-- `try: m finally: n`
abbrev pub settle : Result (Unit {0}) → Result (Unit {0}) × Boot → Result (Unit {0}) × Boot
settle r (err e, b) = (err e, b)
settle r (ok u, b) = (r, b)

abbrev pub try_finally : Exec Boot (Unit {0}) → Exec Boot (Unit {0}) → Exec Boot (Unit {0})
try_finally m n b = let (r, b') = m b in settle r (n b')

module _ (goes : Step → Bool) where
  -- A call that raises unless it goes through.
  unfoldable pub attempt : Step → Exec Boot (Unit {0})
  attempt s b =
      (if goes s then ok tt else err outside_error, record b { steps = b.steps ++ s ∷ [] })

  -- `Ledger.open`: the foreign keys are enforced before the first migration.
  unfoldable pub open_ledger : Exec Boot (Unit {0})
  unfolding attempt
  open_ledger = do
    attempt make_directory
    attempt connect
    attempt set_wal
    attempt set_synchronous
    attempt enforce_foreign_keys
    attempt run_migrations

  -- `start_healthz` of src/harness/http.py
  unfoldable pub start_healthz : Exec Boot (Unit {0})
  unfolding attempt
  start_healthz = do attempt set_up_runner; attempt bind_healthz

  -- `TelegramIngress.start`
  unfoldable pub start_ingress : Exec Boot (Unit {0})
  unfolding attempt
  start_ingress =
      attempt build_app
      >> set_app true
      >> attempt initialize_app
      >> attempt start_app
      >> attempt start_polling

  -- `TelegramIngress.stop`
  unfoldable pub stop_ingress : Exec Boot (Unit {0})
  unfolding attempt
  stop_ingress b =
      if b.has_app
      then (try_finally (attempt stop_updater) (attempt stop_app >> attempt shut_down_app)
            >> set_app false)
          b
      else (ok tt, b)

  -- `_run` behind the secrets, until READY=1 is notified.
  unfoldable pub start_up :
      HarnessSettings → HarnessSecrets → Result SelftestResult → Result (List ℤ) → Exec Boot Built
  unfolding attempt open_ledger start_healthz start_ingress enter note langfuse_env plane_of
  start_up settings secrets selftest allowlist = do
    open_ledger
    attempt list_pending
    result ← lift selftest
    change_machine (enter result)
    start_healthz
    allowed ← lift allowlist
    start_ingress
    note create_heartbeat
    note notify_ready
    pure (built_with (langfuse_env secrets) (plane_of settings secrets) allowed)

  -- `_run` behind the signal.
  unfoldable pub shut_down : Exec Boot ℕ
  unfolding attempt stop_ingress note transition
  shut_down = do
    note notify_stopping
    change_machine (transition shutting_down (some (codes "signal")))
    note await_heartbeat
    stop_ingress
    attempt stop_site
    attempt clean_up
    attempt close_ledger
    pure 0

  -- `_run` behind the settings: with the outcome of `load_secrets`, the two runs of the self-test,
  -- and a signal at some time.
  unfoldable pub run_daemon :
      (decimal : ℕ → Option ℕ) (repr : Text → Text)
      → HarnessSettings
      → Outcome HarnessSecrets
      → Probe
      → Trial
      → Exec Boot ℕ
  unfolding start_up shut_down
  run_daemon decimal repr settings (secrets_error e) probe trial = pure 78
  run_daemon decimal repr settings other probe trial = raise outside_error
  run_daemon decimal repr settings (loaded s) probe trial =
      start_up settings s
        (run_selftest repr settings.selftest_command settings.selftest_timeout_seconds probe trial)
        (allowed_chat_ids decimal settings)
      >> shut_down
