-- ===== src/Spawner/Child.antt =====
-- What `Spawner` of src/harness/spawner.py gives a claude process and how it ends one: the
-- environment, and the signals of `_terminate`. A dict from names to values is a function. The
-- values are JSON, since the keys that Vault holds need not be texts.
use overwatch_harness.Prelude.{Bool, Option, none, some, or_else, List, [], ◌∷◌, if◌then◌else◌}
use overwatch_harness.Text.{Text}
use overwatch_harness.Spawner.Values.{Json}

abbrev pub Environment : Type 0
Environment = Text → Option Json

-- `d.update(other)`
abbrev pub overlay : Environment → Environment → Environment
overlay env other name = or_else (other name) (env name)

-- `if other: d.update(other)`; none and an empty dict change nothing.
abbrev pub overlay_some : Environment → Option Environment → Environment
overlay_some env none = env
overlay_some env (some other) = overlay env other

-- `full_env`: the operating system's, the Langfuse keys, the caller's.
unfoldable pub full_env : Environment → Option Environment → Option Environment → Environment
full_env os langfuse_env env = overlay_some (overlay_some os langfuse_env) env

pub data Signal : Type 0 where
  sigterm sigkill : Signal

-- A process as `_terminate` meets it: whether its return code is known, whether it is still there at
-- SIGTERM, whether it ends within five seconds, and whether it is still there at SIGKILL.
pub record Child : Type 0 where
  pub returned : Bool
  pub there : Bool
  pub ends_in_time : Bool
  pub still_there : Bool

-- The signals that reach the process.
unfoldable pub terminate : Child → List Signal
terminate p =
    if p.returned
    then []
    else if p.there
    then sigterm ∷ (if p.ends_in_time then [] else if p.still_there then sigkill ∷ [] else [])
    else []
