-- ===== src/Config.antt =====
-- src/harness/config.py: the settings with their defaults, and the chat ids of the allowlist. What
-- pydantic reads from the environment and the env file is outside; paths are their text.
pub mod Allowlist
use overwatch_harness.Prelude.{
  ℕ, Bool, true, false, Option, none, some, List, [], ◌∷◌, ◌++◌, if◌then◌else◌,
}
use overwatch_harness.Text.{Text, codes, strip, is_blank}
use overwatch_harness.Text.Int.{ℤ}
use overwatch_harness.Text.Numeral.{split, parse_int}
use overwatch_harness.Exec.{Result, ok, err, value_error}

pub record HarnessSettings : Type 0 where
  pub vault_addr : Text
  pub vault_skip_verify : Bool
  pub vault_telegram_token_path : Text
  pub vault_telegram_token_field : Text
  pub vault_plane_key_path : Text
  pub vault_plane_key_field : Text
  pub vault_langfuse_path : Text
  pub plane_base_url : Text
  pub plane_workspace : Text
  pub plane_project_id : Text
  pub max_concurrent_sessions : ℕ
  pub idle_window_seconds : ℕ
  pub log_level : Text
  pub telegram_allowlist : Text
  pub state_dir : Text
  pub db_path : Text
  pub healthz_host : Text
  pub healthz_port : ℕ
  pub selftest_command : Text
  -- the float's text
  pub selftest_timeout_seconds : Text

-- The defaults, with the text of `Path.home()`.
abbrev pub defaults : Text → HarnessSettings
defaults home = record {
  vault_addr = codes "https://192.168.12.206:8200";
  vault_skip_verify = true;
  vault_telegram_token_path = codes "secret/data/overwatch-harness/telegram";
  vault_telegram_token_field = codes "TELEGRAM_BOT_TOKEN";
  vault_plane_key_path = codes "secret/data/plane/api-key";
  vault_plane_key_field = codes "api_key";
  vault_langfuse_path = codes "secret/data/langfuse/overwatch-agents";
  plane_base_url = codes "https://plane.208.haist.farm";
  plane_workspace = codes "haists-it-consulting";
  plane_project_id = [];
  max_concurrent_sessions = 4;
  idle_window_seconds = 1800;
  log_level = codes "INFO";
  telegram_allowlist = [];
  state_dir = home ++ codes "/.local/state/overwatch-harness";
  db_path = home ++ codes "/.local/state/overwatch-harness/harness.db";
  healthz_host = codes "127.0.0.1";
  healthz_port = 8787;
  selftest_command = codes "claude";
  selftest_timeout_seconds = codes "30.0";
}

-- `_strip_allowlist`, the validator
unfoldable pub strip_allowlist : HarnessSettings → HarnessSettings
unfolding strip
strip_allowlist s = record s { telegram_allowlist = strip s.telegram_allowlist }

module _ (decimal : ℕ → Option ℕ) where
  abbrev pub add_id : Option ℤ → Result (List ℤ) → Result (List ℤ)
  add_id none rest = err value_error
  add_id (some n) (ok ns) = ok (n ∷ ns)
  add_id (some n) (err e) = err e

  -- `int(part.strip())` for each part that is not blank
  unfoldable pub ids_of : List Text → Result (List ℤ)
  unfolding strip parse_int
  ids_of [] = ok []
  ids_of (part ∷ parts) =
      let rest = ids_of parts in
      if is_blank (strip part) then rest else add_id (parse_int decimal (strip part)) rest

  -- The set, as a list whose order is not read.
  unfoldable pub allowed_chat_ids : HarnessSettings → Result (List ℤ)
  unfolding ids_of split
  allowed_chat_ids s =
      if is_blank s.telegram_allowlist then ok [] else ids_of (split b',' s.telegram_allowlist)
