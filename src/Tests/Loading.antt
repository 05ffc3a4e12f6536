-- ===== src/Tests/Loading.antt =====
-- The theorems on the secrets and on the Langfuse keys, applied.
use overwatch_harness.Prelude.{true, false, none, some, ◌≡◌, ◌≢◌, refl, if◌then◌else◌}
use overwatch_harness.Text.{Text, codes, text_eq, starts_with, is_blank}
use overwatch_harness.Spawner.Values.{Json, Fields, field, end, null, get, get_or, truthy}
use overwatch_harness.Spawner.Child.{Environment}
use overwatch_harness.Secrets.{
  HarnessSecrets, SecretsError, Outcome, loaded, other, accepts, version, invalid_path, Vault,
  hvac_client, client, read_kv2, load_secrets,
}
use overwatch_harness.Secrets.Loads.{load_secrets-Complete, langfuse_optional}
use overwatch_harness.Boot.Langfuse.{child_env, is_langfuse, langfuse_given, langfuse_unread}
use overwatch_harness.Tests.{settings}

-- A Vault with the two secrets that are needed, and no Langfuse path.
abbrev tg_data : Fields
tg_data = field (codes "TELEGRAM_BOT_TOKEN") (Json.str (codes "token")) end

abbrev plane_data : Fields
plane_data = field (codes "api_key") (Json.str (codes "key")) end

abbrev vault : Vault
vault = record {
  greets = λ c. accepts;
  reads = λ c path.
      if text_eq path (codes "overwatch-harness/telegram")
      then version tg_data
      else if text_eq path (codes "plane/api-key")
      then version plane_data
      else invalid_path;
}

abbrev pub held : HarnessSecrets
held = record {
  telegram_bot_token = Json.str (codes "token");
  plane_api_key = Json.str (codes "key");
  langfuse_public_key = null;
  langfuse_secret_key = null;
  langfuse_host = null;
}

held_loaded : load_secrets vault settings none ≡ loaded held
unfolding load_secrets client read_kv2 starts_with text_eq get get_or truthy
held_loaded = refl

load_secrets-Complete_example :
    (vault.greets (hvac_client settings none) ≡ accepts)
    × (truthy held.telegram_bot_token ≡ true)
    × (truthy held.plane_api_key ≡ true)
load_secrets-Complete_example = load_secrets-Complete vault settings none held held_loaded

tg_read :
    read_kv2 vault settings (hvac_client settings none) settings.vault_telegram_token_path
    ≡ loaded tg_data
unfolding read_kv2 starts_with text_eq
tg_read = refl

plane_read :
    read_kv2 vault settings (hvac_client settings none) settings.vault_plane_key_path
    ≡ loaded plane_data
unfolding read_kv2 starts_with text_eq
plane_read = refl

langfuse_read :
    read_kv2 vault settings (hvac_client settings none) settings.vault_langfuse_path
    ≡ Outcome.secrets_error (SecretsError.not_found settings.vault_langfuse_path)
unfolding read_kv2 starts_with text_eq
langfuse_read = refl

token_set : truthy (get settings.vault_telegram_token_field tg_data) ≡ true
unfolding truthy get get_or text_eq
token_set = refl

key_set : truthy (get settings.vault_plane_key_field plane_data) ≡ true
unfolding truthy get get_or text_eq
key_set = refl

langfuse_optional_example :
    (s : HarnessSecrets) × (load_secrets vault settings none ≡ loaded s)
    × (s.telegram_bot_token ≡ get settings.vault_telegram_token_field tg_data)
    × (s.plane_api_key ≡ get settings.vault_plane_key_field plane_data)
langfuse_optional_example =
    langfuse_optional vault settings none tg_data plane_data refl tg_read token_set plane_read
      key_set no_fault
  where
    no_fault :
        read_kv2 vault settings (hvac_client settings none) settings.vault_langfuse_path ≢ other
    no_fault h = let e : Outcome.secrets_error _ ≡ other = rw langfuse_read at h in cc

abbrev os : Environment
os name = if text_eq name (codes "HOME") then some (Json.str (codes "/root")) else none

langfuse_unread_example : child_env os held (codes "HOME") ≡ os (codes "HOME")
langfuse_unread_example =
    langfuse_unread vault settings none held (SecretsError.not_found settings.vault_langfuse_path)
      os (codes "HOME") langfuse_read held_loaded

abbrev traced : HarnessSecrets
traced = record held {
  langfuse_public_key = Json.str (codes "pk");
  langfuse_secret_key = Json.str (codes "sk");
  langfuse_host = Json.str (codes "https://langfuse");
}

home_apart : is_langfuse (codes "HOME") ≡ false
unfolding text_eq
home_apart = refl

is_set : (t : Text) → is_blank t ≡ false → truthy (Json.str t) ≡ true
unfolding truthy
is_set t h = rw h refl

langfuse_given_example :
    (child_env os traced (codes "LANGFUSE_PUBLIC_KEY") ≡ some traced.langfuse_public_key)
    × (child_env os traced (codes "LANGFUSE_SECRET_KEY") ≡ some traced.langfuse_secret_key)
    × (child_env os traced (codes "LANGFUSE_HOST") ≡ some traced.langfuse_host)
    × (child_env os traced (codes "HOME") ≡ os (codes "HOME"))
langfuse_given_example =
    langfuse_given os traced (codes "HOME") home_apart (is_set (codes "pk") refl)
      (is_set (codes "sk") refl) (is_set (codes "https://langfuse") refl)
