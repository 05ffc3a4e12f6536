-- ===== src/Secrets.antt =====
-- src/harness/secrets.py: the secrets that the daemon reads from Vault. Vault and its client are
-- outside: whether it answers and takes the token, and what it gives for a path.
pub mod Ensures
pub mod Loads
use overwatch_harness.Prelude.{
  Bool, true, false, not, Option, none, some, List, [], ◌∷◌, if◌then◌else◌, drop, length,
}
use overwatch_harness.Text.{Text, codes, strip, starts_with, is_blank}
use overwatch_harness.Config.{HarnessSettings}
use overwatch_harness.Spawner.Values.{Json, null, Fields, get, truthy, or_value}

pub record HarnessSecrets : Type 0 where
  pub telegram_bot_token : Json
  pub plane_api_key : Json
  -- None, where the key is missing or falsy
  pub langfuse_public_key : Json
  pub langfuse_secret_key : Json
  pub langfuse_host : Json

-- The places that raise `SecretsError`, each with what its message names.
pub data SecretsError : Type 0 where
  unreachable not_authenticated : Text → SecretsError
  unsupported_mount not_found : Text → SecretsError
  token_missing key_missing : Text → Text → SecretsError

-- What a call of this module comes to; `other` is any exception that is no `SecretsError`.
pub data Outcome (A : Type 0) : Type 0 where
  loaded : A → Outcome A
  secrets_error : SecretsError → Outcome A
  other : Outcome A

abbrev pub then_load : {A B : Type 0} → Outcome A → (A → Outcome B) → Outcome B
then_load (loaded a) f = f a
then_load (secrets_error e) f = secrets_error e
then_load other f = other

infixl 5 ◌>>=◌
abbrev ◌>>=◌ : {A B : Type 0} → Outcome A → (A → Outcome B) → Outcome B
m >>= f = then_load m f

-- `is_authenticated`: an answer, or an exception.
pub data Greeting : Type 0 where
  accepts refuses raises : Greeting

-- `read_secret_version`: the data of the version, `InvalidPath`, or another exception.
pub data Reading : Type 0 where
  version : Fields → Reading
  invalid_path faulty : Reading

-- `hvac.Client`, by what it is made with.
pub record Client : Type 0 where
  pub url : Text
  pub token : Option Text
  pub verify : Bool

abbrev pub hvac_client : HarnessSettings → Option Text → Client
hvac_client settings token = record {
  url = settings.vault_addr;
  token = token;
  verify = not settings.vault_skip_verify;
}

pub record Vault : Type 0 where
  -- `is_authenticated` of a client
  pub greets : Client → Greeting
  -- at a path below the mount `secret/`
  pub reads : Client → Text → Reading

-- `text.strip() or None`
abbrev pub stripped_or_none : Text → Option Text
stripped_or_none t = if is_blank t then none else some t

-- `_resolve_vault_token`, of VAULT_TOKEN and of the content of ~/.vault-token
unfoldable pub resolve_vault_token : Option Text → Option Text → Option Text
unfolding strip
resolve_vault_token (some (c ∷ t)) file = stripped_or_none (strip (c ∷ t))
resolve_vault_token env none = none
resolve_vault_token env (some content) = stripped_or_none (strip content)

abbrev pub mount : Text
mount = codes "secret/data/"

module _ (vault : Vault) (settings : HarnessSettings) where
  -- `_client`, with the token of `_resolve_vault_token`
  unfoldable pub client : Option Text → Outcome Client
  client token = elim (vault.greets (hvac_client settings token)) [
    | accepts ↦ loaded (hvac_client settings token)
    | refuses ↦ secrets_error (not_authenticated settings.vault_addr)
    | raises ↦ secrets_error (unreachable settings.vault_addr)
  ]

  abbrev pub data_of : Text → Reading → Outcome Fields
  data_of path (version fields) = loaded fields
  data_of path invalid_path = secrets_error (not_found path)
  data_of path faulty = other

  -- `_read_kv2`
  unfoldable pub read_kv2 : Client → Text → Outcome Fields
  unfolding starts_with
  read_kv2 c path =
      if starts_with mount path
      then data_of path (vault.reads c (drop (length mount) path))
      else secrets_error (unsupported_mount path)

  -- A field that must be there and truthy.
  abbrev pub required : SecretsError → Json → Outcome Json
  required e value = if truthy value then loaded value else secrets_error e

  -- `data.get(name) or None`
  abbrev pub optional : Text → Fields → Json
  optional name fields = or_value (get name fields) null

  abbrev pub without_langfuse : Json → Json → HarnessSecrets
  without_langfuse token key = record {
    telegram_bot_token = token;
    plane_api_key = key;
    langfuse_public_key = null;
    langfuse_secret_key = null;
    langfuse_host = null;
  }

  -- The last reading, of which a `SecretsError` is passed over.
  abbrev pub with_langfuse : Json → Json → Outcome Fields → Outcome HarnessSecrets
  with_langfuse token key (loaded fields) = loaded (record {
    telegram_bot_token = token;
    plane_api_key = key;
    langfuse_public_key = optional (codes "public_key") fields;
    langfuse_secret_key = optional (codes "secret_key") fields;
    langfuse_host = optional (codes "baseurl") fields;
  })
  with_langfuse token key (secrets_error e) = loaded (without_langfuse token key)
  with_langfuse token key other = other

  -- `load_secrets`, with the token of `_resolve_vault_token`
  unfoldable pub load_secrets : Option Text → Outcome HarnessSecrets
  load_secrets resolved = do
    c ← client resolved
    tg_data ← read_kv2 c settings.vault_telegram_token_path
    tg_token ←
        required
          (token_missing settings.vault_telegram_token_field settings.vault_telegram_token_path)
          (get settings.vault_telegram_token_field tg_data)
    plane_data ← read_kv2 c settings.vault_plane_key_path
    plane_key ←
        required (key_missing settings.vault_plane_key_field settings.vault_plane_key_path)
          (get settings.vault_plane_key_field plane_data)
    with_langfuse tg_token plane_key (read_kv2 c settings.vault_langfuse_path)
