-- ===== src/Boot/Langfuse.antt =====
-- The Langfuse keys on their way from Vault to a claude process.
use overwatch_harness.Prelude.{Bool, true, false, Option, none, some, ◌&&◌, ◌||◌, ◌≡◌, refl, arith}
use overwatch_harness.Text.{Text, codes, text_eq}
use overwatch_harness.Config.{HarnessSettings}
use overwatch_harness.Spawner.Values.{truthy}
use overwatch_harness.Spawner.Child.{Environment, full_env}
use overwatch_harness.Secrets.{
  HarnessSecrets, SecretsError, Vault, hvac_client, read_kv2, load_secrets, loaded, secrets_error,
}
use overwatch_harness.Secrets.Loads.{load_secrets-without}
use overwatch_harness.Boot.{langfuse_env}

-- The environment of a claude process: `spawn` is called without one of its own.
abbrev pub child_env : Environment → HarnessSecrets → Environment
child_env os s = full_env os (langfuse_env s) none

abbrev pub is_langfuse : Text → Bool
is_langfuse name =
    text_eq name (codes "LANGFUSE_PUBLIC_KEY")
    || text_eq name (codes "LANGFUSE_SECRET_KEY")
    || text_eq name (codes "LANGFUSE_HOST")

-- If all three Langfuse keys are there and not empty, a claude process gets them under their names,
-- and every other variable as the daemon has it.
pub langfuse_given :
    (os : Environment) (s : HarnessSecrets) (name : Text)
    → is_langfuse name ≡ false
    → truthy s.langfuse_public_key ≡ true
    → truthy s.langfuse_secret_key ≡ true
    → truthy s.langfuse_host ≡ true
    → (child_env os s (codes "LANGFUSE_PUBLIC_KEY") ≡ some s.langfuse_public_key)
      × (child_env os s (codes "LANGFUSE_SECRET_KEY") ≡ some s.langfuse_secret_key)
      × (child_env os s (codes "LANGFUSE_HOST") ≡ some s.langfuse_host)
      × (child_env os s name ≡ os name)
unfolding full_env langfuse_env
langfuse_given os s name h a b c =
    rw (a, b, c)
      (unfold text_eq in refl, unfold text_eq in refl, unfold text_eq in refl, ground (arith, h))

-- If one of them is missing or empty, a claude process gets the environment of the daemon.
pub langfuse_withheld :
    (os : Environment) (s : HarnessSecrets) (name : Text)
    → (truthy s.langfuse_public_key && (truthy s.langfuse_secret_key && truthy s.langfuse_host))
      ≡ false
    → child_env os s name ≡ os name
unfolding full_env langfuse_env
langfuse_withheld os s name h = rw h refl

-- If the secrets are loaded although the reading of the Langfuse path failed with a `SecretsError`,
-- a claude process gets the environment of the daemon.
pub langfuse_unread :
    (vault : Vault) (settings : HarnessSettings) (resolved : Option Text) (s : HarnessSecrets)
    (e : SecretsError) (os : Environment) (name : Text)
    → read_kv2 vault settings (hvac_client settings resolved) settings.vault_langfuse_path
      ≡ secrets_error e
    → load_secrets vault settings resolved ≡ loaded s
    → child_env os s name ≡ os name
langfuse_unread vault settings resolved s e os name passed h =
    langfuse_withheld os s name
      (rw (load_secrets-without vault settings resolved s e passed h) (unfold truthy in refl))
