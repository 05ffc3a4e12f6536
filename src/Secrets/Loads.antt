-- ===== src/Secrets/Loads.antt =====
-- What a load of the secrets promises.
use overwatch_harness.Prelude.{true, Option, ◌≡◌, ◌≢◌, refl, sym, subst, ◌∙◌, inl, inr, Bool-cases}
use overwatch_harness.Text.{Text}
use overwatch_harness.Config.{HarnessSettings}
use overwatch_harness.Spawner.Values.{Json, null, Fields, get, truthy}
use overwatch_harness.Secrets.{
  HarnessSecrets, SecretsError, Outcome, loaded, secrets_error, other, Greeting, accepts, refuses,
  raises, Vault, Client, hvac_client, client, read_kv2, required, with_langfuse, load_secrets,
  token_missing, key_missing,
}
use overwatch_harness.Secrets.Ensures.{
  Ensures, holds, failed, aborted, Ensures-then, then-loaded, Ensures-any, Ensures-loaded,
}

abbrev pub Complete : HarnessSecrets → Type 0
Complete s = (truthy s.telegram_bot_token ≡ true) × (truthy s.plane_api_key ≡ true)

module _ (vault : Vault) (settings : HarnessSettings) where
  client-Ensures :
      (resolved : Option Text)
      → Ensures
          (λ token.
            (vault.greets (hvac_client settings resolved) ≡ accepts)
            × (token ≡ hvac_client settings resolved))
          (client vault settings resolved)
  unfolding client
  client-Ensures resolved = by_greeting (vault.greets (hvac_client settings resolved)) refl
    where
      by_greeting :
          (g : Greeting)
          → vault.greets (hvac_client settings resolved) ≡ g
          → Ensures
              (λ token.
                (vault.greets (hvac_client settings resolved) ≡ accepts)
                × (token ≡ hvac_client settings resolved))
              (elim g [
                | accepts ↦ loaded (hvac_client settings resolved)
                | refuses ↦ secrets_error (SecretsError.not_authenticated settings.vault_addr)
                | raises ↦ secrets_error (SecretsError.unreachable settings.vault_addr)
              ])
      by_greeting accepts e = holds (hvac_client settings resolved) (e, refl)
      by_greeting refuses e = failed _
      by_greeting raises e = failed _

  required-Ensures :
      (e : SecretsError) (value : Json)
      → Ensures (λ v. truthy v ≡ true) (required vault settings e value)
  required-Ensures e value = elim (Bool-cases (truthy value)) [
    | inl set ↦ rw set (holds value set)
    | inr unset ↦ rw unset (failed e)
  ]

  with_langfuse-Ensures :
      (token key : Json) (r : Outcome Fields)
      → truthy token ≡ true
      → truthy key ≡ true
      → Ensures Complete (with_langfuse vault settings token key r)
  with_langfuse-Ensures token key (loaded fields) t k = holds _ (t, k)
  with_langfuse-Ensures token key (secrets_error e) t k = holds _ (t, k)
  with_langfuse-Ensures token key other t k = aborted

  client-accepts :
      (resolved : Option Text)
      → vault.greets (hvac_client settings resolved) ≡ accepts
      → client vault settings resolved ≡ loaded (hvac_client settings resolved)
  unfolding client
  client-accepts resolved h = rw (h, client) refl

  required-set :
      (e : SecretsError) (value : Json)
      → truthy value ≡ true
      → required vault settings e value ≡ loaded value
  required-set e value h = rw h refl

  -- What the last step ensures of two secrets that are there.
  load_secrets-Ensures :
      {P : HarnessSecrets → Type 0} (resolved : Option Text)
      → ((t k : Json)
          → truthy t ≡ true
          → truthy k ≡ true
          → Ensures P (
              with_langfuse vault settings t k (
                read_kv2 vault settings
                  (hvac_client settings resolved)
                  settings.vault_langfuse_path)))
      → Ensures
          (λ s. (vault.greets (hvac_client settings resolved) ≡ accepts) × P s)
          (load_secrets vault settings resolved)
  unfolding load_secrets
  load_secrets-Ensures {P} resolved last = Ensures-then _ _ (client-Ensures resolved) λ token taken.
      Ensures-then (reading token settings.vault_telegram_token_path) _ (Ensures-any _) λ tg_data _.
        Ensures-then (tg_token tg_data) _
          (required-Ensures
            (token_missing settings.vault_telegram_token_field settings.vault_telegram_token_path)
            (get settings.vault_telegram_token_field tg_data))
          λ t set_t.
            Ensures-then (reading token settings.vault_plane_key_path) _ (Ensures-any _)
              λ plane_data _.
                Ensures-then (plane_key plane_data) _
                  (required-Ensures
                    (key_missing settings.vault_plane_key_field settings.vault_plane_key_path)
                    (get settings.vault_plane_key_field plane_data))
                  λ k set_k. with_taken taken.0 (
                    subst
                      (λ r. Ensures P (
                        with_langfuse vault settings t k
                          (read_kv2 vault settings r settings.vault_langfuse_path)))
                      (sym taken.1) (last t k set_t set_k))
    where
      reading : Client → Text → Outcome Fields
      reading = read_kv2 vault settings

      tg_token : Fields → Outcome Json
      tg_token fields =
          required vault settings
            (token_missing settings.vault_telegram_token_field settings.vault_telegram_token_path)
            (get settings.vault_telegram_token_field fields)

      plane_key : Fields → Outcome Json
      plane_key fields =
          required vault settings
            (key_missing settings.vault_plane_key_field settings.vault_plane_key_path)
            (get settings.vault_plane_key_field fields)

      with_taken :
          {m : Outcome HarnessSecrets}
          → vault.greets (hvac_client settings resolved) ≡ accepts
          → Ensures P m
          → Ensures (λ s. (vault.greets (hvac_client settings resolved) ≡ accepts) × P s) m
      with_taken taken (holds a p) = holds a (taken, p)
      with_taken taken (failed e) = failed e
      with_taken taken aborted = aborted

  -- Secrets are loaded only from a Vault that took the token, and then both required secrets are
  -- there and not empty.
  pub load_secrets-Complete :
      (resolved : Option Text) (s : HarnessSecrets)
      → load_secrets vault settings resolved ≡ loaded s
      → (vault.greets (hvac_client settings resolved) ≡ accepts)
        × (truthy s.telegram_bot_token ≡ true)
        × (truthy s.plane_api_key ≡ true)
  load_secrets-Complete resolved s h =
      let (taken, c) =
        Ensures-loaded s
          (load_secrets-Ensures {P = Complete} resolved λ t k. with_langfuse-Ensures t k _) h in
      (taken, c.0, c.1)

  -- A reading of the Langfuse path that is passed over leaves the keys out.
  pub load_secrets-without :
      (resolved : Option Text) (s : HarnessSecrets) (e : SecretsError)
      → read_kv2 vault settings (hvac_client settings resolved) settings.vault_langfuse_path
        ≡ secrets_error e
      → load_secrets vault settings resolved ≡ loaded s
      → s.langfuse_public_key ≡ null
  load_secrets-without resolved s e passed h =
      (Ensures-loaded s
        (load_secrets-Ensures {P = λ s. s.langfuse_public_key ≡ null} resolved without) h).1
    where
      without :
          (t k : Json)
          → truthy t ≡ true
          → truthy k ≡ true
          → Ensures
              (λ s. s.langfuse_public_key ≡ null)
              (with_langfuse vault settings t k (
                read_kv2 vault settings
                  (hvac_client settings resolved)
                  settings.vault_langfuse_path))
      without t k set_t set_k = rw passed (holds _ refl)

  -- If Vault takes the token and has both required secrets, and the reading of the Langfuse path
  -- raises nothing but what counts as a `SecretsError`, the secrets are loaded, with the two that
  -- were read.
  pub langfuse_optional :
      (resolved : Option Text) (tg plane : Fields)
      → vault.greets (hvac_client settings resolved) ≡ accepts
      → read_kv2 vault settings (hvac_client settings resolved) settings.vault_telegram_token_path
        ≡ loaded tg
      → truthy (get settings.vault_telegram_token_field tg) ≡ true
      → read_kv2 vault settings (hvac_client settings resolved) settings.vault_plane_key_path
        ≡ loaded plane
      → truthy (get settings.vault_plane_key_field plane) ≡ true
      → read_kv2 vault settings (hvac_client settings resolved) settings.vault_langfuse_path ≢ other
      → (s : HarnessSecrets) × (load_secrets vault settings resolved ≡ loaded s)
        × (s.telegram_bot_token ≡ get settings.vault_telegram_token_field tg)
        × (s.plane_api_key ≡ get settings.vault_plane_key_field plane)
  unfolding load_secrets
  langfuse_optional resolved tg plane taken a set_a b set_b fine =
      let (s, h, kept, key) =
        read (read_kv2 vault settings (hvac_client settings resolved) settings.vault_langfuse_path)
          fine in
      (
        s,
        then-loaded _ _ _ (client-accepts resolved taken)
            ∙ then-loaded _ _ _ a
            ∙ then-loaded _ _ _ (required-set _ _ set_a)
            ∙ then-loaded _ _ _ b
            ∙ then-loaded _ _ _ (required-set _ _ set_b)
            ∙ h,
        kept,
        key,
      )
    where
      read :
          (r : Outcome Fields)
          → r ≢ other
          → (s : HarnessSecrets) × (with_langfuse vault settings
                (get settings.vault_telegram_token_field tg)
                (get settings.vault_plane_key_field plane)
                r
              ≡ loaded s)
            × (s.telegram_bot_token ≡ get settings.vault_telegram_token_field tg)
            × (s.plane_api_key ≡ get settings.vault_plane_key_field plane)
      read (loaded fields) fine = (_, refl, refl, refl)
      read (secrets_error e) fine = (_, refl, refl, refl)
      read other fine = absurd (fine refl)
