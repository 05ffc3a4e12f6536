-- ===== src/Boot/Trace.antt =====
-- Which steps a run of the daemon takes, in which order.
use overwatch_harness.Prelude.{
  ℕ, Bool, true, false, inl, inr, Option, some, List, [], ◌∷◌, ◌++◌, ◌&&◌, ◌≡◌, ◌⊎◌, refl, sym,
}
use overwatch_harness.Text.{Text, codes}
use overwatch_harness.Text.Int.{ℤ}
use overwatch_harness.Exec.{Result, ok, err, outside_error, is_ok}
use overwatch_harness.Config.{HarnessSettings, allowed_chat_ids}
use overwatch_harness.Machine.{shutting_down, transition}
use overwatch_harness.Selftest.{SelftestResult, Probe, Trial, run_selftest, enter}
use overwatch_harness.Secrets.{HarnessSecrets, SecretsError, loaded, secrets_error, other}
use overwatch_harness.Boot.{
  Step, make_directory, connect, set_wal, set_synchronous, enforce_foreign_keys, run_migrations,
  list_pending, set_up_runner, bind_healthz, build_app, initialize_app, start_app, start_polling,
  create_heartbeat, notify_ready, notify_stopping, await_heartbeat, stop_updater, stop_app,
  shut_down_app, stop_site, clean_up, close_ledger, Boot, fresh, start_up, shut_down, run_daemon,
  built_with, langfuse_env, plane_of,
}
use overwatch_harness.Boot.Parts.{
  Leaves, Does, and_true, Does-then, Does-cast, note-Does, lift-Does, pure-Does,
  change_machine-Does, attempt-Does, goes_open, open_ledger-Does, start_healthz-Does,
  start_ingress-Does, stop_ingress-Does,
}

-- The steps until READY=1, and those behind the signal.
abbrev pub up : List Step
up =
    make_directory ∷ connect ∷ set_wal ∷ set_synchronous ∷ enforce_foreign_keys ∷ run_migrations
    ∷ list_pending ∷ set_up_runner ∷ bind_healthz ∷ build_app ∷ initialize_app ∷ start_app
    ∷ start_polling ∷ create_heartbeat ∷ notify_ready ∷ []

abbrev pub down : List Step
down =
    notify_stopping ∷ await_heartbeat ∷ stop_updater ∷ stop_app ∷ shut_down_app ∷ stop_site
    ∷ clean_up ∷ close_ledger ∷ []

and_assoc : (a b c : Bool) → (a && (b && c)) ≡ ((a && b) && c)
and_assoc true b c = refl
and_assoc false b c = refl

module _ (goes : Step → Bool) where
  -- What has to go through for them.
  abbrev pub goes_up : Result SelftestResult → Result (List ℤ) → Bool
  goes_up selftest allowlist =
      (goes_open goes && goes list_pending)
      && (is_ok selftest
          && ((goes set_up_runner && goes bind_healthz)
              && (is_ok allowlist
                  && (((goes build_app && goes initialize_app) && goes start_app)
                      && goes start_polling))))

  abbrev pub goes_down : Bool
  goes_down =
      (goes stop_updater && (goes stop_app && goes shut_down_app))
      && (goes stop_site && (goes clean_up && goes close_ledger))

  start_up-Does :
      (settings : HarnessSettings) (secrets : HarnessSecrets) (selftest : Result SelftestResult)
      (allowlist : Result (List ℤ)) (pre : Bool)
      → Does pre
          (start_up goes settings secrets selftest allowlist)
          up
          (goes_up selftest allowlist)
          true
  unfolding start_up
  start_up-Does settings secrets selftest allowlist pre =
      Does-cast (and_assoc (goes_open goes) _ _) (
        Does-then _ _ (open_ledger-Does goes pre) λ u.
          Does-then _ _ (attempt-Does goes list_pending pre) λ u.
            Does-then _ _ (lift-Does selftest pre) λ result.
              Does-then _ _ (change_machine-Does (enter result) pre) λ u.
                Does-then _ _ (start_healthz-Does goes pre) λ u.
                  Does-then _ _ (lift-Does allowlist pre) λ allowed. Does-cast (and_true _) (
                    Does-then _ _ (start_ingress-Does goes pre) λ u.
                      Does-then _ _ (note-Does create_heartbeat true) λ u.
                        Does-then _ _ (note-Does notify_ready true) λ u.
                          pure-Does
                            (built_with (langfuse_env secrets) (plane_of settings secrets) allowed)
                            true))

  shut_down-Does : Does true (shut_down goes) down goes_down false
  unfolding shut_down
  shut_down-Does = Does-then _ _ (note-Does notify_stopping true) λ u.
      Does-then _ _ (change_machine-Does (transition shutting_down (some (codes "signal"))) true)
        λ u. Does-then _ _ (note-Does await_heartbeat true) λ u.
          Does-then _ _ (stop_ingress-Does goes) λ u.
            Does-then _ _ (attempt-Does goes stop_site false) λ u.
              Does-then _ _ (attempt-Does goes clean_up false) λ u.
                Does-cast (and_true _)
                  (Does-then _ _ (attempt-Does goes close_ledger false) λ u. pure-Does 0 false)

  module _ (decimal : ℕ → Option ℕ) (repr : Text → Text) (settings : HarnessSettings)
      (secrets : HarnessSecrets) (probe : Probe) (trial : Trial) where
    run_daemon-Does :
        Does false
          (run_daemon goes decimal repr settings (loaded secrets) probe trial)
          (up ++ down)
          (goes_up
              (run_selftest repr settings.selftest_command settings.selftest_timeout_seconds probe
                trial)
              (allowed_chat_ids decimal settings)
            && goes_down)
          false
    unfolding run_daemon
    run_daemon-Does = Does-then _ _ (start_up-Does settings secrets _ _ false) λ u. shut_down-Does

    -- A run of the daemon whose secrets raise a SecretsError returns 78, and one whose secrets raise
    -- anything else raises; neither takes a step. With the secrets loaded, a run returns exactly if
    -- every call of the start and the shutdown goes through, the self-test raises nothing and the
    -- allowlist is readable. If it returns, it took the steps of the start, READY=1 the last of them,
    -- and then those of the shutdown, in the order of the code; if not, the steps that it tried are
    -- the first ones of them, in the same order.
    pub run_daemon_in_order :
        (e : SecretsError)
        → (run_daemon goes decimal repr settings (secrets_error e) probe trial fresh
            ≡ (ok 78, fresh))
          × (run_daemon goes decimal repr settings other probe trial fresh
              ≡ (err outside_error, fresh))
          × (let r = run_daemon goes decimal repr settings (loaded secrets) probe trial fresh in
              (is_ok r.0 ≡ (
                goes_up
                  (run_selftest repr settings.selftest_command settings.selftest_timeout_seconds
                    probe trial)
                  (allowed_chat_ids decimal settings)
                && goes_down))
              × (((is_ok r.0 ≡ true) × (r.1.steps ≡ up ++ down))
                  ⊎ ((is_ok r.0 ≡ false)
                      × ((rest : List Step) × (r.1.steps ++ rest ≡ up ++ down)))))
    unfolding run_daemon
    run_daemon_in_order e = (refl, refl, ends _ (run_daemon-Does.leaves fresh refl))
      where
        ends :
            {x : Bool} (r : Result ℕ × Boot)
            → Leaves (up ++ down) x false fresh r
            → (is_ok r.0 ≡ x)
              × (((is_ok r.0 ≡ true) × (r.1.steps ≡ up ++ down))
                  ⊎ ((is_ok r.0 ≡ false) × ((rest : List Step) × (r.1.steps ++ rest ≡ up ++ down))))
        ends (ok n, b) (good, steps, app) = (sym good, inl (refl, steps))
        ends (err e, b) (bad, rest, steps) = (sym bad, inr (refl, (rest, steps)))
