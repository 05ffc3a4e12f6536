-- ===== src/Daemon/Closed.antt =====
-- The allowlist is fail-closed: from the setting to the update.
use overwatch_harness.Prelude.{ℕ, Bool, true, Option, [], ◌∷◌, ◌++◌, All, ◌≡◌, ◌⊎◌, refl}
use overwatch_harness.Text.{Text, is_space, strip, drop_while}
use overwatch_harness.Text.Int.{ℤ}
use overwatch_harness.Exec.{ok}
use overwatch_harness.Config.{HarnessSettings, strip_allowlist, allowed_chat_ids}
use overwatch_harness.Daemon.{World, Outside}
use overwatch_harness.Daemon.Ingress.{TelegramMessage, refusal_note, on_message}
use overwatch_harness.Daemon.Gate.{from_chat, outsider_refused}

abbrev pub Blank : Text → Type 0
Blank = All (λ (c : ℕ). is_space c ≡ true)

drop_while-Blank : (s : Text) → Blank s → drop_while is_space s ≡ []
unfolding drop_while
drop_while-Blank [] h = refl
drop_while-Blank (c ∷ s) h = rw h.0 (drop_while-Blank s h.1)

strip-Blank : (s : Text) → Blank s → strip s ≡ []
unfolding strip drop_while
strip-Blank s h = rw (drop_while-Blank s h) refl

-- If the allowlist setting is empty or all white space, the ingress reads no chat id from it, and an
-- update from any chat changes nothing: at most the one refusal is sent to that chat.
pub closed_allowlist_refuses :
    (decimal : ℕ → Option ℕ) (out : Outside) (s : HarnessSettings) (binary : Text) (plane : Bool)
    (chat : ℤ) (msg : Option TelegramMessage) (w : World)
    → Blank s.telegram_allowlist
    → (allowed_chat_ids decimal (strip_allowlist s) ≡ ok [])
      × (let r = on_message out (strip_allowlist s) binary plane [] (from_chat chat msg) w in
          (r.0 ≡ ok tt)
          × ((r.1 ≡ w) ⊎ (r.1 ≡ record w { sent = w.sent ++ refusal_note chat ∷ [] })))
unfolding allowed_chat_ids strip_allowlist
closed_allowlist_refuses decimal out s binary plane chat msg w h = (
  rw (strip-Blank s.telegram_allowlist h) refl,
  outsider_refused out (strip_allowlist s) binary plane [] chat msg w refl,
)
