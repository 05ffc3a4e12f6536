-- ===== src/Plane/Addresses.antt =====
-- The base URL of the Plane client.
use overwatch_harness.Prelude.{ℕ, zero, suc, [], ◌∷◌, ◌++◌, Bool, ◌==◌, ◌≡◌, refl, ap, ◌∙◌}
use overwatch_harness.Text.{Text, drop_while}
use overwatch_harness.Spawner.Values.{Json}
use overwatch_harness.Plane.{rstrip_slashes, plane_client}
use mathlib.Core.List.{reverse, reverse-cons, reverse-append}

-- A number of slashes.
unfoldable pub slashes : ℕ → Text
slashes zero = []
slashes (suc n) = b'/' ∷ slashes n

slashes_end : (n : ℕ) → slashes n ++ b'/' ∷ [] ≡ b'/' ∷ slashes n
unfolding slashes
slashes_end zero = refl
slashes_end (suc n) = ap (◌∷◌ b'/') (slashes_end n)

drop_slashes :
    (n : ℕ) (s : Text)
    → drop_while (λ c. c == b'/') (slashes n ++ s) ≡ drop_while (λ c. c == b'/') s
unfolding slashes drop_while
drop_slashes zero s = refl
drop_slashes (suc n) s = drop_slashes n s

reverse-slashes : (n : ℕ) → reverse (slashes n) ≡ slashes n
unfolding slashes
reverse-slashes zero = refl
reverse-slashes (suc n) =
    reverse-cons b'/' (slashes n) ∙ ap (λ s. s ++ b'/' ∷ []) (reverse-slashes n) ∙ slashes_end n

rstrip_slashes-slashes : (n : ℕ) (s : Text) → rstrip_slashes (s ++ slashes n) ≡ rstrip_slashes s
unfolding rstrip_slashes
rstrip_slashes-slashes n s =
    rw (reverse-append s (slashes n), reverse-slashes n) (ap reverse (drop_slashes n (reverse s)))

-- A client whose base URL has any number of further slashes at its end is the client without them:
-- its requests go to the same addresses.
pub plane_client-slashes :
    (n : ℕ) (base_url workspace project_id : Text) (api_key : Json) (verify_tls : Bool)
    → plane_client (base_url ++ slashes n) workspace project_id api_key verify_tls
      ≡ plane_client base_url workspace project_id api_key verify_tls
unfolding plane_client
plane_client-slashes n base_url workspace project_id api_key verify_tls =
    rw (rstrip_slashes-slashes n base_url) refl
