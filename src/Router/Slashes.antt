-- ===== src/Router/Slashes.antt =====
-- What `parse_slash` recognises.
use overwatch_harness.Prelude.{◌≡◌, refl, none, some, []}
use overwatch_harness.Text.{codes}
use overwatch_harness.Router.{parse_slash}

parse_slash_samples :
    (parse_slash (codes "/help") ≡ some (codes "help", []))
    × (parse_slash (codes "  /End please \n") ≡ some (codes "end", codes "please"))
    × (parse_slash (codes "/help@overwatch_bot") ≡ some (codes "help", []))
    × (parse_slash (codes "not a slash") ≡ none)
    × (parse_slash [] ≡ none)
unfolding parse_slash
parse_slash_samples = (refl, refl, refl, refl, refl)
