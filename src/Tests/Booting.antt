-- ===== src/Tests/Booting.antt =====
-- The self-test theorem, applied to a binary that answers.
use overwatch_harness.Prelude.{true, [], ◌∷◌, ◌++◌, ◌≡◌, refl}
use overwatch_harness.Text.{Text, codes}
use overwatch_harness.Text.Int.{pos}
use overwatch_harness.Exec.{ok}
use overwatch_harness.Machine.{initial, can_spawn}
use overwatch_harness.Spawner.{blank, decoded}
use overwatch_harness.Spawner.Values.{Json, Fields, is_text, get}
use overwatch_harness.Selftest.{ended, ran, Probe, Trial, SelftestResult, run_selftest, enter}
use overwatch_harness.Selftest.Gate.{works, selftest_gates}

abbrev quoted : Text → Text
quoted t = codes "'" ++ (t ++ codes "'")

abbrev version : Probe
version = ended (pos 0) (codes "2.1.0 (Claude Code)\n") []

abbrev reply : Trial
reply =
    ran
      (blank
        ∷ decoded (Json.obj (Fields.field (codes "type") (Json.str (codes "result")) Fields.end))
        ∷ [])
      [] (pos 0)

selftest_gates_example :
    (r : SelftestResult) × (run_selftest quoted (codes "claude") (codes "30.0") version reply
      ≡ ok r)
    × (can_spawn (enter r initial) ≡ works version reply)
selftest_gates_example =
    selftest_gates quoted (codes "claude") (codes "30.0") version reply (tt, (tt, tt))

binary_passes : works version reply ≡ true
unfolding works is_text get
binary_passes = refl
