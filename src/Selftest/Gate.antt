-- ===== src/Selftest/Gate.antt =====
-- What it takes for the daemon to come up HEALTHY.
use overwatch_harness.Prelude.{
  Bool, true, false, List, [], ◌∷◌, ◌||◌, ◌&&◌, any, All, ◌≡◌, ◌++◌, take, inl, inr, Bool-cases,
  refl, arith,
}
use overwatch_harness.Text.{Text, codes, strip}
use overwatch_harness.Text.Int.{is_zero}
use overwatch_harness.Exec.{ok}
use overwatch_harness.Machine.{initial, can_spawn}
use overwatch_harness.Spawner.{Line, blank, garbled, decoded}
use overwatch_harness.Spawner.Values.{obj, get}
use overwatch_harness.Selftest.{
  Probe, ended, not_found, late, broken, Trial, ran, gone, overdue, failing, SelftestResult,
  is_reply, drain, spawn_phase, after_version, run_selftest, enter,
}

-- A line that shows a reply of claude.
unfoldable pub shows_reply : Line → Bool
shows_reply (decoded (obj o)) = is_reply (get (codes "type") o)
shows_reply _ = false

-- No JSON but objects.
abbrev pub Readable : Line → Type 0
Readable (decoded (obj o)) = Unit
Readable (decoded _) = ⊥
Readable _ = Unit

-- The second run raises nothing that the self-test does not catch.
abbrev pub Settled : Trial → Type 0
Settled failing = ⊥
Settled (ran lines stderr code) = All Readable lines
Settled _ = Unit

abbrev pub Caught : Probe → Trial → Type 0
Caught broken trial = ⊥
Caught _ trial = Settled trial

-- The second run ends in time with exit code 0 and shows a reply.
unfoldable pub replies : Trial → Bool
unfolding shows_reply
replies (ran lines stderr code) = is_zero code && any shows_reply lines
replies _ = false

-- Both runs end in time with exit code 0, and the second one shows a reply.
unfoldable pub works : Probe → Trial → Bool
unfolding replies
works (ended code out stderr) trial = is_zero code && replies trial
works _ trial = false

drain-any :
    (saw : Bool) (lines : List Line)
    → All Readable lines
    → drain saw lines ≡ ok (saw || any shows_reply lines)
unfolding drain shows_reply
drain-any saw [] h = ground arith
drain-any saw (blank ∷ lines) h = drain-any saw lines h.1
drain-any saw (garbled ∷ lines) h = drain-any saw lines h.1
drain-any saw (decoded (obj o) ∷ lines) h =
    ground (arith, drain-any (saw || is_reply (get (codes "type") o)) lines h.1)
drain-any saw (decoded _ ∷ lines) h = absurd h.0

-- Behind a first run that went well.
second_run :
    (repr : Text → Text) (binary seconds note : Text) (trial : Trial)
    → Settled trial
    → (r : SelftestResult) × (after_version repr binary seconds (ok (true, note)) trial ≡ ok r)
      × (can_spawn (enter r initial) ≡ replies trial)
unfolding spawn_phase enter can_spawn replies
second_run repr binary seconds note (ran lines stderr code) h =
    elim (Bool-cases (is_zero code && any shows_reply lines)) [
      | inl good ↦ rw (drain-any false lines h, good) (_, refl, refl)
      | inr bad ↦ rw (drain-any false lines h, bad) (_, refl, refl)
    ]
second_run repr binary seconds note gone h = (_, refl, refl)
second_run repr binary seconds note overdue h = (_, refl, refl)
second_run repr binary seconds note failing h = absurd h

-- If the runs of the binary raise nothing but what the self-test catches, and print no JSON but
-- objects, the self-test ends with a result, and the daemon comes up able to spawn exactly if both
-- runs ended in time with exit code 0 and the second one printed a chunk of type result or
-- assistant.
pub selftest_gates :
    (repr : Text → Text) (binary timeout_seconds : Text) (probe : Probe) (trial : Trial)
    → Caught probe trial
    → (r : SelftestResult) × (run_selftest repr binary timeout_seconds probe trial ≡ ok r)
      × (can_spawn (enter r initial) ≡ works probe trial)
unfolding run_selftest enter can_spawn works
selftest_gates repr binary seconds (ended code out stderr) trial h =
    elim (Bool-cases (is_zero code)) [
      | inl zero_exit ↦
          rw zero_exit
            (second_run repr binary seconds (codes "version: " ++ take 60 (strip out)) trial h)
      | inr failed ↦ rw failed (_, refl, refl)
    ]
selftest_gates repr binary seconds not_found trial h = (_, refl, refl)
selftest_gates repr binary seconds late trial h = (_, refl, refl)
selftest_gates repr binary seconds broken trial h = absurd h
