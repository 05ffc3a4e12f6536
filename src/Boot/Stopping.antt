-- ===== src/Boot/Stopping.antt =====
-- What the stop of the ingress comes to.
use overwatch_harness.Prelude.{
  Bool, true, not, Bool-cases, inl, inr, List, [], ◌∷◌, ◌++◌, ◌&&◌, ◌≡◌, refl, ap, ◌∙◌,
  append_assoc,
}
use overwatch_harness.Exec.{is_ok}
use overwatch_harness.Boot.{
  Step, stop_updater, stop_app, shut_down_app, Boot, attempt, stop_ingress,
}

three_steps :
    (l : List Step) (s t u : Step) → ((l ++ s ∷ []) ++ t ∷ []) ++ u ∷ [] ≡ l ++ s ∷ t ∷ u ∷ []
three_steps l s t u =
    ap (λ k. k ++ u ∷ []) (append_assoc l (s ∷ []) (t ∷ [])) ∙ append_assoc l (s ∷ t ∷ []) (u ∷ [])

-- The stop of a started ingress whose application can be stopped takes all three steps, also when
-- the stop of the updater raises; it returns exactly if neither that nor the shutdown of the
-- application raises, and exactly then forgets the application.
pub stop_ingress_settles :
    (goes : Step → Bool) (b : Boot)
    → b.has_app ≡ true
    → goes stop_app ≡ true
    → let r = stop_ingress goes b in
      (r.1.steps ≡ b.steps ++ stop_updater ∷ stop_app ∷ shut_down_app ∷ [])
      × (is_ok r.0 ≡ (goes stop_updater && goes shut_down_app))
      × (r.1.has_app ≡ not (is_ok r.0))
unfolding stop_ingress attempt
stop_ingress_settles goes b app good = elim (Bool-cases (goes stop_updater)) [
  | inl up ↦ elim (Bool-cases (goes shut_down_app)) [
    | inl down ↦ rw (app, good, up, down) (three_steps b.steps _ _ _, refl, refl)
    | inr stuck ↦ rw (app, good, up, stuck) (three_steps b.steps _ _ _, refl, refl)
  ]
  | inr lost ↦ elim (Bool-cases (goes shut_down_app)) [
    | inl down ↦ rw (app, good, lost, down) (three_steps b.steps _ _ _, refl, refl)
    | inr stuck ↦ rw (app, good, lost, stuck) (three_steps b.steps _ _ _, refl, refl)
  ]
]
