-- ===== src/Spawner/Slots/Counts.antt =====
-- How the waiters are counted, and what waking and picking does to the counts.
use overwatch_harness.Prelude.{
  ℕ, zero, suc, ◌+◌, true, false, Option, none, some, List, [], ◌∷◌, ◌++◌, ◌≡◌, ◌⊎◌, refl, inl, inr,
  arith, length, Bool-cases, if◌then◌else◌,
}
use overwatch_harness.Spawner.Slots.{Waiter, wake, pick, put_back, cons_some}

-- The waiters whose future has a result, and the others.
abbrev pub count_granted : List Waiter → ℕ
count_granted [] = 0
count_granted (w ∷ ws) = (if w.granted then 1 else 0) + count_granted ws

abbrev pub count_waiting : List Waiter → ℕ
count_waiting [] = 0
count_waiting (w ∷ ws) = (if w.granted then 0 else 1) + count_waiting ws

-- No future has a result before that of an older waiter has one.
abbrev pub InOrder : List Waiter → Type 0
InOrder [] = Unit
InOrder (w ∷ ws) = ((w.granted ≡ true) ⊎ (count_granted ws ≡ 0)) × InOrder ws

pub record Woken (ws ws' : List Waiter) : Type 0 where
  pub granted : count_granted ws' ≡ suc (count_granted ws)
  pub waiting : count_waiting ws ≡ suc (count_waiting ws')
  pub in_order : InOrder ws → InOrder ws'

-- What `wake` comes to.
abbrev pub Wakes : List Waiter → Option (List Waiter) → Type 0
Wakes ws none = count_waiting ws ≡ 0
Wakes ws (some ws') = Woken ws ws'

cons_some-Wakes :
    (w : Waiter) (ws : List Waiter) (o : Option (List Waiter))
    → w.granted ≡ true
    → Wakes ws o
    → Wakes (w ∷ ws) (cons_some w o)
cons_some-Wakes w ws none h r = ground arith
cons_some-Wakes w ws (some ws') h r = record {
  granted = ground (arith, r.granted);
  waiting = ground (arith, r.waiting);
  in_order = λ o. (inl h, r.in_order o.1);
}

pub wake-Wakes : (ws : List Waiter) → Wakes ws (wake ws)
unfolding wake
wake-Wakes [] = refl
wake-Wakes (w ∷ ws) = elim (Bool-cases w.granted) [
  | inl has ↦ simp has (cons_some-Wakes w ws (wake ws) has (wake-Wakes ws))
  | inr waits ↦
      let first : Woken (w ∷ ws) (record w { granted = true } ∷ ws) = record {
        granted = ground (arith, waits);
        waiting = ground (arith, waits);
        in_order = λ o. (inl refl, o.1);
      } in
      simp waits first
]

pub push-counts :
    (ws : List Waiter) (call : ℕ)
    → let ws' = ws ++ record { call = call; granted = false } ∷ [] in
      (count_granted ws' ≡ count_granted ws) × (InOrder ws → InOrder ws')
push-counts [] call = (refl, λ h. (inr refl, tt))
push-counts (w ∷ ws) call =
    let (same, keep) = push-counts ws call in (omega (arith, same), λ h. (rw same h.0, keep h.1))

-- What `pick` comes to.
abbrev pub Picks : List Waiter → Option (Waiter × List Waiter) → Type 0
Picks ws none = Unit
Picks ws (some (w, rest)) =
    (count_granted ws ≡ (if w.granted then 1 else 0) + count_granted rest)
    × (InOrder ws → InOrder rest)

put_back-Picks :
    (x : Waiter) (ws : List Waiter) (o : Option (Waiter × List Waiter))
    → Picks ws o
    → Picks (x ∷ ws) (put_back x o)
put_back-Picks x ws none h = tt
put_back-Picks x ws (some (w, rest)) h = (
  omega (arith, h.0),
  λ o. (elim o.0 [ inl g ↦ inl g | inr z ↦ inr (omega (arith, h.0, z)) ], h.1 o.1),
)

pub pick-Picks : (i : ℕ) (ws : List Waiter) → Picks ws (pick i ws)
unfolding pick
pick-Picks i [] = tt
pick-Picks zero (x ∷ ws) = (refl, λ o. o.1)
pick-Picks (suc i) (x ∷ ws) = put_back-Picks x ws (pick i ws) (pick-Picks i ws)

module _ {ℓ} {A : Type ℓ} where
  abbrev pub Shortens : List A → Option (A × List A) → Type 0
  Shortens xs none = Unit
  Shortens xs (some (x, rest)) = length xs ≡ suc (length rest)

  put_back-Shortens :
      (x : A) (xs : List A) (o : Option (A × List A))
      → Shortens xs o
      → Shortens (x ∷ xs) (put_back x o)
  put_back-Shortens x xs none h = tt
  put_back-Shortens x xs (some (y, rest)) h = omega (arith, h)

  pub pick-Shortens : (i : ℕ) (xs : List A) → Shortens xs (pick i xs)
  unfolding pick
  pick-Shortens i [] = tt
  pick-Shortens zero (x ∷ xs) = refl
  pick-Shortens (suc i) (x ∷ xs) = put_back-Shortens x xs (pick i xs) (pick-Shortens i xs)
