-- ===== src/Spawner/Slots/Bounded.antt =====
-- The bound on the calls that run at once, and that no slot is left free while a call waits.
use overwatch_harness.Prelude.{
  ℕ, zero, suc, ◌+◌, ◌-◌, ◌≤◌, true, false, Option, none, some, List, [], ◌∷◌, ◌++◌, ◌≡◌, ◌⊎◌, refl,
  inl, inr, arith, length, Bool-cases, ◌||◌, ◌==◌, if◌then◌else◌,
}
use overwatch_harness.Spawner.Slots.{
  Waiter, Slots, create, wake, wake_while, release, start_call, is_empty, locked, pick, Event,
  begins, resumes, cancels, ends, resumed, cancelled, ended, step, history,
}
use overwatch_harness.Spawner.Slots.Counts.{
  count_granted, count_waiting, InOrder, Wakes, Woken, wake-Wakes, push-counts, Picks, pick-Picks,
  Shortens, pick-Shortens,
}

-- The slots are taken, promised to a waiter, or free.
pub record Balanced (max : ℕ) (s : Slots) : Type 0 where
  pub counted : s.in_flight ≡ length s.running
  pub slots : length s.running + count_granted s.waiters + s.value ≡ max
  pub in_order : InOrder s.waiters

-- While a slot is free, no call waits but behind one that was woken and has not gone on yet.
abbrev pub NoneLost : Slots → Type 0
NoneLost s = (s.value ≡ 0) ⊎ (count_waiting s.waiters ≡ 0) ⊎ (1 ≤ count_granted s.waiters)

pub record Fair (max : ℕ) (s : Slots) : Type 0 where
  pub balanced : Balanced max s
  pub none_lost : NoneLost s

-- With `n` in place of the value, which `wake_while` overwrites.
wake_while-Fair :
    (max n : ℕ) (s : Slots)
    → s.in_flight ≡ length s.running
    → length s.running + count_granted s.waiters + n ≡ max
    → InOrder s.waiters
    → Fair max (wake_while n s)
unfolding wake_while
wake_while-Fair max zero s counted slots order = record {
  balanced = record { counted = counted; slots = slots; in_order = order };
  none_lost = inl refl;
}
wake_while-Fair max (suc n) s counted slots order =
    woken (wake s.waiters) (wake-Wakes s.waiters) (λ ws w.
      wake_while-Fair max n (record s { waiters = ws }) counted (omega (arith, w.granted, slots))
        (w.in_order order))
  where
    woken :
        (o : Option (List Waiter))
        → Wakes s.waiters o
        → ((ws : List Waiter)
            → Woken s.waiters ws
            → Fair max (wake_while n (record s { waiters = ws })))
        → Fair max (elim o [
          | none ↦ record s { value = suc n }
          | some ws ↦ wake_while n (record s { waiters = ws })
        ])
    woken none idle rest = record {
      balanced = record { counted = counted; slots = slots; in_order = order };
      none_lost = inr (inl idle);
    }
    woken (some ws) w rest = rest ws w

release-Fair :
    (max : ℕ) (s : Slots)
    → s.in_flight ≡ length s.running
    → length s.running + count_granted s.waiters + suc s.value ≡ max
    → InOrder s.waiters
    → Fair max (release s)
unfolding release
release-Fair max s counted slots order = woken (wake s.waiters) (wake-Wakes s.waiters)
  where
    woken :
        (o : Option (List Waiter))
        → Wakes s.waiters o
        → Fair max (elim o [
          | none ↦ record s { value = suc s.value }
          | some ws ↦ record s { waiters = ws }
        ])
    woken none idle = record {
      balanced = record { counted = counted; slots = slots; in_order = order };
      none_lost = inr (inl idle);
    }
    woken (some ws) w = record {
      balanced = record {
        counted = counted;
        slots = omega (arith, w.granted, slots);
        in_order = w.in_order order;
      };
      none_lost = inr (inr (omega (arith, w.granted)));
    }

start_call-Fair :
    (max call : ℕ) (s : Slots) → 1 ≤ max → Fair (max - 1) s → Fair max (start_call call s)
start_call-Fair max call s pos f = record {
  balanced = record {
    counted = omega (arith, f.balanced.counted);
    slots = omega (arith, f.balanced.slots, pos);
    in_order = f.balanced.in_order;
  };
  none_lost = f.none_lost;
}

push-NoneLost :
    (call : ℕ) (s : Slots)
    → locked s ≡ true
    → NoneLost s
    → NoneLost (record s { waiters = s.waiters ++ record { call = call; granted = false } ∷ [] })
push-NoneLost call s = by_waiters s.value s.waiters
  where
    by_waiters :
        (v : ℕ) (ws : List Waiter)
        → (v == 0 || (if is_empty ws then false else true)) ≡ true
        → (v ≡ 0) ⊎ (count_waiting ws ≡ 0) ⊎ (1 ≤ count_granted ws)
        → (v ≡ 0)
          ⊎ (count_waiting (ws ++ record { call = call; granted = false } ∷ []) ≡ 0)
          ⊎ (1 ≤ count_granted (ws ++ record { call = call; granted = false } ∷ []))
    by_waiters v [] h f = inl (ground arith)
    by_waiters v (w ∷ ws) h (inl z) = inl z
    by_waiters v (w ∷ ws) h (inr (inl all_woken)) =
        inr (inr (ground (arith, (push-counts (w ∷ ws) call).0, all_woken)))
    by_waiters v (w ∷ ws) h (inr (inr woken)) =
        inr (inr (omega (arith, (push-counts (w ∷ ws) call).0, woken)))

unlocked : (s : Slots) → locked s ≡ false → (1 ≤ s.value) × (count_waiting s.waiters ≡ 0)
unlocked s = by_waiters s.value s.waiters
  where
    by_waiters :
        (v : ℕ) (ws : List Waiter)
        → (v == 0 || (if is_empty ws then false else true)) ≡ false
        → (1 ≤ v) × (count_waiting ws ≡ 0)
    by_waiters v [] h = (ground arith, refl)
    by_waiters v (w ∷ ws) h = absurd (ground arith)

module _ (max : ℕ) where
  begins-Fair : (call : ℕ) (s : Slots) → Fair max s → Fair max (step (begins call) s)
  unfolding step
  begins-Fair call s f = elim (Bool-cases (locked s)) [
    | inl full ↦
        let (same, keep) = push-counts s.waiters call in
        rw full (record {
          balanced = record {
            counted = f.balanced.counted;
            slots = omega (arith, same, f.balanced.slots);
            in_order = keep f.balanced.in_order;
          };
          none_lost = push-NoneLost call s full f.none_lost;
        })
    | inr free ↦
        let (pos, idle) = unlocked s free in
        rw free (
          start_call-Fair max call (record s { value = s.value - 1 })
            (omega (arith, pos, f.balanced.slots))
            (record {
              balanced = record {
                counted = f.balanced.counted;
                slots = omega (arith, pos, f.balanced.slots);
                in_order = f.balanced.in_order;
              };
              none_lost = inr (inl idle);
            }))
  ]

  resumed-Fair :
      (s : Slots) (o : Option (Waiter × List Waiter))
      → Fair max s
      → Picks s.waiters o
      → Fair max (elim o [ none ↦ s | some p ↦ resumed s p ])
  resumed-Fair s none f p = f
  resumed-Fair s (some (w, rest)) f p = elim (Bool-cases w.granted) [
    | inl granted ↦
        let counts : count_granted s.waiters ≡ 1 + count_granted rest =
          ground (arith, p.0, granted) in
        simp granted (
          start_call-Fair max w.call (wake_while s.value (record s { waiters = rest }))
            (omega (arith, counts, f.balanced.slots))
            (wake_while-Fair (max - 1) s.value (record s { waiters = rest }) f.balanced.counted
              (omega (arith, counts, f.balanced.slots)) (p.1 f.balanced.in_order)))
    | inr waits ↦ simp waits f
  ]

  cancelled-Fair :
      (s : Slots) (o : Option (Waiter × List Waiter))
      → Fair max s
      → Picks s.waiters o
      → Fair max (elim o [ none ↦ s | some p ↦ cancelled s p ])
  cancelled-Fair s none f p = f
  cancelled-Fair s (some (w, rest)) f p =
      wake_while-Fair max _ (record s { waiters = rest }) f.balanced.counted
        (ground (arith, p.0, f.balanced.slots)) (p.1 f.balanced.in_order)

  ended-Fair :
      (s : Slots) (o : Option (ℕ × List ℕ))
      → Fair max s
      → Shortens s.running o
      → Fair max (elim o [ none ↦ s | some p ↦ ended s p ])
  ended-Fair s none f p = f
  ended-Fair s (some (call, rest)) f p =
      release-Fair max (record s { running = rest; in_flight = s.in_flight - 1 })
        (omega (arith, p, f.balanced.counted)) (omega (arith, p, f.balanced.slots))
        f.balanced.in_order

  step-Fair : (e : Event) (s : Slots) → Fair max s → Fair max (step e s)
  unfolding step
  step-Fair (begins call) s f = begins-Fair call s f
  step-Fair (resumes i) s f = resumed-Fair s (pick i s.waiters) f (pick-Picks i s.waiters)
  step-Fair (cancels i) s f = cancelled-Fair s (pick i s.waiters) f (pick-Picks i s.waiters)
  step-Fair (ends i) s f = ended-Fair s (pick i s.running) f (pick-Shortens i s.running)

  history_from-Fair : (es : List Event) (s : Slots) → Fair max s → Fair max (history es s)
  unfolding history
  history_from-Fair [] s f = f
  history_from-Fair (e ∷ es) s f = history_from-Fair es (step e s) (step-Fair e s f)

  create-Fair : Fair max (create max)
  create-Fair = record {
    balanced = record { counted = refl; slots = omega arith; in_order = tt };
    none_lost = inr (inl refl);
  }

-- After any sequence of calls, wake-ups, cancellations and ends, in any order: at most
-- `max_concurrent` calls run, and `in_flight` is their number; futures get their result in the order
-- of the calls; and no call waits that was not woken, or every slot is running or promised to a woken
-- call, or some woken call has yet to go on.
pub history-Fair :
    (max_concurrent : ℕ) (es : List Event)
    → let s = history es (create max_concurrent) in
      (s.in_flight ≤ max_concurrent)
      × (s.in_flight ≡ length s.running)
      × InOrder s.waiters
      × ((count_waiting s.waiters ≡ 0)
          ⊎ (length s.running + count_granted s.waiters ≡ max_concurrent)
          ⊎ (1 ≤ count_granted s.waiters))
history-Fair max es =
    let f = history_from-Fair max es (create max) (create-Fair max) in
    (
      omega (arith, f.balanced.counted, f.balanced.slots),
      f.balanced.counted,
      f.balanced.in_order,
      elim f.none_lost [
        | inl z ↦ inr (inl (omega (arith, f.balanced.slots, z)))
        | inr (inl z) ↦ inl z
        | inr (inr g) ↦ inr (inr g)
      ],
    )
