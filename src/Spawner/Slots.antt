-- ===== src/Spawner/Slots.antt =====
-- The slots of `Spawner` in src/harness/spawner.py: its semaphore, its in-flight count and the calls
-- of `spawn` that wait or run. asyncio's Semaphore is part of the language's library: its `acquire`
-- and `release` are written out, with the deque of its waiters, the oldest first. A call runs from
-- one await to the next, so an event is one step.
pub mod Counts
pub mod Bounded
use overwatch_harness.Prelude.{
  ℕ, zero, suc, ◌-◌, Bool, true, false, Option, none, some, List, [], ◌∷◌, ◌++◌, ◌||◌, ◌==◌,
  if◌then◌else◌,
}

-- A call that waits: its future has a result, or not yet.
pub record Waiter : Type 0 where
  pub call : ℕ
  pub granted : Bool

pub record Slots : Type 0 where
  -- the semaphore's `_value` and `_waiters`
  pub value : ℕ
  pub waiters : List Waiter
  -- the calls behind `acquire`, the newest first
  pub running : List ℕ
  -- `_in_flight`
  pub in_flight : ℕ

-- `Spawner.__init__`
abbrev pub create : ℕ → Slots
create max_concurrent = record { value = max_concurrent; waiters = []; running = []; in_flight = 0 }

abbrev pub cons_some : Waiter → Option (List Waiter) → Option (List Waiter)
cons_some w none = none
cons_some w (some ws) = some (w ∷ ws)

-- `_wake_up_next`: the first future with no result gets one; none if there is no such.
unfoldable pub wake : List Waiter → Option (List Waiter)
wake [] = none
wake (w ∷ ws) =
    let rest = wake ws in
    if w.granted then cons_some w rest else some (record w { granted = true } ∷ ws)

-- `while self._value > 0: ...` of `acquire`, with the value as its first argument.
unfoldable pub wake_while : ℕ → Slots → Slots
unfolding wake
wake_while zero s = record s { value = zero }
wake_while (suc n) s = elim (wake s.waiters) [
  | none ↦ record s { value = suc n }
  | some ws ↦ wake_while n (record s { waiters = ws })
]

-- `release`
unfoldable pub release : Slots → Slots
unfolding wake
release s = elim (wake s.waiters) [
  | none ↦ record s { value = suc s.value }
  | some ws ↦ record s { waiters = ws }
]

-- Behind `acquire`.
abbrev pub start_call : ℕ → Slots → Slots
start_call call s = record s { running = call ∷ s.running; in_flight = suc s.in_flight }

abbrev pub is_empty : List Waiter → Bool
is_empty [] = true
is_empty (w ∷ ws) = false

-- `locked`
abbrev pub locked : Slots → Bool
locked s = s.value == 0 || (if is_empty s.waiters then false else true)

module _ {ℓ} {A : Type ℓ} where
  abbrev pub put_back : A → Option (A × List A) → Option (A × List A)
  put_back x none = none
  put_back x (some (y, ys)) = some (y, x ∷ ys)

  -- The entry at a place, and the others.
  unfoldable pub pick : ℕ → List A → Option (A × List A)
  pick i [] = none
  pick zero (x ∷ xs) = some (x, xs)
  pick (suc i) (x ∷ xs) = put_back x (pick i xs)

pub data Event : Type 0 where
  -- a call of `spawn`
  begins : ℕ → Event
  -- the waiter at a place goes on, once its future has a result
  resumes : ℕ → Event
  -- the waiter at a place is cancelled
  cancels : ℕ → Event
  -- the running call at a place ends, however it does: the `finally` of `spawn`
  ends : ℕ → Event

abbrev pub resumed : Slots → Waiter × List Waiter → Slots
resumed s (w, rest) =
    if w.granted then start_call w.call (wake_while s.value (record s { waiters = rest })) else s

abbrev pub cancelled : Slots → Waiter × List Waiter → Slots
cancelled s (w, rest) =
    wake_while (if w.granted then suc s.value else s.value) (record s { waiters = rest })

abbrev pub ended : Slots → ℕ × List ℕ → Slots
ended s (call, rest) = release (record s { running = rest; in_flight = s.in_flight - 1 })

-- An event at a place where there is none changes nothing.
unfoldable pub step : Event → Slots → Slots
unfolding wake_while release pick
step (begins call) s =
    if locked s
    then record s { waiters = s.waiters ++ record { call = call; granted = false } ∷ [] }
    else start_call call (record s { value = s.value - 1 })
step (resumes i) s = elim (pick i s.waiters) [ none ↦ s | some p ↦ resumed s p ]
step (cancels i) s = elim (pick i s.waiters) [ none ↦ s | some p ↦ cancelled s p ]
step (ends i) s = elim (pick i s.running) [ none ↦ s | some p ↦ ended s p ]

unfoldable pub history : List Event → Slots → Slots
unfolding step
history [] s = s
history (e ∷ es) s = history es (step e s)
