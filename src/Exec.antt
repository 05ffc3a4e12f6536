-- ===== src/Exec.antt =====
-- Coroutines that change shared state and may raise. What was written before an exception stays
-- written, so the state comes back beside the error too. An await is no step of its own here.
use overwatch_harness.Prelude.{Bool, true, false, Option, none, some, ◌≡◌, refl}

-- The exceptions that the modelled code meets.
pub data Error : Type 0 where
  -- `LookupError`, raised by the ledger's getters
  lookup_error : Error
  -- `aiosqlite.IntegrityError`: a foreign key, a UNIQUE or a CHECK constraint failed
  integrity_error : Error
  -- `AttributeError` and `TypeError`, on JSON of another shape than expected
  attribute_error type_error : Error
  -- sqlite's refusal to bind a value that is no number and no text
  binding_error : Error
  -- `asyncio.CancelledError`, which is no `Exception`
  cancelled_error : Error
  -- whatever an outside component raised: the bot, the claude process
  outside_error : Error
  -- `ValueError`, of `int(s)`
  value_error : Error

pub data Result {ℓ} (A : Type ℓ) : Type ℓ where
  ok : A → Result A
  err : Error → Result A

abbrev pub is_ok {ℓ} : {A : Type ℓ} → Result A → Bool
is_ok (ok a) = true
is_ok (err e) = false

-- A row that must be there.
abbrev pub or_raise {ℓ} : {A : Type ℓ} → Error → Option A → Result A
or_raise e none = err e
or_raise e (some a) = ok a

abbrev pub Exec {ℓ} : Type ℓ → Type ℓ → Type ℓ
Exec S A = S → Result A × S

module _ {ℓ} {S A : Type ℓ} where
  abbrev pub pure : A → Exec S A
  pure a s = (ok a, s)

  abbrev pub raise : Error → Exec S A
  raise e s = (err e, s)

  abbrev pub gets : (S → A) → Exec S A
  gets f s = (ok (f s), s)

module _ {ℓ} {S A B : Type ℓ} where
  -- An exception passes the rest by.
  abbrev pub continue : Result A → (A → Exec S B) → Exec S B
  continue (ok a) f s = f a s
  continue (err e) f s = (err e, s)

  infixl 10 ◌>>=◌ ◌>>◌
  abbrev pub ◌>>=◌ : Exec S A → (A → Exec S B) → Exec S B
  ◌>>=◌ m f s = continue (m s).0 f (m s).1

  abbrev pub ◌>>◌ : Exec S A → Exec S B → Exec S B
  m >> n = m >>= λ _. n

  -- A rest that only reads leaves the state of the first part.
  pub continue_state :
      (r : Result A) (f : A → Exec S B) (s : S) → ((a : A) → (f a s).1 ≡ s) → (continue r f s).1 ≡ s
  continue_state (ok a) f s reads = reads a
  continue_state (err e) f s reads = refl

  -- What returned went through its first part.
  pub continue-ok :
      (r : Result A) (f : A → Exec S B) (s : S) (b : B)
      → (continue r f s).0 ≡ ok b
      → (a : A) × (r ≡ ok a) × ((f a s).0 ≡ ok b)
  continue-ok (ok a) f s b h = (a, refl, h)
  continue-ok (err e) f s b h = absurd (let raised : err e ≡ ok b = h in cc)
