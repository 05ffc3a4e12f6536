-- ===== src/Secrets/Ensures.antt =====
-- What holds of the outcome of a load, whatever it is.
use overwatch_harness.Prelude.{◌≡◌, subst, ap}
use overwatch_harness.Secrets.{SecretsError, Outcome, loaded, secrets_error, other, then_load}

-- What holds of a value, if there is one.
pub data Ensures {A : Type 0} (P : A → Type 0) : Outcome A → Type 0 where
  holds : (a : A) → P a → Ensures P (loaded a)
  failed : (e : SecretsError) → Ensures P (secrets_error e)
  aborted : Ensures P other

pub Ensures-then :
    {A B : Type 0} {P : A → Type 0} {Q : B → Type 0} (m : Outcome A) (f : A → Outcome B)
    → Ensures P m
    → ((a : A) → P a → Ensures Q (f a))
    → Ensures Q (then_load m f)
Ensures-then m f (holds a p) rest = rest a p
Ensures-then m f (failed e) rest = failed e
Ensures-then m f aborted rest = aborted

pub then-loaded :
    {A B : Type 0} (m : Outcome A) (a : A) (f : A → Outcome B) → m ≡ loaded a → then_load m f ≡ f a
then-loaded m a f h = ap (λ m. then_load m f) h

pub Ensures-any : {A : Type 0} (m : Outcome A) → Ensures (λ _. Unit {0}) m
Ensures-any (loaded a) = holds a tt
Ensures-any (secrets_error e) = failed e
Ensures-any other = aborted

value_of : {A : Type 0} (a : A) → Outcome A → A
value_of a (loaded b) = b
value_of a m = a

pub Ensures-loaded :
    {A : Type 0} {P : A → Type 0} {m : Outcome A} (s : A) → Ensures P m → m ≡ loaded s → P s
unfolding value_of
Ensures-loaded {P} s (holds a p) h = subst P (ap (value_of a) h) p
Ensures-loaded s (failed e) h = absurd (let no : secrets_error e ≡ loaded s = h in cc)
Ensures-loaded s aborted h = absurd (let no : other ≡ loaded s = h in cc)
