-- ===== src/Prelude/Table.antt =====
-- A database table whose rows have an AUTOINCREMENT key: the newest row first, so that the keys
-- descend from the last one given out.
use Prim.Native.Nat.{ℕ, suc, ◌-◌, ◌≤◌, ◌<◌}
use mathlib.Core.Path.{◌≡◌, refl}
use mathlib.Core.Logic.{◌≢◌, inl, inr}
use mathlib.Core.Bool.{Bool, false}
use mathlib.Core.Option.{Option, none, some}
use mathlib.Core.List.{List, [], ◌∷◌}
use native.Mathlib.Omega.{arith}
use overwatch_harness.Prelude.Tests.{◌==◌, if◌then◌else◌, is_some, Bool-cases}
use overwatch_harness.Prelude.Lists.{
  All, select, any, length, length-select-either, length-select-false,
}

module _ {ℓ} {A : Type ℓ} (key : A → ℕ) where
  -- `SELECT * FROM t WHERE key = ?`
  abbrev pub find : ℕ → List A → Option A
  find k [] = none
  find k (x ∷ xs) = if key x == k then some x else find k xs

  -- `UPDATE t SET ... WHERE key = ?`
  abbrev pub update : ℕ → (A → A) → List A → List A
  update k f [] = []
  update k f (x ∷ xs) = (if key x == k then f x else x) ∷ update k f xs

  -- The keys are positive, at most `n`, and strictly descending, so no key occurs twice.
  abbrev pub Descends : ℕ → List A → Type 0
  Descends n [] = Unit
  Descends n (x ∷ xs) = (1 ≤ key x) × (key x ≤ n) × Descends (key x - 1) xs

  pub find_above : (k n : ℕ) (xs : List A) → Descends n xs → n < k → find k xs ≡ none
  find_above k n [] d h = refl
  find_above k n (x ∷ xs) d h = ground (arith, find_above k (key x - 1) xs d.2)

  pub key-find : (k : ℕ) (xs : List A) {x : A} → find k xs ≡ some x → key x ≡ k
  key-find k [] h = cc
  key-find k (y ∷ ys) {x} h = ground (arith, key-find k ys {x = x})

  pub find-key-le : (k n : ℕ) (xs : List A) {x : A} → Descends n xs → find k xs ≡ some x → k ≤ n
  find-key-le k n [] d h = cc
  find-key-le k n (y ∷ ys) {x} d h = ground (arith, find-key-le k (key y - 1) ys {x = x} d.2)

  -- What an update leaves to be found, if it keeps keys.
  pub find-update :
      (k j : ℕ) (f : A → A) (xs : List A)
      → ((x : A) → key (f x) ≡ key x)
      → find j (update k f xs)
        ≡ elim (find j xs) [ none ↦ none | some x ↦ some (if j == k then f x else x) ]
  find-update k j f [] keep = refl
  find-update k j f (x ∷ xs) keep = ground (arith, find-update k j f xs keep, keep x)

  -- Other rows are found as before.
  pub find-update_other :
      (k j : ℕ) (f : A → A) (xs : List A)
      → ((x : A) → key (f x) ≡ key x)
      → j ≢ k
      → find j (update k f xs) ≡ find j xs
  find-update_other k j f [] keep other = refl
  find-update_other k j f (x ∷ xs) keep other =
      ground (arith, find-update_other k j f xs keep other, keep x, other)

  pub Descends-update :
      (k n : ℕ) (f : A → A) (xs : List A)
      → ((x : A) → key (f x) ≡ key x)
      → Descends n xs
      → Descends n (update k f xs)
  Descends-update k n f [] keep d = tt
  Descends-update k n f (x ∷ xs) keep d =
      ground (arith, keep x, Descends-update k (key x - 1) f xs keep d.2)

  -- A predicate of all rows is one of the row that is found.
  pub All-find {κ} :
      (P : A → Type κ) (k : ℕ) (xs : List A) {x : A} → All P xs → find k xs ≡ some x → P x
  All-find P k [] h e = cc
  All-find P k (y ∷ ys) {x} h e = ground (arith, All-find P k ys {x = x} h.1)

  pub All-update {κ} :
      (P : A → Type κ) (k : ℕ) (f : A → A) (xs : List A)
      → ((x : A) → key x ≡ k → P x → P (f x))
      → All P xs
      → All P (update k f xs)
  All-update P k f [] keep h = tt
  All-update P k f (x ∷ xs) keep h =
      ground (arith, λ (e : key x ≡ k). keep x e h.0, h.0, All-update P k f xs keep h.1)

  pub known-update :
      (k j : ℕ) (f : A → A) (xs : List A)
      → ((x : A) → key (f x) ≡ key x)
      → is_some (find j (update k f xs)) ≡ is_some (find j xs)
  known-update k j f xs keep = ground (arith, find-update k j f xs keep)

  -- An update of a key that no row has.
  pub update_absent :
      (k : ℕ) (f : A → A) (xs : List A) → is_some (find k xs) ≡ false → update k f xs ≡ xs
  update_absent k f [] h = refl
  update_absent k f (x ∷ xs) h = ground (arith, update_absent k f xs)

  pub Descends-le : (n m : ℕ) (xs : List A) → n ≤ m → Descends n xs → Descends m xs
  Descends-le n m [] h d = tt
  Descends-le n m (x ∷ xs) h d = (d.0, omega arith, d.2)

  -- A row with the next key.
  pub Descends-cons :
      (n : ℕ) (x : A) (xs : List A) → key x ≡ suc n → Descends n xs → Descends (suc n) (x ∷ xs)
  Descends-cons n x xs e d =
      (omega arith, omega arith, Descends-le n (key x - 1) xs (omega arith) d)

  pub Descends-select :
      (n : ℕ) (p : A → Bool) (xs : List A) → Descends n xs → Descends n (select p xs)
  Descends-select n p [] d = tt
  Descends-select n p (x ∷ xs) d = elim (Bool-cases (p x)) [
    | inl kept ↦ rw kept (d.0, d.1, Descends-select (key x - 1) p xs d.2)
    | inr gone ↦ rw gone (
        Descends-le (key x - 1) n (select p xs) (omega (arith, d.1))
          (Descends-select (key x - 1) p xs d.2))
  ]

  -- A row with the next key hides no other.
  pub find-cons :
      (n j : ℕ) (new : A) (xs : List A) {x : A}
      → key new ≡ suc n
      → Descends n xs
      → find j xs ≡ some x
      → find j (new ∷ xs) ≡ some x
  find-cons n j new xs {x} e d found = ground (arith, e, found, find-key-le j n xs {x = x} d found)

  -- What a row keeps under an update of some row.
  pub find-update_kept {κ} :
      (P : A → A → Type κ) (k j : ℕ) (f : A → A) (xs : List A) {x : A}
      → ((y : A) → key (f y) ≡ key y)
      → ((y : A) → P y y)
      → ((y : A) → P y (f y))
      → find j xs ≡ some x
      → (y : A) × (find j (update k f xs) ≡ some y) × P x y
  find-update_kept P k j f xs {x} keep same step found = elim (Bool-cases (j == k)) [
    | inl hit ↦ (f x, ground (arith, find-update k j f xs keep, found, hit), step x)
    | inr miss ↦ (x, ground (arith, find-update k j f xs keep, found, miss), same x)
  ]

  length-select_above :
      (j n : ℕ) (xs : List A) → Descends n xs → n < j → length (select (λ x. j == key x) xs) ≡ 0
  length-select_above j n [] d h = refl
  length-select_above j n (x ∷ xs) d h = ground (arith, length-select_above j (key x - 1) xs d.2)

  -- A key selects one row at most,
  length-select-key :
      (j n : ℕ) (xs : List A) → Descends n xs → length (select (λ x. j == key x) xs) ≤ 1
  length-select-key j n [] d = omega arith
  length-select-key j n (x ∷ xs) d = ground (
    arith,
    length-select-key j (key x - 1) xs d.2,
    λ (e : j ≡ key x). length-select_above j (key x - 1) xs d.2 (omega (arith, e, d.0)),
  )

  -- so some keys select at most as many rows as there are keys.
  pub length-select-any :
      (ks : List A) (n : ℕ) (xs : List A)
      → Descends n xs
      → length (select (λ x. any (λ k. key k == key x) ks) xs) ≤ length ks
  length-select-any [] n xs d = omega (arith, length-select-false xs)
  length-select-any (k ∷ ks) n xs d = omega (
    arith,
    length-select-either (λ x. key k == key x) (λ x. any (λ k. key k == key x) ks) xs,
    length-select-key (key k) n xs d,
    length-select-any ks n xs d,
  )
