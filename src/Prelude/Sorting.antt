-- ===== src/Prelude/Sorting.antt =====
-- Rows in the order of a numeric key, those of equal key as they stood.
use Prim.Native.Nat.{ℕ, ◌≤◌}
use mathlib.Core.List.{List, [], ◌∷◌, Perm}
use mathlib.Core.List.Perm
use native.Mathlib.Omega.{arith}
use overwatch_harness.Prelude.Tests.{leb, if◌then◌else◌, Bool-cases}
use overwatch_harness.Prelude.Lists.{All, All-map}
use mathlib.Core.Logic.{inl, inr}

module _ {ℓ} {A : Type ℓ} (key : A → ℕ) where
  unfoldable pub insert_by : A → List A → List A
  insert_by x [] = x ∷ []
  insert_by x (y ∷ ys) =
      let rest = insert_by x ys in if leb (key x) (key y) then x ∷ y ∷ ys else y ∷ rest

  -- `sorted(xs, key=key)`, `ORDER BY key`
  unfoldable pub sort_by : List A → List A
  unfolding insert_by
  sort_by [] = []
  sort_by (x ∷ xs) = insert_by x (sort_by xs)

  abbrev pub Ascending : List A → Type ℓ
  Ascending [] = Unit
  Ascending (x ∷ xs) = All (λ y. key x ≤ key y) xs × Ascending xs

  insert_by-perm : (x : A) (xs : List A) → Perm (insert_by x xs) (x ∷ xs)
  unfolding insert_by
  insert_by-perm x [] = Perm.rfl
  insert_by-perm x (y ∷ ys) = elim (Bool-cases (leb (key x) (key y))) [
    | inl before ↦ rw before Perm.rfl
    | inr behind ↦ rw behind (Perm.trans (Perm.cons y (insert_by-perm x ys)) (Perm.swap x y ys))
  ]

  pub sort_by-perm : (xs : List A) → Perm (sort_by xs) xs
  unfolding sort_by
  sort_by-perm [] = Perm.rfl
  sort_by-perm (x ∷ xs) = Perm.trans (insert_by-perm x (sort_by xs)) (Perm.cons x (sort_by-perm xs))

  pub insert_by-All {κ} :
      (P : A → Type κ) (x : A) (xs : List A) → P x → All P xs → All P (insert_by x xs)
  unfolding insert_by
  insert_by-All P x [] p ps = (p, tt)
  insert_by-All P x (y ∷ ys) p ps = elim (Bool-cases (leb (key x) (key y))) [
    | inl before ↦ rw before (p, ps)
    | inr behind ↦ rw behind (ps.0, insert_by-All P x ys p ps.1)
  ]

  pub sort_by-All {κ} : (P : A → Type κ) (xs : List A) → All P xs → All P (sort_by xs)
  unfolding sort_by
  sort_by-All P [] ps = tt
  sort_by-All P (x ∷ xs) ps = insert_by-All P x (sort_by xs) ps.0 (sort_by-All P xs ps.1)

  insert_by-Ascending : (x : A) (xs : List A) → Ascending xs → Ascending (insert_by x xs)
  unfolding insert_by
  insert_by-Ascending x [] s = (tt, tt)
  insert_by-Ascending x (y ∷ ys) s = elim (Bool-cases (leb (key x) (key y))) [
    | inl before ↦
        rw before ((ground arith, All-map _ _ ys (λ z (h : key y ≤ key z). ground arith) s.0), s)
    | inr behind ↦
        rw behind
          (insert_by-All (λ z. key y ≤ key z) x ys (ground arith) s.0, insert_by-Ascending x ys s.1)
  ]

  pub sort_by-Ascending : (xs : List A) → Ascending (sort_by xs)
  unfolding sort_by
  sort_by-Ascending [] = tt
  sort_by-Ascending (x ∷ xs) = insert_by-Ascending x (sort_by xs) (sort_by-Ascending xs)
