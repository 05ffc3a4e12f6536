-- ===== src/Migrations/Reruns.antt =====
-- What the migration runner applies.
use overwatch_harness.Prelude.{
  ℕ, ◌≤◌, ◌<◌, Option, none, some, List, [], ◌∷◌, map, select, not, leb, All, Bool-cases, inl, inr,
  ◌≡◌, refl, sym, subst, ap, true, false, arith,
}
use overwatch_harness.Prelude.Sorting.{Ascending, sort_by-Ascending}
use overwatch_harness.Exec.{ok, continue-ok, pure, ◌>>=◌}
use overwatch_harness.Migrations.{
  File, Sqlite, head, apply_newer, apply_migrations, collect, discover_migrations,
}

module _ {D : Type 0} (sqlite : Sqlite D) where
  -- A migration enters its version: once its script has run, no version below is told.
  abbrev pub Records : ℕ × File → Type 0
  Records m =
      (d : D)
      → (sqlite.execute m.1.script d).0 ≡ ok tt
      → (m.0 ≤ head sqlite (sqlite.execute m.1.script d).1)
        × (head sqlite d ≤ head sqlite (sqlite.execute m.1.script d).1)

  abbrev AtMost : ℕ → List (ℕ × File) → Type 0
  AtMost n = All (λ (m : ℕ × File). m.0 ≤ n)

  apply_newer-none :
      (old : ℕ) (ms : List (ℕ × File)) (d : D)
      → AtMost old ms
      → apply_newer sqlite old ms d ≡ (ok [], d)
  unfolding apply_newer
  apply_newer-none old [] d h = refl
  apply_newer-none old (m ∷ ms) d h = ground (arith, apply_newer-none old ms d h.1)

  ok_inj : {A : Type 0} {a b : A} → ok a ≡ ok b → a ≡ b
  ok_inj h = cc

  -- A run of the loop that returns: what it was given, what it applied, and the database behind it.
  data Applies (old : ℕ) : List (ℕ × File) → D → List ℕ → D → Type 0 where
    finished : (d : D) → Applies old [] d [] d
    skipped :
        (version : ℕ) (path : File) (rest : List (ℕ × File)) (d d' : D) (vs : List ℕ)
        → version ≤ old
        → Applies old rest d vs d'
        → Applies old ((version, path) ∷ rest) d vs d'
    applied :
        (version : ℕ) (path : File) (rest : List (ℕ × File)) (d d' : D) (vs : List ℕ)
        → old < version
        → (sqlite.execute path.script d).0 ≡ ok tt
        → Applies old rest (sqlite.execute path.script d).1 vs d'
        → Applies old ((version, path) ∷ rest) d (version ∷ vs) d'

  apply_newer-Applies :
      (old : ℕ) (ms : List (ℕ × File)) (d : D) (vs : List ℕ)
      → (apply_newer sqlite old ms d).0 ≡ ok vs
      → Applies old ms d vs (apply_newer sqlite old ms d).1
  unfolding apply_newer
  apply_newer-Applies old [] d vs h = subst (λ vs. Applies old [] d vs d) (ok_inj h) (finished d)
  apply_newer-Applies old ((version, path) ∷ rest) d vs h = elim (Bool-cases (leb version old)) [
    | inl known ↦ rw known (
        skipped version path rest d _ vs (ground arith)
          (apply_newer-Applies old rest d vs (rw known at h)))
    | inr new ↦
        let others = apply_newer sqlite old rest in
        let e = sqlite.execute path.script d in
        let (u, ran, h') =
          continue-ok e.0 (λ _. others >>= λ vs. pure (version ∷ vs)) e.1 vs (rw new at h) in
        let (rest_vs, fine, last) =
          continue-ok (others e.1).0 (λ vs. pure (version ∷ vs)) (others e.1).1 vs h' in
        rw (new, ran, fine)
          (subst (λ vs. Applies old ((version, path) ∷ rest) d vs (others e.1).1) (ok_inj last)
            (applied version path rest d _ rest_vs (ground arith) ran
              (apply_newer-Applies old rest _ rest_vs fine)))
  ]

  -- The head only grows, and reaches every version.
  head-Applies :
      (old : ℕ) (ms : List (ℕ × File)) (d d' : D) (vs : List ℕ)
      → All Records ms
      → old ≤ head sqlite d
      → Applies old ms d vs d'
      → (head sqlite d ≤ head sqlite d') × AtMost (head sqlite d') ms
  head-Applies old _ _ _ _ r le (finished d) = (omega arith, tt)
  head-Applies old _ _ _ _ r le (skipped version path rest d d' vs small run) =
      let (grown, all) = head-Applies old rest d d' vs r.1 le run in
      (grown, (omega (arith, grown, le, small), all))
  head-Applies old _ _ _ _ r le (applied version path rest d d' vs large ran run) =
      let (entered, kept) = r.0 d ran in
      let (grown, all) = head-Applies old rest _ d' vs r.1 (omega (arith, kept, le)) run in
      (omega (arith, grown, kept), (omega (arith, grown, entered), all))

  -- The migrations above a head, and their versions.
  abbrev pub above : ℕ → List (ℕ × File) → List (ℕ × File)
  above old ms = select (λ (m : ℕ × File). not (leb m.0 old)) ms

  abbrev pub newer : ℕ → List (ℕ × File) → List ℕ
  newer old ms = map (λ (m : ℕ × File). m.0) (above old ms)

  -- From `d` to `d'`, the scripts have run, each once and without fault, one after the other, and
  -- nothing else has touched the database.
  abbrev pub Runs : List (ℕ × File) → D → D → Type 0
  Runs [] d d' = d' ≡ d
  Runs (m ∷ ms) d d' =
      ((sqlite.execute m.1.script d).0 ≡ ok tt) × Runs ms (sqlite.execute m.1.script d).1 d'

  versions-Applies :
      (old : ℕ) (ms : List (ℕ × File)) (d d' : D) (vs : List ℕ)
      → Applies old ms d vs d'
      → (vs ≡ newer old ms) × Runs (above old ms) d d'
  versions-Applies old _ _ _ _ (finished d) = (refl, refl)
  versions-Applies old _ _ _ _ (skipped version path rest d d' vs small run) =
      let (same, runs) = versions-Applies old rest d d' vs run in
      let known : leb version old ≡ true = ground arith in rw known (same, runs)
  versions-Applies old _ _ _ _ (applied version path rest d d' vs large ran run) =
      let (same, runs) = versions-Applies old rest _ d' vs run in
      let new : leb version old ≡ false = ground arith in
      rw new (ap (λ vs. version ∷ vs) same, (ran, runs))

  -- If the runner returns, and each migration that it finds enters its version when its script has
  -- run without fault, a second run applies nothing and leaves the database as it is.
  pub apply_migrations_again :
      (ms : List (ℕ × File)) (d : D) (vs : List ℕ)
      → All Records ms
      → (apply_migrations sqlite ms d).0 ≡ ok vs
      → let after = (apply_migrations sqlite ms d).1 in
        apply_migrations sqlite ms after ≡ (ok [], after)
  unfolding apply_migrations
  apply_migrations_again [] d vs r h = refl
  apply_migrations_again (m ∷ ms) d vs r h =
      let (grown, all) =
        head-Applies (head sqlite d) (m ∷ ms) d _ vs r (omega arith)
          (apply_newer-Applies (head sqlite d) (m ∷ ms) d vs h) in
      apply_newer-none _ (m ∷ ms) _ all

  apply_migrations-newer :
      (ms : List (ℕ × File)) (d : D)
      → apply_migrations sqlite ms d ≡ apply_newer sqlite (head sqlite d) ms d
  unfolding apply_migrations
  apply_migrations-newer [] d = refl
  apply_migrations-newer (m ∷ ms) d = refl

  newer-All :
      (P : ℕ → Type 0) (old : ℕ) (ms : List (ℕ × File))
      → All (λ (m : ℕ × File). P m.0) ms
      → All P (newer old ms)
  newer-All P old [] h = tt
  newer-All P old (m ∷ ms) h = elim (Bool-cases (leb m.0 old)) [
    | inl known ↦ rw known (newer-All P old ms h.1)
    | inr new ↦ rw new (h.0, newer-All P old ms h.1)
  ]

  newer-Ascending :
      (old : ℕ) (ms : List (ℕ × File))
      → Ascending (λ (m : ℕ × File). m.0) ms
      → Ascending (λ (v : ℕ). v) (newer old ms)
  newer-Ascending old [] h = tt
  newer-Ascending old (m ∷ ms) h =
      ground (arith, newer-All (λ v. m.0 ≤ v) old ms h.0, newer-Ascending old ms h.1)

  discover_migrations-Ascending :
      (decimal : ℕ → Option ℕ) (listing : Option (List File))
      → Ascending (λ (m : ℕ × File). m.0) (discover_migrations decimal listing)
  unfolding discover_migrations
  discover_migrations-Ascending decimal none = tt
  discover_migrations-Ascending decimal (some ps) =
      sort_by-Ascending (λ (m : ℕ × File). m.0) (collect decimal ps)

  -- If the runner returns, it has run the scripts of the migrations above the head of before, each
  -- as often as it was found, one after the other, in ascending order of their versions, each without
  -- fault; the database is what they have made of it, and the versions returned are theirs.
  pub apply_migrations_ascend :
      (decimal : ℕ → Option ℕ) (listing : Option (List File)) (d : D) (vs : List ℕ)
      → let ms = discover_migrations decimal listing in
        (apply_migrations sqlite ms d).0 ≡ ok vs
        → Runs (above (head sqlite d) ms) d (apply_migrations sqlite ms d).1
          × (vs ≡ newer (head sqlite d) ms)
          × Ascending (λ (v : ℕ). v) vs
  apply_migrations_ascend decimal listing d vs h =
      let ms = discover_migrations decimal listing in
      let (same, runs) =
        versions-Applies (head sqlite d) ms d _ vs
          (apply_newer-Applies (head sqlite d) ms d vs (rw (apply_migrations-newer ms d) at h)) in
      (
        rw (apply_migrations-newer ms d) runs,
        same,
        subst (Ascending (λ (v : ℕ). v)) (sym same)
            (newer-Ascending (head sqlite d) ms (discover_migrations-Ascending decimal listing)),
      )
