-- ===== src/Boot/Parts.antt =====
-- What the parts of a run of the daemon leave behind, and how that adds up.
use overwatch_harness.Prelude.{
  Bool, true, false, Bool-cases, inl, inr, List, [], ◌∷◌, ◌++◌, ◌&&◌, ◌≡◌, refl, sym, ap, ◌∙◌,
  subst, append_assoc, append-nil, if◌then◌else◌,
}
use overwatch_harness.Exec.{
  Exec, Result, ok, err, outside_error, is_ok, pure, continue, ◌>>=◌, ◌>>◌,
}
use overwatch_harness.Machine.{StateMachine}
use overwatch_harness.Boot.{
  Step, make_directory, connect, set_wal, set_synchronous, enforce_foreign_keys, run_migrations,
  set_up_runner, bind_healthz, open_ledger, start_healthz, build_app, initialize_app, start_app,
  start_polling, stop_updater, stop_app, shut_down_app, Boot, note, lift, change_machine, set_app,
  settle, try_finally, attempt, start_ingress, stop_ingress,
}

-- What a part of the run did from `b`: it returned, took the steps `l` and left `_app` set or not;
-- or it raised on the way through them.
abbrev pub Leaves : {A : Type 0} → List Step → Bool → Bool → Boot → Result A × Boot → Type 0
Leaves l x post b (ok a, b') = (x ≡ true) × (b'.steps ≡ b.steps ++ l) × (b'.has_app ≡ post)
Leaves l x post b (err e, b') = (x ≡ false) × (rest : List Step) × (b'.steps ++ rest ≡ b.steps ++ l)

-- So from wherever `_app` is as in `pre`.
pub record Does {A : Type 0} (pre : Bool) (m : Exec Boot A) (l : List Step) (x post : Bool)
    : Type 0 where
  pub leaves : (b : Boot) → b.has_app ≡ pre → Leaves l x post b (m b)

and_false : (b : Bool) → (b && false) ≡ false
and_false true = refl
and_false false = refl

pub and_true : (b : Bool) → (b && true) ≡ b
and_true true = refl
and_true false = refl

Leaves-behind :
    {A : Type 0} (l k : List Step) (y post : Bool) (b b' : Boot) (r : Result A × Boot)
    → b'.steps ≡ b.steps ++ l
    → Leaves k y post b' r
    → Leaves (l ++ k) y post b r
Leaves-behind l k y post b b' (ok a, c) e (good, steps, app) =
    (good, steps ∙ ap (λ s. s ++ k) e ∙ append_assoc b.steps l k, app)
Leaves-behind l k y post b b' (err f, c) e (bad, rest, steps) =
    (bad, rest, steps ∙ ap (λ s. s ++ k) e ∙ append_assoc b.steps l k)

Leaves-continue :
    {A B : Type 0} (l k : List Step) (x y mid post : Bool) (b : Boot) (f : A → Exec Boot B)
    (r : Result A) (b' : Boot)
    → Leaves l x mid b (r, b')
    → ((a : A) → Does mid (f a) k y post)
    → Leaves (l ++ k) (x && y) post b (continue r f b')
Leaves-continue l k x y mid post b f (ok a) b' (good, steps, app) next =
    rw good (Leaves-behind l k y post b b' (f a b') steps ((next a).leaves b' app))
Leaves-continue l k x y mid post b f (err e) b' (bad, rest, steps) next = rw bad (
  refl,
  rest ++ k,
  sym (append_assoc b'.steps rest k) ∙ ap (λ s. s ++ k) steps ∙ append_assoc b.steps l k,
)

pub Does-then :
    {A B : Type 0} {pre mid post x y : Bool} {l k : List Step} (m : Exec Boot A)
    (f : A → Exec Boot B)
    → Does pre m l x mid
    → ((a : A) → Does mid (f a) k y post)
    → Does pre (m >>= f) (l ++ k) (x && y) post
Does-then {mid} {post} {x} {y} {l} {k} m f first next = record {
  leaves = λ b app. Leaves-continue l k x y mid post b f (m b).0 (m b).1 (first.leaves b app) next;
}

pub Does-cast :
    {A : Type 0} {pre post x y : Bool} {m : Exec Boot A} {l : List Step}
    → x ≡ y
    → Does pre m l x post
    → Does pre m l y post
Does-cast {pre} {post} {m} {l} e d = subst (λ x. Does pre m l x post) e d

pub note-Does : (s : Step) (pre : Bool) → Does pre (note s) (s ∷ []) true pre
unfolding note
note-Does s pre = record { leaves = λ b app. (refl, refl, app) }

pub lift-Does : {A : Type 0} (r : Result A) (pre : Bool) → Does pre (lift r) [] (is_ok r) pre
lift-Does (ok a) pre = record { leaves = λ b app. (refl, sym (append-nil b.steps), app) }
lift-Does (err e) pre = record { leaves = λ b app. (refl, [], refl) }

pub pure-Does : {A : Type 0} (a : A) (pre : Bool) → Does pre (pure a) [] true pre
pure-Does a pre = record { leaves = λ b app. (refl, sym (append-nil b.steps), app) }

pub change_machine-Does :
    (f : StateMachine → StateMachine) (pre : Bool) → Does pre (change_machine f) [] true pre
change_machine-Does f pre = record { leaves = λ b app. (refl, sym (append-nil b.steps), app) }

module _ (goes : Step → Bool) where
  pub attempt-Does : (s : Step) (pre : Bool) → Does pre (attempt goes s) (s ∷ []) (goes s) pre
  unfolding attempt
  attempt-Does s pre = record {
    leaves = λ b app. elim (Bool-cases (goes s)) [
      | inl good ↦ rw good (refl, refl, app)
      | inr bad ↦ rw bad (refl, [], append-nil (b.steps ++ s ∷ []))
    ];
  }

  abbrev pub goes_open : Bool
  goes_open =
      goes make_directory
      && (goes connect
          && (goes set_wal
              && (goes set_synchronous && (goes enforce_foreign_keys && goes run_migrations))))

  pub open_ledger-Does :
      (pre : Bool)
      → Does pre
          (open_ledger goes)
          (make_directory ∷ connect ∷ set_wal ∷ set_synchronous ∷ enforce_foreign_keys
            ∷ run_migrations ∷ [])
          goes_open
          pre
  unfolding open_ledger
  open_ledger-Does pre = Does-then _ _ (attempt-Does make_directory pre) λ u.
      Does-then _ _ (attempt-Does connect pre) λ u. Does-then _ _ (attempt-Does set_wal pre) λ u.
        Does-then _ _ (attempt-Does set_synchronous pre) λ u.
          Does-then _ _ (attempt-Does enforce_foreign_keys pre) λ u. attempt-Does run_migrations pre

  pub start_healthz-Does :
      (pre : Bool)
      → Does pre
          (start_healthz goes)
          (set_up_runner ∷ bind_healthz ∷ [])
          (goes set_up_runner && goes bind_healthz)
          pre
  unfolding start_healthz
  start_healthz-Does pre =
      Does-then _ _ (attempt-Does set_up_runner pre) λ u. attempt-Does bind_healthz pre

  set_app-Does : (pre has : Bool) → Does pre (set_app has) [] true has
  set_app-Does pre has = record { leaves = λ b app. (refl, sym (append-nil b.steps), refl) }

  pub start_ingress-Does :
      (pre : Bool)
      → Does pre
          (start_ingress goes)
          (build_app ∷ initialize_app ∷ start_app ∷ start_polling ∷ [])
          (((goes build_app && goes initialize_app) && goes start_app) && goes start_polling)
          true
  unfolding start_ingress
  start_ingress-Does pre =
      Does-then _ _
        (Does-then _ _
          (Does-then _ _
            (Does-cast (and_true _)
              (Does-then _ _ (attempt-Does build_app pre) (λ u. set_app-Does pre true)))
            (λ u. attempt-Does initialize_app true))
          (λ u. attempt-Does start_app true))
        (λ u. attempt-Does start_polling true)

  settle-Leaves :
      (s : Step) (k : List Step) (x y post : Bool) (b : Boot) (r : Result (Unit {0}))
      (rest : Result (Unit {0}) × Boot)
      → is_ok r ≡ x
      → Leaves k y post (record b { steps = b.steps ++ s ∷ [] }) rest
      → Leaves (s ∷ k) (x && y) post b (settle r rest)
  settle-Leaves s k x y post b r (err e, c) h (bad, others, steps) =
      (rw bad (and_false x), others, steps ∙ append_assoc b.steps (s ∷ []) k)
  settle-Leaves s k x y post b (ok u) (ok v, c) h (good, steps, app) =
      (rw (sym h) good, steps ∙ append_assoc b.steps (s ∷ []) k, app)
  settle-Leaves s k x y post b (err e) (ok v, c) h (good, steps, app) =
      (rw (sym h) refl, [], append-nil c.steps ∙ steps ∙ append_assoc b.steps (s ∷ []) k)

  finally-Does :
      {pre post y : Bool} {k : List Step} (s : Step) (n : Exec Boot (Unit {0}))
      → Does pre n k y post
      → Does pre (try_finally (attempt goes s) n) (s ∷ k) (goes s && y) post
  unfolding attempt
  finally-Does {post} {y} {k} s n last = record {
    leaves = λ b app.
        settle-Leaves s k (goes s) y post b _ _ (raised (goes s))
          (last.leaves (record b { steps = b.steps ++ s ∷ [] }) app);
  }
    where
      raised : (x : Bool) → is_ok {0} {A = Unit {0}} (if x then ok tt else err outside_error) ≡ x
      raised true = refl
      raised false = refl

  pub stop_ingress-Does :
      Does true
        (stop_ingress goes)
        (stop_updater ∷ stop_app ∷ shut_down_app ∷ [])
        (goes stop_updater && (goes stop_app && goes shut_down_app))
        false
  unfolding stop_ingress
  stop_ingress-Does = record {
    leaves = λ b app.
        subst
          (λ has.
            Leaves (stop_updater ∷ stop_app ∷ shut_down_app ∷ [])
              (goes stop_updater && (goes stop_app && goes shut_down_app)) false b
              (if has
                then (try_finally (attempt goes stop_updater)
                        (attempt goes stop_app >> attempt goes shut_down_app)
                      >> set_app false)
                    b
                else (ok tt, b)))
          (sym app) (stopping.leaves b app);
  }
    where
      stopping :
          Does true
            (try_finally
                (attempt goes stop_updater)
                (attempt goes stop_app >> attempt goes shut_down_app)
              >> set_app false)
            (stop_updater ∷ stop_app ∷ shut_down_app ∷ [])
            (goes stop_updater && (goes stop_app && goes shut_down_app))
            false
      stopping = Does-cast (and_true _) (
          Does-then _ _
            (finally-Does stop_updater _
              (Does-then _ _ (attempt-Does stop_app true) (λ u. attempt-Does shut_down_app true)))
            (λ u. set_app-Does true false))
