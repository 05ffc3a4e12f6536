-- ===== src/Daemon/Settled/Finishing.antt =====
-- Actions that leave a message in a final status when they return.
use overwatch_harness.Prelude.{
  ℕ, Bool, Option, none, some, [], ◌∷◌, ◌≡◌, ◌⊎◌, refl, inl, inr, arith, Bool-cases, Option-cases,
  not, is_some, ◌||◌, ◌&&◌,
}
use overwatch_harness.Prelude.Table.{update, find-update}
use overwatch_harness.Text.{codes}
use overwatch_harness.Exec.{Result, ok, err, integrity_error, continue}
use overwatch_harness.Models.{Engagement, Message, MessageStatus, done, failed}
use overwatch_harness.Ledger.Db.{Db, message_key, find_message, has_engagement, has_session}
use overwatch_harness.Ledger.Messages.{Changes, no_changes, set_status, update_message_status}
use overwatch_harness.Spawner.{SpawnResult}
use overwatch_harness.Daemon.{World, Action, ◌>>=◌, on_db, update_status}
use overwatch_harness.Daemon.Dispatch.{audit}

abbrev pub IsFinal : MessageStatus → Type 0
IsFinal status = (status ≡ done) ⊎ (status ≡ failed)

abbrev pub Fine : Option Message → Type 0
Fine none = Unit
Fine (some m) = IsFinal m.status

abbrev pub Final : ℕ → Db → Type 0
Final k db = Fine (find_message k db)

pub updated-Final :
    (k : ℕ) (status : MessageStatus) (c : Changes) (db : Db)
    → IsFinal status
    → Final k (record db { messages = update message_key k (set_status status c) db.messages })
updated-Final k status c db fine =
    rw (find-update message_key k k (set_status status c) db.messages (λ m. refl))
      (elim (Option-cases (find_message k db)) [
        | inl absent ↦ rw absent tt
        | inr (m, there) ↦ rw there (ground (arith, fine))
      ])

-- What `recover` writes.
abbrev pub caught : Changes
caught = record no_changes { error_summary = some (codes "dispatch raised; see daemon logs") }

-- An action that leaves the message in a final status, if it does not raise.
pub record Finishes (k : ℕ) (m : Action (Unit {0})) : Type 0 where
  pub at : (w : World) → (m w).0 ≡ ok tt → Final k (m w).1.db

module _ (k : ℕ) where
  pub Finishes-update :
      (status : MessageStatus) (c : Changes)
      → IsFinal status
      → Finishes k (update_status k status c)
  unfolding update_status on_db update_message_status
  Finishes-update status c fine = record {
    at = λ w fits.
        elim (Bool-cases (
          not (is_some (find_message k w.db))
          || (has_engagement c.engagement_id w.db && has_session c.session_id w.db))) [
            | inl good ↦ rw good (updated-Final k status c w.db fine)
            | inr bad ↦ absurd (let no : err integrity_error ≡ ok (tt {0}) = rw bad at fits in cc)
          ];
  }

  Finishes-continue :
      {A : Type 0} (r : Result A) (f : A → Action (Unit {0}))
      → ((a : A) → Finishes k (f a))
      → Finishes k (continue r f)
  Finishes-continue (ok a) f each = each a
  Finishes-continue (err e) f each = record { at = λ w fits. cc }

  pub Finishes-bind :
      {A : Type 0} (m : Action A) (f : A → Action (Unit {0}))
      → ((a : A) → Finishes k (f a))
      → Finishes k (m >>= f)
  unfolding ◌>>=◌
  Finishes-bind m f each = record { at = λ w. (Finishes-continue (m w).0 f each).at (m w).1 }

  -- What comes behind it may leave the ledger alone.
  Final-continue :
      (r : Result (Unit {0})) (f : Action (Unit {0})) (w : World)
      → ((v : World) → (f v).1.db ≡ v.db)
      → (r ≡ ok tt → Final k w.db)
      → (continue r (λ _. f) w).0 ≡ ok tt
      → Final k (continue r (λ _. f) w).1.db
  Final-continue (ok a) f w reads fine fits = rw (reads w) (fine refl)
  Final-continue (err e) f w reads fine fits = cc

  pub Finishes-then :
      (m f : Action (Unit {0}))
      → Finishes k m
      → ((v : World) → (f v).1.db ≡ v.db)
      → Finishes k (m >>= λ _. f)
  unfolding ◌>>=◌
  Finishes-then m f fin reads = record {
    at = λ w. Final-continue (m w).0 f (m w).1 reads (fin.at w);
  }

pub audit-db :
    (plane : Bool) (e : Engagement) (k : ℕ) (result : SpawnResult) (w : World)
    → (audit plane e k result w).1.db ≡ w.db
unfolding audit
audit-db plane e k result w = elim (Option-cases e.plane_issue_id) [
  | inl absent ↦ rw absent refl
  | inr ([], empty) ↦ rw empty refl
  | inr (c ∷ issue, there) ↦ elim (Bool-cases plane) [
    | inl on ↦ rw (there, on) refl
    | inr off ↦ rw (there, off) refl
  ]
]
