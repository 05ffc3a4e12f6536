-- ===== src/Daemon/Isolation/Spares.antt =====
-- The rows that the handling of one message leaves alone, once its engagement is decided.
use overwatch_harness.Prelude.{ℕ, suc, ◌≤◌, ◌<◌, ◌≡◌, ◌≢◌, refl, ◌∙◌, inl, inr, arith}
use overwatch_harness.Prelude.Table.{update, find-update_other}
use overwatch_harness.Models.{Session}
use overwatch_harness.Ledger.Db.{
  Db, engagement_key, session_key, message_key, find_engagement, find_session, find_message,
}
use overwatch_harness.Ledger.Engagements.{end_engagement}
use overwatch_harness.Ledger.Sessions.{attach_claude_session_id, finalize_session, set_current}
use overwatch_harness.Ledger.Messages.{set_status}
use overwatch_harness.Ledger.Shapes.{create_session-shape, update_message_status-shape}
use overwatch_harness.Ledger.Sound.Run.{Write, write}
use overwatch_harness.Daemon.{World}
use overwatch_harness.Daemon.Keeps.{Scope, Plain, Spawning, Steps, SpawnSteps}

-- All rows but the message `key`, the engagement `place` and the sessions behind `n`.
pub record Spares (key place n : ℕ) (a b : Db) : Type 0 where
  pub operators : b.operators ≡ a.operators
  pub messages : (k : ℕ) → k ≢ key → find_message k b ≡ find_message k a
  pub engagements : (k : ℕ) → k ≢ place → find_engagement k b ≡ find_engagement k a
  pub sessions : (k : ℕ) → k ≤ n → find_session k b ≡ find_session k a
  pub counted : n ≤ b.session_seq

module _ (key place n : ℕ) where
  abbrev pub tail : Scope
  tail = record {
    message = λ k. k ≡ key;
    engagement = λ k. k ≡ place;
    session = λ k. n < k;
    chat = λ c. Unit;
    adding = ⊥;
  }

  abbrev pub Sparing : World → World → Type 0
  Sparing w w' = n ≤ w.db.session_seq → Spares key place n w.db w'.db

  pub nothing_done : (db : Db) → n ≤ db.session_seq → Spares key place n db db
  nothing_done db h = record {
    operators = refl;
    messages = λ k other. refl;
    engagements = λ k other. refl;
    sessions = λ k old. refl;
    counted = h;
  }

  pub Spares-then :
      (a b c : Db) → Spares key place n a b → Spares key place n b c → Spares key place n a c
  Spares-then a b c p q = record {
    operators = q.operators ∙ p.operators;
    messages = λ k other. q.messages k other ∙ p.messages k other;
    engagements = λ k other. q.engagements k other ∙ p.engagements k other;
    sessions = λ k old. q.sessions k old ∙ p.sessions k old;
    counted = q.counted;
  }

  plain-Spares :
      (x : Write)
      → Plain tail x
      → (db : Db) → n ≤ db.session_seq
      → Spares key place n db (write x db)
  unfolding write end_engagement
  plain-Spares x (Plain.upsert k u m t adding) db h = absurd adding
  plain-Spares x (Plain.open_engagement o s t adding) db h = absurd adding
  plain-Spares x (Plain.arrive i t adding) db h = absurd adding
  plain-Spares x (Plain.close_engagement k t placed) db h = record {
    operators = refl;
    messages = λ j other. refl;
    engagements = λ j other.
        find-update_other engagement_key k j _ db.engagements (λ e. refl) (rw placed other);
    sessions = λ j old. refl;
    counted = h;
  }
  plain-Spares x (Plain.set_status k s c own) db h = elim (update_message_status-shape k s c db) [
    | inl same ↦ rw same (nothing_done db h)
    | inr done ↦ rw done (record {
      operators = refl;
      messages = λ j other.
          find-update_other message_key k j (set_status s c) db.messages (λ m. refl) (rw own other);
      engagements = λ j other. refl;
      sessions = λ j old. refl;
      counted = h;
    })
  ]

  session_update-Spares :
      (k : ℕ) (f : Session → Session) (db : Db)
      → ((s : Session) → session_key (f s) ≡ session_key s)
      → n < k
      → n ≤ db.session_seq
      → Spares key place n db (record db { sessions = update session_key k f db.sessions })
  session_update-Spares k f db keep its h = record {
    operators = refl;
    messages = λ j other. refl;
    engagements = λ j other. refl;
    sessions = λ j old.
        find-update_other session_key k j f db.sessions keep
          (λ same. omega (arith, same, old, its));
    counted = h;
  }

  spawn_path-Spares :
      (x : Write)
      → Spawning tail x
      → (db : Db) → n ≤ db.session_seq
      → Spares key place n db (write x db)
  unfolding write attach_claude_session_id finalize_session
  spawn_path-Spares x (Spawning.open_session e p s t placed) db h =
      elim (create_session-shape e p s t db) [
        | inl same ↦ rw same (nothing_done db h)
        | inr opened ↦ rw opened (record {
          operators = refl;
          messages = λ j other. refl;
          engagements = λ j other.
              find-update_other engagement_key e j (set_current (suc db.session_seq)) db.engagements
                (λ e. refl) (rw placed other);
          sessions = λ j old. ground arith;
          counted = omega arith;
        })
      ]
  spawn_path-Spares x (Spawning.attach k t its) db h =
      session_update-Spares k _ db (λ s. refl) its h
  spawn_path-Spares x (Spawning.finalize k s c r d q t its) db h =
      session_update-Spares k _ db (λ s. refl) its h

  pub tail_steps : Steps tail Sparing
  tail_steps = record {
    same = λ w h. nothing_done w.db h;
    trans = λ a b c p q h.
        let first : Spares key place n a.db b.db = p h in
        Spares-then a.db b.db c.db first (q first.counted);
    plain = λ x p w h. plain-Spares x p w.db h;
    clock = λ w h. nothing_done w.db h;
    send = λ o to w h. nothing_done w.db h;
  }

  pub tail_spawns : SpawnSteps tail Sparing
  tail_spawns = record {
    spawning = λ x p w h. spawn_path-Spares x p w.db h;
    throttle = λ reason w h. nothing_done w.db h;
    comment = λ c w h. nothing_done w.db h;
  }
