-- ===== src/Daemon/Isolation/Deciding.antt =====
-- What the decision of an engagement leaves alone, and how it adds up with what comes round it.
use overwatch_harness.Prelude.{ℕ, suc, ◌≤◌, ◌≡◌, ◌≢◌, some, refl, ◌∙◌, ap, sym, inl, inr}
use overwatch_harness.Prelude.Table.{find-cons}
use overwatch_harness.Text.{Text}
use overwatch_harness.Models.{Engagement, MessageStatus, Time}
use overwatch_harness.Ledger.Db.{Db, engagement_key, find_engagement, find_session, find_message}
use overwatch_harness.Ledger.Engagements.{new_engagement}
use overwatch_harness.Ledger.Sound.{Sound}
use overwatch_harness.Ledger.Sound.Run.{write}
use overwatch_harness.Ledger.Shapes.{create_engagement-shape, update_message_status-shape}
use overwatch_harness.Ledger.Messages.{Changes, update_message_status}
use overwatch_harness.Router.Decisions.{Placed}
use overwatch_harness.Daemon.Keeps.Effects.{Decided}
use overwatch_harness.Daemon.Isolation.Spares.{Spares}

pub status_engagements :
    (k : ℕ) (status : MessageStatus) (c : Changes) (db : Db)
    → (update_message_status k status c db).1.engagements ≡ db.engagements
status_engagements k status c db = elim (update_message_status-shape k status c db) [
  | inl same ↦ ap (λ (d : Db). d.engagements) same
  | inr done ↦ ap (λ (d : Db). d.engagements) done
]

-- Only engagements have come.
pub record Grown (a b : Db) : Type 0 where
  pub operators : b.operators ≡ a.operators
  pub messages : b.messages ≡ a.messages
  pub sessions : b.sessions ≡ a.sessions
  pub session_seq : b.session_seq ≡ a.session_seq
  pub engagements :
      (k : ℕ) (e : Engagement) → find_engagement k a ≡ some e → find_engagement k b ≡ some e

pub Decided-Grown : (who : Text) (at : Time) (a b : Db) → Sound a → Decided who at a b → Grown a b
unfolding write
Decided-Grown who at a b h (inl same) = rw same (record {
  operators = refl;
  messages = refl;
  sessions = refl;
  session_seq = refl;
  engagements = λ k e found. found;
})
Decided-Grown who at a b h (inr (s, opened)) = elim (create_engagement-shape who s at a) [
  | inl none_made ↦
      rw (opened, none_made)
        (record {
          operators = refl;
          messages = refl;
          sessions = refl;
          session_seq = refl;
          engagements = λ k e found. found;
        })
  | inr made ↦
      rw (opened, made)
        (record {
          operators = refl;
          messages = refl;
          sessions = refl;
          session_seq = refl;
          engagements = λ k e found.
              find-cons engagement_key a.engagement_seq k
                (new_engagement (suc a.engagement_seq) who s at) a.engagements {x = e} refl
                h.engagement_keys found;
        })
]

-- All that is not the message's own, its operator's engagements, or new.
pub record Isolated (who : Text) (key : ℕ) (a b : Db) : Type 0 where
  pub operators : b.operators ≡ a.operators
  pub messages : (k : ℕ) → k ≢ key → find_message k b ≡ find_message k a
  pub sessions : (k : ℕ) → k ≤ a.session_seq → find_session k b ≡ find_session k a
  pub engagements :
      (k : ℕ) (e : Engagement)
      → find_engagement k a ≡ some e
      → e.operator_id ≢ who
      → find_engagement k b ≡ some e
  pub counted : a.session_seq ≤ b.session_seq

-- Status, decision and what follows, one after the other.
pub compose :
    (who : Text) (key n : ℕ) (e : Engagement) (a b c d : Db)
    → a.session_seq ≡ n
    → Spares key e.engagement_id n a b
    → b.engagements ≡ a.engagements
    → Grown b c
    → Placed who c e
    → Spares key e.engagement_id n c d
    → Isolated who key a d
compose who key n e a b c d counted p same_engagements g placed q = record {
  operators = q.operators ∙ (g.operators ∙ p.operators);
  messages = λ k other. q.messages k other ∙ (rw g.messages (p.messages k other));
  sessions = λ k old.
      let back = rw counted at old in q.sessions k back ∙ (rw g.sessions (p.sessions k back));
  engagements = λ k x found others.
      let there : find_engagement k c ≡ some x = g.engagements k x (rw same_engagements found) in
      q.engagements k (λ (hit : k ≡ e.engagement_id). others (
        let mine : some x ≡ some e = sym there ∙ (rw hit placed.found) in
        let one : x ≡ e = cc in ap (λ (y : Engagement). y.operator_id) one ∙ placed.owner))
      ∙ there;
  counted = rw counted q.counted;
}
