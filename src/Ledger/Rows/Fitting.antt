-- ===== src/Ledger/Rows/Fitting.antt =====
-- The rows that the records stand for pass the declarations of the tables.
use overwatch_harness.Prelude.{true, false, map, Option, none, some, ◌≡◌, refl}
use overwatch_harness.Text.{Text, text_eq}
use overwatch_harness.Models.{Time, Engagement, Session, Message}
use overwatch_harness.Ledger.Rows.{Value, integer, text, column, column_of, number, stamp}
use overwatch_harness.Ledger.Rows.Words.{
  mode_text, modes, session_status_text, session_statuses, route_text, routes, message_status_text,
  message_statuses,
}
use overwatch_harness.Ledger.Rows.Schema.{
  Conforms, Affinity, integers, texts, words, fits, present, engagement_columns, session_columns,
  message_columns, engagement_row, session_row, message_row,
}
use overwatch_harness.Ledger.Rows.Listed.{
  mode_back, session_status_back, route_back, message_status_back, any-word_of,
}

infixr 4 ◌⊗◌
abbrev ◌⊗◌ : {P Q : Type 0} → P → Q → P × Q
p ⊗ q = (p, q)

-- What a column lets pass that may be NULL.
nullable_fits :
    {A : Type 0} (affinity : Affinity) (value : A → Value) (a : Option A)
    → ((x : A) → (present false (value x) ≡ true) × (fits affinity (value x) ≡ true))
    → (present false (column_of value a) ≡ true) × (fits affinity (column_of value a) ≡ true)
nullable_fits affinity value none each = (refl, refl)
nullable_fits affinity value (some x) each = each x

module _ (iso : Time → Text) where
  pub engagement_fits : (e : Engagement) → Conforms engagement_columns (engagement_row iso e)
  unfolding column text_eq
  engagement_fits e =
      (refl, refl)
      ⊗ (refl, refl)
      ⊗ (refl, refl)
      ⊗ (refl, refl)
      ⊗ nullable_fits texts (stamp iso) e.ended_at (λ x. (refl, refl))
      ⊗ (refl, any-word_of mode_text modes (mode_text e.mode) (mode_back e.mode))
      ⊗ nullable_fits integers number e.current_session_id (λ x. (refl, refl))
      ⊗ nullable_fits texts text e.plane_issue_id (λ x. (refl, refl))
      ⊗ nullable_fits integers number e.plane_issue_seq (λ x. (refl, refl))
      ⊗ nullable_fits texts text e.summary (λ x. (refl, refl))
      ⊗ tt

  pub session_fits : (s : Session) → Conforms session_columns (session_row iso s)
  unfolding column text_eq
  session_fits s =
      (refl, refl)
      ⊗ (refl, refl)
      ⊗ nullable_fits texts text s.claude_session_id (λ x. (refl, refl))
      ⊗ nullable_fits integers number s.parent_session_id (λ x. (refl, refl))
      ⊗ (refl, refl)
      ⊗ nullable_fits texts (stamp iso) s.ended_at (λ x. (refl, refl))
      ⊗ (
        refl,
        any-word_of session_status_text session_statuses (session_status_text s.status)
            (session_status_back s.status),
      )
      ⊗ (refl, refl)
      ⊗ nullable_fits texts text s.response_excerpt (λ x. (refl, refl))
      ⊗ nullable_fits integers integer s.exit_code (λ x. (refl, refl))
      ⊗ nullable_fits texts text s.langfuse_trace_id (λ x. (refl, refl))
      ⊗ nullable_fits texts text s.max_quota_reset_window (λ x. (refl, refl))
      ⊗ nullable_fits integers number s.duration_ms (λ x. (refl, refl))
      ⊗ tt

  pub message_fits : (m : Message) → Conforms message_columns (message_row iso m)
  unfolding column text_eq
  message_fits m =
      (refl, refl)
      ⊗ (refl, refl)
      ⊗ nullable_fits integers number m.engagement_id (λ x. (refl, refl))
      ⊗ nullable_fits integers number m.session_id (λ x. (refl, refl))
      ⊗ (refl, refl)
      ⊗ (refl, refl)
      ⊗ (refl, refl)
      ⊗ (refl, refl)
      ⊗ nullable_fits texts text m.reply_to_msg_id (λ x. (refl, refl))
      ⊗ nullable_fits (words (map route_text routes)) (λ r. text (route_text r)) m.classifier_route
          (λ r. (refl, any-word_of route_text routes (route_text r) (route_back r)))
      ⊗ nullable_fits texts text m.classifier_version (λ x. (refl, refl))
      ⊗ nullable_fits texts text m.prompt_hash (λ x. (refl, refl))
      ⊗ nullable_fits texts text m.reply_text (λ x. (refl, refl))
      ⊗ (
        refl,
        any-word_of message_status_text message_statuses (message_status_text m.status)
            (message_status_back m.status),
      )
      ⊗ nullable_fits texts text m.error_summary (λ x. (refl, refl))
      ⊗ tt
