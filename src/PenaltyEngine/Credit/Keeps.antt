-- ===== src/PenaltyEngine/Credit/Keeps.antt =====
-- penalty_engine/repository.py: what every outcome of a credit keeps, where crediting a window does.
use ai_coach_keyholder.Prelude.{ℕ, ◌≡◌, some, List, Option-cases, inl, inr}
use ai_coach_keyholder.Prelude.Lists.{find}
use ai_coach_keyholder.Infrastructure.Transaction.Keeps.{Leaves, write_and_events_keeps}
use ai_coach_keyholder.PenaltyEngine.Models.{Hours, PenaltyWindow}
use ai_coach_keyholder.PenaltyEngine.Store.{Tables, DomainEvent, find_window}
use ai_coach_keyholder.PenaltyEngine.Credit.{
  is_decision_of, credit_window, record_credit_in_transaction, emit_recovery_credit_event,
  RecoveryReads, record_recovery_credit,
}

module _ (P : Tables → Type 0)
    (events : (t : Tables) (es : List DomainEvent) → P t → P (record t { domain_events = es }))
    (credits : (t : Tables) (window : PenaltyWindow) (completion_id window_id : ℕ) (hours : Hours)
        (now : ℕ)
      → find_window window_id t.penalty_windows ≡ some window
      → P t
      → Leaves P (credit_window window completion_id window_id hours now t)) where
  record_credit_keeps :
      (t : Tables) (completion_id window_id : ℕ) (hours : Hours) (now : ℕ)
      → P t
      → Leaves P (record_credit_in_transaction completion_id window_id hours now t)
  unfolding record_credit_in_transaction
  record_credit_keeps t completion_id window_id hours now inv =
      elim (Option-cases (find (is_decision_of completion_id) t.recovery_credit_decisions)) [
        | inr (d, found) ↦ rw (found, record_credit_in_transaction) inv
        | inl unseen ↦
            rw (unseen, record_credit_in_transaction)
              (elim (Option-cases (find_window window_id t.penalty_windows)) [
                | inl missing ↦ rw (missing, record_credit_in_transaction) tt
                | inr (w, there) ↦
                    rw (there, record_credit_in_transaction)
                      (credits t w completion_id window_id hours now there inv)
              ])
      ]

  pub record_recovery_credit_keeps :
      (t : Tables) (reads : RecoveryReads) (completion_id now : ℕ)
      → P t
      → P (record_recovery_credit reads completion_id now t).1
  unfolding record_recovery_credit emit_recovery_credit_event
  record_recovery_credit_keeps t reads completion_id now inv =
      elim (Option-cases (reads.get_recovery_task_completion completion_id)) [
        | inl missing ↦ rw (missing, record_recovery_credit) inv
        | inr (ids, found) ↦
            rw (found, record_recovery_credit)
              (elim (Option-cases (reads.window_of_plan ids.1)) [
                | inl no_plan ↦ rw (no_plan, record_recovery_credit) inv
                | inr (window_id, plan) ↦
                    rw (plan, record_recovery_credit)
                      (elim (Option-cases (reads.credit_hours_of_task ids.0)) [
                        | inl no_task ↦ rw (no_task, record_recovery_credit) inv
                        | inr (hours, task) ↦
                            rw (task, record_recovery_credit)
                              (write_and_events_keeps P
                                (record_credit_in_transaction completion_id window_id hours now)
                                (emit_recovery_credit_event now) t inv
                                (record_credit_keeps t completion_id window_id hours now inv)
                                (λ d s h. events s _ h))
                      ])
              ])
      ]
