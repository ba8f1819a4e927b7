-- ===== src/PenaltyEngine/Credit.antt =====
-- penalty_engine/repository.py: recovery credit for completed recovery tasks.
pub mod Keeps
pub mod Balance
use ai_coach_keyholder.Prelude.{ℕ, ⊤, Bool, Option, none, some, ◌∷◌, ok, err, ◌==◌}
use ai_coach_keyholder.Prelude.Int.{pos, ◌+ℤ◌, ◌-ℤ◌, min_ℤ, max_ℤ, half, ltb_ℤ}
use ai_coach_keyholder.Prelude.Lists.{find, exists}
use ai_coach_keyholder.Infrastructure.Transaction.{
  Method, gets, modify, pure, raise_if, when, ◌>>=◌, ◌>>◌, write_and_events, apply_transition,
}
use ai_coach_keyholder.PenaltyEngine.Models.{Hours, PenaltyWindow, RecoveryCreditDecision}
use ai_coach_keyholder.PenaltyEngine.Window.{target_active_hours}
use ai_coach_keyholder.PenaltyEngine.Store.{
  Tables, Action, EngineError, penalty_window_not_found, integrity_error, value_error,
  attribute_error, RecoveryCreditEntry, new_id, write_event, find_window, update_window,
  recovery_credit_recorded,
}

abbrev pub is_decision_of : ℕ → RecoveryCreditDecision → Bool
is_decision_of completion_id d = d.completion_id == completion_id

abbrev pub is_credit_of : ℕ → RecoveryCreditEntry → Bool
is_credit_of completion_id e = e.source_completion_id == completion_id

-- What the window can still be credited, out of half of its target.
unfoldable pub remaining_credit : PenaltyWindow → Hours
remaining_credit window =
    max_ℤ (pos 0) (half (target_active_hours window) -ℤ window.recovery_credits_earned_hours)

unfoldable pub credit_for : PenaltyWindow → Hours → Hours
unfolding remaining_credit
credit_for window proposed_hours = min_ℤ proposed_hours (remaining_credit window)

abbrev pub add_credit : Hours → PenaltyWindow → PenaltyWindow
add_credit credited w = record w {
  recovery_credits_earned_hours = w.recovery_credits_earned_hours +ℤ credited;
}

-- The ledger's row, whose `source_completion_id` is unique, and the window's total.
unfoldable pub book_credit : ℕ → ℕ → ℕ → Hours → Action ⊤
book_credit now completion_id penalty_window_id credited = do
  id ← new_id
  clash ← gets (λ t. exists (is_credit_of completion_id) t.recovery_credit_ledger)
  raise_if clash integrity_error
  modify λ t. record t {
    recovery_credit_ledger =
        record {
          id = id;
          penalty_window_id = penalty_window_id;
          credited_hours = credited;
          source_completion_id = completion_id;
          created_at = now;
        }
        ∷ t.recovery_credit_ledger;
  }
  update_window penalty_window_id (add_credit credited)

unfoldable pub credit_window : PenaltyWindow → ℕ → ℕ → Hours → ℕ → Action RecoveryCreditDecision
credit_window window completion_id penalty_window_id proposed_hours now = do
  id ← new_id
  let credited = credit_for window proposed_hours
  let decision : RecoveryCreditDecision = record {
    id = id;
    created_at = now;
    completion_id = completion_id;
    penalty_window_id = penalty_window_id;
    proposed_hours = proposed_hours;
    credited_hours = credited;
    capacity_limited = ltb_ℤ credited proposed_hours;
  }
  modify λ t. record t { recovery_credit_decisions = decision ∷ t.recovery_credit_decisions }
  when (ltb_ℤ (pos 0) credited) (book_credit now completion_id penalty_window_id credited)
  pure decision

-- `_record_recovery_credit_in_transaction`
unfoldable pub record_credit_in_transaction : ℕ → ℕ → Hours → ℕ → Action RecoveryCreditDecision
record_credit_in_transaction completion_id penalty_window_id proposed_hours now t =
    elim (find (is_decision_of completion_id) t.recovery_credit_decisions) [
      | some existing ↦ ok (existing, t)
      | none ↦ elim (find_window penalty_window_id t.penalty_windows) [
        | none ↦ err (penalty_window_not_found penalty_window_id)
        | some window ↦ credit_window window completion_id penalty_window_id proposed_hours now t
      ]
    ]

-- `_emit_recovery_credit_event`
unfoldable pub emit_recovery_credit_event : ℕ → RecoveryCreditDecision → Action ⊤
emit_recovery_credit_event now d = write_event now (
    recovery_credit_recorded d.id d.completion_id d.penalty_window_id d.credited_hours
      d.capacity_limited)

-- The three reads that the engine makes of a recovery plan: the task and the plan of a completion,
-- the hours of a task, and the window of a plan.
pub record RecoveryReads : Type 0 where
  pub get_recovery_task_completion : ℕ → Option (ℕ × ℕ)
  pub credit_hours_of_task : ℕ → Option Hours
  pub window_of_plan : ℕ → Option ℕ

-- `record_recovery_credit_from_task_completion`. An attribute of a task or a plan that is not there
-- is an AttributeError.
unfoldable pub record_recovery_credit :
    RecoveryReads → ℕ → ℕ → Method Tables EngineError RecoveryCreditDecision
record_recovery_credit reads completion_id now t =
    elim (reads.get_recovery_task_completion completion_id) [
      | none ↦ (err value_error, t)
      | some (task_id, plan_id) ↦ elim (reads.window_of_plan plan_id) [
        | none ↦ (err attribute_error, t)
        | some window_id ↦ elim (reads.credit_hours_of_task task_id) [
          | none ↦ (err attribute_error, t)
          | some hours ↦
              write_and_events (record_credit_in_transaction completion_id window_id hours now)
                (emit_recovery_credit_event now) t
        ]
      ]
    ]
