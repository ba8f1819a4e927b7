-- ===== src/RecoveryPlan/Tasks/Completing.antt =====
-- recovery_plan/repository.py: the branches of the completion of a task.
use ai_coach_keyholder.Prelude.{
  ℕ, suc, ◌≡◌, refl, true, Option, some, ◌∷◌, ok, err, inl, inr, ◌⊎◌, Bool-cases, Option-cases,
}
use ai_coach_keyholder.Prelude.Lists.{find, update_where}
use ai_coach_keyholder.Infrastructure.Transaction.{write_and_events}
use ai_coach_keyholder.Infrastructure.Transaction.Returns.{
  then_do_ok, then_do_err, write_and_events_ok, write_and_events_err,
}
use ai_coach_keyholder.RecoveryPlan.Models.{
  RecoveryPlan, RecoveryTask, RecoveryTaskStatus, task_completed, PlanTables, PlanError,
  task_not_found, invalid_task_transition, integrity_error, has_plan_id, has_task_id,
  is_open_status,
}
use ai_coach_keyholder.RecoveryPlan.Tasks.{
  with_task_status, new_completion, complete_row, complete_write, emit_completed, complete_task,
}

module _ (task_id now : ℕ) (notes : Option ℕ) (t : PlanTables) where
  -- The tables behind the completion of the task `row`, without its event.
  abbrev pub with_completion : RecoveryTask → PlanTables
  with_completion row = record t {
    recovery_tasks =
        update_where (has_task_id task_id) (with_task_status RecoveryTaskStatus.completed now)
          t.recovery_tasks;
    recovery_task_completions =
        new_completion t.next_id task_id row.recovery_plan_id now notes
        ∷ t.recovery_task_completions;
    next_id = suc t.next_id;
  }

  abbrev pub IsCompletable : RecoveryTask → RecoveryPlan → Type 0
  IsCompletable row plan =
      (find (has_task_id task_id) t.recovery_tasks ≡ some row)
      × (is_open_status row.status ≡ true)
      × (find (has_plan_id row.recovery_plan_id) t.recovery_plans ≡ some plan)

  pub complete_write-cases :
      ((e : PlanError) × (complete_write task_id now notes t ≡ err e))
      ⊎ ((row : RecoveryTask) × (plan : RecoveryPlan) × IsCompletable row plan
          × (complete_write task_id now notes t
              ≡ ok (
                (
                  with_task_status RecoveryTaskStatus.completed now row,
                  new_completion t.next_id task_id row.recovery_plan_id now notes,
                  plan.penalty_window_id,
                ),
                with_completion row,
              )))
  unfolding complete_write complete_row
  complete_write-cases = elim (Option-cases (find (has_task_id task_id) t.recovery_tasks)) [
    | inl missing ↦ inl (task_not_found task_id, rw (missing, complete_write) refl)
    | inr (row, found) ↦ elim (Bool-cases (is_open_status row.status)) [
      | inr refused ↦ inl (
        invalid_task_transition task_id row.status RecoveryTaskStatus.completed,
        rw (found, complete_write) (rw refused refl),
      )
      | inl fine ↦ elim (Option-cases (find (has_plan_id row.recovery_plan_id) t.recovery_plans)) [
        | inl no_plan ↦ inl (
          integrity_error,
          rw (found, complete_write) (rw fine (rw (no_plan, complete_row) refl)),
        )
        | inr (plan, at) ↦ inr (
          row,
          plan,
          (found, fine, at),
          rw (found, complete_write) (rw fine (rw (at, complete_row) refl)),
        )
      ]
    ]
  ]

  -- The method: it raises and changes nothing, or the task was open, and its event is in the outbox.
  pub complete_task-cases :
      ((e : PlanError) × (complete_task task_id now notes t ≡ (err e, t)))
      ⊎ ((row : RecoveryTask) × (plan : RecoveryPlan) × IsCompletable row plan
          × (complete_task task_id now notes t ≡ (
            ok (new_completion t.next_id task_id row.recovery_plan_id now notes),
            record (with_completion row) {
              plan_events =
                  record {
                    payload =
                        task_completed t.next_id task_id row.recovery_plan_id plan.penalty_window_id
                          row.credit_hours;
                    occurred_at = now;
                  }
                  ∷ t.plan_events;
            },
          )))
  unfolding complete_task
  complete_task-cases = elim complete_write-cases [
    | inl (e, raised) ↦ inl (
      e,
      then_do_err (write_and_events (complete_write task_id now notes) (emit_completed now))
          (λ r s. (ok r.1, s))
          (write_and_events_err (complete_write task_id now notes) (emit_completed now) raised),
    )
    | inr (row, plan, c, wrote) ↦ inr (
      row,
      plan,
      c,
      then_do_ok (write_and_events (complete_write task_id now notes) (emit_completed now))
          (λ r s. (ok r.1, s))
          (write_and_events_ok (complete_write task_id now notes) (emit_completed now) wrote refl),
    )
  ]
