-- ===== src/RecoveryPlan/Tasks.antt =====
-- recovery_plan/repository.py: the tasks of a plan, and their completion.
pub mod Completing
use ai_coach_keyholder.Prelude.{
  ℕ, ⊤, Bool, true, false, Option, none, some, List, [], ◌∷◌, ok, err, ◌&&◌, not, if◌then◌else◌,
}
use ai_coach_keyholder.Prelude.Lists.{find, update_where}
use ai_coach_keyholder.Infrastructure.Transaction.{
  Method, modify, pure, raise_if, ◌>>=◌, ◌>>◌, write_and_events, apply_transition, ◌then_do◌,
}
use ai_coach_keyholder.PenaltyEngine.Models.{Hours}
use ai_coach_keyholder.RecoveryPlan.Models.{
  RecoveryTaskStatus, proposed, accepted, expired, withdrawn, RecoveryTask, RecoveryTaskCompletion,
  PlanEvent, task_proposed, task_accepted, task_withdrawn, task_completed, PlanTables, PlanError,
  plan_not_found, task_not_found, invalid_task_transition, integrity_error, PlanAction, new_id,
  write_event, has_plan_id, has_task_id, is_open_status,
}

abbrev pub new_task : ℕ → ℕ → ℕ → ℕ → ℕ → Hours → ℕ → RecoveryTask
new_task id recovery_plan_id version title description credit_hours now = record {
  id = id;
  recovery_plan_id = recovery_plan_id;
  plan_version = version;
  title = title;
  description = description;
  credit_hours = credit_hours;
  status = proposed;
  created_at = now;
  status_changed_at = now;
}

unfoldable pub propose_write : ℕ → ℕ → ℕ → Hours → ℕ → PlanAction RecoveryTask
propose_write recovery_plan_id title description credit_hours now t =
    elim (find (has_plan_id recovery_plan_id) t.recovery_plans) [
      | none ↦ err (plan_not_found recovery_plan_id)
      | some plan ↦
          (do
            id ← new_id
            let task =
                new_task id recovery_plan_id plan.current_version title description credit_hours now
            modify λ s. record s { recovery_tasks = task ∷ s.recovery_tasks }
            pure task)
            t
    ]

unfoldable pub propose_task : ℕ → ℕ → ℕ → Hours → ℕ → Method PlanTables PlanError RecoveryTask
propose_task recovery_plan_id title description credit_hours now =
    write_and_events (propose_write recovery_plan_id title description credit_hours now)
      (λ result. write_event now (task_proposed result.id recovery_plan_id credit_hours))

abbrev pub with_task_status : RecoveryTaskStatus → ℕ → RecoveryTask → RecoveryTask
with_task_status new_status now task = record task { status = new_status; status_changed_at = now }

unfoldable pub transition_write :
    ℕ → RecoveryTaskStatus → ℕ → (RecoveryTaskStatus → Bool) → PlanAction RecoveryTask
transition_write task_id new_status now allowed_from t =
    elim (find (has_task_id task_id) t.recovery_tasks) [
      | none ↦ err (task_not_found task_id)
      | some row ↦
          if not (allowed_from row.status)
          then err (invalid_task_transition task_id row.status new_status)
          else ok (
            with_task_status new_status now row,
            record t {
              recovery_tasks =
                  update_where (has_task_id task_id) (with_task_status new_status now)
                    t.recovery_tasks;
            },
          )
    ]

-- `_transition_task`
unfoldable pub transition_task :
    ℕ
    → RecoveryTaskStatus
    → (ℕ → ℕ → PlanEvent)
    → ℕ
    → (RecoveryTaskStatus → Bool)
    → Method PlanTables PlanError RecoveryTask
transition_task task_id new_status event now allowed_from =
    write_and_events (transition_write task_id new_status now allowed_from)
      (λ result. write_event now (event task_id result.recovery_plan_id))

abbrev pub is_proposed : RecoveryTaskStatus → Bool
is_proposed proposed = true
is_proposed accepted = false
is_proposed RecoveryTaskStatus.completed = false
is_proposed expired = false
is_proposed withdrawn = false

unfoldable pub accept_task : ℕ → ℕ → Method PlanTables PlanError ⊤
accept_task task_id now =
    transition_task task_id accepted task_accepted now is_proposed then_do λ _ t. (ok tt, t)

unfoldable pub withdraw_task : ℕ → ℕ → Method PlanTables PlanError ⊤
withdraw_task task_id now =
    transition_task task_id withdrawn task_withdrawn now is_open_status then_do λ _ t. (ok tt, t)

abbrev pub new_completion : ℕ → ℕ → ℕ → ℕ → Option ℕ → RecoveryTaskCompletion
new_completion id task_id plan_id now notes = record {
  id = id;
  recovery_task_id = task_id;
  recovery_plan_id = plan_id;
  created_at = now;
  notes = notes;
}

-- What `write` of `complete_task` returns: the task, the completion, and the window of its plan.
abbrev pub Completed : Type 0
Completed = RecoveryTask × RecoveryTaskCompletion × ℕ

-- The rows of a completion. Its column recovery_plan_id references recovery_plans, so that the plan
-- is there when its window is read.
unfoldable pub complete_row : RecoveryTask → ℕ → ℕ → Option ℕ → PlanAction Completed
complete_row row task_id now notes t =
    let completion = new_completion t.next_id task_id row.recovery_plan_id now notes in
    elim (find (has_plan_id row.recovery_plan_id) t.recovery_plans) [
      | none ↦ err integrity_error
      | some plan ↦
          (do
            id ← new_id
            modify λ s. record s {
              recovery_tasks =
                  update_where (has_task_id task_id)
                    (with_task_status RecoveryTaskStatus.completed now) s.recovery_tasks;
              recovery_task_completions = completion ∷ s.recovery_task_completions;
            }
            pure (
              with_task_status RecoveryTaskStatus.completed now row,
              completion,
              plan.penalty_window_id,
            ))
            t
    ]

unfoldable pub complete_write : ℕ → ℕ → Option ℕ → PlanAction Completed
unfolding complete_row
complete_write task_id now notes t = elim (find (has_task_id task_id) t.recovery_tasks) [
  | none ↦ err (task_not_found task_id)
  | some row ↦
      if not (is_open_status row.status)
      then err (invalid_task_transition task_id row.status RecoveryTaskStatus.completed)
      else complete_row row task_id now notes t
]

abbrev pub emit_completed : ℕ → Completed → PlanAction ⊤
emit_completed now (task, completion, penalty_window_id) = write_event now (
    task_completed completion.id completion.recovery_task_id completion.recovery_plan_id
      penalty_window_id task.credit_hours)

unfoldable pub complete_task : ℕ → ℕ → Option ℕ → Method PlanTables PlanError RecoveryTaskCompletion
complete_task task_id now notes =
    write_and_events (complete_write task_id now notes) (emit_completed now) then_do λ r t.
    (ok r.1, t)
