-- ===== src/RecoveryPlan/Plans.antt =====
-- recovery_plan/repository.py: what the events of a penalty window do to its plan.
use ai_coach_keyholder.Prelude.{ℕ, suc, ⊤, Bool, Option, none, some, ◌∷◌, ok, ◌==◌, ◌&&◌, not}
use ai_coach_keyholder.Prelude.Int.{half}
use ai_coach_keyholder.Prelude.Lists.{exists, find, update_where}
use ai_coach_keyholder.Infrastructure.Transaction.{
  Method, gets, modify, pure, raise_if, ◌>>=◌, ◌>>◌, write_and_events,
}
use ai_coach_keyholder.PenaltyEngine.Models.{Hours}
use ai_coach_keyholder.PenaltyEngine.Store.{has_id}
use ai_coach_keyholder.RecoveryPlan.Models.{
  RecoveryPlanStatus, active, frozen, RecoveryTask, expired, RecoveryPlan, PlanEvent, plan_created,
  plan_frozen, plan_resumed, plan_completed, plan_regenerated, PlanTables, PlanError,
  integrity_error, PlanAction, new_id, write_event, is_plan_of, is_open_status,
}

abbrev pub new_plan : ℕ → ℕ → Hours → ℕ → RecoveryPlan
new_plan id penalty_window_id base_duration_hours now = record {
  id = id;
  penalty_window_id = penalty_window_id;
  status = active;
  current_version = 1;
  recovery_credit_capacity_hours = half base_duration_hours;
  created_at = now;
  status_changed_at = now;
}

-- `_create_plan_in_transaction`; the column penalty_window_id is unique and references
-- penalty_windows.
unfoldable pub create_plan_in_transaction : ℕ → Hours → ℕ → PlanAction RecoveryPlan
create_plan_in_transaction penalty_window_id base_duration_hours now = do
  id ← new_id
  clash ← gets (λ t. exists (is_plan_of penalty_window_id) t.recovery_plans)
  raise_if clash integrity_error
  known ← gets (λ t. exists (has_id penalty_window_id) t.penalty_windows)
  raise_if (not known) integrity_error
  let plan = new_plan id penalty_window_id base_duration_hours now
  modify λ t. record t { recovery_plans = plan ∷ t.recovery_plans }
  pure plan

abbrev pub with_status : RecoveryPlanStatus → ℕ → RecoveryPlan → RecoveryPlan
with_status new_status now p = record p { status = new_status; status_changed_at = now }

-- `_mirror_status_in_transaction`
unfoldable pub mirror_status_in_transaction :
    ℕ → RecoveryPlanStatus → ℕ → PlanAction (Option RecoveryPlan)
mirror_status_in_transaction penalty_window_id new_status now t =
    elim (find (is_plan_of penalty_window_id) t.recovery_plans) [
      | none ↦ ok (none, t)
      | some row ↦ ok (
        some (with_status new_status now row),
        record t {
          recovery_plans =
              update_where (is_plan_of penalty_window_id) (with_status new_status now)
                t.recovery_plans;
        },
      )
    ]

-- recovery_plan_id = ? AND plan_version = ? AND status IN ('proposed', 'accepted')
abbrev pub is_open_task_of : ℕ → ℕ → RecoveryTask → Bool
is_open_task_of plan_id version task =
    task.recovery_plan_id == plan_id && (task.plan_version == version && is_open_status task.status)

abbrev pub expire : ℕ → RecoveryTask → RecoveryTask
expire now task = record task { status = expired; status_changed_at = now }

abbrev pub with_version : ℕ → Hours → ℕ → RecoveryPlan → RecoveryPlan
with_version new_version new_capacity now p = record p {
  current_version = new_version;
  recovery_credit_capacity_hours = new_capacity;
  status_changed_at = now;
}

-- `_regenerate_in_transaction`
unfoldable pub regenerate_in_transaction : ℕ → Hours → ℕ → PlanAction (Option RecoveryPlan)
regenerate_in_transaction penalty_window_id new_target_active_hours now t =
    elim (find (is_plan_of penalty_window_id) t.recovery_plans) [
      | none ↦ ok (none, t)
      | some row ↦
          let new_version = suc row.current_version in
          let new_capacity = half new_target_active_hours in
          ok (
            some (with_version new_version new_capacity now row),
            record t {
              recovery_plans =
                  update_where (is_plan_of penalty_window_id)
                    (with_version new_version new_capacity now) t.recovery_plans;
              recovery_tasks =
                  update_where (is_open_task_of row.id row.current_version) (expire now)
                    t.recovery_tasks;
            },
          )
    ]

-- The event of a plan, where there is one.
abbrev pub emit_for : (ℕ → ℕ → PlanEvent) → ℕ → ℕ → Option RecoveryPlan → PlanAction ⊤
emit_for event penalty_window_id now none = pure tt
emit_for event penalty_window_id now (some plan) = write_event now (event plan.id penalty_window_id)

unfoldable pub create_plan : ℕ → Hours → ℕ → Method PlanTables PlanError RecoveryPlan
create_plan penalty_window_id base_duration_hours now =
    write_and_events (create_plan_in_transaction penalty_window_id base_duration_hours now)
      (λ result. write_event now (plan_created result.id penalty_window_id))

-- `_mirror_status_and_emit`
unfoldable pub mirror_status_and_emit :
    ℕ
    → RecoveryPlanStatus
    → (ℕ → ℕ → PlanEvent)
    → ℕ
    → Method PlanTables PlanError (Option RecoveryPlan)
mirror_status_and_emit penalty_window_id new_status event now =
    write_and_events (mirror_status_in_transaction penalty_window_id new_status now)
      (emit_for event penalty_window_id now)

unfoldable pub mirror_frozen : ℕ → ℕ → Method PlanTables PlanError (Option RecoveryPlan)
mirror_frozen penalty_window_id = mirror_status_and_emit penalty_window_id frozen plan_frozen

unfoldable pub mirror_resumed : ℕ → ℕ → Method PlanTables PlanError (Option RecoveryPlan)
mirror_resumed penalty_window_id = mirror_status_and_emit penalty_window_id active plan_resumed

unfoldable pub complete_plan : ℕ → ℕ → Method PlanTables PlanError (Option RecoveryPlan)
complete_plan penalty_window_id =
    mirror_status_and_emit penalty_window_id RecoveryPlanStatus.completed plan_completed

abbrev pub emit_regenerated : ℕ → ℕ → Option RecoveryPlan → PlanAction ⊤
emit_regenerated penalty_window_id now none = pure tt
emit_regenerated penalty_window_id now (some plan) = write_event now (
    plan_regenerated plan.id penalty_window_id plan.current_version
      plan.recovery_credit_capacity_hours)

unfoldable pub regenerate : ℕ → Hours → ℕ → Method PlanTables PlanError (Option RecoveryPlan)
regenerate penalty_window_id new_target_active_hours now =
    write_and_events (regenerate_in_transaction penalty_window_id new_target_active_hours now)
      (emit_regenerated penalty_window_id now)
