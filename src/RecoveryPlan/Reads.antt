-- ===== src/RecoveryPlan/Reads.antt =====
-- recovery_plan/repository.py: what other modules read of a plan, and the check at startup.
use ai_coach_keyholder.Prelude.{ℕ, Bool, true, false, Option, none, some, List, map, ◌==◌, not}
use ai_coach_keyholder.Prelude.Lists.{find, select}
use ai_coach_keyholder.PenaltyEngine.Models.{PenaltyWindow, PenaltyWindowStatus}
use ai_coach_keyholder.PenaltyEngine.Store.{is_open}
use ai_coach_keyholder.RecoveryPlan.Models.{
  RecoveryPlan, RecoveryPlanStatus, RecoveryTask, RecoveryTaskCompletion, PlanTables, has_plan_id,
  is_plan_of, has_task_id,
}

abbrev pub has_completion_id : ℕ → RecoveryTaskCompletion → Bool
has_completion_id id c = c.id == id

unfoldable pub get_recovery_task_completion : ℕ → PlanTables → Option RecoveryTaskCompletion
get_recovery_task_completion completion_id t =
    find (has_completion_id completion_id) t.recovery_task_completions

unfoldable pub get_recovery_task : ℕ → PlanTables → Option RecoveryTask
get_recovery_task task_id t = find (has_task_id task_id) t.recovery_tasks

unfoldable pub get_recovery_plan_for_window : ℕ → PlanTables → Option RecoveryPlan
get_recovery_plan_for_window penalty_window_id t =
    find (is_plan_of penalty_window_id) t.recovery_plans

unfoldable pub get_recovery_plan : ℕ → PlanTables → Option RecoveryPlan
get_recovery_plan recovery_plan_id t = find (has_plan_id recovery_plan_id) t.recovery_plans

-- The text of a plan's status is that of a window's.
abbrev pub same_text : RecoveryPlanStatus → PenaltyWindowStatus → Bool
same_text RecoveryPlanStatus.active PenaltyWindowStatus.active = true
same_text RecoveryPlanStatus.active PenaltyWindowStatus.frozen = false
same_text RecoveryPlanStatus.active PenaltyWindowStatus.completed = false
same_text RecoveryPlanStatus.frozen PenaltyWindowStatus.active = false
same_text RecoveryPlanStatus.frozen PenaltyWindowStatus.frozen = true
same_text RecoveryPlanStatus.frozen PenaltyWindowStatus.completed = false
same_text RecoveryPlanStatus.completed PenaltyWindowStatus.active = false
same_text RecoveryPlanStatus.completed PenaltyWindowStatus.frozen = false
same_text RecoveryPlanStatus.completed PenaltyWindowStatus.completed = true

unfoldable pub lacks_plan : PlanTables → PenaltyWindow → Bool
lacks_plan t w = elim (find (is_plan_of w.id) t.recovery_plans) [
  | none ↦ true
  | some plan ↦ not (same_text plan.status w.status)
]

unfoldable pub recover_recovery_plan_state : PlanTables → List ℕ
recover_recovery_plan_state t =
    map (λ w. w.id) (select (lacks_plan t) (select is_open t.penalty_windows))
