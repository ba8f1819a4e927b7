-- ===== src/RecoveryPlan/Tracked.antt =====
-- The invariant of the tables of recovery_plan/: an open task is of its plan's current version, and a
-- task has a completion exactly where it is completed.
pub mod Planning
pub mod Regenerating
pub mod Working
pub mod Runs
use ai_coach_keyholder.Prelude.{
  ℕ, suc, ◌+◌, ◌≤◌, ◌<◌, ◌≡◌, refl, Bool, true, false, none, some, List, [], ◌∷◌, arith,
  if◌then◌else◌,
}
use ai_coach_keyholder.Prelude.Lists.{All, count_where, find}
use ai_coach_keyholder.Prelude.Rows.{Distinct}
use ai_coach_keyholder.RecoveryPlan.Models.{
  RecoveryPlan, RecoveryTask, RecoveryTaskStatus, proposed, accepted, expired, withdrawn,
  RecoveryTaskCompletion, PlanTables, has_plan_id, is_completion_of, is_open_status,
}

abbrev pub is_completed : RecoveryTaskStatus → Bool
is_completed proposed = false
is_completed accepted = false
is_completed RecoveryTaskStatus.completed = true
is_completed expired = false
is_completed withdrawn = false

-- The plan of a task is there, and of its version where the task is open.
abbrev pub Current : List RecoveryPlan → RecoveryTask → Type 0
Current plans task =
    (p : RecoveryPlan) × (find (has_plan_id task.recovery_plan_id) plans ≡ some p)
    × (is_open_status task.status ≡ true → task.plan_version ≡ p.current_version)

abbrev pub Counted : List RecoveryTaskCompletion → RecoveryTask → Type 0
Counted completions task =
    count_where (is_completion_of task.id) completions ≡ (if is_completed task.status then 1 else 0)

pub record Tracked (plans : List RecoveryPlan) (tasks : List RecoveryTask)
    (completions : List RecoveryTaskCompletion) (next : ℕ) : Type 0 where
  pub plans_below : All (λ p. p.id < next) plans
  pub tasks_below : All (λ task. task.id < next) tasks
  pub completions_below : All (λ c. c.recovery_task_id < next) completions
  pub windows : Distinct (λ p. p.penalty_window_id) plans
  pub task_ids : Distinct (λ task. task.id) tasks
  pub current : All (Current plans) tasks
  pub counted : All (Counted completions) tasks

abbrev pub IsTracked : PlanTables → Type 0
IsTracked t = Tracked t.recovery_plans t.recovery_tasks t.recovery_task_completions t.next_id
