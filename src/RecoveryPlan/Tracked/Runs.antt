-- ===== src/RecoveryPlan/Tracked/Runs.antt =====
-- recovery_plan/repository.py: any sequence of the module's methods, between changes of the windows.
use ai_coach_keyholder.Prelude.{ℕ, ◌≡◌, true, Option, some, List, [], if◌then◌else◌}
use ai_coach_keyholder.Prelude.Lists.{count_where, find}
use ai_coach_keyholder.Prelude.Rows.{All-find}
use ai_coach_keyholder.PenaltyEngine.Models.{Hours, PenaltyWindow}
use ai_coach_keyholder.RecoveryPlan.Models.{
  RecoveryPlan, RecoveryPlanStatus, RecoveryTask, PlanEvent, PlanTables, has_plan_id, has_task_id,
  is_completion_of, is_open_status,
}
use ai_coach_keyholder.RecoveryPlan.Plans.{create_plan, mirror_status_and_emit, regenerate}
use ai_coach_keyholder.RecoveryPlan.Tasks.{propose_task, accept_task, withdraw_task, complete_task}
use ai_coach_keyholder.RecoveryPlan.Tracked.{is_completed, IsTracked}
use ai_coach_keyholder.RecoveryPlan.Tracked.Planning.{
  create_plan-IsTracked, mirror_status_and_emit-IsTracked,
}
use ai_coach_keyholder.RecoveryPlan.Tracked.Regenerating.{regenerate-IsTracked}
use ai_coach_keyholder.RecoveryPlan.Tracked.Working.{
  propose_task-IsTracked, accept_task-IsTracked, withdraw_task-IsTracked, complete_task-IsTracked,
}

-- A call of a method that writes, whether it returns or raises; or the engine changes its windows.
pub data Step : PlanTables → PlanTables → Type 0 where
  windows_change :
      (t : PlanTables) (ws : List PenaltyWindow) → Step t (record t { penalty_windows = ws })
  creates : (t : PlanTables) (w : ℕ) (base : Hours) (now : ℕ) → Step t (create_plan w base now t).1
  mirrors :
      (t : PlanTables) (w : ℕ) (s : RecoveryPlanStatus) (event : ℕ → ℕ → PlanEvent) (now : ℕ)
      → Step t (mirror_status_and_emit w s event now t).1
  regenerates :
      (t : PlanTables) (w : ℕ) (target : Hours) (now : ℕ) → Step t (regenerate w target now t).1
  proposes :
      (t : PlanTables) (plan title description : ℕ) (credit : Hours) (now : ℕ)
      → Step t (propose_task plan title description credit now t).1
  accepts : (t : PlanTables) (task now : ℕ) → Step t (accept_task task now t).1
  withdraws : (t : PlanTables) (task now : ℕ) → Step t (withdraw_task task now t).1
  completes :
      (t : PlanTables) (task now : ℕ) (notes : Option ℕ) → Step t (complete_task task now notes t).1

pub data Reach (s : PlanTables) : PlanTables → Type 0 where
  here : Reach s s
  next : {t u : PlanTables} → Reach s t → Step t u → Reach s u

abbrev pub no_plans : PlanTables
no_plans = record {
  penalty_windows = [];
  recovery_plans = [];
  recovery_tasks = [];
  recovery_task_completions = [];
  plan_events = [];
  next_id = 0;
}

pub no_plans-IsTracked : IsTracked no_plans
no_plans-IsTracked = record {
  plans_below = tt;
  tasks_below = tt;
  completions_below = tt;
  windows = tt;
  task_ids = tt;
  current = tt;
  counted = tt;
}

pub Step-IsTracked : {t u : PlanTables} → Step t u → IsTracked t → IsTracked u
Step-IsTracked (windows_change t ws) v = v
Step-IsTracked (creates t w base now) v = create_plan-IsTracked t v w base now
Step-IsTracked (mirrors t w s event now) v = mirror_status_and_emit-IsTracked t v w s event now
Step-IsTracked (regenerates t w target now) v = regenerate-IsTracked t v w target now
Step-IsTracked (proposes t plan title description credit now) v =
    propose_task-IsTracked t v plan title description credit now
Step-IsTracked (accepts t task now) v = accept_task-IsTracked t v task now
Step-IsTracked (withdraws t task now) v = withdraw_task-IsTracked t v task now
Step-IsTracked (completes t task now notes) v = complete_task-IsTracked t v task now notes

pub Reach-IsTracked : {s t : PlanTables} → IsTracked s → Reach s t → IsTracked t
Reach-IsTracked v here = v
Reach-IsTracked v (next r step) = Step-IsTracked step (Reach-IsTracked v r)

-- In every state that the module's methods reach from empty tables, whatever the engine does to its
-- windows in between: a task has one completion where it is completed, and none else; its plan is
-- there; and a task that is proposed or accepted is of its plan's current version.
pub completed_iff_completion :
    {t : PlanTables} (id : ℕ) (task : RecoveryTask)
    → Reach no_plans t
    → find (has_task_id id) t.recovery_tasks ≡ some task
    → (count_where (is_completion_of task.id) t.recovery_task_completions
        ≡ (if is_completed task.status then 1 else 0))
      × ((p : RecoveryPlan) × (find (has_plan_id task.recovery_plan_id) t.recovery_plans ≡ some p)
          × (is_open_status task.status ≡ true → task.plan_version ≡ p.current_version))
completed_iff_completion {t} id task r found =
    let v = Reach-IsTracked no_plans-IsTracked r in
    (
      (All-find (λ x. _) (has_task_id id) t.recovery_tasks task v.counted found).0,
      (All-find (λ x. _) (has_task_id id) t.recovery_tasks task v.current found).0,
    )
