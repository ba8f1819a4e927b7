-- ===== src/RecoveryPlan/Models.antt =====
-- recovery_plan/models.py, and the tables that recovery_plan/repository.py writes
-- (database/migrations/008). A table is the list of its rows, the newest first. The text of a title, a
-- description or a note is a number.
use ai_coach_keyholder.Prelude.{ℕ, suc, ⊤, Bool, true, false, Option, List, ◌∷◌, ok, ◌==◌}
use ai_coach_keyholder.Infrastructure.Transaction.{Tx, modify}
use ai_coach_keyholder.PenaltyEngine.Models.{Hours, PenaltyWindow}

pub data RecoveryPlanStatus : Type 0 where
  active frozen completed : RecoveryPlanStatus

pub data RecoveryTaskStatus : Type 0 where
  proposed accepted completed expired withdrawn : RecoveryTaskStatus

pub record RecoveryPlan : Type 0 where
  pub id : ℕ
  pub penalty_window_id : ℕ
  pub status : RecoveryPlanStatus
  pub current_version : ℕ
  pub recovery_credit_capacity_hours : Hours
  pub created_at : ℕ
  pub status_changed_at : ℕ

pub record RecoveryTask : Type 0 where
  pub id : ℕ
  pub recovery_plan_id : ℕ
  pub plan_version : ℕ
  pub title : ℕ
  pub description : ℕ
  pub credit_hours : Hours
  pub status : RecoveryTaskStatus
  pub created_at : ℕ
  pub status_changed_at : ℕ

pub record RecoveryTaskCompletion : Type 0 where
  pub id : ℕ
  pub recovery_task_id : ℕ
  pub recovery_plan_id : ℕ
  pub created_at : ℕ
  pub notes : Option ℕ

-- The event types of the module with their payloads, in the order of the payload's keys.
pub data PlanEvent : Type 0 where
  plan_created plan_frozen plan_resumed plan_completed : ℕ → ℕ → PlanEvent
  plan_regenerated : ℕ → ℕ → ℕ → Hours → PlanEvent
  task_proposed : ℕ → ℕ → Hours → PlanEvent
  task_accepted task_withdrawn : ℕ → ℕ → PlanEvent
  task_completed : ℕ → ℕ → ℕ → ℕ → Hours → PlanEvent

pub record PlanEventRow : Type 0 where
  pub payload : PlanEvent
  pub occurred_at : ℕ

-- The module's tables, and the table of the penalty engine that it reads.
pub record PlanTables : Type 0 where
  pub penalty_windows : List PenaltyWindow
  pub recovery_plans : List RecoveryPlan
  pub recovery_tasks : List RecoveryTask
  pub recovery_task_completions : List RecoveryTaskCompletion
  pub plan_events : List PlanEventRow
  pub next_id : ℕ

-- The exceptions of the module's methods.
pub data PlanError : Type 0 where
  plan_not_found task_not_found : ℕ → PlanError
  invalid_task_transition : ℕ → RecoveryTaskStatus → RecoveryTaskStatus → PlanError
  integrity_error : PlanError

abbrev pub PlanAction : Type 0 → Type 0
PlanAction = Tx PlanTables PlanError

abbrev pub new_id : PlanAction ℕ
new_id t = ok (t.next_id, record t { next_id = suc t.next_id })

-- `write_event`
abbrev pub write_event : ℕ → PlanEvent → PlanAction ⊤
write_event now payload =
    modify λ t. record t {
      plan_events = record { payload = payload; occurred_at = now } ∷ t.plan_events;
    }

abbrev pub has_plan_id : ℕ → RecoveryPlan → Bool
has_plan_id id p = p.id == id

abbrev pub is_plan_of : ℕ → RecoveryPlan → Bool
is_plan_of window_id p = p.penalty_window_id == window_id

abbrev pub has_task_id : ℕ → RecoveryTask → Bool
has_task_id id task = task.id == id

abbrev pub is_completion_of : ℕ → RecoveryTaskCompletion → Bool
is_completion_of task_id c = c.recovery_task_id == task_id

-- The statuses PROPOSED and ACCEPTED.
abbrev pub is_open_status : RecoveryTaskStatus → Bool
is_open_status proposed = true
is_open_status accepted = true
is_open_status completed = false
is_open_status expired = false
is_open_status withdrawn = false
