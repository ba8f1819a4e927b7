-- ===== src/TaskRuntime.antt =====
-- task_runtime/: the assignment of tasks to users, and their resolution.
-- The catalog of templates (task_catalog/repository.py) is read through two functions.
pub mod Assigning
pub mod Resolving
pub mod OneActive
pub mod Selection
pub mod FromCatalog
mod Tests
use ai_coach_keyholder.Prelude.{
  ℕ, suc, ◌+◌, ◌≤◌, ⊤, Bool, true, false, Option, none, some, List, [], ◌∷◌, Result, ok, err, ◌==◌,
  ◌&&◌, ◌||◌, not, leb, if◌then◌else◌,
}
use ai_coach_keyholder.Prelude.Lists.{exists, find, select, update_where, insert_by, order_by}
use ai_coach_keyholder.Infrastructure.Transaction.{
  Tx, Method, gets, modify, pure, raise_if, ◌>>=◌, ◌>>◌, apply_transition,
}
use ai_coach_keyholder.TaskCatalog.Models.{
  TaskInstanceRole, TaskTemplateVersion, no_requirement, requires_locked,
}
use ai_coach_keyholder.LockState.{LockKnowledgeState, locked_reported, unlocked_reported, unknown}

pub data TaskAssignmentStatus : Type 0 where
  active completed cancelled : TaskAssignmentStatus

pub record TaskAssignment : Type 0 where
  pub id : ℕ
  pub user_id : ℕ
  pub template_id : ℕ
  pub template_version : ℕ
  pub status : TaskAssignmentStatus
  pub assigned_at : ℕ
  pub assigned_via_consent_id : ℕ
  pub resolved_at : Option ℕ
  pub resolved_via_consent_id : Option ℕ

pub data EligibilityReasonCode : Type 0 where
  eligible_code lock_state_required : EligibilityReasonCode

pub record TaskEligibilityDecision : Type 0 where
  pub eligible : Bool
  pub reason_code : EligibilityReasonCode

-- What this module reads of the catalog: the current version of a template, and the active templates
-- of a role and an operating mode.
pub record CatalogReads : Type 0 where
  pub get_current_version : ℕ → Option TaskTemplateVersion
  pub get_active_templates : TaskInstanceRole → ℕ → List TaskTemplateVersion

abbrev pub is_locked : LockKnowledgeState → Bool
is_locked locked_reported = true
is_locked unlocked_reported = false
is_locked unknown = false

unfoldable pub evaluate_task_eligibility :
    TaskTemplateVersion → LockKnowledgeState → TaskEligibilityDecision
evaluate_task_eligibility template state = elim template.definition.lock_requirement [
  | no_requirement ↦ record { eligible = true; reason_code = eligible_code }
  | requires_locked ↦
      if not (is_locked state)
      then record { eligible = false; reason_code = lock_state_required }
      else record { eligible = true; reason_code = eligible_code }
]

abbrev pub first_of : {A : Type 0} → List A → Option A
first_of [] = none
first_of (x ∷ xs) = some x

unfoldable pub select_eligible_template : List TaskTemplateVersion → Option TaskTemplateVersion
select_eligible_template eligible = first_of (order_by (λ t. t.template_id) eligible)

pub record TaskTables : Type 0 where
  pub task_assignments : List TaskAssignment
  pub task_users : List ℕ
  pub next_id : ℕ

pub data TaskError : Type 0 where
  empty_value template_not_found not_eligible unknown_user already_active assignment_not_found
        not_active :
      TaskError

abbrev pub is_active_status : TaskAssignmentStatus → Bool
is_active_status active = true
is_active_status completed = false
is_active_status cancelled = false

-- user_id = ? AND status = 'active'
abbrev pub is_active_of : ℕ → TaskAssignment → Bool
is_active_of user_id a = a.user_id == user_id && is_active_status a.status

abbrev pub has_assignment_id : ℕ → TaskAssignment → Bool
has_assignment_id id a = a.id == id

abbrev pub new_assignment : ℕ → ℕ → TaskTemplateVersion → ℕ → ℕ → TaskAssignment
new_assignment id user_id template consent_id now = record {
  id = id;
  user_id = user_id;
  template_id = template.template_id;
  template_version = template.version;
  status = active;
  assigned_at = now;
  assigned_via_consent_id = consent_id;
  resolved_at = none;
  resolved_via_consent_id = none;
}

-- `write` of `assign_task`; the unique index idx_one_active_assignment_per_user is the second test.
unfoldable pub assign_write :
    ℕ → TaskTemplateVersion → ℕ → ℕ → Tx TaskTables TaskError TaskAssignment
assign_write user_id template consent_id now = do
  user_exists ← gets (λ t. exists (λ user. user == user_id) t.task_users)
  raise_if (not user_exists) unknown_user
  id ← gets (λ t. t.next_id)
  clash ← gets (λ t. exists (is_active_of user_id) t.task_assignments)
  raise_if clash already_active
  modify λ t. record t {
    task_assignments = new_assignment id user_id template consent_id now ∷ t.task_assignments;
    next_id = suc id;
  }
  pure (new_assignment id user_id template consent_id now)

abbrev pub resolve_row : TaskAssignmentStatus → ℕ → ℕ → TaskAssignment → TaskAssignment
resolve_row target consent_id now a = record a {
  status = target;
  resolved_at = some now;
  resolved_via_consent_id = some consent_id;
}

unfoldable pub resolve_write :
    ℕ → TaskAssignmentStatus → ℕ → ℕ → Tx TaskTables TaskError TaskAssignment
resolve_write assignment_id target consent_id now t =
    elim (find (has_assignment_id assignment_id) t.task_assignments) [
      | none ↦ err assignment_not_found
      | some current ↦
          (do
            raise_if (not (is_active_status current.status)) not_active
            modify λ t. record t {
              task_assignments =
                  update_where (has_assignment_id assignment_id) (resolve_row target consent_id now)
                    t.task_assignments;
            }
            pure (resolve_row target consent_id now current))
            t
    ]

unfoldable pub get_eligible_templates :
    CatalogReads → TaskInstanceRole → ℕ → LockKnowledgeState → List TaskTemplateVersion
get_eligible_templates catalog role mode state =
    select (λ template. (evaluate_task_eligibility template state).eligible)
      (catalog.get_active_templates role mode)

-- `is_blank` is the test `not text or not text.strip()` of a text that a number stands for.
module _ (is_blank : ℕ → Bool) where
  unfoldable pub get_active_assignment : ℕ → TaskTables → Result TaskError (Option TaskAssignment)
  get_active_assignment user_id t =
      if is_blank user_id
      then err empty_value
      else ok (find (is_active_of user_id) t.task_assignments)

  unfoldable pub assign_task :
      CatalogReads → ℕ → ℕ → LockKnowledgeState → ℕ → ℕ → Method TaskTables TaskError TaskAssignment
  assign_task catalog user_id template_id state consent_id now t =
      if is_blank user_id || is_blank template_id || is_blank consent_id
      then (err empty_value, t)
      else elim (catalog.get_current_version template_id) [
        | none ↦ (err template_not_found, t)
        | some template ↦
            if not (evaluate_task_eligibility template state).eligible
            then (err not_eligible, t)
            else apply_transition {L = ⊤} none none
                (λ _. assign_write user_id template consent_id now) none t
      ]

  -- `_resolve`
  unfoldable pub resolve_task :
      ℕ → TaskAssignmentStatus → ℕ → ℕ → Method TaskTables TaskError TaskAssignment
  resolve_task assignment_id target consent_id now t =
      if is_blank assignment_id || is_blank consent_id
      then (err empty_value, t)
      else apply_transition {L = ⊤} none none
          (λ _. resolve_write assignment_id target consent_id now) none t

  unfoldable pub complete_task : ℕ → ℕ → ℕ → Method TaskTables TaskError TaskAssignment
  complete_task assignment_id = resolve_task assignment_id completed

  unfoldable pub cancel_task : ℕ → ℕ → ℕ → Method TaskTables TaskError TaskAssignment
  cancel_task assignment_id = resolve_task assignment_id cancelled
