-- ===== src/TaskRuntime/Tests.antt =====
-- A run of task_runtime/, and the properties at it. The number 0 stands for the empty text.
use ai_coach_keyholder.Prelude.{
  ℕ, ◌≤◌, ◌≡◌, refl, Bool, true, false, Option, none, some, List, [], ◌∷◌, ok, err, ◌==◌,
  if◌then◌else◌, arith, ◌⊎◌, ap,
}
use ai_coach_keyholder.Prelude.Lists.{All, select, find}
use ai_coach_keyholder.Infrastructure.Transaction.{apply_transition}
use ai_coach_keyholder.LockState.{locked_reported, unlocked_reported}
use ai_coach_keyholder.TaskCatalog.Models.{
  TaskTemplateVersion, no_requirement, requires_locked, TaskDefinition, recovery,
}
use ai_coach_keyholder.TaskRuntime.{
  TaskAssignment, completed, cancelled, CatalogReads, evaluate_task_eligibility,
  select_eligible_template, TaskTables, not_eligible, not_active, already_active, is_active_of,
  has_assignment_id, new_assignment, assign_write, resolve_row, resolve_write,
  get_active_assignment, get_eligible_templates, assign_task, resolve_task,
}
use ai_coach_keyholder.TaskRuntime.Assigning.{assign_task-eligible}
use ai_coach_keyholder.TaskRuntime.Resolving.{resolve_task-once}
use ai_coach_keyholder.TaskRuntime.OneActive.{
  TaskCall, assign_call, complete_call, perform_all, perform_all-get_active_assignment,
}
use ai_coach_keyholder.TaskRuntime.Selection.{select_eligible_template-least}

abbrev is_zero : ℕ → Bool
is_zero n = n == 0

abbrev walk : TaskDefinition
walk = record {
  category = 1;
  difficulty = 1;
  effort = 1;
  duration_minutes = 20;
  required_equipment = [];
  required_privacy = 1;
  required_context = 1;
  safety_classification = 1;
  eligible_instance_roles = recovery ∷ [];
  eligible_operating_modes = 0 ∷ [];
  completion_requirements = 1;
  verification_requirements = 1;
  reflection_requirements = none;
  lock_requirement = no_requirement;
}

abbrev in_lock : TaskTemplateVersion
in_lock = record {
  id = 2;
  template_id = 7;
  version = 2;
  definition = record walk { lock_requirement = requires_locked };
  created_at = 1;
  created_via_consent_id = 3;
  title = none;
  instructions = none;
}

abbrev anywhere : TaskTemplateVersion
anywhere = record in_lock { id = 3; template_id = 9; version = 1; definition = walk }

abbrev catalog : CatalogReads
catalog = record {
  get_current_version = λ id. if id == 7 then some in_lock else none;
  get_active_templates = λ role mode. anywhere ∷ in_lock ∷ [];
}

abbrev start : TaskTables
start = record { task_assignments = []; task_users = 1 ∷ 2 ∷ []; next_id = 4 }

abbrev given : TaskAssignment
given = new_assignment 4 1 in_lock 3 10

abbrev with_task : TaskTables
with_task = record { task_assignments = given ∷ []; task_users = 1 ∷ 2 ∷ []; next_id = 5 }

assigns : assign_task is_zero catalog 1 7 locked_reported 3 10 start ≡ (ok given, with_task)
unfolding assign_task assign_write apply_transition evaluate_task_eligibility
assigns = refl

needs_lock :
    assign_task is_zero catalog 1 7 unlocked_reported 3 10 start ≡ (err not_eligible, start)
unfolding assign_task evaluate_task_eligibility
needs_lock = refl

second_task :
    assign_task is_zero catalog 1 7 locked_reported 3 11 with_task ≡ (err already_active, with_task)
unfolding assign_task assign_write apply_transition evaluate_task_eligibility
second_task = refl

abbrev done : TaskAssignment
done = resolve_row completed 3 12 given

abbrev with_done : TaskTables
with_done = record with_task { task_assignments = done ∷ [] }

completes : resolve_task is_zero 4 completed 3 12 with_task ≡ (ok done, with_done)
unfolding resolve_task resolve_write apply_transition
completes = refl

assign_task-eligible_example :
    (template : TaskTemplateVersion) × (catalog.get_current_version 7 ≡ some template)
    × (template.definition.lock_requirement ≡ requires_locked → locked_reported ≡ locked_reported)
    × (given ≡ new_assignment 4 1 template 3 10)
    × ((assign_task is_zero catalog 1 7 locked_reported 3 10 start).1.task_assignments ≡ given ∷ [])
assign_task-eligible_example =
    assign_task-eligible is_zero catalog 1 7 locked_reported 3 10 start given
      (ap (λ p. p.0) assigns)

resolve_task-once_example :
    (find (has_assignment_id 4) with_done.task_assignments ≡ some done)
    × (done.status ≡ completed)
    × (resolve_task is_zero 4 cancelled 6 13 with_done ≡ (err not_active, with_done))
resolve_task-once_example =
    resolve_task-once is_zero 4 completed cancelled 3 12 6 13 with_task with_done done refl refl
      completes

abbrev calls : List TaskCall
calls =
    assign_call 1 7 locked_reported 3 10
    ∷ assign_call 1 7 locked_reported 3 11
    ∷ complete_call 4 3 12
    ∷ assign_call 1 7 locked_reported 3 13
    ∷ []

perform_all-get_active_assignment_example :
    (found : Option TaskAssignment) × (get_active_assignment is_zero 1
        (perform_all is_zero catalog calls start)
      ≡ ok found)
    × (select (is_active_of 1) (perform_all is_zero catalog calls start).task_assignments
        ≡ elim found [ none ↦ [] | some a ↦ a ∷ [] ])
perform_all-get_active_assignment_example =
    perform_all-get_active_assignment is_zero catalog calls start 1 (λ user_id. omega arith) refl

select_eligible_template-least_example :
    ((select_eligible_template (get_eligible_templates catalog recovery 0 locked_reported) ≡ none)
      × All
          (λ x. (evaluate_task_eligibility x locked_reported).eligible ≡ false)
          (catalog.get_active_templates recovery 0))
    ⊎ ((r : TaskTemplateVersion) × (select_eligible_template
            (get_eligible_templates catalog recovery 0 locked_reported)
          ≡ some r)
        × ((evaluate_task_eligibility r locked_reported).eligible ≡ true)
        × All
            (λ x.
              (evaluate_task_eligibility x locked_reported).eligible ≡ true
              → r.template_id ≤ x.template_id)
            (catalog.get_active_templates recovery 0))
select_eligible_template-least_example =
    select_eligible_template-least catalog recovery 0 locked_reported

selects :
    (select_eligible_template (get_eligible_templates catalog recovery 0 locked_reported)
      ≡ some in_lock)
    × (select_eligible_template (get_eligible_templates catalog recovery 0 unlocked_reported)
        ≡ some anywhere)
unfolding select_eligible_template get_eligible_templates evaluate_task_eligibility
selects = (refl, refl)
