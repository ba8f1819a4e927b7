-- ===== src/TaskCatalog/Tests.antt =====
-- A run of task_catalog/ and task_runtime/, and the properties at it. The number 0 is the blank id.
use ai_coach_keyholder.Prelude.{
  ℕ, ◌≤◌, ◌≡◌, refl, Bool, true, false, none, some, [], ◌∷◌, ok, err, ◌==◌, ◌&&◌, leb,
}
use ai_coach_keyholder.Prelude.Lists.{find, length}
use ai_coach_keyholder.Infrastructure.Transaction.{apply_transition}
use ai_coach_keyholder.LockState.{locked_reported}
use ai_coach_keyholder.TaskCatalog.Texts.{
  Text, is_space, strip, is_empty, normalize_required_text, normalize_required_text_again,
}
use ai_coach_keyholder.TaskCatalog.Models.{
  recovery, journaling, requires_locked, TaskDefinition, TaskTemplateVersion,
  TaskTemplateCatalogEntry, value_error, CatalogTables, eligibility_transition, post_init,
  has_template,
}
use ai_coach_keyholder.TaskCatalog.Administration.{
  new_version, new_entry, set_version, create_write, add_write, change_entry, create_template,
  add_version, set_current_version, set_eligibility, deactivate,
}
use ai_coach_keyholder.TaskCatalog.Reads.{
  get_template, get_current_version, is_for, get_active_templates,
}
use ai_coach_keyholder.TaskCatalog.Catalogued.{count_versions}
use ai_coach_keyholder.TaskCatalog.Catalogued.Runs.{
  Reach, here, next, creates, adds, points, no_templates, get_template-stays,
}
use ai_coach_keyholder.TaskCatalog.Catalogued.Current.{is_found, versions_numbered}
use ai_coach_keyholder.TaskRuntime.{
  evaluate_task_eligibility, select_eligible_template, TaskTables, new_assignment,
  get_eligible_templates, assign_task,
}
use ai_coach_keyholder.TaskRuntime.FromCatalog.{catalog_reads, select_eligible_template-assign_task}

abbrev zero_is_blank : ℕ → Bool
zero_is_blank n = n == 0

abbrev walk : TaskDefinition
walk = record {
  category = 1;
  difficulty = 1;
  effort = 1;
  duration_minutes = 20;
  required_equipment = [];
  required_privacy = 1;
  required_context = 1;
  safety_classification = 1;
  eligible_instance_roles = recovery ∷ journaling ∷ [];
  eligible_operating_modes = 6 ∷ [];
  completion_requirements = 1;
  verification_requirements = 1;
  reflection_requirements = none;
  lock_requirement = requires_locked;
}

-- " go " and "go"
abbrev spaced : Text
spaced = 32 ∷ 103 ∷ 111 ∷ 10 ∷ []

abbrev go : Text
go = 103 ∷ 111 ∷ []

normalizes : normalize_required_text 200 spaced ≡ ok go
unfolding normalize_required_text is_space
normalizes = refl

abbrev with_template : CatalogTables
with_template = (create_template zero_is_blank 7 walk spaced go 3 10 no_templates).1

abbrev with_added : CatalogTables
with_added = (add_version zero_is_blank 7 walk go go 3 11 with_template).1

abbrev with_pointed : CatalogTables
with_pointed = (set_current_version zero_is_blank 7 2 4 12 with_added).1

abbrev first : TaskTemplateVersion
first = new_version 0 7 1 walk go go 3 10

abbrev second : TaskTemplateVersion
second = new_version 1 7 2 walk go go 3 11

abbrev entry : TaskTemplateCatalogEntry
entry = set_version 2 4 12 (new_entry 7 3 10)

Reach-with_template : Reach zero_is_blank no_templates with_template
Reach-with_template = next here (creates no_templates 7 walk spaced go 3 10)

Reach-with_pointed : Reach zero_is_blank with_template with_pointed
Reach-with_pointed =
    next (next here (adds with_template 7 walk go go 3 11)) (points with_added 7 2 4 12)

Reach-all : Reach zero_is_blank no_templates with_pointed
Reach-all =
    next
      (next (next here (creates no_templates 7 walk spaced go 3 10))
        (adds with_template 7 walk go go 3 11))
      (points with_added 7 2 4 12)

found_first : get_template 7 1 with_template ≡ some first
unfolding get_template create_template create_write post_init normalize_required_text is_space
    apply_transition
found_first = refl

found_entry : find (has_template 7) with_pointed.task_template_catalog_entries ≡ some entry
unfolding create_template create_write add_version add_write set_current_version change_entry
    post_init normalize_required_text is_space apply_transition
found_entry = refl

-- A template without roles, and one that is deactivated twice, are refused.
refusals :
    ((create_template zero_is_blank 8
        (record walk { eligible_instance_roles = [] })
        go
        go
        3
        10
        no_templates).0
      ≡ err value_error)
    × ((deactivate zero_is_blank 7 3 14 (deactivate zero_is_blank 7 3 13 with_template).1).0
        ≡ err eligibility_transition)
unfolding create_template create_write deactivate set_eligibility change_entry post_init
    normalize_required_text is_space apply_transition
refusals = (refl, refl)

selected :
    select_eligible_template
      (get_eligible_templates (catalog_reads with_pointed) recovery 6 locked_reported)
    ≡ some second
unfolding select_eligible_template get_eligible_templates get_active_templates
    evaluate_task_eligibility create_template create_write add_version add_write set_current_version
    change_entry post_init normalize_required_text is_space apply_transition
selected = refl

abbrev start : TaskTables
start = record { task_assignments = []; task_users = 1 ∷ 2 ∷ []; next_id = 40 }

normalize_required_text_again_example :
    (is_empty (strip go) ≡ false) × (length go ≤ 200) × (normalize_required_text 200 go ≡ ok go)
normalize_required_text_again_example = normalize_required_text_again 200 spaced go normalizes

versions_numbered_example :
    ((n : ℕ)
      → is_found (get_template 7 n with_pointed)
        ≡ (leb 1 n && leb n (count_versions 7 with_pointed.task_template_versions)))
    × ((e : TaskTemplateCatalogEntry)
        → find (has_template 7) with_pointed.task_template_catalog_entries ≡ some e
        → (is_found (get_template 7 e.current_version with_pointed) ≡ true)
          × (get_current_version 7 with_pointed ≡ get_template 7 e.current_version with_pointed))
versions_numbered_example = versions_numbered zero_is_blank 7 Reach-all

get_template-stays_example : get_template 7 1 with_pointed ≡ some first
get_template-stays_example =
    get_template-stays zero_is_blank 7 1 first Reach-with_template Reach-with_pointed found_first

select_eligible_template-assign_task_example :
    (is_for recovery 6 second ≡ true)
    × ((assign_task zero_is_blank (catalog_reads with_pointed) 1 7 locked_reported 3 20 start).0
        ≡ ok (new_assignment 40 1 second 3 20))
select_eligible_template-assign_task_example =
    select_eligible_template-assign_task zero_is_blank recovery 6 locked_reported second 1 3 20
      start Reach-all selected refl refl refl
