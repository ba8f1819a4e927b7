-- ===== src/TaskCatalog/Administration.antt =====
-- task_catalog/repository.py: `TaskCatalogAdministration`, which alone writes the catalog.
use ai_coach_keyholder.Prelude.{
  ℕ, suc, max, ⊤, Bool, Option, none, some, List, [], ◌∷◌, ok, err, not, ◌+◌, if◌then◌else◌,
}
use ai_coach_keyholder.Prelude.Lists.{exists, find, select, update_where}
use ai_coach_keyholder.Infrastructure.Transaction.{
  Tx, Method, gets, modify, pure, raise_if, ◌>>=◌, ◌>>◌, apply_transition,
}
use ai_coach_keyholder.TaskCatalog.Texts.{Text, normalize_required_text}
use ai_coach_keyholder.TaskCatalog.Models.{
  TaskTemplateEligibilityStatus, active, deactivated, title_max_length, instructions_max_length,
  TaskDefinition, TaskTemplateVersion, TaskTemplateCatalogEntry, CatalogError, template_not_found,
  invalid_template_version, eligibility_transition, integrity_error, type_error, CatalogTables,
  post_init, has_template, is_version_of, is_version, is_active,
}

abbrev pub CatalogAction : Type 0 → Type 0
CatalogAction = Tx CatalogTables CatalogError

-- A transition with a `write` only.
abbrev pub write_only : {A : Type 0} → CatalogAction A → Method CatalogTables CatalogError A
write_only write = apply_transition {L = ⊤} none none (λ _. write) none

-- SELECT MAX(version), or 0 where there is none
abbrev pub max_version : List TaskTemplateVersion → ℕ
max_version [] = 0
max_version (v ∷ vs) = max v.version (max_version vs)

-- `TaskTemplateVersion(...)`, whose constructor may raise.
abbrev pub new_version : ℕ → ℕ → ℕ → TaskDefinition → Text → Text → ℕ → ℕ → TaskTemplateVersion
new_version id template_id version definition title instructions consent_id now = record {
  id = id;
  template_id = template_id;
  version = version;
  definition = definition;
  created_at = now;
  created_via_consent_id = consent_id;
  title = some title;
  instructions = some instructions;
}

abbrev pub checked : TaskTemplateVersion → CatalogAction ⊤
checked v t = elim (post_init v) [ ok u ↦ ok (u, t) | err e ↦ err e ]

-- `_insert_version`, with UNIQUE (template_id, version)
abbrev pub insert_version : TaskTemplateVersion → CatalogAction ⊤
insert_version v = do
  clash ← gets (λ t. exists (is_version v.template_id v.version) t.task_template_versions)
  raise_if clash integrity_error
  modify λ t. record t { task_template_versions = v ∷ t.task_template_versions }

abbrev pub new_entry : ℕ → ℕ → ℕ → TaskTemplateCatalogEntry
new_entry template_id consent_id now = record {
  template_id = template_id;
  current_version = 1;
  eligibility_status = active;
  status_changed_at = now;
  eligibility_changed_via_consent_id = some consent_id;
  current_version_changed_via_consent_id = some consent_id;
  current_version_changed_at = some now;
}

abbrev pub new_id : CatalogAction ℕ
new_id t = ok (t.next_id, record t { next_id = suc t.next_id })

unfoldable pub create_write :
    ℕ → TaskDefinition → Text → Text → ℕ → ℕ → CatalogAction TaskTemplateVersion
create_write template_id definition title instructions consent_id now = do
  existing ← gets (λ t. exists (has_template template_id) t.task_template_catalog_entries)
  raise_if existing invalid_template_version
  id ← new_id
  let version = new_version id template_id 1 definition title instructions consent_id now
  checked version
  insert_version version
  modify λ t. record t {
    task_template_catalog_entries =
        new_entry template_id consent_id now ∷ t.task_template_catalog_entries;
  }
  pure version

unfoldable pub add_write :
    ℕ → TaskDefinition → Text → Text → ℕ → ℕ → CatalogAction TaskTemplateVersion
add_write template_id definition title instructions consent_id now = do
  existing ← gets (λ t. exists (has_template template_id) t.task_template_catalog_entries)
  raise_if (not existing) template_not_found
  highest ← gets (λ t. max_version (select (is_version_of template_id) t.task_template_versions))
  id ← new_id
  let version =
      new_version id template_id (highest + 1) definition title instructions consent_id now
  checked version
  insert_version version
  pure version

-- The read of an entry, a test, the update of its row, and the read of the updated row.
unfoldable pub change_entry :
    ℕ
    → (TaskTemplateCatalogEntry → CatalogTables → Option CatalogError)
    → (TaskTemplateCatalogEntry → TaskTemplateCatalogEntry)
    → CatalogAction TaskTemplateCatalogEntry
change_entry template_id refuses f t =
    elim (find (has_template template_id) t.task_template_catalog_entries) [
      | none ↦ err template_not_found
      | some row ↦ elim (refuses row t) [
        | some e ↦ err e
        | none ↦
            let entries =
              update_where (has_template template_id) f t.task_template_catalog_entries in
            elim (find (has_template template_id) entries) [
              | none ↦ err type_error
              | some updated ↦ ok (updated, record t { task_template_catalog_entries = entries })
            ]
      ]
    ]

abbrev pub set_version : ℕ → ℕ → ℕ → TaskTemplateCatalogEntry → TaskTemplateCatalogEntry
set_version version consent_id now e = record e {
  current_version = version;
  current_version_changed_via_consent_id = some consent_id;
  current_version_changed_at = some now;
}

abbrev pub no_such_version : ℕ → ℕ → CatalogTables → Option CatalogError
no_such_version template_id version t =
    if exists (is_version template_id version) t.task_template_versions
    then none
    else some invalid_template_version

abbrev pub set_status :
    TaskTemplateEligibilityStatus → ℕ → ℕ → TaskTemplateCatalogEntry → TaskTemplateCatalogEntry
set_status target consent_id now e = record e {
  eligibility_status = target;
  status_changed_at = now;
  eligibility_changed_via_consent_id = some consent_id;
}

abbrev pub same_status : TaskTemplateEligibilityStatus → TaskTemplateEligibilityStatus → Bool
same_status s target = if is_active s then is_active target else not (is_active target)

abbrev pub no_transition :
    TaskTemplateEligibilityStatus → TaskTemplateCatalogEntry → Option CatalogError
no_transition target row =
    if same_status row.eligibility_status target then some eligibility_transition else none

-- `is_blank` is the test `not text or not text.strip()` of an id that a number stands for.
module _ (is_blank : ℕ → Bool) where
  -- `_require_consent_id`, and `_normalize_required_text` of the two texts, before a transition.
  abbrev pub with_texts :
      {A : Type 0}
      → ℕ
      → Text
      → Text
      → (Text → Text → CatalogAction A)
      → Method CatalogTables CatalogError A
  with_texts consent_id title instructions write t =
      if is_blank consent_id
      then (err invalid_template_version, t)
      else elim (normalize_required_text title_max_length title) [
        | err e ↦ (err invalid_template_version, t)
        | ok normalized_title ↦
            elim (normalize_required_text instructions_max_length instructions) [
              | err e ↦ (err invalid_template_version, t)
              | ok normalized_instructions ↦
                  write_only (write normalized_title normalized_instructions) t
            ]
      ]

  unfoldable pub create_template :
      ℕ
      → TaskDefinition
      → Text
      → Text
      → ℕ
      → ℕ
      → Method CatalogTables CatalogError TaskTemplateVersion
  create_template template_id definition title instructions consent_id now =
      with_texts consent_id title instructions
        (λ ti ins. create_write template_id definition ti ins consent_id now)

  unfoldable pub add_version :
      ℕ
      → TaskDefinition
      → Text
      → Text
      → ℕ
      → ℕ
      → Method CatalogTables CatalogError TaskTemplateVersion
  add_version template_id definition title instructions consent_id now =
      with_texts consent_id title instructions
        (λ ti ins. add_write template_id definition ti ins consent_id now)

  unfoldable pub set_current_version :
      ℕ → ℕ → ℕ → ℕ → Method CatalogTables CatalogError TaskTemplateCatalogEntry
  set_current_version template_id version consent_id now t =
      if is_blank consent_id
      then (err invalid_template_version, t)
      else write_only
          (change_entry template_id (λ _ t. no_such_version template_id version t)
            (set_version version consent_id now))
          t

  -- `_set_eligibility`
  unfoldable pub set_eligibility :
      ℕ
      → TaskTemplateEligibilityStatus
      → ℕ
      → ℕ
      → Method CatalogTables CatalogError TaskTemplateCatalogEntry
  set_eligibility template_id target consent_id now t =
      if is_blank consent_id
      then (err invalid_template_version, t)
      else write_only
          (change_entry template_id (λ row _. no_transition target row)
            (set_status target consent_id now))
          t

  unfoldable pub activate : ℕ → ℕ → ℕ → Method CatalogTables CatalogError TaskTemplateCatalogEntry
  activate template_id = set_eligibility template_id active

  unfoldable pub deactivate : ℕ → ℕ → ℕ → Method CatalogTables CatalogError TaskTemplateCatalogEntry
  deactivate template_id = set_eligibility template_id deactivated
