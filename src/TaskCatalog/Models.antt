-- ===== src/TaskCatalog/Models.antt =====
-- task_catalog/models.py, and the tables that task_catalog/repository.py writes (database/migrations/014
-- to 021). A table is the list of its rows, the newest first; a JSON column is the value it stands for.
use ai_coach_keyholder.Prelude.{
  ℕ, ⊤, Bool, true, false, Option, none, some, List, [], ◌∷◌, Result, ok, err, ◌==◌, ◌&&◌, ◌||◌,
  ltb, if◌then◌else◌,
}
use ai_coach_keyholder.Prelude.Lists.{exists, length}
use ai_coach_keyholder.TaskCatalog.Texts.{Text, strip, is_empty}

pub data TaskInstanceRole : Type 0 where
  recovery primary journaling integrity optional_challenge : TaskInstanceRole

pub data TaskTemplateEligibilityStatus : Type 0 where
  active deactivated : TaskTemplateEligibilityStatus

pub data LockRequirement : Type 0 where
  no_requirement requires_locked : LockRequirement

abbrev pub title_max_length : ℕ
title_max_length = 200

abbrev pub instructions_max_length : ℕ
instructions_max_length = 2000

-- What a caller writes of a version, but for its texts.
pub record TaskDefinition : Type 0 where
  pub category : ℕ
  pub difficulty : ℕ
  pub effort : ℕ
  pub duration_minutes : ℕ
  pub required_equipment : List ℕ
  pub required_privacy : ℕ
  pub required_context : ℕ
  pub safety_classification : ℕ
  pub eligible_instance_roles : List TaskInstanceRole
  pub eligible_operating_modes : List ℕ
  pub completion_requirements : ℕ
  pub verification_requirements : ℕ
  pub reflection_requirements : Option ℕ
  pub lock_requirement : LockRequirement

pub record TaskTemplateVersion : Type 0 where
  pub id : ℕ
  pub template_id : ℕ
  pub version : ℕ
  pub definition : TaskDefinition
  pub created_at : ℕ
  pub created_via_consent_id : ℕ
  pub title : Option Text
  pub instructions : Option Text

pub record TaskTemplateCatalogEntry : Type 0 where
  pub template_id : ℕ
  pub current_version : ℕ
  pub eligibility_status : TaskTemplateEligibilityStatus
  pub status_changed_at : ℕ
  pub eligibility_changed_via_consent_id : Option ℕ
  pub current_version_changed_via_consent_id : Option ℕ
  pub current_version_changed_at : Option ℕ

-- A field of a row that is not there is a TypeError.
pub data CatalogError : Type 0 where
  template_not_found invalid_template_version eligibility_transition value_error integrity_error
        type_error :
      CatalogError

pub record CatalogTables : Type 0 where
  pub task_template_versions : List TaskTemplateVersion
  pub task_template_catalog_entries : List TaskTemplateCatalogEntry
  pub next_id : ℕ

abbrev pub role_index : TaskInstanceRole → ℕ
role_index recovery = 0
role_index primary = 1
role_index journaling = 2
role_index integrity = 3
role_index optional_challenge = 4

module _ {A : Type 0} (key : A → ℕ) where
  -- `x in xs`
  abbrev pub contains : A → List A → Bool
  contains x xs = exists (λ y. key y == key x) xs

  -- `len(set(xs)) != len(xs)`
  abbrev pub has_duplicates : List A → Bool
  has_duplicates [] = false
  has_duplicates (x ∷ xs) = contains x xs || has_duplicates xs

abbrev pub is_empty_list : {A : Type 0} → List A → Bool
is_empty_list [] = true
is_empty_list (x ∷ xs) = false

-- A text that may be missing, blank or too long.
abbrev bad_text : ℕ → Option Text → Bool
bad_text max_length none = false
bad_text max_length (some text) = is_empty (strip text) || ltb max_length (length text)

-- `__post_init__`, whose tests all raise a ValueError.
unfoldable pub post_init : TaskTemplateVersion → Result CatalogError ⊤
post_init v =
    let roles = v.definition.eligible_instance_roles in
    let modes = v.definition.eligible_operating_modes in
    if is_empty_list roles
      || has_duplicates role_index roles
      || is_empty_list modes
      || has_duplicates (λ m. m) modes
      || bad_text title_max_length v.title
      || bad_text instructions_max_length v.instructions
    then err value_error
    else ok tt

abbrev pub has_template : ℕ → TaskTemplateCatalogEntry → Bool
has_template template_id e = e.template_id == template_id

abbrev pub is_version_of : ℕ → TaskTemplateVersion → Bool
is_version_of template_id v = v.template_id == template_id

-- template_id = ? AND version = ?
abbrev pub is_version : ℕ → ℕ → TaskTemplateVersion → Bool
is_version template_id version v = v.template_id == template_id && v.version == version

abbrev pub is_active : TaskTemplateEligibilityStatus → Bool
is_active active = true
is_active deactivated = false
