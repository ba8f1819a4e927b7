-- ===== src/TaskCatalog/Reads.antt =====
-- task_catalog/repository.py: `TaskCatalog`, which only reads.
use ai_coach_keyholder.Prelude.{ℕ, Bool, Option, List, ◌==◌, ◌&&◌}
use ai_coach_keyholder.Prelude.Lists.{exists, find, select}
use ai_coach_keyholder.TaskCatalog.Models.{
  TaskInstanceRole, TaskTemplateVersion, TaskTemplateCatalogEntry, CatalogTables, role_index,
  contains, is_version_of, is_version, is_active,
}

unfoldable pub get_template : ℕ → ℕ → CatalogTables → Option TaskTemplateVersion
get_template template_id version t = find (is_version template_id version) t.task_template_versions

-- ON e.template_id = v.template_id AND e.current_version = v.version
abbrev pub points_at : TaskTemplateVersion → TaskTemplateCatalogEntry → Bool
points_at v e = e.template_id == v.template_id && e.current_version == v.version

unfoldable pub get_current_version : ℕ → CatalogTables → Option TaskTemplateVersion
get_current_version template_id t =
    find (λ v. is_version_of template_id v && exists (points_at v) t.task_template_catalog_entries)
      t.task_template_versions

-- The join, WHERE e.eligibility_status = 'active'
abbrev pub is_active_current : CatalogTables → TaskTemplateVersion → Bool
is_active_current t v =
    exists (λ e. points_at v e && is_active e.eligibility_status) t.task_template_catalog_entries

abbrev pub is_for : TaskInstanceRole → ℕ → TaskTemplateVersion → Bool
is_for role mode v =
    contains role_index role v.definition.eligible_instance_roles
    && contains (λ m. m) mode v.definition.eligible_operating_modes

unfoldable pub get_active_templates :
    TaskInstanceRole → ℕ → CatalogTables → List TaskTemplateVersion
get_active_templates role mode t =
    select (is_for role mode) (select (is_active_current t) t.task_template_versions)
