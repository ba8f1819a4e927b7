-- ===== src/TaskRuntime/FromCatalog.antt =====
-- task_runtime/ over task_catalog/repository.py: the selection of a template and its assignment.
use ai_coach_keyholder.Prelude.{
  ℕ, suc, ◌≡◌, refl, sym, ap, ◌∙◌, subst, Bool, true, false, Option, some, ◌∷◌, ok, ◌==◌, ◌||◌, inl,
  inr,
}
use ai_coach_keyholder.Prelude.Lists.{All, exists, select}
use ai_coach_keyholder.Prelude.Rows.{All-map, All-select}
use ai_coach_keyholder.Infrastructure.Transaction.Returns.{write_only_ok}
use ai_coach_keyholder.LockState.{LockKnowledgeState}
use ai_coach_keyholder.TaskCatalog.Models.{TaskInstanceRole, TaskTemplateVersion, CatalogTables}
use ai_coach_keyholder.TaskCatalog.Reads.{get_current_version, is_for, get_active_templates}
use ai_coach_keyholder.TaskCatalog.Catalogued.Runs.{
  Reach, no_templates, no_templates-IsCatalogued, Reach-IsCatalogued,
}
use ai_coach_keyholder.TaskCatalog.Catalogued.Current.{get_active_templates-current}
use ai_coach_keyholder.TaskRuntime.{
  CatalogReads, evaluate_task_eligibility, select_eligible_template, TaskTables, is_active_of,
  new_assignment, assign_write, get_eligible_templates, assign_task,
}
use ai_coach_keyholder.TaskRuntime.Selection.{order_by-cases}

-- The reads of the catalog, by the catalog's own tables.
abbrev pub catalog_reads : CatalogTables → CatalogReads
catalog_reads t = record {
  get_current_version = λ template_id. get_current_version template_id t;
  get_active_templates = λ role mode. get_active_templates role mode t;
}

same_row : {A : Type 0} {o : Option A} (x y : A) → o ≡ some x → o ≡ some y → x ≡ y
same_row x y a b = cc (sym a ∙ b)

-- What holds of every template that the catalog gives holds of the one that is selected, which is
-- eligible.
selected-All :
    (P : TaskTemplateVersion → Type 0) (catalog : CatalogReads) (role : TaskInstanceRole) (mode : ℕ)
    (state : LockKnowledgeState) (r : TaskTemplateVersion)
    → All P (catalog.get_active_templates role mode)
    → select_eligible_template (get_eligible_templates catalog role mode state) ≡ some r
    → P r × ((evaluate_task_eligibility r state).eligible ≡ true)
unfolding select_eligible_template get_eligible_templates
selected-All P catalog role mode state r a found =
    let fits : TaskTemplateVersion → Bool = λ x. (evaluate_task_eligibility x state).eligible in
    let Q : TaskTemplateVersion → Type 0 = λ x. P x × (fits x ≡ true) in
    let all = catalog.get_active_templates role mode in
    elim (order_by-cases (λ t. t.template_id) Q (select fits all)
      (All-select Q fits all (All-map all (λ x p fit. (p, fit)) a))) [
        | inl (nothing, nil) ↦ cc (sym nothing ∙ found)
        | inr (x, first, q, least) ↦ subst Q (same_row x r first found) q
      ]

assigned :
    (template : TaskTemplateVersion) (user_id consent_id now : ℕ) (s : TaskTables)
    → exists (λ user. user == user_id) s.task_users ≡ true
    → exists (is_active_of user_id) s.task_assignments ≡ false
    → assign_write user_id template consent_id now s
      ≡ ok (
        new_assignment s.next_id user_id template consent_id now,
        record s {
          task_assignments =
              new_assignment s.next_id user_id template consent_id now ∷ s.task_assignments;
          next_id = suc s.next_id;
        },
      )
unfolding assign_write
assigned template user_id consent_id now s there free = rw (there, assign_write) (rw free refl)

-- In every state that the administration of the catalog reaches: the template that is selected for a
-- role, a mode and a lock state is for them, and its assignment to a user who is there and has no
-- active assignment is made, of that very version, where none of the three ids is blank.
pub select_eligible_template-assign_task :
    (is_blank : ℕ → Bool) {t : CatalogTables} (role : TaskInstanceRole) (mode : ℕ)
    (state : LockKnowledgeState) (r : TaskTemplateVersion) (user_id consent_id now : ℕ)
    (s : TaskTables)
    → Reach is_blank no_templates t
    → select_eligible_template (get_eligible_templates (catalog_reads t) role mode state) ≡ some r
    → (is_blank user_id || is_blank r.template_id || is_blank consent_id) ≡ false
    → exists (λ user. user == user_id) s.task_users ≡ true
    → exists (is_active_of user_id) s.task_assignments ≡ false
    → (is_for role mode r ≡ true)
      × ((assign_task is_blank (catalog_reads t) user_id r.template_id state consent_id now s).0
          ≡ ok (new_assignment s.next_id user_id r consent_id now))
unfolding assign_task
select_eligible_template-assign_task is_blank {t} role mode state r user_id consent_id now s reach
      found ids there free =
    let c = Reach-IsCatalogued is_blank no_templates-IsCatalogued reach in
    let ((current, fits), eligible) =
      selected-All
        (λ v. (get_current_version v.template_id t ≡ some v) × (is_for role mode v ≡ true))
        (catalog_reads t) role mode state r (get_active_templates-current t c role mode) found in
    (
      fits,
      rw (ids, assign_task)
          (rw current (
            rw eligible (
              ap (λ p. p.0)
                (write_only_ok (assign_write user_id r consent_id now)
                  (assigned r user_id consent_id now s there free))))),
    )
