-- ===== src/TaskCatalog/Catalogued/Methods.antt =====
-- task_catalog/repository.py: each method of the administration keeps the invariant.
use ai_coach_keyholder.Prelude.{ℕ, refl, Bool, Result-cases, arith, ==_iff, Bool-cases, inl, inr}
use ai_coach_keyholder.Infrastructure.Transaction.Keeps.{Leaves, write_only_keeps}
use ai_coach_keyholder.TaskCatalog.Texts.{Text, normalize_required_text}
use ai_coach_keyholder.TaskCatalog.Models.{
  TaskTemplateEligibilityStatus, TaskDefinition, CatalogTables, title_max_length,
  instructions_max_length,
}
use ai_coach_keyholder.TaskCatalog.Administration.{
  CatalogAction, create_write, add_write, change_entry, set_version, no_such_version, set_status,
  no_transition, with_texts, create_template, add_version, set_current_version, set_eligibility,
}
use ai_coach_keyholder.TaskCatalog.Catalogued.{IsCatalogued}
use ai_coach_keyholder.TaskCatalog.Catalogued.Kept.{
  Follows, create_write-Follows, add_write-Follows, change_entry-Follows,
}

module _ (is_blank : ℕ → Bool) (t : CatalogTables) (c : IsCatalogued t) where
  unchanged : Follows t.task_template_versions t
  unchanged = (c, inl refl)

  with_texts-Follows :
      {A : Type 0} (consent : ℕ) (title instructions : Text) (write : Text → Text → CatalogAction A)
      → ((ti ins : Text) → Leaves (Follows t.task_template_versions) (write ti ins t))
      → Follows t.task_template_versions (with_texts is_blank consent title instructions write t).1
  with_texts-Follows consent title instructions write h = elim (Bool-cases (is_blank consent)) [
    | inl blank ↦ rw (blank, with_texts) unchanged
    | inr there ↦ elim (Result-cases (normalize_required_text title_max_length title)) [
      | inr (e, raised) ↦ rw (there, with_texts) (rw raised unchanged)
      | inl (ti, fine) ↦
          elim (Result-cases (normalize_required_text instructions_max_length instructions)) [
            | inr (e, raised) ↦ rw (there, with_texts) (rw fine (rw raised unchanged))
            | inl (ins, good) ↦
                rw (there, with_texts)
                  (rw fine (
                    rw good (
                      write_only_keeps (Follows t.task_template_versions) (write ti ins) t unchanged
                        (h ti ins))))
          ]
    ]
  ]

  pub create_template-Follows :
      (id : ℕ) (definition : TaskDefinition) (title instructions : Text) (consent now : ℕ)
      → Follows t.task_template_versions
          (create_template is_blank id definition title instructions consent now t).1
  unfolding create_template
  create_template-Follows id definition title instructions consent now =
      with_texts-Follows consent title instructions
        (λ ti ins. create_write id definition ti ins consent now)
        (λ ti ins. create_write-Follows t c id definition ti ins consent now)

  pub add_version-Follows :
      (id : ℕ) (definition : TaskDefinition) (title instructions : Text) (consent now : ℕ)
      → Follows t.task_template_versions
          (add_version is_blank id definition title instructions consent now t).1
  unfolding add_version
  add_version-Follows id definition title instructions consent now =
      with_texts-Follows consent title instructions
        (λ ti ins. add_write id definition ti ins consent now)
        (λ ti ins. add_write-Follows t c id definition ti ins consent now)

  pub set_current_version-Follows :
      (id version consent now : ℕ)
      → Follows t.task_template_versions (set_current_version is_blank id version consent now t).1
  unfolding set_current_version
  set_current_version-Follows id version consent now = elim (Bool-cases (is_blank consent)) [
    | inl blank ↦ rw (blank, set_current_version) unchanged
    | inr there ↦
        rw (there, set_current_version)
          (write_only_keeps (Follows t.task_template_versions)
            (change_entry id (λ _ t. no_such_version id version t)
              (set_version version consent now))
            t unchanged
            (change_entry-Follows t c id (λ _ t. no_such_version id version t)
              (set_version version consent now) (λ e. refl)
              (λ row e fine hit h. rw ((==_iff e.template_id id).0 hit) (ground (arith, fine)))))
  ]

  pub set_eligibility-Follows :
      (id : ℕ) (target : TaskTemplateEligibilityStatus) (consent now : ℕ)
      → Follows t.task_template_versions (set_eligibility is_blank id target consent now t).1
  unfolding set_eligibility
  set_eligibility-Follows id target consent now = elim (Bool-cases (is_blank consent)) [
    | inl blank ↦ rw (blank, set_eligibility) unchanged
    | inr there ↦
        rw (there, set_eligibility)
          (write_only_keeps (Follows t.task_template_versions)
            (change_entry id (λ row _. no_transition target row) (set_status target consent now)) t
            unchanged
            (change_entry-Follows t c id (λ row _. no_transition target row)
              (set_status target consent now) (λ e. refl) (λ row e fine hit h. h)))
  ]
