-- ===== src/TaskCatalog/Catalogued/Kept.antt =====
-- task_catalog/repository.py: what the methods of the administration write keeps the invariant.
use ai_coach_keyholder.Prelude.{
  ℕ, suc, ◌+◌, ◌≡◌, refl, sym, ap, ◌∙◌, ◌⊎◌, true, false, Option, none, List, ◌∷◌, Result-cases, ok,
  arith, ==_self, Bool-cases, Option-cases, inl, inr,
}
use ai_coach_keyholder.Prelude.Lists.{exists, find, select, update_where}
use ai_coach_keyholder.Prelude.Rows.{
  All-map, All-update_where, exists-update_where, Distinct-update_where,
}
use ai_coach_keyholder.Infrastructure.Transaction.Keeps.{Leaves}
use ai_coach_keyholder.TaskCatalog.Texts.{Text}
use ai_coach_keyholder.TaskCatalog.Models.{
  TaskDefinition, TaskTemplateVersion, TaskTemplateCatalogEntry, CatalogTables, CatalogError,
  post_init, has_template, is_version_of, is_version,
}
use ai_coach_keyholder.TaskCatalog.Administration.{
  max_version, new_version, new_entry, create_write, add_write, change_entry,
}
use ai_coach_keyholder.TaskCatalog.Catalogued.{
  Pointed, Catalogued, IsCatalogued, max_version-Numbered, no_entry_no_version, version_added,
}

-- The invariant, where no row of a version was changed, and one was added at most.
abbrev pub Follows : List TaskTemplateVersion → CatalogTables → Type 0
Follows vs u =
    IsCatalogued u
    × ((u.task_template_versions ≡ vs)
        ⊎ ((v : TaskTemplateVersion) × (u.task_template_versions ≡ v ∷ vs)))

module _ (t : CatalogTables) (c : IsCatalogued t) where
  -- A template's first version, with its entry.
  first_added :
      (v : TaskTemplateVersion) (e : TaskTemplateCatalogEntry)
      → exists (has_template v.template_id) t.task_template_catalog_entries ≡ false
      → post_init v ≡ ok tt
      → v.version ≡ 1
      → e.template_id ≡ v.template_id
      → e.current_version ≡ 1
      → Catalogued (v ∷ t.task_template_versions) (e ∷ t.task_template_catalog_entries)
  first_added v e free fine first same points = record {
    numbered = (
      first
          ∙ ap suc (
              sym (
                no_entry_no_version v.template_id t.task_template_catalog_entries
                  t.task_template_versions c.owned free)),
      c.numbered,
    );
    passed = (fine, c.passed);
    template_ids = (rw same free, c.template_ids);
    pointed = (
      rw (same, points, first, ==_self v.template_id) refl,
      All-map t.task_template_catalog_entries (λ x h. ground (arith, h)) c.pointed,
    );
    owned = (
      rw (same, ==_self v.template_id) refl,
      All-map t.task_template_versions (λ x h. ground (arith, h)) c.owned,
    );
  }

  pub create_write-Follows :
      (id : ℕ) (definition : TaskDefinition) (title instructions : Text) (consent now : ℕ)
      → Leaves
          (Follows t.task_template_versions)
          (create_write id definition title instructions consent now t)
  unfolding create_write post_init
  create_write-Follows id definition title instructions consent now =
      let v = new_version t.next_id id 1 definition title instructions consent now in
      elim (Bool-cases (exists (has_template id) t.task_template_catalog_entries)) [
        | inl there ↦ rw (there, create_write) tt
        | inr free ↦ elim (Result-cases (post_init v)) [
          | inr (e, raised) ↦ rw (free, create_write) (rw (raised, Leaves) tt)
          | inl (u, fine) ↦ elim (Bool-cases (exists (is_version id 1) t.task_template_versions)) [
            | inl clash ↦ rw (free, create_write) (rw (fine, Leaves) (rw (clash, Leaves) tt))
            | inr new ↦
                rw (free, create_write)
                  (rw (fine, Leaves)
                    (rw (new, Leaves)
                      (
                        first_added v (new_entry id consent now) free fine refl refl refl,
                        inr (v, refl),
                      )))
          ]
        ]
      ]

  pub add_write-Follows :
      (id : ℕ) (definition : TaskDefinition) (title instructions : Text) (consent now : ℕ)
      → Leaves
          (Follows t.task_template_versions)
          (add_write id definition title instructions consent now t)
  unfolding add_write post_init
  add_write-Follows id definition title instructions consent now =
      let number = max_version (select (is_version_of id) t.task_template_versions) + 1 in
      let v = new_version t.next_id id number definition title instructions consent now in
      elim (Bool-cases (exists (has_template id) t.task_template_catalog_entries)) [
        | inr missing ↦ rw (missing, add_write) tt
        | inl there ↦ elim (Result-cases (post_init v)) [
          | inr (e, raised) ↦ rw (there, add_write) (rw (raised, Leaves) tt)
          | inl (u, fine) ↦
              elim (Bool-cases (exists (is_version id number) t.task_template_versions)) [
                | inl clash ↦ rw (there, add_write) (rw (fine, Leaves) (rw (clash, Leaves) tt))
                | inr new ↦
                    rw (there, add_write)
                      (rw (fine, Leaves)
                        (rw (new, Leaves)
                          (
                            version_added v t.task_template_versions t.task_template_catalog_entries
                                (rw (max_version-Numbered id t.task_template_versions c.numbered)
                                  (omega arith))
                                fine there c,
                            inr (v, refl),
                          )))
              ]
        ]
      ]

  pub change_entry-Follows :
      (id : ℕ) (refuses : TaskTemplateCatalogEntry → CatalogTables → Option CatalogError)
      (f : TaskTemplateCatalogEntry → TaskTemplateCatalogEntry)
      → ((e : TaskTemplateCatalogEntry) → (f e).template_id ≡ e.template_id)
      → ((row e : TaskTemplateCatalogEntry)
          → refuses row t ≡ none
          → has_template id e ≡ true
          → Pointed t.task_template_versions e
          → Pointed t.task_template_versions (f e))
      → Leaves (Follows t.task_template_versions) (change_entry id refuses f t)
  unfolding change_entry
  change_entry-Follows id refuses f keeps points =
      let es = update_where (has_template id) f t.task_template_catalog_entries in
      elim (Option-cases (find (has_template id) t.task_template_catalog_entries)) [
        | inl missing ↦ rw (missing, change_entry) tt
        | inr (row, found) ↦ elim (Option-cases (refuses row t)) [
          | inr (e, refused) ↦ rw (found, change_entry) (rw (refused, Leaves) tt)
          | inl fine ↦ elim (Option-cases (find (has_template id) es)) [
            | inl missing ↦ rw (found, change_entry) (rw (fine, Leaves) (rw (missing, Leaves) tt))
            | inr (updated, again) ↦
                rw (found, change_entry)
                  (rw (fine, Leaves)
                    (rw (again, Leaves)
                      (
                        record {
                          numbered = c.numbered;
                          passed = c.passed;
                          template_ids =
                              Distinct-update_where (λ e. e.template_id) (has_template id) f
                                t.task_template_catalog_entries keeps c.template_ids;
                          pointed =
                              All-update_where (has_template id) f t.task_template_catalog_entries
                                (λ e h hit. points row e fine hit h) (λ e h _. h) c.pointed;
                          owned =
                              All-map t.task_template_versions
                                (λ v h.
                                  exists-update_where (λ e. e.template_id) (has_template id) f
                                    v.template_id t.task_template_catalog_entries keeps
                                  ∙ h)
                                c.owned;
                        },
                        inl refl,
                      )))
          ]
        ]
      ]
