-- ===== src/TaskCatalog/Catalogued/Current.antt =====
-- task_catalog/repository.py: the versions of a template that the reads give, the current one among them.
use ai_coach_keyholder.Prelude.{
  ℕ, ◌≡◌, refl, sym, ap, ◌∙◌, subst, Bool, true, false, Option, none, some, List, [], ◌∷◌, arith,
  leb, ◌==◌, ◌&&◌, ==_iff, ==_self, Bool-cases, inl, inr,
}
use ai_coach_keyholder.Prelude.Lists.{All, exists, find, select}
use ai_coach_keyholder.Prelude.Rows.{All-find, All-map, All-both, All-select, Distinct}
use ai_coach_keyholder.TaskCatalog.Models.{
  TaskInstanceRole, TaskTemplateVersion, TaskTemplateCatalogEntry, CatalogTables, has_template,
  is_version_of, is_version, is_active,
}
use ai_coach_keyholder.TaskCatalog.Reads.{
  get_template, points_at, get_current_version, is_active_current, is_for, get_active_templates,
}
use ai_coach_keyholder.TaskCatalog.Catalogued.{
  count_versions, Numbered, Pointed, Owned, IsCatalogued, exists-Numbered,
}
use ai_coach_keyholder.TaskCatalog.Catalogued.Runs.{
  Reach, no_templates, no_templates-IsCatalogued, Reach-IsCatalogued, found_behind_version,
}

abbrev pub is_found : Option TaskTemplateVersion → Bool
is_found none = false
is_found (some v) = true

found-exists :
    (p : TaskTemplateVersion → Bool) (vs : List TaskTemplateVersion)
    → is_found (find p vs) ≡ exists p vs
found-exists p [] = refl
found-exists p (v ∷ vs) = elim (Bool-cases (p v)) [
  | inl hit ↦ rw hit refl
  | inr miss ↦ rw miss (found-exists p vs)
]

find_same :
    (p q : TaskTemplateVersion → Bool) (vs : List TaskTemplateVersion)
    → ((v : TaskTemplateVersion) → p v ≡ q v)
    → find p vs ≡ find q vs
find_same p q [] h = refl
find_same p q (v ∷ vs) h = rw (h v, find_same p q vs h) refl

-- A row is found by its own number.
found_own :
    (vs : List TaskTemplateVersion)
    → Numbered vs
    → All (λ v. find (is_version v.template_id v.version) vs ≡ some v) vs
found_own [] h = tt
found_own (v ∷ vs) h = (
  rw (==_self v.template_id, ==_self v.version) refl,
  All-map vs (λ x found. found_behind_version v vs x.template_id x.version x h found)
      (found_own vs h.1),
)

not_pointed :
    (id : ℕ) (v : TaskTemplateVersion) (es : List TaskTemplateCatalogEntry)
    → exists (has_template id) es ≡ false
    → v.template_id ≡ id
    → exists (points_at v) es ≡ false
not_pointed id v [] h same = refl
not_pointed id v (e ∷ es) h same = ground (arith, same, h, not_pointed id v es)

-- Where a template has an entry, the versions that an entry points at are those with its number.
pointed_by :
    (id : ℕ) (v : TaskTemplateVersion) (e : TaskTemplateCatalogEntry)
    (es : List TaskTemplateCatalogEntry)
    → Distinct (λ x. x.template_id) es
    → find (has_template id) es ≡ some e
    → v.template_id ≡ id
    → exists (points_at v) es ≡ (e.current_version == v.version)
pointed_by id v e [] d found same = cc
pointed_by id v e (x ∷ xs) d found same = elim (Bool-cases (has_template id x)) [
  | inr miss ↦
      ground (arith, miss, same, pointed_by id v e xs d.1 (ground (arith, found, miss)) same)
  | inl hit ↦
      let entry : x ≡ e = ground (arith, found, hit) in
      let alone =
        not_pointed x.template_id v xs d.0 (same ∙ sym ((==_iff x.template_id id).0 hit)) in
      rw (alone, sym entry, same, hit) (ground arith)
]

points_only :
    (v : TaskTemplateVersion) (es : List TaskTemplateCatalogEntry)
    → exists (λ e. points_at v e && is_active e.eligibility_status) es ≡ true
    → exists (points_at v) es ≡ true
points_only v [] h = cc
points_only v (e ∷ es) h = elim (Bool-cases (points_at v e)) [
  | inl hit ↦ rw hit refl
  | inr miss ↦ rw miss (points_only v es (ground (arith, h, miss)))
]

entry_of :
    (id : ℕ) (es : List TaskTemplateCatalogEntry)
    → exists (has_template id) es ≡ true
    → (e : TaskTemplateCatalogEntry) × (find (has_template id) es ≡ some e)
entry_of id [] h = cc
entry_of id (e ∷ es) h = elim (Bool-cases (has_template id e)) [
  | inl hit ↦ (e, rw hit refl)
  | inr miss ↦ rw miss (entry_of id es (ground (arith, h, miss)))
]

module _ (t : CatalogTables) (c : IsCatalogued t) where
  get_current_version-entry :
      (id : ℕ) (e : TaskTemplateCatalogEntry)
      → find (has_template id) t.task_template_catalog_entries ≡ some e
      → get_current_version id t ≡ get_template id e.current_version t
  unfolding get_current_version get_template
  get_current_version-entry id e found =
      find_same (λ v. is_version_of id v && exists (points_at v) t.task_template_catalog_entries)
        (is_version id e.current_version) t.task_template_versions
        (λ v. elim (Bool-cases (is_version_of id v)) [
          | inr miss ↦ rw miss refl
          | inl hit ↦
              rw
                (
                  hit,
                  pointed_by id v e t.task_template_catalog_entries c.template_ids found
                      ((==_iff v.template_id id).0 hit),
                )
                (ground arith)
        ])

  current_found :
      (id : ℕ) (e : TaskTemplateCatalogEntry)
      → find (has_template id) t.task_template_catalog_entries ≡ some e
      → is_found (get_template id e.current_version t) ≡ true
  unfolding get_template
  current_found id e found =
      let (there, hit) =
        All-find (Pointed t.task_template_versions) (has_template id)
          t.task_template_catalog_entries e c.pointed found in
      found-exists (is_version id e.current_version) t.task_template_versions
      ∙ subst (λ j. exists (is_version j e.current_version) t.task_template_versions ≡ true)
          ((==_iff e.template_id id).0 hit) there

  active_is_current :
      (v : TaskTemplateVersion)
      → find (is_version v.template_id v.version) t.task_template_versions ≡ some v
      → Owned t.task_template_catalog_entries v
      → is_active_current t v ≡ true
      → get_current_version v.template_id t ≡ some v
  unfolding get_template
  active_is_current v own has active_now =
      let (e, found) = entry_of v.template_id t.task_template_catalog_entries has in
      let at : (e.current_version == v.version) ≡ true =
        sym (pointed_by v.template_id v e t.task_template_catalog_entries c.template_ids found refl)
        ∙ points_only v t.task_template_catalog_entries active_now in
      get_current_version-entry v.template_id e found
      ∙ ap (λ n. find (is_version v.template_id n) t.task_template_versions)
          ((==_iff e.current_version v.version).0 at)
      ∙ own

  -- What get_active_templates gives is the current version of its template, and for the role and mode.
  pub get_active_templates-current :
      (role : TaskInstanceRole) (mode : ℕ)
      → All
          (λ v. (get_current_version v.template_id t ≡ some v) × (is_for role mode v ≡ true))
          (get_active_templates role mode t)
  unfolding get_active_templates
  get_active_templates-current role mode =
      let P : TaskTemplateVersion → Type 0 = λ v. get_current_version v.template_id t ≡ some v in
      let Q : TaskTemplateVersion → Type 0 = λ v. P v × (is_for role mode v ≡ true) in
      let vs = t.task_template_versions in
      All-select Q (is_for role mode) (select (is_active_current t) vs) (
        All-map (select (is_active_current t) vs) (λ v h fits. (h, fits))
          (All-select P (is_active_current t) vs (
            All-both vs (λ v own has active_now. active_is_current v own has active_now)
              (found_own vs c.numbered) c.owned)))

-- In every state that the administration reaches from an empty catalog: the versions of a template
-- that are there are those from 1 to their count; and where the template has an entry, the version
-- that it points at is there and is what get_current_version gives.
pub versions_numbered :
    (is_blank : ℕ → Bool) {t : CatalogTables} (id : ℕ)
    → Reach is_blank no_templates t
    → ((n : ℕ)
        → is_found (get_template id n t)
          ≡ (leb 1 n && leb n (count_versions id t.task_template_versions)))
      × ((e : TaskTemplateCatalogEntry)
          → find (has_template id) t.task_template_catalog_entries ≡ some e
          → (is_found (get_template id e.current_version t) ≡ true)
            × (get_current_version id t ≡ get_template id e.current_version t))
unfolding get_template
versions_numbered is_blank {t} id r =
    let c = Reach-IsCatalogued is_blank no_templates-IsCatalogued r in
    (
      (λ n.
          found-exists (is_version id n) t.task_template_versions
          ∙ exists-Numbered id n t.task_template_versions c.numbered),
      (λ e found. (current_found t c id e found, get_current_version-entry t c id e found)),
    )
