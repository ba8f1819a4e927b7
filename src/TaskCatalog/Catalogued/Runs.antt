-- ===== src/TaskCatalog/Catalogued/Runs.antt =====
-- task_catalog/repository.py: any sequence of the administration's methods, and what the reads give.
use ai_coach_keyholder.Prelude.{
  ℕ, suc, ◌≡◌, refl, sym, ap, ◌∙◌, subst, Bool, true, false, some, List, [], ◌∷◌, arith, leb, ◌&&◌,
  Bool-cases, inl, inr, if◌then◌else◌,
}
use ai_coach_keyholder.Prelude.Lists.{exists, find}
use ai_coach_keyholder.TaskCatalog.Texts.{Text}
use ai_coach_keyholder.TaskCatalog.Models.{
  TaskTemplateEligibilityStatus, TaskDefinition, TaskTemplateVersion, CatalogTables, is_version,
}
use ai_coach_keyholder.TaskCatalog.Administration.{
  create_template, add_version, set_current_version, set_eligibility,
}
use ai_coach_keyholder.TaskCatalog.Reads.{get_template}
use ai_coach_keyholder.TaskCatalog.Catalogued.{
  count_versions, Numbered, IsCatalogued, exists-Numbered,
}
use ai_coach_keyholder.TaskCatalog.Catalogued.Kept.{Follows}
use ai_coach_keyholder.TaskCatalog.Catalogued.Methods.{
  create_template-Follows, add_version-Follows, set_current_version-Follows,
  set_eligibility-Follows,
}

module _ (is_blank : ℕ → Bool) where
  -- A call of a method of the administration, whether it returns or raises.
  pub data Step : CatalogTables → CatalogTables → Type 0 where
    creates :
        (t : CatalogTables) (id : ℕ) (definition : TaskDefinition) (title instructions : Text)
        (consent now : ℕ)
        → Step t (create_template is_blank id definition title instructions consent now t).1
    adds :
        (t : CatalogTables) (id : ℕ) (definition : TaskDefinition) (title instructions : Text)
        (consent now : ℕ)
        → Step t (add_version is_blank id definition title instructions consent now t).1
    points :
        (t : CatalogTables) (id version consent now : ℕ)
        → Step t (set_current_version is_blank id version consent now t).1
    changes :
        (t : CatalogTables) (id : ℕ) (target : TaskTemplateEligibilityStatus) (consent now : ℕ)
        → Step t (set_eligibility is_blank id target consent now t).1

  pub data Reach (s : CatalogTables) : CatalogTables → Type 0 where
    here : Reach s s
    next : {t u : CatalogTables} → Reach s t → Step t u → Reach s u

  Step-Follows :
      {t u : CatalogTables} → Step t u → IsCatalogued t → Follows t.task_template_versions u
  Step-Follows (creates t id definition title instructions consent now) c =
      create_template-Follows is_blank t c id definition title instructions consent now
  Step-Follows (adds t id definition title instructions consent now) c =
      add_version-Follows is_blank t c id definition title instructions consent now
  Step-Follows (points t id version consent now) c =
      set_current_version-Follows is_blank t c id version consent now
  Step-Follows (changes t id target consent now) c =
      set_eligibility-Follows is_blank t c id target consent now

  pub Reach-IsCatalogued : {s t : CatalogTables} → IsCatalogued s → Reach s t → IsCatalogued t
  Reach-IsCatalogued c here = c
  Reach-IsCatalogued c (next r step) = (Step-Follows step (Reach-IsCatalogued c r)).0

abbrev pub no_templates : CatalogTables
no_templates = record {
  task_template_versions = [];
  task_template_catalog_entries = [];
  next_id = 0;
}

pub no_templates-IsCatalogued : IsCatalogued no_templates
no_templates-IsCatalogued = record {
  numbered = tt;
  passed = tt;
  template_ids = tt;
  pointed = tt;
  owned = tt;
}

pub found_exists :
    (p : TaskTemplateVersion → Bool) (vs : List TaskTemplateVersion) (v : TaskTemplateVersion)
    → find p vs ≡ some v
    → exists p vs ≡ true
found_exists p [] v h = cc
found_exists p (x ∷ xs) v h = elim (Bool-cases (p x)) [
  | inl hit ↦ rw hit refl
  | inr miss ↦
      rw miss (found_exists p xs v (subst (λ b. (if b then some x else find p xs) ≡ some v) miss h))
]

-- A version that is found is found behind a row with a new number.
pub found_behind_version :
    (v : TaskTemplateVersion) (vs : List TaskTemplateVersion) (id n : ℕ) (x : TaskTemplateVersion)
    → Numbered (v ∷ vs)
    → find (is_version id n) vs ≡ some x
    → find (is_version id n) (v ∷ vs) ≡ some x
found_behind_version v vs id n x h found =
    let numbers = exists-Numbered id n vs h.1 in
    let there = found_exists (is_version id n) vs x found in
    elim (Bool-cases (is_version id n v)) [
      | inr miss ↦ rw miss found
      | inl hit ↦
          let same : v.template_id ≡ id = ground (arith, hit) in
          let number : v.version ≡ suc (count_versions id vs) =
            subst (λ j. v.version ≡ suc (count_versions j vs)) same h.0 in
          let late : (leb 1 n && leb n (count_versions id vs)) ≡ false =
            ground (arith, hit, number) in
          cc (sym there ∙ numbers ∙ late)
    ]

Step-get_template :
    (is_blank : ℕ → Bool) {t u : CatalogTables} (id n : ℕ) (v : TaskTemplateVersion)
    → Step is_blank t u
    → IsCatalogued t
    → get_template id n t ≡ some v
    → get_template id n u ≡ some v
unfolding get_template
Step-get_template is_blank {t} {u} id n v step c found =
    let (after, rows) = Step-Follows is_blank step c in
    elim rows [
      | inl same ↦ ap (find (is_version id n)) same ∙ found
      | inr (x, more) ↦
          ap (find (is_version id n)) more
          ∙ found_behind_version x t.task_template_versions id n v
              (subst Numbered more after.numbered) found
    ]

-- In every state that the administration reaches from an empty catalog, a version of a template that is
-- there is read the same behind any further calls, whatever they create, add, point at, activate or
-- deactivate.
pub get_template-stays :
    (is_blank : ℕ → Bool) {t u : CatalogTables} (id n : ℕ) (v : TaskTemplateVersion)
    → Reach is_blank no_templates t
    → Reach is_blank t u
    → get_template id n t ≡ some v
    → get_template id n u ≡ some v
get_template-stays is_blank id n v r here found = found
get_template-stays is_blank id n v r (next more step) found =
    Step-get_template is_blank id n v step
      (Reach-IsCatalogued is_blank (Reach-IsCatalogued is_blank no_templates-IsCatalogued r) more)
      (get_template-stays is_blank id n v r more found)
