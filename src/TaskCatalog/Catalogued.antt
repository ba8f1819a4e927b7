-- ===== src/TaskCatalog/Catalogued.antt =====
-- The invariant of the tables of task_catalog/: the versions of a template are numbered from 1 without a
-- gap, in the order of their rows, each passed the test of its constructor, and an entry points at one.
pub mod Kept
pub mod Methods
pub mod Runs
pub mod Current
use ai_coach_keyholder.Prelude.{
  ℕ, suc, max, ◌+◌, ◌≤◌, ◌<◌, ◌≡◌, refl, sym, ap, ◌∙◌, subst, Bool, true, false, Option, none, some,
  List, [], ◌∷◌, Result, ok, err, arith, not, leb, ◌==◌, ◌&&◌, ==_iff, ==_self, Bool-cases, inl,
  inr, if◌then◌else◌,
}
use ai_coach_keyholder.Prelude.Lists.{All, count_where, exists, find, select}
use ai_coach_keyholder.Prelude.Rows.{All-map, Distinct}
use ai_coach_keyholder.TaskCatalog.Models.{
  TaskTemplateVersion, TaskTemplateCatalogEntry, CatalogTables, CatalogError, post_init,
  has_template, is_version_of, is_version,
}
use ai_coach_keyholder.TaskCatalog.Administration.{max_version}

abbrev pub count_versions : ℕ → List TaskTemplateVersion → ℕ
count_versions id vs = count_where (is_version_of id) vs

abbrev pub Numbered : List TaskTemplateVersion → Type 0
Numbered [] = Unit
Numbered (v ∷ vs) = (v.version ≡ suc (count_versions v.template_id vs)) × Numbered vs

abbrev pub Pointed : List TaskTemplateVersion → TaskTemplateCatalogEntry → Type 0
Pointed vs e = exists (is_version e.template_id e.current_version) vs ≡ true

abbrev pub Owned : List TaskTemplateCatalogEntry → TaskTemplateVersion → Type 0
Owned es v = exists (has_template v.template_id) es ≡ true

pub record Catalogued (vs : List TaskTemplateVersion) (es : List TaskTemplateCatalogEntry)
    : Type 0 where
  pub numbered : Numbered vs
  pub passed : All (λ v. post_init v ≡ ok tt) vs
  pub template_ids : Distinct (λ e. e.template_id) es
  pub pointed : All (Pointed vs) es
  pub owned : All (Owned es) vs

abbrev pub IsCatalogued : CatalogTables → Type 0
IsCatalogued t = Catalogued t.task_template_versions t.task_template_catalog_entries

pub max_version-Numbered :
    (id : ℕ) (vs : List TaskTemplateVersion)
    → Numbered vs
    → max_version (select (is_version_of id) vs) ≡ count_versions id vs
max_version-Numbered id [] h = refl
max_version-Numbered id (v ∷ vs) h = elim (Bool-cases (is_version_of id v)) [
  | inr miss ↦ rw miss (max_version-Numbered id vs h.1 ∙ omega arith)
  | inl hit ↦
      let number : v.version ≡ suc (count_versions id vs) =
        subst (λ j. v.version ≡ suc (count_versions j vs)) ((==_iff v.template_id id).0 hit) h.0 in
      rw (hit, number, max_version-Numbered id vs h.1) (omega arith)
]

-- The numbers that there are.
pub exists-Numbered :
    (id n : ℕ) (vs : List TaskTemplateVersion)
    → Numbered vs
    → exists (is_version id n) vs ≡ (leb 1 n && leb n (count_versions id vs))
exists-Numbered id n [] h = ground arith
exists-Numbered id n (v ∷ vs) h = elim (Bool-cases (is_version_of id v)) [
  | inr miss ↦ ground (arith, miss, exists-Numbered id n vs h.1)
  | inl hit ↦
      let number : v.version ≡ suc (count_versions id vs) =
        subst (λ j. v.version ≡ suc (count_versions j vs)) ((==_iff v.template_id id).0 hit) h.0 in
      ground (arith, hit, number, exists-Numbered id n vs h.1)
]

-- A template without an entry has no version.
pub no_entry_no_version :
    (id : ℕ) (es : List TaskTemplateCatalogEntry) (vs : List TaskTemplateVersion)
    → All (Owned es) vs
    → exists (has_template id) es ≡ false
    → count_versions id vs ≡ 0
no_entry_no_version id es [] a h = refl
no_entry_no_version id es (v ∷ vs) a h = elim (Bool-cases (is_version_of id v)) [
  | inr miss ↦ rw (miss, no_entry_no_version id es vs a.1 h) (omega arith)
  | inl hit ↦
      let there =
        subst (λ j. exists (has_template j) es ≡ true) ((==_iff v.template_id id).0 hit) a.0 in
      cc (sym there ∙ h)
]

-- A version with the next number is added, and its template has an entry.
pub version_added :
    (v : TaskTemplateVersion) (vs : List TaskTemplateVersion) (es : List TaskTemplateCatalogEntry)
    → v.version ≡ suc (count_versions v.template_id vs)
    → post_init v ≡ ok tt
    → Owned es v
    → Catalogued vs es
    → Catalogued (v ∷ vs) es
version_added v vs es number fine own c = record {
  numbered = (number, c.numbered);
  passed = (fine, c.passed);
  template_ids = c.template_ids;
  pointed = All-map es (λ e h. ground (arith, h)) c.pointed;
  owned = (own, c.owned);
}
