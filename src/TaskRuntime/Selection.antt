-- ===== src/TaskRuntime/Selection.antt =====
-- task_runtime/selection.py: the template that is selected from those that are eligible.
use ai_coach_keyholder.Prelude.{
  ℕ, ◌≤◌, ◌≡◌, refl, Bool, true, false, none, some, List, [], ◌∷◌, arith, leb, sym, ◌∙◌, subst,
  Bool-cases, inl, inr, ◌⊎◌, if◌then◌else◌,
}
use ai_coach_keyholder.Prelude.Lists.{All, insert_by, order_by, select}
use ai_coach_keyholder.Prelude.Rows.{All-map, All-all, All-select, All-of_select}
use ai_coach_keyholder.LockState.{LockKnowledgeState}
use ai_coach_keyholder.TaskCatalog.Models.{TaskTemplateVersion, TaskInstanceRole}
use ai_coach_keyholder.TaskRuntime.{
  CatalogReads, evaluate_task_eligibility, first_of, select_eligible_template,
  get_eligible_templates,
}

module _ {A : Type 0} (key : A → ℕ) where
  first_of-insert_by :
      (x : A) (ys : List A)
      → first_of (insert_by key x ys) ≡ elim (first_of ys) [
        | none ↦ some x
        | some y ↦ if leb (key x) (key y) then some x else some y
      ]
  first_of-insert_by x [] = refl
  first_of-insert_by x (y ∷ ys) = elim (Bool-cases (leb (key x) (key y))) [
    | inl e ↦ rw e refl
    | inr e ↦ rw e refl
  ]

  pub order_by-cases :
      (P : A → Type 0) (xs : List A)
      → All P xs
      → ((first_of (order_by key xs) ≡ none) × (xs ≡ []))
        ⊎ ((r : A) × (first_of (order_by key xs) ≡ some r) × P r × All (λ x. key r ≤ key x) xs)
  order_by-cases P [] a = inl (refl, refl)
  order_by-cases P (x ∷ xs) a = elim (order_by-cases P xs a.1) [
    | inl (nothing, nil) ↦ inr (
      x,
      first_of-insert_by x (order_by key xs) ∙ rw nothing refl,
      a.0,
      (omega arith, subst (λ ys. All (λ y. key x ≤ key y) ys) (sym nil) tt),
    )
    | inr (y, found, p, below) ↦ elim (Bool-cases (leb (key x) (key y))) [
      | inl less ↦ inr (
        x,
        first_of-insert_by x (order_by key xs) ∙ rw (found, less) refl,
        a.0,
        (omega arith, All-map xs (λ z h. ground (arith, less, h)) below),
      )
      | inr more ↦ inr (
        y,
        first_of-insert_by x (order_by key xs) ∙ rw (found, more) refl,
        p,
        (ground (arith, more), below),
      )
    ]
  ]

none_selected :
    {A : Type 0} (p : A → Bool) (xs : List A) → select p xs ≡ [] → All (λ x. p x ≡ false) xs
none_selected p xs nil =
    All-map xs (λ x h. elim (Bool-cases (p x)) [ inl hit ↦ h hit | inr miss ↦ miss ])
      (All-of_select (λ x. p x ≡ false) p xs (subst (All (λ x. p x ≡ false)) (sym nil) tt))

module _ (catalog : CatalogReads) (role : TaskInstanceRole) (mode : ℕ)
    (state : LockKnowledgeState) where
  abbrev fits : TaskTemplateVersion → Bool
  fits x = (evaluate_task_eligibility x state).eligible

  -- The template that is selected from the eligible ones is eligible, and no active template that is
  -- eligible has a lower id. Where none is selected, no active template is eligible.
  pub select_eligible_template-least :
      ((select_eligible_template (get_eligible_templates catalog role mode state) ≡ none)
        × All
            (λ x. (evaluate_task_eligibility x state).eligible ≡ false)
            (catalog.get_active_templates role mode))
      ⊎ ((r : TaskTemplateVersion) × (select_eligible_template
              (get_eligible_templates catalog role mode state)
            ≡ some r)
          × ((evaluate_task_eligibility r state).eligible ≡ true)
          × All
              (λ x.
                (evaluate_task_eligibility x state).eligible ≡ true → r.template_id ≤ x.template_id)
              (catalog.get_active_templates role mode))
  unfolding select_eligible_template get_eligible_templates
  select_eligible_template-least =
      let all = catalog.get_active_templates role mode in
      elim (order_by-cases (λ t. t.template_id) (λ x. fits x ≡ true) (select fits all)
        (All-select (λ x. fits x ≡ true) fits all (All-all all (λ x h. h)))) [
          | inl (nothing, nil) ↦ inl (nothing, none_selected fits all nil)
          | inr (r, found, fit, below) ↦
              inr (r, found, fit, All-of_select (λ x. r.template_id ≤ x.template_id) fits all below)
        ]
