-- ===== src/TaskRuntime/Assigning.antt =====
-- task_runtime/repository.py: what `assign_task` makes of a template.
use ai_coach_keyholder.Prelude.{
  ℕ, suc, ◌≡◌, refl, Bool, true, false, some, List, [], ◌∷◌, Result, ok, err, sym, ap, ◌∙◌, arith,
  ◌==◌, ◌||◌, Bool-cases, Option-cases, inl, inr, ◌⊎◌,
}
use ai_coach_keyholder.Prelude.Lists.{count_where, exists}
use ai_coach_keyholder.Infrastructure.Transaction.{apply_transition}
use ai_coach_keyholder.LockState.{LockKnowledgeState, locked_reported, unlocked_reported, unknown}
use ai_coach_keyholder.TaskCatalog.Models.{TaskTemplateVersion, requires_locked}
use ai_coach_keyholder.TaskRuntime.{
  TaskAssignment, CatalogReads, evaluate_task_eligibility, TaskTables, TaskError, empty_value,
  template_not_found, not_eligible, unknown_user, already_active, is_active_of, new_assignment,
  assign_write, assign_task,
}

pub none_active :
    (user_id : ℕ) (rows : List TaskAssignment)
    → exists (is_active_of user_id) rows ≡ false
    → count_where (is_active_of user_id) rows ≡ 0
none_active user_id [] h = refl
none_active user_id (a ∷ rows) h = ground (arith, none_active user_id rows)

eligible_locked :
    (template : TaskTemplateVersion) (state : LockKnowledgeState)
    → (evaluate_task_eligibility template state).eligible ≡ true
    → template.definition.lock_requirement ≡ requires_locked
    → state ≡ locked_reported
unfolding evaluate_task_eligibility
eligible_locked template locked_reported h required = refl
eligible_locked template unlocked_reported h required = ground (arith, h, required)
eligible_locked template unknown h required = ground (arith, h, required)

pub assigned :
    {a b : TaskAssignment} {r : Result TaskError TaskAssignment} → r ≡ ok a → r ≡ ok b → a ≡ b
assigned {a = a} g h = ap (λ r. elim r [ ok b ↦ b | err e ↦ a ]) (sym g ∙ h)

module _ (is_blank : ℕ → Bool) where
  module _ (catalog : CatalogReads) (user_id template_id : ℕ) (state : LockKnowledgeState)
      (consent_id now : ℕ) (t : TaskTables) where
    abbrev pub Assigns : TaskTemplateVersion → Type 0
    Assigns template =
        (catalog.get_current_version template_id ≡ some template)
        × ((evaluate_task_eligibility template state).eligible ≡ true)
        × (exists (is_active_of user_id) t.task_assignments ≡ false)
        × (assign_task is_blank catalog user_id template_id state consent_id now t ≡ (
          ok (new_assignment t.next_id user_id template consent_id now),
          record t {
            task_assignments =
                new_assignment t.next_id user_id template consent_id now ∷ t.task_assignments;
            next_id = suc t.next_id;
          },
        ))

    abbrev pub Refuses : Type 0
    Refuses =
        (e : TaskError) × (assign_task is_blank catalog user_id template_id state consent_id now t
          ≡ (err e, t))

    assign_eligible :
        (template : TaskTemplateVersion)
        → ((is_blank user_id || is_blank template_id || is_blank consent_id) ≡ false)
        → catalog.get_current_version template_id ≡ some template
        → (evaluate_task_eligibility template state).eligible ≡ true
        → Refuses ⊎ Assigns template
    unfolding assign_task apply_transition assign_write
    assign_eligible template named current fits =
        elim (Bool-cases (exists (λ user. user == user_id) t.task_users)) [
          | inl known ↦ elim (Bool-cases (exists (is_active_of user_id) t.task_assignments)) [
            | inl clash ↦
                inl (already_active, rw (named, current, fits) (ground (arith, known, clash)))
            | inr free ↦
                inr (current, fits, free, rw (named, current, fits) (ground (arith, known, free)))
          ]
          | inr missing ↦ inl (unknown_user, rw (named, current, fits) (ground (arith, missing)))
        ]

    pub assign_task-cases : Refuses ⊎ ((template : TaskTemplateVersion) × Assigns template)
    unfolding assign_task
    assign_task-cases =
        elim (Bool-cases (is_blank user_id || is_blank template_id || is_blank consent_id)) [
          | inl blank ↦ inl (empty_value, rw blank refl)
          | inr named ↦ elim (Option-cases (catalog.get_current_version template_id)) [
            | inl missing ↦ inl (template_not_found, rw (named, missing) refl)
            | inr (template, current) ↦
                elim (Bool-cases (evaluate_task_eligibility template state).eligible) [
                  | inr unfit ↦ inl (not_eligible, rw (named, current, unfit) refl)
                  | inl fits ↦ elim (assign_eligible template named current fits) [
                    | inl refused ↦ inl refused
                    | inr done ↦ inr (template, done)
                  ]
                ]
          ]
        ]

  -- An assignment that is made is of the current version of the template. Where that version
  -- requires it, the lock state is reported as locked. The assignment is active, and its row is put
  -- before the others, which all stay.
  pub assign_task-eligible :
      (catalog : CatalogReads) (user_id template_id : ℕ) (state : LockKnowledgeState)
      (consent_id now : ℕ) (t : TaskTables) (a : TaskAssignment)
      → (assign_task is_blank catalog user_id template_id state consent_id now t).0 ≡ ok a
      → (template : TaskTemplateVersion) × (catalog.get_current_version template_id ≡ some template)
        × (template.definition.lock_requirement ≡ requires_locked → state ≡ locked_reported)
        × (a ≡ new_assignment t.next_id user_id template consent_id now)
        × ((assign_task is_blank catalog user_id template_id state consent_id now
              t).1.task_assignments
            ≡ a ∷ t.task_assignments)
  assign_task-eligible catalog user_id template_id state consent_id now t a h =
      elim (assign_task-cases catalog user_id template_id state consent_id now t) [
        | inl (e, refused) ↦ cc
        | inr (template, (current, fits, free, done)) ↦
            let same = assigned (ap (λ p. p.0) done) h in
            (
              template,
              current,
              eligible_locked template state fits,
              sym same,
              ap (λ p. p.1.task_assignments) done ∙ ap (λ b. b ∷ t.task_assignments) same,
            )
      ]
