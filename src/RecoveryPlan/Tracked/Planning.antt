-- ===== src/RecoveryPlan/Tracked/Planning.antt =====
-- recovery_plan/repository.py: what becomes of a plan keeps the invariant.
use ai_coach_keyholder.Prelude.{
  ℕ, suc, ◌<◌, ◌≡◌, refl, sym, ap, ◌∙◌, subst, Bool, false, some, List, ◌∷◌, arith, Bool-cases,
  Option-cases, inl, inr, if◌then◌else◌,
}
use mathlib.Core.Option
use ai_coach_keyholder.Prelude.Lists.{All, exists, find, update_where}
use ai_coach_keyholder.Prelude.Rows.{
  All-map, All-update_where, All-find, Distinct, Distinct-update_where, find-update_where_any,
}
use ai_coach_keyholder.Infrastructure.Transaction.Keeps.{Leaves, write_and_events_keeps}
use ai_coach_keyholder.PenaltyEngine.Models.{Hours}
use ai_coach_keyholder.RecoveryPlan.Models.{
  RecoveryPlan, RecoveryPlanStatus, RecoveryTask, PlanTables, PlanEvent, has_plan_id, is_plan_of,
  write_event, plan_created,
}
use ai_coach_keyholder.RecoveryPlan.Plans.{
  new_plan, create_plan_in_transaction, with_status, mirror_status_in_transaction, create_plan,
  mirror_status_and_emit, emit_for,
}
use ai_coach_keyholder.PenaltyEngine.Store.{has_id}
use ai_coach_keyholder.RecoveryPlan.Tracked.{Current, Counted, Tracked, IsTracked}

-- A plan that a key finds among rows that are below `n` is still found before a row with the id `n`.
found_behind :
    (plan p : RecoveryPlan) (id : ℕ) (plans : List RecoveryPlan)
    → All (λ r. r.id < plan.id) plans
    → find (has_plan_id id) plans ≡ some p
    → find (has_plan_id id) (plan ∷ plans) ≡ some p
found_behind plan p id plans below found =
    let (less, hit) = All-find (λ r. r.id < plan.id) (has_plan_id id) plans p below found in
    ground (arith, found)

module _ (plans : List RecoveryPlan) (q : RecoveryPlan → Bool) (f : RecoveryPlan → RecoveryPlan)
    (keeps : (p : RecoveryPlan) → (f p).id ≡ p.id) where
  pub found_updated :
      (id : ℕ) (p : RecoveryPlan)
      → find (has_plan_id id) plans ≡ some p
      → find (has_plan_id id) (update_where q f plans) ≡ some (if q p then f p else p)
  found_updated id p found =
      find-update_where_any (λ r. r.id) q f id plans keeps
      ∙ ap (Option.map (λ x. if q x then f x else x)) found

module _ (t : PlanTables) (v : IsTracked t) where
  plan_added :
      (plan : RecoveryPlan)
      → plan.id ≡ t.next_id
      → exists (is_plan_of plan.penalty_window_id) t.recovery_plans ≡ false
      → Tracked
          (plan ∷ t.recovery_plans)
          t.recovery_tasks
          t.recovery_task_completions
          (suc t.next_id)
  plan_added plan new fresh = record {
    plans_below = (omega arith, All-map t.recovery_plans (λ p h. omega arith) v.plans_below);
    tasks_below = All-map t.recovery_tasks (λ x h. omega arith) v.tasks_below;
    completions_below =
        All-map t.recovery_task_completions (λ c h. omega arith) v.completions_below;
    windows = (fresh, v.windows);
    task_ids = v.task_ids;
    current =
        All-map t.recovery_tasks
          (λ task c. (
            c.0,
            found_behind plan c.0 task.recovery_plan_id t.recovery_plans
                (All-map t.recovery_plans (λ r h. rw new h) v.plans_below) c.1,
            c.2,
          ))
          v.current;
    counted = v.counted;
  }

  create_plan_in_transaction-IsTracked :
      (window_id : ℕ) (base : Hours) (now : ℕ)
      → Leaves IsTracked (create_plan_in_transaction window_id base now t)
  unfolding create_plan_in_transaction
  create_plan_in_transaction-IsTracked window_id base now =
      elim (Bool-cases (exists (is_plan_of window_id) t.recovery_plans)) [
        | inl clash ↦ rw clash tt
        | inr fresh ↦ elim (Bool-cases (exists (has_id window_id) t.penalty_windows)) [
          | inr missing ↦ rw (fresh, missing) tt
          | inl known ↦
              rw (fresh, known) (plan_added (new_plan t.next_id window_id base now) refl fresh)
        ]
      ]

  -- An update of plans that keeps ids, windows and versions.
  pub plans_updated :
      (q : RecoveryPlan → Bool) (f : RecoveryPlan → RecoveryPlan) (new_tasks : List RecoveryTask)
      → ((p : RecoveryPlan) → ((f p).id ≡ p.id) × ((f p).penalty_window_id ≡ p.penalty_window_id))
      → All (λ task. task.id < t.next_id) new_tasks
      → Distinct (λ task. task.id) new_tasks
      → All (Current (update_where q f t.recovery_plans)) new_tasks
      → All (Counted t.recovery_task_completions) new_tasks
      → Tracked (update_where q f t.recovery_plans) new_tasks t.recovery_task_completions t.next_id
  plans_updated q f new_tasks keeps below distinct cur count = record {
    plans_below =
        All-update_where q f t.recovery_plans
          (λ p h _. subst (λ i. i < t.next_id) (sym (keeps p).0) h) (λ p h _. h) v.plans_below;
    tasks_below = below;
    completions_below = v.completions_below;
    windows =
        Distinct-update_where (λ p. p.penalty_window_id) q f t.recovery_plans (λ p. (keeps p).1)
          v.windows;
    task_ids = distinct;
    current = cur;
    counted = count;
  }

  mirrored :
      (q : RecoveryPlan → Bool) (new_status : RecoveryPlanStatus) (now : ℕ)
      → Tracked
          (update_where q (with_status new_status now) t.recovery_plans)
          t.recovery_tasks
          t.recovery_task_completions
          t.next_id
  mirrored q new_status now =
      plans_updated q (with_status new_status now) t.recovery_tasks (λ p. (refl, refl))
        v.tasks_below v.task_ids
        (All-map t.recovery_tasks
          (λ task c. (
            (if q c.0 then with_status new_status now c.0 else c.0),
            found_updated t.recovery_plans q (with_status new_status now) (λ p. refl)
                task.recovery_plan_id c.0 c.1,
            (λ h. ground (arith, c.2 h)),
          ))
          v.current)
        v.counted

  mirror_status_in_transaction-IsTracked :
      (window_id : ℕ) (new_status : RecoveryPlanStatus) (now : ℕ)
      → Leaves IsTracked (mirror_status_in_transaction window_id new_status now t)
  unfolding mirror_status_in_transaction
  mirror_status_in_transaction-IsTracked window_id new_status now =
      elim (Option-cases (find (is_plan_of window_id) t.recovery_plans)) [
        | inl missing ↦ rw (missing, mirror_status_in_transaction) v
        | inr (row, found) ↦
            rw (found, mirror_status_in_transaction)
              (mirrored (is_plan_of window_id) new_status now)
      ]

module _ (t : PlanTables) (v : IsTracked t) (window_id : ℕ) where
  pub create_plan-IsTracked :
      (base : Hours) (now : ℕ) → IsTracked (create_plan window_id base now t).1
  unfolding create_plan
  create_plan-IsTracked base now =
      write_and_events_keeps IsTracked (create_plan_in_transaction window_id base now)
        (λ result. write_event now (plan_created result.id window_id)) t v
        (create_plan_in_transaction-IsTracked t v window_id base now) (λ r s p. p)

  pub mirror_status_and_emit-IsTracked :
      (new_status : RecoveryPlanStatus) (event : ℕ → ℕ → PlanEvent) (now : ℕ)
      → IsTracked (mirror_status_and_emit window_id new_status event now t).1
  unfolding mirror_status_and_emit
  mirror_status_and_emit-IsTracked new_status event now =
      write_and_events_keeps IsTracked (mirror_status_in_transaction window_id new_status now)
        (emit_for event window_id now) t v
        (mirror_status_in_transaction-IsTracked t v window_id new_status now)
        (λ r s p. elim (Option-cases r) [ inl e ↦ rw e p | inr (_, e) ↦ rw e p ])
