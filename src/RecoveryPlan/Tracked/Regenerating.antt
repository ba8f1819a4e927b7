-- ===== src/RecoveryPlan/Tracked/Regenerating.antt =====
-- recovery_plan/repository.py: a new version of a plan keeps the invariant.
use ai_coach_keyholder.Prelude.{
  ℕ, suc, ◌≡◌, refl, sym, ap, ◌∙◌, ⊤, Bool, true, false, some, arith, Bool-cases, Option-cases, inl,
  inr, if◌then◌else◌,
}
use ai_coach_keyholder.Prelude.Lists.{find, update_where}
use ai_coach_keyholder.Prelude.Rows.{
  All-all, All-update_where, All-find, Distinct-update_where, found_rows,
}
use ai_coach_keyholder.Prelude.Int.{half}
use ai_coach_keyholder.Infrastructure.Transaction.Keeps.{Leaves, write_and_events_keeps}
use ai_coach_keyholder.PenaltyEngine.Models.{Hours}
use ai_coach_keyholder.RecoveryPlan.Models.{
  RecoveryPlan, RecoveryTask, PlanTables, has_plan_id, is_plan_of, is_open_status,
}
use ai_coach_keyholder.RecoveryPlan.Plans.{
  is_open_task_of, expire, with_version, regenerate_in_transaction, regenerate, emit_regenerated,
}
use ai_coach_keyholder.RecoveryPlan.Tracked.{Current, Tracked, IsTracked}
-- A plan that a key finds among rows that are below `n` is still found before a row with the id `n`.
use ai_coach_keyholder.RecoveryPlan.Tracked.Planning.{found_updated, plans_updated}

module _ (t : PlanTables) (v : IsTracked t) where
  module _ (window_id : ℕ) (row : RecoveryPlan)
      (found : find (is_plan_of window_id) t.recovery_plans ≡ some row) (capacity : Hours)
      (now : ℕ) where
    older : RecoveryTask → Bool
    older = is_open_task_of row.id row.current_version

    newer : RecoveryPlan → RecoveryPlan
    newer = with_version (suc row.current_version) capacity now

    the_row :
        (id : ℕ) (p : RecoveryPlan)
        → find (has_plan_id id) t.recovery_plans ≡ some p
        → is_plan_of window_id p ≡ true
        → p ≡ row
    the_row id p at hit =
        (All-find (λ y. is_plan_of window_id y ≡ true → y ≡ row) (has_plan_id id) t.recovery_plans p
            (found_rows (λ r. r.penalty_window_id) window_id row t.recovery_plans v.windows found)
            at).0
          hit

    moved :
        (id : ℕ) (p : RecoveryPlan)
        → find (has_plan_id id) t.recovery_plans ≡ some p
        → find (has_plan_id id) (update_where (is_plan_of window_id) newer t.recovery_plans)
          ≡ some (if is_plan_of window_id p then newer p else p)
    unfolding newer
    moved = found_updated t.recovery_plans (is_plan_of window_id) newer (λ p. refl)

    expired_task :
        (task : RecoveryTask)
        → Current t.recovery_plans task
        → Current (update_where (is_plan_of window_id) newer t.recovery_plans) (expire now task)
    expired_task task (p, at, version) = (
      (if is_plan_of window_id p then newer p else p),
      moved task.recovery_plan_id p at,
      (λ h. cc),
    )

    not_open :
        (task : RecoveryTask) (p : RecoveryPlan)
        → find (has_plan_id task.recovery_plan_id) t.recovery_plans ≡ some p
        → (is_open_status task.status ≡ true → task.plan_version ≡ p.current_version)
        → is_plan_of window_id p ≡ true
        → older task ≡ false
        → is_open_status task.status ≡ false
    unfolding older
    not_open task p at version hit e =
        let same = the_row task.recovery_plan_id p at hit in
        let id =
          (All-find (λ _. ⊤) (has_plan_id task.recovery_plan_id) t.recovery_plans p
            (All-all t.recovery_plans (λ _. tt)) at).1 in
        elim (Bool-cases (is_open_status task.status)) [
          | inl running ↦ ground (
            arith,
            version running,
            ap (λ r. r.current_version) same,
            ap (λ r. r.id) same,
            id,
            e,
            running,
          )
          | inr closed ↦ closed
        ]

    kept_task :
        (task : RecoveryTask)
        → Current t.recovery_plans task
        → older task ≡ false
        → Current (update_where (is_plan_of window_id) newer t.recovery_plans) task
    kept_task task (p, at, version) e = (
      (if is_plan_of window_id p then newer p else p),
      moved task.recovery_plan_id p at,
      (λ running. elim (Bool-cases (is_plan_of window_id p)) [
        | inl hit ↦ cc (sym running ∙ not_open task p at version hit e)
        | inr miss ↦ rw miss (version running)
      ]),
    )

    regenerated :
        Tracked
          (update_where (is_plan_of window_id) newer t.recovery_plans)
          (update_where older (expire now) t.recovery_tasks)
          t.recovery_task_completions
          t.next_id
    unfolding newer older
    regenerated =
        plans_updated t v (is_plan_of window_id) newer
          (update_where older (expire now) t.recovery_tasks) (λ p. (refl, refl))
          (All-update_where older (expire now) t.recovery_tasks (λ x h _. h) (λ x h _. h)
            v.tasks_below)
          (Distinct-update_where (λ x. x.id) older (expire now) t.recovery_tasks (λ x. refl)
            v.task_ids)
          (All-update_where older (expire now) t.recovery_tasks (λ x h _. expired_task x h)
            kept_task v.current)
          (All-update_where older (expire now) t.recovery_tasks (λ x h hit. ground (arith, h, hit))
            (λ x h _. h) v.counted)

  regenerate_in_transaction-IsTracked :
      (window_id : ℕ) (target : Hours) (now : ℕ)
      → Leaves IsTracked (regenerate_in_transaction window_id target now t)
  unfolding regenerate_in_transaction older newer
  regenerate_in_transaction-IsTracked window_id target now =
      elim (Option-cases (find (is_plan_of window_id) t.recovery_plans)) [
        | inl missing ↦ rw (missing, regenerate_in_transaction) v
        | inr (row, found) ↦
            rw (found, regenerate_in_transaction)
              (regenerated window_id row found (half target) now)
      ]

module _ (t : PlanTables) (v : IsTracked t) (window_id : ℕ) where
  pub regenerate-IsTracked :
      (target : Hours) (now : ℕ) → IsTracked (regenerate window_id target now t).1
  unfolding regenerate
  regenerate-IsTracked target now =
      write_and_events_keeps IsTracked (regenerate_in_transaction window_id target now)
        (emit_regenerated window_id now) t v
        (regenerate_in_transaction-IsTracked t v window_id target now)
        (λ r s p. elim (Option-cases r) [ inl e ↦ rw e p | inr (_, e) ↦ rw e p ])
